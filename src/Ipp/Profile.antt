-- ===== src/Ipp/Profile.antt =====
-- What a printer's answer makes of its profile: `ipp_codec_finalize_profile` and
-- `ipp_codec_apply_printer_attributes` of main/ipp_codec.c. The C library's `strtoul` and `%u` are
-- written out for a `long` of 32 bits.
pub mod Update
pub mod Fits
pub mod Tests
use Prim.Native.Nat.{bit_or}
use espresso.Prelude.{
  ℕ, zero, suc, ◌+◌, ◌-◌, ◌*◌, ◌/◌, ◌%◌, ◌^◌, min, Bool, true, false, not, ◌&&◌, ◌||◌, List, [],
  ◌∷◌, ◌++◌, length, take, drop, ltb, leb, ◌==◌, if◌then◌else◌, Bytes, codes, to_lower, is_digit,
}
use espresso.Ipp.Csv.{skip_space, trim_end, before_comma, spans, copy_value, value_contains}
use espresso.Ipp.Target.{PrinterTarget, media_name_max, ipp_versions_max}
use espresso.Ipp.Walk.{is_empty}

unfoldable pub any_contains : List Bytes → Bytes → Bool
any_contains [] value = false
any_contains (needle ∷ needles) value = value_contains needle value || any_contains needles value

abbrev pub ulong_max : ℕ
ulong_max = 4294967295

-- The digits in front, as a number that is not limited, and what follows them.
unfoldable pub take_digits : ℕ → Bytes → ℕ × Bytes
take_digits n [] = (n, [])
take_digits n (c ∷ cs) = if is_digit c then take_digits (n * 10 + (c - b'0')) cs else (n, c ∷ cs)

unfoldable pub starts_with_digit : Bytes → Bool
starts_with_digit [] = false
starts_with_digit (c ∷ cs) = is_digit c

-- The sign and the digits behind it.
unfoldable pub split_sign : Bytes → Bool × Bytes
split_sign [] = (false, [])
split_sign (c ∷ cs) =
    if c == b'-' then (true, cs) else if c == b'+' then (false, cs) else (false, c ∷ cs)

unfoldable pub limited : Bool → ℕ → ℕ
limited negative n =
    if ltb ulong_max n then ulong_max else if negative then (4294967296 - n) % 4294967296 else n

-- `strtoul(s, &next, 10)`, and `next`.
unfoldable pub strtoul : Bytes → ℕ × Bytes
strtoul s =
    let (negative, digits) = split_sign (skip_space s) in
    let (n, rest) = take_digits 0 digits in
    if starts_with_digit digits then (limited negative n, rest) else (0, s)

-- `%u`
unfoldable pub decimal_digits : ℕ → ℕ → Bytes → Bytes
decimal_digits zero n acc = acc
decimal_digits (suc fuel) n acc =
    let more = decimal_digits fuel (n / 10) ((b'0' + n % 10) ∷ acc) in
    if n / 10 == 0 then (b'0' + n % 10) ∷ acc else more

-- A number of 32 bits has ten digits at most.
abbrev pub decimal : ℕ → Bytes
decimal n = decimal_digits 10 n []

-- `low-high` or `low`: the second number, and what follows it.
unfoldable pub upper_resolution : ℕ → Bytes → ℕ × Bytes
upper_resolution low [] = (low, [])
upper_resolution low (c ∷ rest) = if c == b'-' then strtoul rest else (low, c ∷ rest)

unfoldable pub is_dpi : ℕ → Bool
is_dpi n = ltb 0 n && leb n 65535

-- The resolution behind `RS`, of at most 23 characters.
unfoldable pub set_resolution : Bytes → PrinterTarget → PrinterTarget
set_resolution text target =
    let (low, rest) = strtoul text in
    let (high, end) = upper_resolution low rest in
    if is_empty end && is_dpi low && is_dpi high
    then record target { resolution_low_dpi = low; resolution_high_dpi = high }
    else target

unfoldable pub is_resolution : Bytes → Bool
is_resolution (r ∷ s ∷ rest) = to_lower r == b'r' && to_lower s == b's'
is_resolution _ = false

abbrev pub rgb_names : List Bytes
rgb_names = codes "srgb" ∷ codes "adobergb" ∷ codes "devrgb" ∷ []

unfoldable pub finalize_span : Bytes → PrinterTarget → PrinterTarget
finalize_span span target =
    let t = if is_resolution span then set_resolution (take 23 (drop 2 span)) target else target in
    if any_contains rgb_names span then record t { color = true } else t

unfoldable pub finalize_spans : List Bytes → PrinterTarget → PrinterTarget
finalize_spans [] target = target
finalize_spans (s ∷ ss) target = finalize_spans ss (finalize_span s target)

-- What an URF printer implements in any case.
unfoldable pub finalize_urf : PrinterTarget → PrinterTarget
finalize_urf target = if is_empty target.urf then target else record target {
  operations_supported = bit_or target.operations_supported (bit_or (2 ^ 2) (2 ^ 11));
  copies_upper = if target.copies_upper == 0 then 1 else target.copies_upper;
}

unfoldable pub finalize_media : PrinterTarget → PrinterTarget
finalize_media target =
    if is_empty target.media_default && not (is_empty target.media)
    then record target {
      media_default =
          copy_value media_name_max (trim_end (before_comma target.media)) target.media_default;
    }
    else target

unfoldable pub finalize_versions : PrinterTarget → PrinterTarget
finalize_versions target =
    if is_empty target.ipp_versions && not (target.upstream_ipp_major == 0)
    then record target {
      ipp_versions =
          take (ipp_versions_max - 1)
            (decimal target.upstream_ipp_major ++ (b'.' ∷ decimal target.upstream_ipp_minor));
    }
    else target

unfoldable pub finalize_copies : PrinterTarget → PrinterTarget
finalize_copies target = record target { copies = target.copies || ltb 1 target.copies_upper }

-- `ipp_codec_finalize_profile`
unfoldable pub finalize_profile : PrinterTarget → PrinterTarget
finalize_profile target = finalize_versions (
    finalize_media (
      finalize_urf
        (finalize_copies (finalize_spans (spans (length target.urf) target.urf) target))))
