-- ===== src/Http/Sizes.antt =====
-- The numbers of a request's head and its chunks: `parse_decimal_size` and `parse_chunk_size` of
-- main/ipp_http_request.c.
use espresso.Prelude.{
  ℕ, ◌+◌, ◌-◌, ◌*◌, ◌/◌, ◌≤◌, ◌≡◌, ◌⊎◌, refl, arith, Bool, true, not, ◌&&◌, ◌||◌, Option, none,
  some, [], ◌∷◌, ltb, leb, ◌==◌, if◌then◌else◌, Bytes, to_lower, is_digit, Bool-cases, inl, inr,
}
use espresso.Ipp.Buffer.{size_max}
use espresso.Ipp.Walk.{is_empty}

-- `ipp_http_result_t`, less its OK.
pub data HttpResult : Type 0 where
  done : HttpResult
  malformed : HttpResult
  too_large : HttpResult
  no_memory : HttpResult
  io_error : HttpResult

-- The loop over the digits, `none` for false.
unfoldable pub decimal_from : ℕ → Bytes → Option ℕ
decimal_from parsed [] = some parsed
decimal_from parsed (c ∷ cs) =
    let more = decimal_from (parsed * 10 + (c - b'0')) cs in
    if not (is_digit c)
    then none
    else if ltb ((size_max - (c - b'0')) / 10) parsed
    then none
    else more

unfoldable pub parse_decimal_size : Bytes → Option ℕ
parse_decimal_size value = if is_empty value then none else decimal_from 0 value

unfoldable pub is_hex_letter : ℕ → Bool
is_hex_letter c = leb b'a' (to_lower c) && leb (to_lower c) b'f'

unfoldable pub hex_digit : ℕ → Option ℕ
hex_digit c =
    if is_digit c
    then some (c - b'0')
    else if is_hex_letter c
    then some (to_lower c - b'a' + 10)
    else none

unfoldable pub skip_blanks : Bytes → Bytes
skip_blanks [] = []
skip_blanks (c ∷ cs) = if c == 32 || c == 9 then skip_blanks cs else c ∷ cs

abbrev pub ChunkSize : Type 0
ChunkSize = ℕ ⊎ HttpResult

-- Behind the digits: the end, or an extension.
abbrev pub chunk_end : ℕ → Bytes → ChunkSize
chunk_end parsed [] = inl parsed
chunk_end parsed (c ∷ cs) = if c == b';' then inl parsed else inr malformed

unfoldable pub chunk_from : ℕ → Bytes → ChunkSize
chunk_from parsed [] = inl parsed
chunk_from parsed (c ∷ cs) = elim (hex_digit c) [
  | none ↦ chunk_end parsed (skip_blanks (c ∷ cs))
  | some d ↦
      if ltb ((size_max - d) / 16) parsed then inr too_large else chunk_from (parsed * 16 + d) cs
]

-- `parse_chunk_size`, on a C string.
unfoldable pub parse_chunk_size : Bytes → ChunkSize
parse_chunk_size [] = inr malformed
parse_chunk_size (c ∷ cs) = elim (hex_digit c) [
  | none ↦ inr malformed
  | some d ↦ chunk_from 0 (c ∷ cs)
]

-- The number that decimal digits stand for, without a limit.
abbrev pub decimal_value : ℕ → Bytes → ℕ
decimal_value n [] = n
decimal_value n (c ∷ cs) = decimal_value (n * 10 + (c - b'0')) cs

abbrev pub all_digits : Bytes → Bool
all_digits [] = true
all_digits (c ∷ cs) = is_digit c && all_digits cs

decimal_value-grows : (n : ℕ) (cs : Bytes) → n ≤ decimal_value n cs
decimal_value-grows n [] = omega arith
decimal_value-grows n (c ∷ cs) = omega (arith, decimal_value-grows (n * 10 + (c - b'0')) cs)

-- What the loop is to return.
abbrev pub limited_value : ℕ → Bytes → Option ℕ
limited_value n cs =
    if all_digits cs && leb (decimal_value n cs) size_max then some (decimal_value n cs) else none

decimal_from-limited : (n : ℕ) (cs : Bytes) → n ≤ size_max → decimal_from n cs ≡ limited_value n cs
unfolding decimal_from is_digit
decimal_from-limited n [] h = ground arith
decimal_from-limited n (c ∷ cs) h = elim (Bool-cases (is_digit c)) [
  | inr other ↦ rw other refl
  | inl digit ↦ elim (Bool-cases (ltb ((size_max - (c - b'0')) / 10) n)) [
    | inl over ↦ rw (digit, over) (ground (arith, decimal_value-grows (n * 10 + (c - b'0')) cs))
    | inr fits ↦ rw (digit, fits) (decimal_from-limited (n * 10 + (c - b'0')) cs (ground arith))
  ]
]

-- A decimal number is accepted where it has a digit, nothing but digits, and fits a size_t; it then
-- is the number that the digits stand for.
pub parse_decimal_size-limited_value :
    (value : Bytes)
    → parse_decimal_size value ≡ (if is_empty value then none else limited_value 0 value)
unfolding parse_decimal_size
parse_decimal_size-limited_value [] = refl
parse_decimal_size-limited_value (c ∷ cs) = decimal_from-limited 0 (c ∷ cs) (omega arith)
