-- ===== src/Ipp/Walk.antt =====
-- The loop over an attribute envelope. Six functions of main/ipp_codec.c repeat it around the
-- code that is theirs: `transform_message`, `normalize_facade_job_defaults`,
-- `ipp_codec_inspect_request`, `ipp_codec_get_u32_attribute`, `ipp_codec_filter_response` and
-- `ipp_codec_apply_printer_attributes`. Here it is written once, over a state that the function
-- keeps and its code for a group tag and for an attribute. `input + cursor` is the list of the
-- bytes not yet read, so `cursor + n > input_length` is `length rest < n`.
pub mod Parse
pub mod Format
pub mod Message
pub mod Simulate
pub mod Select
use espresso.Prelude.{
  ℕ, zero, suc, ◌+◌, Bool, ◌&&◌, ◌||◌, true, false, List, [], ◌∷◌, ◌++◌, length, take, drop, ltb,
  leb, ◌==◌, if◌then◌else◌, Bytes, c_str,
}
use espresso.Ipp.{Code, incomplete, malformed}
use espresso.Ipp.Buffer.{read_u16}

abbrev pub name_max : ℕ
name_max = 255

abbrev pub tag_end : ℕ
tag_end = 3

-- `name` is `current_name`, a C string: that of an additional value is the name before it.
pub record Attribute : Type 0 where
  pub tag : ℕ
  pub name_field : Bytes
  pub name : Bytes
  pub value : Bytes

pub data Read : Type 0 where
  attribute : Attribute → Bytes → Read
  refused : Code → Read

-- `*name == '\0'`
abbrev pub is_empty : Bytes → Bool
is_empty [] = true
is_empty (_ ∷ _) = false

-- From behind the tag to behind the value.
unfoldable pub read_value : ℕ → Bytes → Bytes → Bytes → Read
read_value tag name_field name input =
    if ltb (length (drop 2 input)) (read_u16 input)
    then refused incomplete
    else attribute
        (record {
          tag = tag;
          name_field = name_field;
          name = name;
          value = take (read_u16 input) (drop 2 input);
        })
        (drop (read_u16 input) (drop 2 input))

unfoldable pub read_attribute : ℕ → Bytes → Bytes → Read
read_attribute tag current_name input =
    if ltb (length input) 2
    then refused incomplete
    else if ltb name_max (read_u16 input)
    then refused malformed
    else if ltb (length (drop 2 input)) (read_u16 input + 2)
    then refused incomplete
    else if read_u16 input == 0
    then if is_empty current_name
      then refused malformed
      else read_value tag [] current_name (drop 2 input)
    else read_value tag (take (read_u16 input) (drop 2 input))
        (c_str (take (read_u16 input) (drop 2 input))) (drop (read_u16 input) (drop 2 input))

-- One turn of the loop: go on with a new state, or leave the function.
pub data Turn {ℓ κ} (S : Type ℓ) (R : Type κ) : Type (ℓ ⊔ κ) where
  next : S → Turn S R
  leave : R → Turn S R

-- How the loop ends: behind the end tag with the document that follows, by a return from inside,
-- or by the envelope's own errors. `exhausted` is no C outcome: the fuel ran out.
pub data Outcome {ℓ κ} (S : Type ℓ) (R : Type κ) : Type (ℓ ⊔ κ) where
  ended : S → Bytes → Outcome S R
  left : R → Outcome S R
  broken : Code → Outcome S R
  exhausted : Outcome S R

abbrev pub follow {ℓ κ} : {S : Type ℓ} {R : Type κ} → Turn S R → (S → Outcome S R) → Outcome S R
follow (next s) k = k s
follow (leave r) k = left r

pub record Handler {ℓ κ} (S : Type ℓ) (R : Type κ) : Type (ℓ ⊔ κ) where
  pub on_group : S → ℕ → Turn S R
  pub on_attribute : S → Attribute → Turn S R

module _ {ℓ κ} {S : Type ℓ} {R : Type κ} (h : Handler S R) where
  abbrev pub proceed : S → (S → Bytes → Bytes → Outcome S R) → Read → Outcome S R
  proceed s loop (refused code) = broken code
  proceed s loop (attribute a rest) = follow (h.on_attribute s a) (λ t. loop t a.name rest)

  unfoldable pub walk : ℕ → S → Bytes → Bytes → Outcome S R
  walk fuel s current_name [] = broken incomplete
  walk zero s current_name (tag ∷ input) = exhausted
  walk (suc fuel) s current_name (tag ∷ input) =
      if tag == tag_end
      then ended s input
      else if leb tag 15
      then follow (h.on_group s tag) (λ t. walk fuel t [] input)
      else proceed s (walk fuel) (read_attribute tag current_name input)

  -- Each turn takes a byte at least, so the number of bytes is enough fuel.
  abbrev pub walk_all : S → Bytes → Outcome S R
  walk_all s input = walk (length input) s [] input
