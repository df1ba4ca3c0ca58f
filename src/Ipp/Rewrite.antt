-- ===== src/Ipp/Rewrite.antt =====
-- `transform_message` of main/ipp_codec.c and its helpers: the copy of a message with its
-- URI-valued attributes replaced and, for a printer's answer, its metadata replaced.
pub mod Exact
pub mod Complete
pub mod Reparse
use Prim.Native.Nat.{bit_or}
use espresso.Prelude.{
  ℕ, zero, suc, ◌+◌, ◌-◌, ◌*◌, ◌^◌, Bool, true, false, ◌&&◌, ◌||◌, Option, none, some, List, [],
  ◌∷◌, ◌++◌, length, take, drop, ltb, ◌==◌, if◌then◌else◌, Bytes, codes, equal, c_str, ◌>>=◌,
}
use espresso.Ipp.{Code, incomplete, no_memory, Result, ok, err}
use espresso.Ipp.Buffer.{Heap, Buffer, empty, allocate, append, append_attribute}
use espresso.Ipp.Walk.{
  Attribute, Turn, next, leave, Outcome, ended, left, broken, exhausted, Handler, walk_all, tag_end,
}

abbrev pub header_length : ℕ
header_length = 8

abbrev pub tag_uri : ℕ
tag_uri = 0x45

-- `is_one_of name names` is the chain of `strcmp(name, …) == 0`.
unfoldable pub is_one_of : Bytes → List Bytes → Bool
is_one_of name [] = false
is_one_of name (n ∷ ns) = equal name n || is_one_of name ns

-- Behind the first "://", where there is one.
unfoldable pub after_scheme : Bytes → Option Bytes
after_scheme (a ∷ b ∷ c ∷ rest) =
    if a == b':' && b == b'/' && c == b'/' then some rest else after_scheme (b ∷ c ∷ rest)
after_scheme _ = none

-- From the first slash on.
unfoldable pub from_slash : Bytes → Bytes
from_slash [] = []
from_slash (c ∷ cs) = if c == b'/' then c ∷ cs else from_slash cs

unfoldable pub uri_path : Bytes → Bytes
unfolding after_scheme from_slash
uri_path value = elim (after_scheme value) [ none ↦ [] | some rest ↦ from_slash rest ]

-- The text that `rewrite_uri` allocates; `none` is its NULL for a name that it does not know.
unfoldable pub rewritten_uri : Bytes → Bytes → Bytes → Bytes → Option Bytes
unfolding is_one_of uri_path
rewritten_uri name value printer_uri authority =
    if equal name (codes "printer-more-info")
    then some (codes "http://espresso.local/")
    else if is_one_of name
        (codes "printer-uri" ∷ codes "printer-uri-supported" ∷ codes "job-printer-uri" ∷ [])
    then some printer_uri
    else if equal name (codes "job-uri")
    then some (authority ++ uri_path value)
    else none

-- The names of `attributes[]` in `attribute_presence`; the flag of the n-th is `1ULL << n`.
abbrev pub presence_names : List Bytes
presence_names =
    codes "ipp-versions-supported"
    ∷ codes "operations-supported"
    ∷ codes "printer-uri-supported"
    ∷ codes "uri-authentication-supported"
    ∷ codes "uri-security-supported"
    ∷ codes "printer-uuid"
    ∷ codes "printer-name"
    ∷ codes "printer-info"
    ∷ codes "printer-make-and-model"
    ∷ codes "printer-location"
    ∷ codes "document-format-supported"
    ∷ codes "document-format-default"
    ∷ codes "urf-supported"
    ∷ codes "color-supported"
    ∷ codes "sides-supported"
    ∷ codes "copies-supported"
    ∷ codes "media-supported"
    ∷ codes "compression-supported"
    ∷ codes "multiple-document-jobs-supported"
    ∷ codes "media-col-database"
    ∷ codes "media-col-default"
    ∷ codes "print-color-mode-supported"
    ∷ codes "print-color-mode-default"
    ∷ codes "printer-resolution-supported"
    ∷ codes "printer-resolution-default"
    ∷ codes "job-creation-attributes-supported"
    ∷ codes "printer-state"
    ∷ codes "printer-state-reasons"
    ∷ codes "printer-is-accepting-jobs"
    ∷ codes "charset-configured"
    ∷ codes "charset-supported"
    ∷ codes "natural-language-configured"
    ∷ codes "generated-natural-language-supported"
    ∷ codes "printer-more-info"
    ∷ codes "printer-up-time"
    ∷ codes "pdl-override-supported"
    ∷ codes "queued-job-count"
    ∷ codes "copies-default"
    ∷ codes "media-default"
    ∷ codes "finishings-default"
    ∷ codes "finishings-supported"
    ∷ codes "orientation-requested-default"
    ∷ codes "orientation-requested-supported"
    ∷ codes "output-bin-default"
    ∷ codes "output-bin-supported"
    ∷ codes "print-quality-default"
    ∷ codes "print-quality-supported"
    ∷ codes "sides-default"
    ∷ codes "pages-per-minute"
    ∷ codes "pages-per-minute-color"
    ∷ codes "media-col-supported"
    ∷ codes "media-col-ready"
    ∷ codes "media-source-supported"
    ∷ codes "media-type-supported"
    ∷ codes "printer-input-tray"
    ∷ codes "printer-mandatory-job-attributes"
    ∷ codes "print-scaling-supported"
    ∷ codes "print-scaling-default"
    ∷ codes "landscape-orientation-requested-preferred"
    ∷ codes "document-password-supported"
    ∷ codes "reference-uri-schemes-supported"
    ∷ codes "media-key-supported"
    ∷ codes "media-size-supported"
    ∷ []

unfoldable pub presence_flag : ℕ → Bytes → List Bytes → ℕ
presence_flag flag name [] = 0
presence_flag flag name (n ∷ ns) =
    let rest = presence_flag (flag * 2) name ns in if equal name n then flag else rest

unfoldable pub attribute_presence : Bytes → ℕ
unfolding presence_flag
attribute_presence name = presence_flag 1 name presence_names

abbrev pub replaced_names : List Bytes
replaced_names =
    codes "ipp-versions-supported"
    ∷ codes "operations-supported"
    ∷ codes "printer-uuid"
    ∷ codes "uri-authentication-supported"
    ∷ codes "uri-security-supported"
    ∷ codes "document-format-supported"
    ∷ codes "document-format-default"
    ∷ []

abbrev pub uri_names : List Bytes
uri_names =
    codes "printer-uri"
    ∷ codes "printer-uri-supported"
    ∷ codes "job-printer-uri"
    ∷ codes "printer-more-info"
    ∷ codes "job-uri"
    ∷ []

pub record Transform : Type 0 where
  pub buffer : Buffer
  pub current_group : ℕ
  pub present : ℕ

-- `append_synthesized_attributes` at the arguments that stay fixed in a call: what it appends for
-- `present` and `current_group`. Present exactly where `normalize` is true.
abbrev pub Synthesize : Type 0
Synthesize = ℕ → ℕ → Buffer → Option Buffer

abbrev pub is_some {ℓ} : {A : Type ℓ} → Option A → Bool
is_some none = false
is_some (some a) = true

module _ (heap : Heap) (printer_uri authority : Bytes) (normalize : Option Synthesize) where
  -- `result` failed, or the loop goes on with it.
  abbrev pub continue : Transform → Option Buffer → Turn Transform Code
  continue s none = leave no_memory
  continue s (some b) = next (record s { buffer = b })

  -- The value that is written: an allocated text for a URI, else the bytes as they are.
  unfoldable pub new_value : Attribute → Buffer → Option (Bytes × Buffer)
  new_value a buffer =
      if a.tag == tag_uri && is_one_of a.name uri_names
      then elim (rewritten_uri a.name a.value printer_uri authority) [
        | none ↦ none
        | some text ↦ do b ← allocate heap (length text + 1) buffer; some (c_str text, b)
      ]
      else some (a.value, buffer)

  unfoldable pub transform_group : Transform → ℕ → Turn Transform Code
  transform_group s tag =
      continue (record s { current_group = tag }) (append heap (tag ∷ []) s.buffer)

  unfoldable pub transform_attribute : Transform → Attribute → Turn Transform Code
  transform_attribute s a =
      if is_some normalize && is_one_of a.name replaced_names
      then next s
      else continue (record s { present = bit_or s.present (attribute_presence a.name) })
          (do (value, b) ← new_value a s.buffer; append_attribute heap a.tag a.name_field value b)

  abbrev pub transformer : Handler Transform Code
  transformer = record { on_group = transform_group; on_attribute = transform_attribute }

  -- From the end tag on: the synthesized attributes, the tag and the document.
  unfoldable pub transform_end : Transform → Bytes → Option Buffer
  transform_end s document = do
    b ← elim normalize [ none ↦ some s.buffer | some f ↦ f s.present s.current_group s.buffer ]
    c ← append heap (tag_end ∷ []) b
    append heap document c

  abbrev pub transform_result : ℕ → Outcome Transform Code → Result (Bytes × ℕ)
  transform_result input_length (ended s document) = elim (transform_end s document) [
    | none ↦ err no_memory
    | some b ↦ ok (b.bytes, input_length - length document)
  ]
  transform_result input_length (left code) = err code
  transform_result input_length (broken code) = err code
  transform_result input_length exhausted = err incomplete

  -- The output and `*attributes_length`, which is an offset into the input.
  unfoldable pub transform_message : Bytes → Result (Bytes × ℕ)
  transform_message input =
      if ltb (length input) header_length
      then err incomplete
      else elim (append heap (take header_length input) empty) [
        | none ↦ err no_memory
        | some b ↦ transform_result (length input) (
            walk_all transformer (record { buffer = b; current_group = 0; present = 0 })
              (drop header_length input))
      ]

unfoldable pub rewrite : Heap → Bytes → Bytes → Bytes → Result (Bytes × ℕ)
unfolding transform_message
rewrite heap printer_uri authority = transform_message heap printer_uri authority none
