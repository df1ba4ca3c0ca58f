-- ===== src/Ipp/JobDefaults.antt =====
-- The job attributes that the facade adds for its clients, taken out of a request again:
-- `facade_job_attribute_action`, `normalize_facade_job_defaults` and the `ipp_codec_rewrite_request`
-- functions of main/ipp_codec.c. Pointers are not NULL but for `upstream_document_format`, and
-- `rejected_attribute` has the given size.
pub mod Exact
pub mod Request
mod Tests
use Prim.Native.Nat.{bit_and}
use espresso.Prelude.{
  ℕ, ◌-◌, Bool, true, false, not, ◌&&◌, ◌||◌, Option, none, some, List, [], ◌∷◌, ◌++◌, length, take,
  drop, ltb, ◌==◌, if◌then◌else◌, Bytes, codes, equal, ◌>>=◌,
}
use espresso.Ipp.{Code, incomplete, no_memory, unsupported, Result, ok, err}
use espresso.Ipp.Buffer.{Heap, Buffer, empty, append, append_attribute, read_u32}
use espresso.Ipp.Csv.{equal_span}
use espresso.Ipp.Inspect.{tag_integer, tag_enum, tag_keyword, tag_name, tag_mimetype}
use espresso.Ipp.Rewrite.{header_length, rewrite}
use espresso.Ipp.Select.{tag_operation, tag_job}
use espresso.Ipp.Target.{
  PrinterTarget, cap_copies, cap_finishings, cap_orientation, cap_output_bin, cap_print_quality,
  cap_sides,
}
use espresso.Ipp.Walk.{
  Attribute, Turn, next, leave, Outcome, ended, left, broken, exhausted, Handler, walk_all, tag_end,
  is_empty,
}

pub data JobAction : Type 0 where
  keep : JobAction
  drop_it : JobAction
  refuse : JobAction

unfoldable pub encoded_u32_equals : Bytes → ℕ → Bool
encoded_u32_equals value expected = length value == 4 && read_u32 value == expected

-- `struct neutral_default`; `string_value` NULL is `none`.
pub record NeutralDefault : Type 0 where
  pub name : Bytes
  pub capability : ℕ
  pub tag : ℕ
  pub integer_value : ℕ
  pub string_value : Option Bytes

abbrev pub neutral_number : Bytes → ℕ → ℕ → ℕ → NeutralDefault
neutral_number name capability tag n = record {
  name = name;
  capability = capability;
  tag = tag;
  integer_value = n;
  string_value = none;
}

abbrev pub neutral_keyword : Bytes → ℕ → Bytes → NeutralDefault
neutral_keyword name capability s = record {
  name = name;
  capability = capability;
  tag = tag_keyword;
  integer_value = 0;
  string_value = some s;
}

abbrev pub neutral_defaults : List NeutralDefault
neutral_defaults =
    neutral_number (codes "copies") cap_copies tag_integer 1
    ∷ neutral_number (codes "finishings") cap_finishings tag_enum 3
    ∷ neutral_number (codes "orientation-requested") cap_orientation tag_enum 3
    ∷ neutral_keyword (codes "output-bin") cap_output_bin (codes "face-down")
    ∷ neutral_number (codes "print-quality") cap_print_quality tag_enum 4
    ∷ neutral_keyword (codes "sides") cap_sides (codes "one-sided")
    ∷ []

unfoldable pub is_neutral : NeutralDefault → Attribute → Bool
is_neutral entry a = elim entry.string_value [
  | some s ↦ (a.tag == tag_keyword || a.tag == tag_name) && equal_span a.value s
  | none ↦ a.tag == entry.tag && encoded_u32_equals a.value entry.integer_value
]

abbrev pub drop_if : Bool → JobAction
drop_if neutral = if neutral then drop_it else refuse

-- The loop over the table: the first entry of the name that the printer has no capability for.
unfoldable pub table_action : ℕ → List NeutralDefault → Attribute → JobAction
table_action capabilities [] a = keep
table_action capabilities (entry ∷ entries) a =
    let rest = table_action capabilities entries a in
    if not (equal a.name entry.name) || not (bit_and capabilities entry.capability == 0)
    then rest
    else drop_if (is_neutral entry a)

unfoldable pub is_output_mode : PrinterTarget → Attribute → Bool
is_output_mode target a = equal a.name (codes "print-color-mode") && target.legacy_output_mode

-- `facade_job_attribute_action`
unfoldable pub job_action : PrinterTarget → Attribute → JobAction
job_action target a =
    if is_output_mode target a
    then keep
    else if equal a.name (codes "print-content-optimize")
        || equal a.name (codes "print-rendering-intent")
    then drop_if (a.tag == tag_keyword && equal_span a.value (codes "auto"))
    else table_action target.job_template_capabilities neutral_defaults a

unfoldable pub group_action : PrinterTarget → ℕ → Attribute → JobAction
group_action target g a = if g == tag_job then job_action target a else keep

-- `output_name`: an additional value has no name to replace.
unfoldable pub output_name : PrinterTarget → ℕ → Attribute → Bytes
output_name target g a =
    if g == tag_job && is_output_mode target a && not (is_empty a.name_field)
    then codes "output-mode"
    else a.name_field

-- `output_value`: the format that the document will have on its way to the printer.
unfoldable pub format_value : Option Bytes → ℕ → Attribute → Bytes
format_value none g a = a.value
format_value (some format) g a =
    if g == tag_operation && a.tag == tag_mimetype && equal a.name (codes "document-format")
    then format
    else a.value

pub record Normalizing : Type 0 where
  pub buffer : Buffer
  pub current_group : ℕ
  pub current_group_emitted : Bool

-- A request that is refused, with what stands in `rejected_attribute`.
abbrev pub Refusal : Type 0
Refusal = Code × Bytes

module _ (heap : Heap) (target : PrinterTarget) (upstream : Option Bytes) (rejected_size : ℕ) where
  -- A group's tag is written with the first attribute of it that is.
  unfoldable pub emit_group : ℕ → Bool → Buffer → Option Buffer
  emit_group g true b = some b
  emit_group g false b = append heap (g ∷ []) b

  unfoldable pub emit : ℕ → Bool → Attribute → Buffer → Option Buffer
  emit g emitted a b = do
    c ← emit_group g emitted b
    append_attribute heap a.tag (output_name target g a) (format_value upstream g a) c

  abbrev pub emitted : Normalizing → Option Buffer → Turn Normalizing Refusal
  emitted s none = leave (no_memory, [])
  emitted s (some b) = next (record s { buffer = b; current_group_emitted = true })

  abbrev pub apply_action : Normalizing → Attribute → JobAction → Turn Normalizing Refusal
  apply_action s a refuse = leave (unsupported, take (rejected_size - 1) a.name)
  apply_action s a drop_it = next s
  apply_action s a keep = emitted s (emit s.current_group s.current_group_emitted a s.buffer)

  abbrev pub normalizer : Handler Normalizing Refusal
  normalizer = record {
    on_group = λ s tag. next (record s { current_group = tag; current_group_emitted = false });
    on_attribute = λ s a. apply_action s a (group_action target s.current_group a);
  }

  -- The end tag, whose end is `*attributes_length`, and the document where there is one.
  unfoldable pub normalize_end : Normalizing → Bytes → Option (Bytes × ℕ)
  normalize_end s document = do
    b ← append heap (tag_end ∷ []) s.buffer
    c ← append heap document b
    some (c.bytes, length b.bytes)

  abbrev pub normalize_result : Outcome Normalizing Refusal → Result (Bytes × ℕ) × Bytes
  normalize_result (ended s document) = elim (normalize_end s document) [
    | none ↦ (err no_memory, [])
    | some r ↦ (ok r, [])
  ]
  normalize_result (left (code, name)) = (err code, name)
  normalize_result (broken code) = (err code, [])
  normalize_result exhausted = (err incomplete, [])

  -- `normalize_facade_job_defaults`
  unfoldable pub normalize : Bytes → Result (Bytes × ℕ) × Bytes
  normalize input =
      if ltb (length input) header_length
      then (err incomplete, [])
      else elim (append heap (take header_length input) empty) [
        | none ↦ (err no_memory, [])
        | some b ↦ normalize_result (
            walk_all normalizer
              (record { buffer = b; current_group = 0; current_group_emitted = true })
              (drop header_length input))
      ]

  -- `ipp_codec_rewrite_request_for_format_diagnostic`: first the URIs, then the job attributes.
  unfoldable pub rewrite_request : Bytes → Bytes → Bytes → Result (Bytes × ℕ) × Bytes
  rewrite_request printer_uri authority input = elim (rewrite heap printer_uri authority input) [
    | err code ↦ (err code, [])
    | ok (rewritten, n) ↦ normalize rewritten
  ]
