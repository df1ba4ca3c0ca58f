-- ===== src/Ipp/Filter.antt =====
-- `ipp_codec_filter_response` of main/ipp_codec.c.
pub mod Exact
pub mod Reparse
use Prim.Native.Nat.{bit_and}
use espresso.Prelude.{
  ℕ, Bool, true, not, ◌&&◌, ◌||◌, Option, none, some, List, [], ◌∷◌, ◌++◌, length, take, drop, ltb,
  ◌==◌, if◌then◌else◌, Bytes, codes, ◌>>=◌,
}
use espresso.Ipp.{Code, incomplete, no_memory, Result, ok, err}
use espresso.Ipp.Buffer.{Heap, Buffer, empty, append, attribute_bytes}
use espresso.Ipp.Csv.{csv_contains}
use espresso.Ipp.Rewrite.{header_length}
use espresso.Ipp.Select.{tag_job, tag_printer, classify_response_attribute, requested_group_mask}
use espresso.Ipp.Walk.{
  Attribute, Turn, next, leave, Outcome, ended, left, broken, exhausted, Handler, walk_all, tag_end,
}

pub data ResponseKind : Type 0 where
  printer job : ResponseKind

unfoldable pub filtered_group : ResponseKind → ℕ
filtered_group printer = tag_printer
filtered_group job = tag_job

-- `include` for an attribute of this name in this group.
unfoldable pub included : ResponseKind → Bytes → ℕ → Bytes → Bool
included kind requested group name =
    not (group == filtered_group kind)
    || csv_contains requested name
    || ((length requested == 0 || csv_contains requested (codes "all"))
        && not (classify_response_attribute group name == 0))
    || not (bit_and (classify_response_attribute group name) (requested_group_mask requested) == 0)

pub record Filtering : Type 0 where
  pub buffer : Buffer
  pub current_group : ℕ

module _ (heap : Heap) (kind : ResponseKind) (requested : Bytes) where
  abbrev pub continue : Filtering → Option Buffer → Turn Filtering Code
  continue s none = leave no_memory
  continue s (some b) = next (record s { buffer = b })

  unfoldable pub filter_group : Filtering → ℕ → Turn Filtering Code
  filter_group s tag = continue (record s { current_group = tag }) (append heap (tag ∷ []) s.buffer)

  -- The record is copied whole, from its tag to the end of its value.
  unfoldable pub filter_attribute : Filtering → Attribute → Turn Filtering Code
  filter_attribute s a =
      if included kind requested s.current_group a.name
      then continue s (append heap (attribute_bytes a.tag a.name_field a.value) s.buffer)
      else next s

  abbrev pub filterer : Handler Filtering Code
  filterer = record { on_group = filter_group; on_attribute = filter_attribute }

  -- The end tag, whose end is `*attributes_length`, and the document.
  unfoldable pub filter_end : Filtering → Bytes → Option (Bytes × ℕ)
  filter_end s document = do
    b ← append heap (tag_end ∷ []) s.buffer
    c ← append heap document b
    some (c.bytes, length b.bytes)

  abbrev pub filter_result : Outcome Filtering Code → Result (Bytes × ℕ)
  filter_result (ended s document) = elim (filter_end s document) [
    | none ↦ err no_memory
    | some r ↦ ok r
  ]
  filter_result (left code) = err code
  filter_result (broken code) = err code
  filter_result exhausted = err incomplete

  unfoldable pub filter_response : Bytes → Result (Bytes × ℕ)
  filter_response input =
      if ltb (length input) header_length
      then err incomplete
      else elim (append heap (take header_length input) empty) [
        | none ↦ err no_memory
        | some b ↦ filter_result (
            walk_all filterer (record { buffer = b; current_group = 0 }) (drop header_length input))
      ]
