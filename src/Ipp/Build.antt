-- ===== src/Ipp/Build.antt =====
-- The messages that the codec builds itself: `ipp_codec_build_get_printer_attributes_for_format`
-- and `ipp_codec_build_status_response` of main/ipp_codec.c. An empty format or status message
-- stands for NULL too; other pointers are not NULL.
pub mod Laws
pub mod Status
mod Tests
use espresso.Prelude.{
  ℕ, Bool, true, false, not, Option, none, some, [], ◌∷◌, ◌++◌, ◌==◌, if◌then◌else◌, Bytes, codes,
  ◌>>=◌,
}
use espresso.Ipp.{malformed, no_memory, Result, ok, err}
use espresso.Ipp.Buffer.{Heap, Buffer, empty, be16, be32, append, append_string}
use espresso.Ipp.Inspect.{tag_charset, tag_language, tag_keyword, tag_mimetype, tag_text}
use espresso.Ipp.Rewrite.{tag_uri}
use espresso.Ipp.Select.{tag_operation}
use espresso.Ipp.Walk.{tag_end, is_empty}

-- The version, the operation or the status, and the request id.
abbrev pub message_header : ℕ → ℕ → ℕ → ℕ → Bytes
message_header major minor code request_id = major ∷ minor ∷ (be16 code ++ be32 request_id)

abbrev pub when : Bool → (Buffer → Option Buffer) → Buffer → Option Buffer
when true f b = f b
when false f b = some b

abbrev pub built : Option Buffer → Result Bytes
built none = err no_memory
built (some b) = ok b.bytes

module _ (heap : Heap) where
  -- The charset and the language, which come first in every message.
  unfoldable pub append_leading : Buffer → Option Buffer
  append_leading b = do
    c ← append_string heap tag_charset (codes "attributes-charset") (codes "utf-8") b
    append_string heap tag_language (codes "attributes-natural-language") (codes "en") c

  unfoldable pub append_query : Bytes → Bytes → Bool → Buffer → Option Buffer
  append_query printer_uri format media_col_database b = do
    c ← append_leading b
    d ← append_string heap tag_uri (codes "printer-uri") printer_uri c
    e ← append_string heap tag_keyword (codes "requested-attributes") (codes "all") d
    f ←
        when (not (is_empty format))
          (append_string heap tag_mimetype (codes "document-format") format) e
    g ← when media_col_database (append_string heap tag_keyword [] (codes "media-col-database")) f
    append heap (tag_end ∷ []) g

  unfoldable pub build_get_printer_attributes : ℕ → ℕ → ℕ → Bytes → Bool → Bytes → Result Bytes
  build_get_printer_attributes major minor request_id printer_uri media_col_database format =
      if major == 0
      then err malformed
      else built (do
        b ← append heap (message_header major minor 11 request_id ++ tag_operation ∷ []) empty
        append_query printer_uri format media_col_database b)

  unfoldable pub append_status : Bytes → Buffer → Option Buffer
  append_status message b = do
    c ← append_leading b
    d ←
        when (not (is_empty message)) (append_string heap tag_text (codes "status-message") message)
          c
    append heap (tag_end ∷ []) d

  unfoldable pub build_status_response : ℕ → ℕ → ℕ → ℕ → Bytes → Result Bytes
  build_status_response major minor status_code request_id message =
      if major == 0
      then err malformed
      else built (do
        b ←
            append heap (message_header major minor status_code request_id ++ tag_operation ∷ [])
              empty
        append_status message b)
