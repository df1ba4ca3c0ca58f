-- ===== src/Http/Head.antt =====
-- The head of a request: `ipp_http_request_open` and `parse_headers` of main/ipp_http_request.c.
-- The head holds no NUL, so the strings in it are the bytes between their separators.
use espresso.Prelude.{
  ℕ, zero, suc, ◌⊎◌, inl, inr, Bool, true, false, not, ◌&&◌, ◌||◌, Option, none, some, [], ◌∷◌,
  length, leb, ◌==◌, if◌then◌else◌, Bytes, codes,
}
use espresso.Http.{Request, Reply, got, failed, spent}
use espresso.Http.Sizes.{HttpResult, malformed, too_large, parse_decimal_size}
use espresso.Ipp.Csv.{equal_span, skip_space, trim_end}
use espresso.Ipp.Rewrite.{is_one_of}
use espresso.Ipp.Walk.{is_empty}

abbrev pub http_buffer_size : ℕ
http_buffer_size = 4096

abbrev pub http_method_size : ℕ
http_method_size = 16

abbrev pub http_path_size : ℕ
http_path_size = 256

abbrev pub http_content_type_size : ℕ
http_content_type_size = 128

unfoldable pub trim : Bytes → Bytes
trim value = trim_end (skip_space value)

-- Up to the first CRLF, and what follows it.
unfoldable pub split_line : Bytes → Bytes × Option Bytes
split_line [] = ([], none)
split_line (c ∷ []) = (c ∷ [], none)
split_line (c ∷ d ∷ cs) =
    let (line, more) = split_line (d ∷ cs) in
    if c == 13 && d == 10 then ([], some cs) else (c ∷ line, more)

-- Up to the first `mark`, and what follows it.
unfoldable pub split_mark : ℕ → Bytes → Bytes × Option Bytes
split_mark mark [] = ([], none)
split_mark mark (c ∷ cs) =
    let (before, after) = split_mark mark cs in
    if c == mark then ([], some cs) else (c ∷ before, after)

-- The method, the path and the version of a request line; `none` where there are not two spaces.
unfoldable pub request_line : Bytes → Option (Bytes × (Bytes × Bytes))
request_line line = elim (split_mark 32 line).1 [
  | none ↦ none
  | some behind ↦ elim (split_mark 32 behind).1 [
    | none ↦ none
    | some version ↦ some ((split_mark 32 line).0, ((split_mark 32 behind).0, version))
  ]
]

-- A third space is in no version.
unfoldable pub is_version : Bytes → Bool
is_version version = is_one_of version (codes "HTTP/1.1" ∷ codes "HTTP/1.0" ∷ [])

-- The request and the headers that were seen.
pub record Head : Type 0 where
  pub request : Request
  pub has_content_length : Bool
  pub has_transfer_encoding : Bool
  pub has_content_type : Bool

abbrev pub Parsed : Type 0
Parsed = Head ⊎ HttpResult

unfoldable pub content_length_header : Bytes → Head → Parsed
content_length_header value h = elim (parse_decimal_size value) [
  | none ↦ inr malformed
  | some n ↦
      if h.has_content_length
      then inr malformed
      else inl (record h {
        request = record (h.request) { content_length = n };
        has_content_length = true;
      })
]

unfoldable pub transfer_header : Bytes → Head → Parsed
transfer_header value h =
    if h.has_transfer_encoding || not (equal_span value (codes "chunked"))
    then inr malformed
    else inl
        (record h { request = record (h.request) { chunked = true }; has_transfer_encoding = true })

unfoldable pub type_header : Bytes → Head → Parsed
type_header value h =
    if h.has_content_type || leb http_content_type_size (length value)
    then inr malformed
    else inl (record h {
      request = record (h.request) { content_type = value };
      has_content_type = true;
    })

unfoldable pub apply_header : Bytes → Bytes → Head → Parsed
apply_header name value h =
    if equal_span name (codes "Content-Length")
    then content_length_header value h
    else if equal_span name (codes "Transfer-Encoding")
    then transfer_header value h
    else if equal_span name (codes "Content-Type")
    then type_header value h
    else if equal_span name (codes "Expect") && equal_span value (codes "100-continue")
    then inl (record h { request = record (h.request) { expects_continue = true } })
    else inl h

unfoldable pub header_line : Bytes → Head → Parsed
header_line line h = elim (split_mark b':' line).1 [
  | none ↦ inr malformed
  | some value ↦
      if is_empty (trim (split_mark b':' line).0)
      then inr malformed
      else apply_header (trim (split_mark b':' line).0) (trim value) h
]

abbrev pub then_lines : Option Bytes → (Bytes → Head → Reply Head) → Parsed → Reply Head
then_lines more loop (inr code) = failed code
then_lines none loop (inl h) = got h
then_lines (some text) loop (inl h) = loop text h

-- The loop over the lines. Each turn takes two bytes at least, so their number is enough fuel.
unfoldable pub header_loop : ℕ → Bytes → Head → Reply Head
header_loop fuel [] h = got h
header_loop zero (c ∷ cs) h = spent
header_loop (suc fuel) (c ∷ cs) h =
    then_lines (split_line (c ∷ cs)).1 (header_loop fuel) (header_line (split_line (c ∷ cs)).0 h)

-- Exactly one of the two framings, and the bytes that are left.
abbrev pub framed : Reply Head → Reply Request
framed (failed code) = failed code
framed spent = spent
framed (got h) =
    if (h.has_content_length && h.has_transfer_encoding)
      || (not h.has_content_length && not h.has_transfer_encoding)
    then failed malformed
    else got (record (h.request) { fixed_remaining = h.request.content_length })

unfoldable pub named : Bytes → Bytes → Request → Option Request
named method path r =
    if leb http_method_size (length method) || leb http_path_size (length path)
    then none
    else some (record r { method = method; path = path })

-- `parse_headers`, on the text before the last CRLF of the head.
unfoldable pub parse_headers : Bytes → Request → Reply Request
parse_headers text r = elim (split_line text).1 [
  | none ↦ failed malformed
  | some lines ↦ elim (request_line (split_line text).0) [
    | none ↦ failed malformed
    | some (method, (path, version)) ↦
        if not (is_version version) then failed malformed else elim (named method path r) [
          | none ↦ failed too_large
          | some known ↦ framed (
              header_loop (length lines) lines (record {
                request = known;
                has_content_length = false;
                has_transfer_encoding = false;
                has_content_type = false;
              }))
        ]
  ]
]
