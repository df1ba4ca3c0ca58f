-- ===== src/Http/Framing.antt =====
-- What a request is once its head was read.
use espresso.Prelude.{
  ℕ, zero, suc, ◌≤◌, ◌<◌, ◌≡◌, inl, inr, refl, arith, true, false, not, ◌&&◌, ◌||◌, Option, none,
  some, [], ◌∷◌, length, leb, Bytes, Bool-cases, Option-cases,
}
use espresso.Http.{Request, Reply, got, failed, spent}
use espresso.Http.Head.{
  Head, Parsed, content_length_header, transfer_header, type_header, apply_header, header_line,
  then_lines, header_loop, framed, named, parse_headers, split_line, split_mark, trim, request_line,
  is_version, http_method_size, http_path_size, http_content_type_size,
}
use espresso.Http.Sizes.{parse_decimal_size, parse_decimal_size-limited_value}
use espresso.Ipp.Buffer.{size_max}
use espresso.Ipp.Walk.{is_empty}

-- The texts fit their arrays, nothing of the body was handed out, and a chunked request has no
-- content length.
pub record IsFramed (r : Request) : Type 0 where
  pub method_fits : length r.method < http_method_size
  pub path_fits : length r.path < http_path_size
  pub type_fits : length r.content_type < http_content_type_size
  pub length_fits : r.content_length ≤ size_max
  pub all_left : r.fixed_remaining ≡ r.content_length
  pub none_decoded : r.decoded_length ≡ 0
  pub unfinished : r.finished ≡ false
  pub one_framing : r.chunked ≡ true → r.content_length ≡ 0

parse_decimal_size-le : (value : Bytes) (n : ℕ) → parse_decimal_size value ≡ some n → n ≤ size_max
parse_decimal_size-le value n e = ground (arith, parse_decimal_size-limited_value value)

module _ (buffered rest : Bytes) where
  -- A head whose headers are partly read.
  abbrev IsHead : Head → Type 0
  IsHead h =
      (length h.request.method < http_method_size)
      × (length h.request.path < http_path_size)
      × (length h.request.content_type < http_content_type_size)
      × (h.request.content_length ≤ size_max)
      × (h.request.decoded_length ≡ 0)
      × (h.request.finished ≡ false)
      × (h.has_content_length ≡ false → h.request.content_length ≡ 0)
      × (h.request.chunked ≡ h.has_transfer_encoding)
      × (h.request.buffered ≡ buffered)
      × (h.request.rest ≡ rest)

  abbrev Fits : Parsed → Type 0
  Fits (inl h) = IsHead h
  Fits (inr code) = Unit

  content_length_header-Fits :
      (value : Bytes) (h : Head) → IsHead h → Fits (content_length_header value h)
  unfolding content_length_header
  content_length_header-Fits value h v = elim (Option-cases (parse_decimal_size value)) [
    | inl bad ↦ rw (bad, Fits) tt
    | inr (n, good) ↦ rw (good, Fits) (ground (arith, parse_decimal_size-le value n good))
  ]

  transfer_header-Fits : (value : Bytes) (h : Head) → IsHead h → Fits (transfer_header value h)
  unfolding transfer_header
  transfer_header-Fits value h v = ground arith

  type_header-Fits : (value : Bytes) (h : Head) → IsHead h → Fits (type_header value h)
  unfolding type_header
  type_header-Fits value h v = ground arith

  apply_header-Fits : (name value : Bytes) (h : Head) → IsHead h → Fits (apply_header name value h)
  unfolding apply_header
  apply_header-Fits name value h v = ground (
    arith,
    content_length_header-Fits value h v,
    transfer_header-Fits value h v,
    type_header-Fits value h v,
  )

  header_line-Fits : (line : Bytes) (h : Head) → IsHead h → Fits (header_line line h)
  unfolding header_line
  header_line-Fits line h v = elim (Option-cases (split_mark b':' line).1) [
    | inl missing ↦ rw (missing, Fits) tt
    | inr (value, found) ↦ elim (Bool-cases (is_empty (trim (split_mark b':' line).0))) [
      | inl nameless ↦ rw (found, nameless, Fits) tt
      | inr has ↦
          rw (found, has, Fits) (apply_header-Fits (trim (split_mark b':' line).0) (trim value) h v)
    ]
  ]

  FitsReply : Reply Head → Type 0
  FitsReply (got h) = IsHead h
  FitsReply (failed code) = Unit
  FitsReply spent = Unit

  then_lines-Fits :
      (more : Option Bytes) (loop : Bytes → Head → Reply Head) (x : Parsed)
      → ((text : Bytes) (h : Head) → IsHead h → FitsReply (loop text h))
      → Fits x
      → FitsReply (then_lines more loop x)
  unfolding FitsReply
  then_lines-Fits more loop (inr code) k v = tt
  then_lines-Fits none loop (inl h) k v = v
  then_lines-Fits (some text) loop (inl h) k v = k text h v

  header_loop-Fits :
      (fuel : ℕ) (text : Bytes) (h : Head) → IsHead h → FitsReply (header_loop fuel text h)
  unfolding header_loop FitsReply
  header_loop-Fits fuel [] h v = v
  header_loop-Fits zero (c ∷ cs) h v = tt
  header_loop-Fits (suc fuel) (c ∷ cs) h v =
      then_lines-Fits (split_line (c ∷ cs)).1 (header_loop fuel) _ (header_loop-Fits fuel)
        (header_line-Fits (split_line (c ∷ cs)).0 h v)

  framed-IsFramed :
      (x : Reply Head) (r : Request)
      → FitsReply x
      → framed x ≡ got r
      → IsFramed r × (r.buffered ≡ buffered) × (r.rest ≡ rest)
  unfolding FitsReply
  framed-IsFramed (failed code) r v e = cc
  framed-IsFramed spent r v e = cc
  framed-IsFramed (got h) r v e =
      elim (Bool-cases (
        (h.has_content_length && h.has_transfer_encoding)
        || (not h.has_content_length && not h.has_transfer_encoding))) [
          | inl both ↦ cc (rw both at e)
          | inr one ↦
              let same : record (h.request) { fixed_remaining = h.request.content_length } ≡ r =
                ground (arith, rw one at e) in
              let (m, p, t, l, d, f, none_given, framing, b, left) = v in
              rw (← same) (
                record {
                  method_fits = m;
                  path_fits = p;
                  type_fits = t;
                  length_fits = l;
                  all_left = refl;
                  none_decoded = d;
                  unfinished = f;
                  one_framing = λ c. none_given (ground arith);
                },
                b,
                left,
              )
        ]

  named-IsHead :
      (method path : Bytes) (r known : Request)
      → r.content_length ≡ 0
      → r.content_type ≡ []
      → r.decoded_length ≡ 0
      → r.finished ≡ false
      → r.chunked ≡ false
      → r.buffered ≡ buffered
      → r.rest ≡ rest
      → named method path r ≡ some known
      → IsHead (record {
        request = known;
        has_content_length = false;
        has_transfer_encoding = false;
        has_content_type = false;
      })
  unfolding named
  named-IsHead method path r known l t d f c b left e =
      elim (Bool-cases (leb http_method_size (length method) || leb http_path_size (length path))) [
        | inl long ↦ cc (rw long at e)
        | inr fits ↦
            let same : record r { method = method; path = path } ≡ known =
              ground (arith, rw fits at e) in
            rw (← same) (
              ground arith,
              ground arith,
              rw t (omega arith),
              omega arith,
              d,
              f,
              λ _. l,
              c,
              b,
              left,
            )
      ]

  pub parse_headers-IsFramed :
      (text : Bytes) (r s : Request)
      → r.content_length ≡ 0
      → r.content_type ≡ []
      → r.decoded_length ≡ 0
      → r.finished ≡ false
      → r.chunked ≡ false
      → r.buffered ≡ buffered
      → r.rest ≡ rest
      → parse_headers text r ≡ got s
      → IsFramed s × (s.buffered ≡ buffered) × (s.rest ≡ rest)
  unfolding parse_headers
  parse_headers-IsFramed text r s l t d f c b left e = elim (Option-cases (split_line text).1) [
    | inl single ↦ cc (rw (single, parse_headers) at e)
    | inr (lines, more) ↦ elim (Option-cases (request_line (split_line text).0)) [
      | inl bad ↦ cc (rw (more, bad, parse_headers) at e)
      | inr ((method, (path, version)), parts) ↦ elim (Bool-cases (is_version version)) [
        | inr other ↦ cc (rw (more, parts, other, parse_headers) at e)
        | inl http ↦ elim (Option-cases (named method path r)) [
          | inl long ↦ cc (rw (more, parts, http, long, parse_headers) at e)
          | inr (known, fits) ↦
              framed-IsFramed _ s
                (header_loop-Fits (length lines) lines _
                  (named-IsHead method path r known l t d f c b left fits))
                (rw (more, parts, http, fits, parse_headers) at e)
        ]
      ]
    ]
  ]
