-- ===== src/Http/Ends.antt =====
-- The loops of main/ipp_http_request.c end.
use espresso.Prelude.{
  ℕ, zero, suc, ◌+◌, ◌-◌, ◌≤◌, ◌<◌, ◌≡◌, inl, inr, refl, ap, arith, min, Bool, true, false, not,
  ◌&&◌, ◌||◌, drop, Option, none, some, [], ◌∷◌, ◌++◌, length, take, ltb, ◌==◌, if◌then◌else◌,
  Bytes, c_str, equal, Bool-cases, Option-cases, length-append,
}
use espresso.Http.{
  Request, Reply, got, failed, spent, Run, follow, received, after_call, raw_read, one_byte,
  as_io_error, raw_byte, exact_loop, raw_exact, line_feed, line_loop, read_line, has_colon,
  trailer_loop, skip_crlf, chunk_sized, next_chunk, take_chunk, read_chunked, take_fixed,
  read_fixed, count, request_read, http_line_size, http_trailers_max,
}
use espresso.Http.Fixed.{received-bounds}
use espresso.Http.Head.{
  http_buffer_size, Head, Parsed, split_line, then_lines, header_line, header_loop, framed, named,
  parse_headers, request_line, is_version,
}
use espresso.Http.Open.{
  new_request, search_from, searched, appended, open_loop, parsed_head, has_nul, after_head,
  request_open,
}
use espresso.Http.Sizes.{ChunkSize, parse_chunk_size}
use espresso.Ipp.Buffer.{size_max}
use espresso.Ipp.Walk.{is_empty}
use espresso.Raster.{Schedule}

-- A result that the C code can return.
abbrev pub Returns : {A : Type 0} → Reply A → Type 0
Returns (got a) = Unit
Returns (failed code) = Unit
Returns spent = ⊥

follow-Returns :
    {A B : Type 0} (x : Request × Reply A) (k : A → Run B)
    → Returns x.1
    → ((r : Request) (a : A) → Returns (k a r).1)
    → Returns (follow x k).1
follow-Returns (r, got a) k v h = h r a
follow-Returns (r, failed code) k v h = tt
follow-Returns (r, spent) k v h = v

if_result :
    {A : Type 0} (b : Bool) (x y : Request × Reply A)
    → Returns x.1
    → Returns y.1
    → Returns (if b then x else y).1
if_result true x y h k = h
if_result false x y h k = k

positive : (b : Bytes) → is_empty b ≡ false → 0 < length b
positive [] h = cc
positive (c ∷ cs) h = omega arith

less :
    {left fuel : ℕ} (line : Bytes)
    → is_empty line ≡ false
    → ltb left (length line) ≡ false
    → left < suc fuel
    → left - length line < fuel
less line has fits h = ground (arith, positive line has)

-- A line takes two bytes at least of the text in front of what follows it.
split_line-shorter :
    (text more : Bytes) → (split_line text).1 ≡ some more → length more < length text
unfolding split_line
split_line-shorter [] more e = cc
split_line-shorter (c ∷ []) more e = cc
split_line-shorter (c ∷ d ∷ cs) more e = ground (arith, split_line-shorter (d ∷ cs) more)

then_lines-Returns :
    (more : Option Bytes) (loop : Bytes → Head → Reply Head) (x : Parsed)
    → ((text : Bytes) (h : Head) → more ≡ some text → Returns (loop text h))
    → Returns (then_lines more loop x)
then_lines-Returns more loop (inr code) k = tt
then_lines-Returns none loop (inl h) k = tt
then_lines-Returns (some text) loop (inl h) k = k text h refl

-- With the length of the text as fuel the loop over the headers ends.
header_loop-Returns :
    (fuel : ℕ) (text : Bytes) (h : Head) → length text ≤ fuel → Returns (header_loop fuel text h)
unfolding header_loop
header_loop-Returns fuel [] h k = tt
header_loop-Returns zero (c ∷ cs) h k = absurd (omega arith)
header_loop-Returns (suc fuel) (c ∷ cs) h k =
    then_lines-Returns (split_line (c ∷ cs)).1 (header_loop fuel)
      (header_line (split_line (c ∷ cs)).0 h)
      (λ text g e.
        header_loop-Returns fuel text g (omega (arith, split_line-shorter (c ∷ cs) text e)))

framed-Returns : (x : Reply Head) → Returns x → Returns (framed x)
framed-Returns (failed code) v = tt
framed-Returns spent v = v
framed-Returns (got h) v =
    elim (Bool-cases (
      (h.has_content_length && h.has_transfer_encoding)
      || (not h.has_content_length && not h.has_transfer_encoding))) [
        | inl both ↦ rw both tt
        | inr one ↦ rw one tt
      ]

parse_headers-Returns : (text : Bytes) (r : Request) → Returns (parse_headers text r)
unfolding parse_headers
parse_headers-Returns text r = elim (Option-cases (split_line text).1) [
  | inl single ↦ rw (single, parse_headers) tt
  | inr (lines, more) ↦ elim (Option-cases (request_line (split_line text).0)) [
    | inl bad ↦ rw (more, bad, parse_headers) tt
    | inr ((method, (path, version)), parts) ↦ elim (Bool-cases (is_version version)) [
      | inr other ↦ rw (more, parts, other, parse_headers) tt
      | inl http ↦ elim (Option-cases (named method path r)) [
        | inl long ↦ rw (more, parts, http, long, parse_headers) tt
        | inr (known, fits) ↦
            rw (more, parts, http, fits, parse_headers)
              (framed-Returns _ (header_loop-Returns (length lines) lines _ (omega arith)))
      ]
    ]
  ]
]

module _ (schedule : Schedule) where
  after_call-Returns : (r : Request) (o : Option Bytes) → Returns (after_call schedule r o).1
  after_call-Returns r none = tt
  after_call-Returns r (some bytes) = tt

  raw_read-Returns : (n : ℕ) (r : Request) → Returns (raw_read schedule n r).1
  unfolding raw_read
  raw_read-Returns n r = elim (Bool-cases (n == 0)) [
    | inl e ↦ rw (e, Returns) tt
    | inr e ↦ elim (Bool-cases (is_empty r.buffered)) [
      | inl b ↦ rw (e, b) (after_call-Returns r (received schedule r n))
      | inr b ↦ rw (e, b, Returns) tt
    ]
  ]

  as_io_error-Returns :
      (x : Request × Reply Bytes) → Returns x.1 → Returns (as_io_error schedule x).1
  as_io_error-Returns (r, got b) v = tt
  as_io_error-Returns (r, failed code) v = tt
  as_io_error-Returns (r, spent) v = v

  one_byte-Returns : (r : Request) (b : Bytes) → Returns (one_byte schedule b r).1
  one_byte-Returns r [] = tt
  one_byte-Returns r (c ∷ []) = tt
  one_byte-Returns r (c ∷ d ∷ cs) = tt

  raw_byte-Returns : (r : Request) → Returns (raw_byte schedule r).1
  unfolding raw_byte
  raw_byte-Returns r =
      follow-Returns (as_io_error schedule (raw_read schedule 1 r)) (one_byte schedule)
        (as_io_error-Returns (raw_read schedule 1 r) (raw_read-Returns 1 r)) one_byte-Returns

  -- Both branches of a test return.
  if-Returns :
      {A : Type 0} (b : Bool) (x y : Run A) (r : Request)
      → Returns (x r).1
      → (b ≡ false → Returns (y r).1)
      → Returns ((if b then x else y) r).1
  if-Returns true x y r h k = h
  if-Returns false x y r h k = k refl

  exact_loop-Returns :
      (fuel n : ℕ) (acc : Bytes) (r : Request)
      → n ≤ fuel
      → Returns (exact_loop schedule fuel n acc r).1
  unfolding exact_loop
  exact_loop-Returns fuel zero acc r h = tt
  exact_loop-Returns zero (suc n) acc r h = absurd (omega arith)
  exact_loop-Returns (suc fuel) (suc n) acc r h =
      follow-Returns (raw_read schedule (suc n) r) _ (raw_read-Returns (suc n) r) (λ s b.
        if-Returns (is_empty b) _ _ s tt (λ ne.
          exact_loop-Returns fuel (suc n - length b) (acc ++ b) s (omega (arith, positive b ne))))

  line_feed-Returns : (line : Bytes) (r : Request) → Returns (line_feed schedule line r).1
  line_feed-Returns line r =
      follow-Returns (raw_byte schedule r) _ (raw_byte-Returns r)
        (λ s c. if-Returns (c == 10) _ _ s tt (λ _. tt))

  line_loop-Returns :
      (room : ℕ) (line : Bytes) (r : Request) → Returns (line_loop schedule room line r).1
  unfolding line_loop
  line_loop-Returns zero line r =
      follow-Returns (raw_byte schedule r) _ (raw_byte-Returns r)
        (λ s c. if-Returns (c == 13) _ _ s (line_feed-Returns line s) (λ _. tt))
  line_loop-Returns (suc room) line r =
      follow-Returns (raw_byte schedule r) _ (raw_byte-Returns r) (λ s c.
        if-Returns (c == 13) _ _ s (line_feed-Returns line s)
          (λ _. if-Returns (c == 10) _ _ s tt (λ _. line_loop-Returns room (line ++ c ∷ []) s)))

  trailer_loop-Returns :
      (fuel left : ℕ) (r : Request) → left < fuel → Returns (trailer_loop schedule fuel left r).1
  unfolding trailer_loop
  trailer_loop-Returns zero left r h = absurd (omega arith)
  trailer_loop-Returns (suc fuel) left r h =
      follow-Returns (read_line schedule r) _ (line_loop-Returns (http_line_size - 1) [] r)
        (λ s line. if-Returns (is_empty line) _ _ s tt (λ has.
          if-Returns (ltb left (length line)) _ _ s tt (λ fits.
            if-Returns (not (has_colon schedule (c_str line))) _ _ s tt
              (λ _. trailer_loop-Returns fuel (left - length line) s (less line has fits h)))))

  skip_crlf-Returns : (r : Request) → Returns (skip_crlf schedule r).1
  unfolding skip_crlf
  skip_crlf-Returns r = elim (Bool-cases r.chunk_crlf_pending) [
    | inr e ↦ rw (e, Returns) tt
    | inl e ↦ rw e (
        follow-Returns (raw_exact schedule 2 _) _ (exact_loop-Returns 2 2 [] _ (omega arith))
          (λ s crlf. if_result (equal crlf (13 ∷ 10 ∷ [])) _ _ tt tt))
  ]

  chunk_sized-Returns : (r : Request) (c : ChunkSize) → Returns (chunk_sized schedule c r).1
  chunk_sized-Returns r (inl size) = tt
  chunk_sized-Returns r (inr code) = tt

  next_chunk-Returns : (r : Request) → Returns (next_chunk schedule r).1
  unfolding next_chunk
  next_chunk-Returns r = elim (Bool-cases (r.chunk_remaining == 0)) [
    | inr e ↦ rw (e, Returns) tt
    | inl e ↦ rw e (
        follow-Returns (skip_crlf schedule r) _ (skip_crlf-Returns r) (λ s _.
          follow-Returns (read_line schedule s) _ (line_loop-Returns (http_line_size - 1) [] s)
            (λ m line. chunk_sized-Returns m (parse_chunk_size (c_str line)))))
  ]

  read_chunked-Returns : (n : ℕ) (r : Request) → Returns (read_chunked schedule n r).1
  unfolding read_chunked
  read_chunked-Returns n r = follow-Returns (next_chunk schedule r) _ (next_chunk-Returns r) (λ s _.
      elim (Bool-cases (s.chunk_remaining == 0)) [
        | inl e ↦
            rw e (trailer_loop-Returns (suc http_trailers_max) http_trailers_max s (omega arith))
        | inr e ↦ rw e (
            follow-Returns (raw_read schedule (min s.chunk_remaining n) s) (take_chunk schedule)
              (raw_read-Returns (min s.chunk_remaining n) s) (λ m b. tt))
      ])

  read_fixed-Returns : (n : ℕ) (r : Request) → Returns (read_fixed schedule n r).1
  unfolding read_fixed
  read_fixed-Returns n r = elim (Bool-cases (r.fixed_remaining == 0)) [
    | inl e ↦ rw (e, Returns) tt
    | inr e ↦ rw e (
        follow-Returns (raw_read schedule (min r.fixed_remaining n) r) (take_fixed schedule)
          (raw_read-Returns (min r.fixed_remaining n) r) (λ m b. tt))
  ]

  -- For every reader, request and capacity a read returns: the lines, the chunks and the trailers
  -- of a body that is not well formed, or has no end, included.
  pub request_read-Returns : (n : ℕ) (r : Request) → Returns (request_read schedule n r).1
  unfolding request_read
  request_read-Returns n r = if_result r.finished _ _ tt (
      if_result (n == 0) _ _ tt (
        follow-Returns (if r.chunked then read_chunked schedule n r else read_fixed schedule n r)
          (count schedule)
          (if_result r.chunked _ _ (read_chunked-Returns n r) (read_fixed-Returns n r))
          (λ s b. if_result (ltb (size_max - s.decoded_length) (length b)) _ _ tt tt)))

  searched-Returns :
      (loop : ℕ → Request → Request × Reply ℕ) (r : Request) (end : Option ℕ)
      → ((start : ℕ) → Returns (loop start r).1)
      → Returns (searched schedule loop r end).1
  searched-Returns loop r (some n) k = tt
  searched-Returns loop r none k = k (search_from schedule (length r.buffered) 0)

  appended-Returns :
      (loop : ℕ → Request → Request × Reply ℕ) (start : ℕ) (r : Request) (more : Option Bytes)
      → ((start : ℕ) (s : Request) (bytes : Bytes)
          → more ≡ some bytes
          → s.buffered ≡ r.buffered ++ bytes
          → Returns (loop start s).1)
      → Returns (appended schedule loop start r more).1
  appended-Returns loop start r none k = tt
  appended-Returns loop start r (some bytes) k =
      searched-Returns loop _ _ (λ from. k from _ bytes refl refl)

  received-some :
      (r : Request) (n : ℕ) (bytes : Bytes) → received schedule r n ≡ some bytes → 0 < length bytes
  unfolding received
  received-some r n bytes e = elim (Option-cases (schedule r.reads n)) [
    | inl fails ↦ cc (rw (fails, received) at e)
    | inr (k, back) ↦ elim (Bool-cases (ltb n k || is_empty (take k r.rest))) [
      | inl bad ↦ cc (rw (back, bad, received) at e)
      | inr fits ↦
          let same : take k r.rest ≡ bytes = ground arith in
          rw (← same) (positive (take k r.rest) (ground arith))
    ]
  ]

  open_loop-Returns :
      (fuel start : ℕ) (r : Request)
      → http_buffer_size < fuel + length r.buffered
      → length r.buffered ≤ http_buffer_size
      → Returns (open_loop schedule fuel start r).1
  unfolding open_loop
  open_loop-Returns zero start r h k = absurd (omega arith)
  open_loop-Returns (suc fuel) start r h k =
      if_result (length r.buffered == http_buffer_size) _ _ tt (
        appended-Returns (open_loop schedule fuel) start r
          (received schedule r (http_buffer_size - length r.buffered))
          (λ from s bytes e b.
            let (small, _) =
              received-bounds schedule (http_buffer_size - length r.buffered) r bytes e in
            open_loop-Returns fuel from s
              (omega (
                arith,
                ap length b,
                length-append r.buffered bytes,
                received-some r (http_buffer_size - length r.buffered) bytes e,
              ))
              (omega (arith, ap length b, length-append r.buffered bytes))))

  parsed_head-Returns : (n : ℕ) (r : Request) → Returns (parsed_head schedule n r)
  parsed_head-Returns n r = elim (Bool-cases (has_nul (take n r.buffered))) [
    | inl nul ↦ rw nul tt
    | inr clean ↦ rw clean (
        parse_headers-Returns (take (n - 2) r.buffered) (record r { buffered = drop n r.buffered }))
  ]

  after_head-Returns : (x : Request × Reply ℕ) → Returns x.1 → Returns (after_head schedule x)
  after_head-Returns (r, got n) v = parsed_head-Returns n r
  after_head-Returns (r, failed code) v = tt
  after_head-Returns (r, spent) v = v

  -- For every reader and input the head of a request is accepted or refused.
  pub request_open-Returns :
      (granted : Bool) (input : Bytes) → Returns (request_open schedule granted input)
  unfolding request_open
  request_open-Returns false input = tt
  request_open-Returns true input =
      after_head-Returns (open_loop schedule (suc http_buffer_size) 0 (new_request input))
        (open_loop-Returns (suc http_buffer_size) 0 (new_request input) (omega arith) (omega arith))
