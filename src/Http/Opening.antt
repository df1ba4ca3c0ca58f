-- ===== src/Http/Opening.antt =====
-- What `ipp_http_request_open` of main/ipp_http_request.c returns.
use espresso.Prelude.{
  ℕ, zero, suc, ◌≤◌, ◌<◌, subst, length-append, ◌-◌, ◌≡◌, inl, inr, refl, sym, ◌∙◌, arith, Bool,
  true, false, Option, none, some, [], ◌++◌, length, take, drop, ◌==◌, Bytes, Bool-cases,
  append_assoc, take-append-drop,
}
use espresso.Http.{Request, Reply, got, failed, spent, received}
use espresso.Http.Blank.{
  IsWholeHead, has_blank_line, has_blank_line-append, find_end-none, found-IsWholeHead,
  search_from-across,
}
use espresso.Http.Fixed.{received-bounds, IsFixed, stream}
use espresso.Http.Head.{http_buffer_size}
use espresso.Http.Open.{
  new_request, search_from, searched, appended, open_loop, parsed_head, after_head, request_open,
  has_nul, find_end,
}
use espresso.Raster.{Schedule}
use espresso.Http.Framing.{IsFramed, parse_headers-IsFramed}

-- A request before its head is parsed.
abbrev IsBlank : Request → Type 0
IsBlank r =
    (r.content_length ≡ 0)
    × (r.content_type ≡ [])
    × (r.decoded_length ≡ 0)
    × (r.finished ≡ false)
    × (r.chunked ≡ false)

module _ (schedule : Schedule) (input : Bytes) where
  -- What was read is in the buffer.
  abbrev IsOpening : Request → Type 0
  IsOpening r = IsBlank r × (r.buffered ++ r.rest ≡ input)

  -- There is no blank line in it yet, and the search begins in front of a part of one.
  abbrev IsSearching : ℕ → Request → Type 0
  IsSearching start r = (has_blank_line r.buffered ≡ false) × (length r.buffered < 3 → start ≡ 0)

  abbrev Opens : Request × Reply ℕ → Type 0
  Opens (r, got n) = IsOpening r × IsWholeHead (take n r.buffered)
  Opens (r, failed code) = Unit
  Opens (r, spent) = Unit

  abbrev KeepsOpening : (ℕ → Request → Request × Reply ℕ) → Type 0
  KeepsOpening loop =
      (start : ℕ) (s : Request) → IsOpening s → IsSearching start s → Opens (loop start s)

  search_from-zero : (n : ℕ) → n < 3 → search_from schedule n 0 ≡ 0
  unfolding search_from
  search_from-zero n h = ground arith

  searched-Opens :
      (loop : ℕ → Request → Request × Reply ℕ) (from : ℕ) (r : Request) (end : Option ℕ)
      → KeepsOpening loop
      → IsOpening r
      → from ≤ length r.buffered
      → has_blank_line (take from r.buffered ++ take 3 (drop from r.buffered)) ≡ false
      → find_end from (drop from r.buffered) ≡ end
      → Opens (searched schedule loop r end)
  searched-Opens loop from r (some n) k v h across e =
      (v, found-IsWholeHead from r.buffered n h across e)
  searched-Opens loop from r none k v h across e =
      let clean : has_blank_line r.buffered ≡ false =
        subst (λ xs. has_blank_line xs ≡ false) (take-append-drop from r.buffered)
          (has_blank_line-append (take from r.buffered) (drop from r.buffered) across
            (find_end-none from (drop from r.buffered) e)) in
      k (search_from schedule (length r.buffered) 0) r v
        (clean, search_from-zero (length r.buffered))

  appended-Opens :
      (loop : ℕ → Request → Request × Reply ℕ) (start : ℕ) (r : Request) (n : ℕ)
      (more : Option Bytes)
      → KeepsOpening loop
      → IsOpening r
      → IsSearching start r
      → received schedule r n ≡ more
      → Opens (appended schedule loop start r more)
  appended-Opens loop start r n none k v t e = tt
  appended-Opens loop start r n (some bytes) k (blank, whole) (clean, begins) e =
      let (fits, across) = search_from-across schedule start r.buffered bytes clean begins in
      searched-Opens loop (search_from schedule (length r.buffered) start) _ _ k
        (
          blank,
          append_assoc r.buffered bytes _ ∙ rw (← (received-bounds schedule n r bytes e).1) whole,
        )
        (omega (arith, fits, length-append r.buffered bytes)) across refl

  open_loop-Opens :
      (fuel start : ℕ) (r : Request)
      → IsOpening r
      → IsSearching start r
      → Opens (open_loop schedule fuel start r)
  unfolding open_loop
  open_loop-Opens zero start r v t = tt
  open_loop-Opens (suc fuel) start r v t =
      elim (Bool-cases (length r.buffered == http_buffer_size)) [
        | inl full ↦ rw (full, Opens) tt
        | inr room ↦ rw room (
            appended-Opens (open_loop schedule fuel) start r (http_buffer_size - length r.buffered)
              (received schedule r (http_buffer_size - length r.buffered)) (open_loop-Opens fuel) v
              t refl)
      ]

  parsed_head-IsFramed :
      (n : ℕ) (r s : Request)
      → IsOpening r
      → IsWholeHead (take n r.buffered)
      → parsed_head schedule n r ≡ got s
      → IsFramed s × ((head : Bytes) × (input ≡ head ++ stream s) × IsWholeHead head)
  parsed_head-IsFramed n r s ((l, t, d, f, c), whole) ended e =
      elim (Bool-cases (has_nul (take n r.buffered))) [
        | inl nul ↦ cc (rw nul at e)
        | inr clean ↦
            let (framing, b, left) =
              parse_headers-IsFramed (drop n r.buffered) r.rest (take (n - 2) r.buffered)
                (record r { buffered = drop n r.buffered }) s l t d f c refl refl (rw clean at e) in
            (
              framing,
              (
                take n r.buffered,
                sym whole
                    ∙ rw
                        (
                          b,
                          left,
                          ← append_assoc (take n r.buffered) (drop n r.buffered) r.rest,
                          take-append-drop n r.buffered,
                        )
                        refl,
                ended,
              ),
            )
      ]

  after_head-IsFramed :
      (x : Request × Reply ℕ) (s : Request)
      → Opens x
      → after_head schedule x ≡ got s
      → IsFramed s × ((head : Bytes) × (input ≡ head ++ stream s) × IsWholeHead head)
  after_head-IsFramed (r, got n) s v e = parsed_head-IsFramed n r s v.0 v.1 e
  after_head-IsFramed (r, failed code) s v e = cc
  after_head-IsFramed (r, spent) s v e = cc

  -- For every reader: a request that is opened has a method, a path and a content type that fit
  -- their arrays and a content length that fits a size_t, which is 0 where the request is chunked;
  -- all of that length is left, and nothing was handed out; and what is still to be read is what
  -- follows the head in the input, which are the bytes up to and with the first blank line.
  pub request_open-IsFramed :
      (granted : Bool) (r : Request)
      → request_open schedule granted input ≡ got r
      → IsFramed r × ((head : Bytes) × (input ≡ head ++ stream r) × IsWholeHead head)
  unfolding request_open
  request_open-IsFramed false r e = cc
  request_open-IsFramed true r e =
      after_head-IsFramed (open_loop schedule (suc http_buffer_size) 0 (new_request input)) r
        (open_loop-Opens (suc http_buffer_size) 0 (new_request input)
          ((refl, refl, refl, refl, refl), refl) ((unfold has_blank_line in refl), λ h. refl))
        e

-- An opened request with a content length can be read by it.
pub IsFramed-IsFixed : (r : Request) → IsFramed r → r.chunked ≡ false → IsFixed r
IsFramed-IsFixed r f c = record {
  unchunked = c;
  conserved = omega (arith, f.all_left, f.none_decoded);
  fits = f.length_fits;
  ended = λ e. cc;
}
