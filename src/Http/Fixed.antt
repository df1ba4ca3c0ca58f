-- ===== src/Http/Fixed.antt =====
-- A body of a fixed length, as `ipp_http_request_read` of main/ipp_http_request.c hands it out.
use espresso.Prelude.{
  ℕ, ◌+◌, ◌-◌, ◌≤◌, ◌≡◌, ◌⊎◌, inl, inr, refl, ◌∙◌, arith, min, true, false, ◌||◌, some, [], ◌∷◌,
  ◌++◌, length, take, drop, ltb, ◌==◌, Bytes, length-take, append_assoc, take-append-drop,
  Bool-cases, Option-cases,
}
use espresso.Http.{
  Request, Reply, got, failed, spent, follow, received, raw_read, take_fixed, read_fixed, count,
  request_read,
}
use espresso.Http.Sizes.{done, io_error}
use espresso.Ipp.Buffer.{size_max}
use espresso.Ipp.Walk.{is_empty}
use espresso.Raster.{Schedule}
use espresso.Raster.Laws.{split_at}

-- What the network still has for this request: the buffered bytes first.
abbrev pub stream : Request → Bytes
stream r = r.buffered ++ r.rest

-- A request with a content length, of which the bytes handed out and those left make up the whole.
pub record IsFixed (r : Request) : Type 0 where
  pub unchunked : r.chunked ≡ false
  pub conserved : r.decoded_length + r.fixed_remaining ≡ r.content_length
  pub fits : r.content_length ≤ size_max
  pub ended : r.finished ≡ true → r.fixed_remaining ≡ 0

-- The fields that a raw read leaves alone.
abbrev Kept : Request → Request → Type 0
Kept r s =
    (s.chunked ≡ r.chunked)
    × (s.decoded_length ≡ r.decoded_length)
    × (s.fixed_remaining ≡ r.fixed_remaining)
    × (s.content_length ≡ r.content_length)
    × (s.finished ≡ r.finished)

abbrev IsRaw : ℕ → Request → Request × Reply Bytes → Type 0
IsRaw n r (s, got bytes) = Kept r s × (length bytes ≤ n) × (stream r ≡ bytes ++ stream s)
IsRaw n r (s, failed code) = Kept r s × (code ≡ io_error)
IsRaw n r (s, spent) = ⊥

empty_nil : (xs : Bytes) → is_empty xs ≡ true → xs ≡ []
empty_nil [] h = refl
empty_nil (x ∷ xs) h = cc

module _ (schedule : Schedule) where
  pub received-bounds :
      (n : ℕ) (r : Request) (bytes : Bytes)
      → received schedule r n ≡ some bytes
      → (length bytes ≤ n) × (r.rest ≡ bytes ++ drop (length bytes) r.rest)
  unfolding received
  received-bounds n r bytes e = elim (Option-cases (schedule r.reads n)) [
    | inl fails ↦ cc (rw (fails, received) at e)
    | inr (k, back) ↦ elim (Bool-cases (ltb n k || is_empty (take k r.rest))) [
      | inl bad ↦ cc (rw (back, bad, received) at e)
      | inr fits ↦
          let same : take k r.rest ≡ bytes = ground arith in
          let small : k ≤ n = ground arith in
          rw (← same) (omega (arith, length-take k r.rest), split_at k r.rest)
    ]
  ]

  raw_read-IsRaw : (n : ℕ) (r : Request) → IsRaw n r (raw_read schedule n r)
  unfolding raw_read
  raw_read-IsRaw n r = elim (Bool-cases (n == 0)) [
    | inl nothing ↦ rw nothing ((refl, refl, refl, refl, refl), omega arith, refl)
    | inr some_room ↦ elim (Bool-cases (is_empty r.buffered)) [
      | inr has ↦
          rw (some_room, has)
            (
              (refl, refl, refl, refl, refl),
              omega (arith, length-take n r.buffered),
              rw
                  (
                    ← append_assoc (take n r.buffered) (drop n r.buffered) r.rest,
                    take-append-drop n r.buffered,
                  )
                  refl,
            )
      | inl empty ↦ elim (Option-cases (received schedule r n)) [
        | inl fails ↦ rw (some_room, empty, fails) ((refl, refl, refl, refl, refl), refl)
        | inr (bytes, gives) ↦
            let (small, split) = received-bounds n r bytes gives in
            rw (some_room, empty, gives)
              ((refl, refl, refl, refl, refl), small, rw (empty_nil r.buffered empty) split)
      ]
    ]
  ]

  -- What a read of a body of a fixed length may return: the next bytes of the stream, no more than
  -- asked for; the end, when the whole length was handed out; or a failure of the reader.
  abbrev pub Delivers : ℕ → Request → Request × Reply Bytes → Type 0
  Delivers n r (s, got bytes) =
      (length bytes ≤ n)
      × (stream r ≡ bytes ++ stream s)
      × (s.decoded_length ≡ r.decoded_length + length bytes)
  Delivers n r (s, failed code) =
      ((code ≡ done) × (s.decoded_length ≡ s.content_length)) ⊎ (code ≡ io_error)
  Delivers n r (s, spent) = ⊥

  taken-IsFixed :
      (n : ℕ) (r : Request) (x : Request × Reply Bytes)
      → IsFixed r
      → r.finished ≡ false
      → IsRaw (min r.fixed_remaining n) r x
      → IsFixed (follow (follow x (take_fixed schedule)) (count schedule)).0
        × Delivers n r (follow (follow x (take_fixed schedule)) (count schedule))
  taken-IsFixed n r (s, got bytes) f going ((c, d, fr, cl, fin), small, split) =
      let room : ltb (size_max - s.decoded_length) (length bytes) ≡ false = ground arith in
      rw room (
        record {
          unchunked = c ∙ f.unchunked;
          conserved = omega arith;
          fits = omega arith;
          ended = λ e. cc;
        },
        (omega arith, split, omega arith),
      )
  taken-IsFixed n r (s, failed code) f going ((c, d, fr, cl, fin), io) = (
    record {
      unchunked = c ∙ f.unchunked;
      conserved = omega arith;
      fits = omega arith;
      ended = λ e. cc;
    },
    inr io,
  )
  taken-IsFixed n r (s, spent) f going w = absurd w

  reads_more :
      (n : ℕ) (r : Request)
      → r.finished ≡ false
      → (n == 0) ≡ false
      → r.chunked ≡ false
      → (r.fixed_remaining == 0) ≡ false
      → request_read schedule n r
        ≡ follow
            (follow (raw_read schedule (min r.fixed_remaining n) r) (take_fixed schedule))
            (count schedule)
  unfolding request_read read_fixed
  reads_more n r going some_room unchunked left = ground arith

  -- For every reader and every request with a content length: a read keeps the balance of the
  -- bytes handed out and those left; it returns the next bytes of the stream and counts them, or
  -- the end when exactly the content length was handed out, or the reader's failure.
  pub request_read-IsFixed :
      (n : ℕ) (r : Request)
      → IsFixed r
      → IsFixed (request_read schedule n r).0 × Delivers n r (request_read schedule n r)
  unfolding request_read read_fixed
  request_read-IsFixed n r f = elim (Bool-cases r.finished) [
    | inl over ↦ rw over (
      record {
        unchunked = f.unchunked;
        conserved = f.conserved;
        fits = f.fits;
        ended = λ _. f.ended over;
      },
      inl (refl, (let none_left = f.ended over in omega arith)),
    )
    | inr going ↦ elim (Bool-cases (n == 0)) [
      | inl nothing ↦
          rw (going, nothing)
            (
              record {
                unchunked = f.unchunked;
                conserved = f.conserved;
                fits = f.fits;
                ended = λ e. cc;
              },
              (omega arith, refl, omega arith),
            )
      | inr some_room ↦ elim (Bool-cases (r.fixed_remaining == 0)) [
        | inl complete ↦
            let none_left : r.fixed_remaining ≡ 0 = ground arith in
            rw (going, some_room, f.unchunked, complete)
              (
                record {
                  unchunked = refl;
                  conserved = f.conserved;
                  fits = f.fits;
                  ended = λ _. none_left;
                },
                inl (refl, omega arith),
              )
        | inr left ↦ rw (reads_more n r going some_room f.unchunked left) (
            taken-IsFixed n r (raw_read schedule (min r.fixed_remaining n) r) f going
              (raw_read-IsRaw (min r.fixed_remaining n) r))
      ]
    ]
  ]
