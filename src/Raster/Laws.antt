-- ===== src/Raster/Laws.antt =====
-- What the reads and writes of main/raster_converter.c move.
use espresso.Prelude.{
  ℕ, zero, suc, ◌-◌, ◌≤◌, ◌≡◌, ◌≢◌, refl, sym, ap, ◌∙◌, arith, Bool, true, false, ◌&&◌, Option,
  none, some, [], ◌∷◌, ◌++◌, length, take, drop, get_or, ltb, ◌==◌, if◌then◌else◌, Bytes,
  length-take, length-append, append_assoc, append-nil, Bool-cases, Option-cases, inl, inr,
}
use espresso.Raster.{
  Schedule, Io, Outcome, done, stopped, spent, Run, follow, ◌>>=◌, pure, require, ReadResult,
  read_ok, read_eof, read_failed, read_spent, delivered, read_loop, read_exact, after_read,
  must_read, after_write, must_write, copy_bytes, copy_byte,
}
use espresso.Raster.Header.{RasterResult}
use espresso.Stream.{Writer, Sink, StreamResult, write_all}
use espresso.Stream.Laws.{write_all-taken}

-- A chain that is done had a first step that was.
pub follow-done :
    {A B : Type 0} (x : Io × Outcome A) (k : A → Run B) (io : Io) (b : B)
    → follow x k ≡ (io, done b)
    → (mid : Io) × (a : A) × (x ≡ (mid, done a)) × (k a mid ≡ (io, done b))
follow-done (mid, done a) k io b e = (mid, a, refl, e)
follow-done (mid, stopped code) k io b e = cc
follow-done (mid, spent) k io b e = cc

pub require-done :
    (b : Bool) (code : RasterResult) (io out : Io) (u : Unit {0})
    → require b code io ≡ (out, done u)
    → (b ≡ true) × (io ≡ out)
unfolding require
require-done true code io out u e = (refl, ground arith)
require-done false code io out u e = cc

-- From one state to a later one, the bytes read are those written.
pub record Copies (P : Bytes → Type 0) (from to : Io) : Type 0 where
  pub bytes : Bytes
  pub read_is : from.rest ≡ bytes ++ to.rest
  pub sent_is : to.sink.taken ≡ from.sink.taken ++ bytes
  pub holds : P bytes

pub Copies-none : {P : Bytes → Type 0} (io : Io) → P [] → Copies P io io
Copies-none io p = record {
  bytes = [];
  read_is = refl;
  sent_is = sym (append-nil io.sink.taken);
  holds = p;
}

pub Copies-join :
    {P Q R : Bytes → Type 0} {a b c : Io}
    → ((x y : Bytes) → P x → Q y → R (x ++ y))
    → Copies P a b
    → Copies Q b c
    → Copies R a c
Copies-join {b = b} f first second = record {
  bytes = first.bytes ++ second.bytes;
  read_is = first.read_is ∙ rw second.read_is (sym (append_assoc first.bytes second.bytes _));
  sent_is = second.sent_is ∙ rw first.sent_is (append_assoc _ first.bytes second.bytes);
  holds = f first.bytes second.bytes first.holds second.holds;
}

pub split_at : (k : ℕ) (xs : Bytes) → xs ≡ take k xs ++ drop (length (take k xs)) xs
split_at zero xs = refl
split_at (suc k) [] = refl
split_at (suc k) (x ∷ xs) = ap (◌∷◌ x) (split_at k xs)

-- The end of the input is no good read.
not_ok :
    (b : Bool) {io out : Io} {bytes : Bytes}
    → ◌≢◌ {A = Io × ReadResult} (io, if b then read_eof else read_failed) (out, read_ok bytes)
not_ok true e = cc
not_ok false e = cc

ends_ne-spent : (b : Bool) → ◌≢◌ {A = ReadResult} (if b then read_eof else read_failed) read_spent
ends_ne-spent true e = cc
ends_ne-spent false e = cc

pub Copies-map :
    {P Q : Bytes → Type 0} {a b : Io} → ((x : Bytes) → P x → Q x) → Copies P a b → Copies Q a b
Copies-map f c = record {
  bytes = c.bytes;
  read_is = c.read_is;
  sent_is = c.sent_is;
  holds = f c.bytes c.holds;
}

one_byte : (b : Bytes) (c : ℕ) → get_or b 0 0 ≡ c → length b ≡ 1 → b ≡ c ∷ []
one_byte [] c e h = absurd (omega arith)
one_byte (x ∷ []) c e h = ap (λ (n : ℕ). n ∷ []) e
one_byte (x ∷ y ∷ b) c e h = absurd (omega arith)

module _ (schedule : Schedule) where
  pub delivered-bounds :
      (io : Io) (wanted : ℕ) (bytes : Bytes)
      → delivered schedule io wanted ≡ some bytes
      → (length bytes ≤ wanted) × (io.rest ≡ bytes ++ drop (length bytes) io.rest)
  unfolding delivered
  delivered-bounds io wanted bytes e = elim (Option-cases (schedule io.reads wanted)) [
    | inl fails ↦ cc (rw (fails, delivered) at e)
    | inr (k, back) ↦ elim (Bool-cases (ltb wanted k)) [
      | inl over ↦ cc (rw (back, over, delivered) at e)
      | inr fits ↦
          let same : take k io.rest ≡ bytes = ground arith in
          let small : k ≤ wanted = ground arith in
          rw (← same) (omega (arith, length-take k io.rest), split_at k io.rest)
    ]
  ]

  read_loop-ok :
      (fuel left : ℕ) (eof_allowed : Bool) (received : Bytes) (io out : Io) (bytes : Bytes)
      → read_loop schedule fuel left eof_allowed received io ≡ (out, read_ok bytes)
      → (d : Bytes) × ((bytes ≡ received ++ d)
          × (io.rest ≡ d ++ out.rest)
          × (length d ≡ left)
          × (out.sink ≡ io.sink))
  unfolding read_loop
  read_loop-ok fuel zero eof received io out bytes e =
      ([], (ground (arith, append-nil received), ground arith, refl, ground arith))
  read_loop-ok zero (suc left) eof received io out bytes e = cc
  read_loop-ok (suc fuel) (suc left) eof received io out bytes e =
      elim (Option-cases (delivered schedule io (suc left))) [
        | inl fails ↦ cc (rw (fails, read_loop) at e)
        | inr (piece, got) ↦ elim (Bool-cases (length piece == 0)) [
          | inl ends ↦ absurd (not_ok _ (rw (got, ends, read_loop) at e))
          | inr goes ↦
              let (small, split) = delivered-bounds io (suc left) piece got in
              let (d, (whole, read_is, len, same)) =
                read_loop-ok fuel (suc left - length piece) eof (received ++ piece)
                  (record io { reads = suc io.reads; rest = drop (length piece) io.rest }) out bytes
                  (rw (got, goes, read_loop) at e) in
              (
                piece ++ d,
                (
                  whole ∙ append_assoc received piece d,
                  split ∙ rw read_is (sym (append_assoc piece d out.rest)),
                  omega (arith, length-append piece d),
                  same,
                ),
              )
        ]
      ]

  -- A read that has some bytes, or may not meet the end, does not report it.
  read_loop-ne-eof :
      (fuel left : ℕ) (eof_allowed : Bool) (received : Bytes) (io : Io)
      → (length received == 0 && eof_allowed) ≡ false
      → (read_loop schedule fuel left eof_allowed received io).1 ≢ read_eof
  unfolding read_loop
  read_loop-ne-eof fuel zero eof received io h = λ e. cc
  read_loop-ne-eof zero (suc left) eof received io h = λ e. cc
  read_loop-ne-eof (suc fuel) (suc left) eof received io h =
      elim (Option-cases (delivered schedule io (suc left))) [
        | inl fails ↦ rw (fails, read_loop) (λ e. cc)
        | inr (piece, got) ↦ elim (Bool-cases (length piece == 0)) [
          | inl ends ↦ rw (got, ends, h, read_loop) (λ e. cc)
          | inr goes ↦
              rw (got, goes, read_loop)
                (read_loop-ne-eof fuel (suc left - length piece) eof (received ++ piece) _
                  (ground (arith, length-append received piece)))
        ]
      ]

  -- Each turn delivers a byte at least, so a fuel of the bytes wanted lasts.
  read_loop-ne-spent :
      (fuel left : ℕ) (eof_allowed : Bool) (received : Bytes) (io : Io)
      → left ≤ fuel
      → (read_loop schedule fuel left eof_allowed received io).1 ≢ read_spent
  unfolding read_loop
  read_loop-ne-spent fuel zero eof received io h = λ e. cc
  read_loop-ne-spent zero (suc left) eof received io h = absurd (omega arith)
  read_loop-ne-spent (suc fuel) (suc left) eof received io h =
      elim (Option-cases (delivered schedule io (suc left))) [
        | inl fails ↦ rw (fails, read_loop) (λ e. cc)
        | inr (piece, got) ↦ elim (Bool-cases (length piece == 0)) [
          | inl ends ↦ rw (got, ends, read_loop) (ends_ne-spent (length received == 0 && eof))
          | inr goes ↦
              rw (got, goes, read_loop)
                (read_loop-ne-spent fuel (suc left - length piece) eof (received ++ piece) _
                  (ground arith))
        ]
      ]

  pub read_exact-ne-spent :
      (n : ℕ) (eof_allowed : Bool) (io : Io) → (read_exact schedule n eof_allowed io).1 ≢ read_spent
  read_exact-ne-spent n eof io = read_loop-ne-spent n n eof [] io (omega arith)

  pub read_exact-ne-eof : (n : ℕ) (io : Io) → (read_exact schedule n false io).1 ≢ read_eof
  read_exact-ne-eof n io = read_loop-ne-eof n n false [] io refl

  -- Where the end of the input is reported, nothing was read.
  pub read_exact-eof :
      (n : ℕ) (io out : Io)
      → read_exact schedule n true io ≡ (out, read_eof)
      → (io.rest ≡ out.rest) × (out.sink ≡ io.sink)
  unfolding read_loop
  read_exact-eof zero io out e = cc
  read_exact-eof (suc n) io out e = elim (Option-cases (delivered schedule io (suc n))) [
    | inl fails ↦ cc (rw (fails, read_loop) at e)
    | inr (piece, got) ↦ elim (Bool-cases (length piece == 0)) [
      | inl ends ↦
          let same : record io { reads = suc io.reads } ≡ out =
            ap (λ (x : Io × ReadResult). x.0) (rw (got, ends, read_loop) at e) in
          rw (← same) (refl, refl)
      | inr goes ↦ absurd (
          read_loop-ne-eof n (suc n - length piece) true piece _ (ground arith)
            (ap (λ (x : Io × ReadResult). x.1) (rw (got, goes, read_loop) at e)))
    ]
  ]

  pub read_exact-ok :
      (n : ℕ) (eof_allowed : Bool) (io out : Io) (bytes : Bytes)
      → read_exact schedule n eof_allowed io ≡ (out, read_ok bytes)
      → (io.rest ≡ bytes ++ out.rest) × (length bytes ≡ n) × (out.sink ≡ io.sink)
  read_exact-ok n eof io out bytes e =
      let (d, (whole, read_is, len, same)) = read_loop-ok n n eof [] io out bytes e in
      rw whole (read_is, len, same)

  after_read-done :
      (x : Io × ReadResult) (out : Io) (bytes : Bytes)
      → after_read schedule x ≡ (out, done bytes)
      → x ≡ (out, read_ok bytes)
  after_read-done (io, read_ok d) out bytes e = ground arith
  after_read-done (io, read_eof) out bytes e = cc
  after_read-done (io, read_failed) out bytes e = cc
  after_read-done (io, read_spent) out bytes e = cc

  pub must_read-done :
      (n : ℕ) (io out : Io) (bytes : Bytes)
      → must_read schedule n io ≡ (out, done bytes)
      → (io.rest ≡ bytes ++ out.rest) × (length bytes ≡ n) × (out.sink ≡ io.sink)
  must_read-done n io out bytes e =
      read_exact-ok n false io out bytes
        (after_read-done (read_exact schedule n false io) out bytes e)

  module _ (writer : Writer) where
    after_write-done :
        (io out : Io) (u : Unit {0}) (x : Sink × Option StreamResult)
        → after_write schedule writer io x ≡ (out, done u)
        → (x.1 ≡ some StreamResult.ok) × (record io { sink = x.0 } ≡ out)
    after_write-done io out u (s, some StreamResult.ok) e = (refl, ground arith)
    after_write-done io out u (s, some StreamResult.read_error) e = cc
    after_write-done io out u (s, some StreamResult.write_error) e = cc
    after_write-done io out u (s, some StreamResult.no_memory) e = cc
    after_write-done io out u (s, none) e = cc

    pub must_write-done :
        (bytes : Bytes) (io out : Io) (u : Unit {0})
        → must_write schedule writer bytes io ≡ (out, done u)
        → (out.rest ≡ io.rest) × (out.sink.taken ≡ io.sink.taken ++ bytes)
    must_write-done bytes io out u e =
        let (good, same) = after_write-done io out u (write_all writer bytes io.sink) e in
        rw (← same) (refl, write_all-taken writer bytes io.sink good)

    pub copy_bytes-Copies :
        (n : ℕ) (io out : Io) (bytes : Bytes)
        → copy_bytes schedule writer n io ≡ (out, done bytes)
        → Copies (λ (b : Bytes). (b ≡ bytes) × (length b ≡ n)) io out
    copy_bytes-Copies n io out bytes e =
        let (mid, got, reads, later) =
          follow-done (must_read schedule n io)
            (λ (b : Bytes). must_write schedule writer b >>= λ _. pure b) out bytes e in
        let (last, u, writes, ends) =
          follow-done (must_write schedule writer got mid) (λ _. pure got) out bytes later in
        let (read_is, len, sink_is) = must_read-done n io mid got reads in
        let (rest_is, taken_is) = must_write-done got mid last u writes in
        let same : last ≡ out = ground arith in
        let whole : got ≡ bytes = ground arith in
        record {
          bytes = got;
          read_is = read_is ∙ rw (← same, rest_is) refl;
          sent_is = rw (← same) (taken_is ∙ rw sink_is refl);
          holds = (whole, len);
        }

    pub copy_byte-Copies :
        (io out : Io) (c : ℕ)
        → copy_byte schedule writer io ≡ (out, done c)
        → Copies (λ (b : Bytes). b ≡ c ∷ []) io out
    unfolding copy_byte
    copy_byte-Copies io out c e =
        let (mid, got, copied, ends) =
          follow-done (copy_bytes schedule writer 1 io) (λ (b : Bytes). pure (get_or b 0 0)) out c
            e in
        let same : mid ≡ out = ground arith in
        let first : get_or got 0 0 ≡ c = ground arith in
        let moved : Copies (λ (b : Bytes). (b ≡ got) × (length b ≡ 1)) io out =
          rw (← same) (copy_bytes-Copies 1 io mid got copied) in
        Copies-map
          (λ b (whole, len). one_byte b c (ap (λ (d : Bytes). get_or d 0 0) whole ∙ first) len)
          moved
