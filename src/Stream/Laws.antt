-- ===== src/Stream/Laws.antt =====
-- What arrives at the writer.
use espresso.Prelude.{
  ℕ, zero, suc, ◌-◌, ◌≤◌, ◌<◌, ◌≡◌, ◌≢◌, refl, sym, ap, ◌∙◌, arith, min, Bool, false, Option, none,
  some, [], ◌∷◌, ◌++◌, length, take, drop, ◌==◌, Bytes, length-drop, length-append, append-nil,
  append_assoc, Bool-cases, take-append-drop, Option-cases, inl, inr,
}
use espresso.Stream.{
  Writer, Reader, Sink, StreamResult, ok, read_error, write_error, no_memory, accepted, write_loop,
  write_all, after_write, write_http_chunk, received, copy_loop, copy,
}

module _ (writer : Writer) where
  accepted-bounds :
      (n : ℕ) (bytes : Bytes) (k : ℕ)
      → accepted writer n bytes ≡ some k
      → (0 < k) × (k ≤ length bytes)
  unfolding accepted
  accepted-bounds n bytes k e = ground arith

  -- The loop ends: its fuel is never used up.
  write_loop-ne-none :
      (fuel : ℕ) (bytes : Bytes) (s : Sink)
      → length bytes ≤ fuel
      → (write_loop writer fuel bytes s).1 ≢ none
  unfolding write_loop
  write_loop-ne-none fuel [] s h = λ e. cc
  write_loop-ne-none zero (b ∷ bs) s h = absurd (omega arith)
  write_loop-ne-none (suc fuel) (b ∷ bs) s h =
      elim (Option-cases (accepted writer s.calls (b ∷ bs))) [
        | inl fails ↦ rw (fails, write_loop) (λ e. cc)
        | inr (k, takes) ↦
            rw (takes, write_loop)
              (write_loop-ne-none fuel (drop k (b ∷ bs)) _
                (omega (arith, length-drop k (b ∷ bs), accepted-bounds s.calls (b ∷ bs) k takes)))
      ]

  -- All the bytes were taken once and in their order, where the result is good.
  write_loop-taken :
      (fuel : ℕ) (bytes : Bytes) (s : Sink)
      → (write_loop writer fuel bytes s).1 ≡ some ok
      → (write_loop writer fuel bytes s).0.taken ≡ s.taken ++ bytes
  unfolding write_loop
  write_loop-taken fuel [] s e = sym (append-nil s.taken)
  write_loop-taken zero (b ∷ bs) s e = cc
  write_loop-taken (suc fuel) (b ∷ bs) s e =
      elim (Option-cases (accepted writer s.calls (b ∷ bs))) [
        | inl fails ↦ cc (rw (fails, write_loop) at e)
        | inr (k, takes) ↦
            rw (takes, write_loop)
              (write_loop-taken fuel (drop k (b ∷ bs)) _ (rw (takes, write_loop) at e)
                ∙ append_assoc s.taken (take k (b ∷ bs)) (drop k (b ∷ bs))
                ∙ ap (λ (d : Bytes). s.taken ++ d) (take-append-drop k (b ∷ bs)))
      ]

  -- For every writer: where all of a buffer is reported written, the writer took its bytes once and
  -- in their order.
  pub write_all-taken :
      (bytes : Bytes) (s : Sink)
      → (write_all writer bytes s).1 ≡ some ok
      → (write_all writer bytes s).0.taken ≡ s.taken ++ bytes
  write_all-taken bytes s e = write_loop-taken (length bytes) bytes s e

  -- For every writer the loop comes to a result, good or bad.
  pub write_all-ne-none : (bytes : Bytes) (s : Sink) → (write_all writer bytes s).1 ≢ none
  write_all-ne-none bytes s = write_loop-ne-none (length bytes) bytes s (omega arith)

after_write-ok :
    (next : Sink → Sink × Option StreamResult) (x : Sink × Option StreamResult)
    → (after_write next x).1 ≡ some ok
    → (x.1 ≡ some ok) × (after_write next x ≡ next x.0)
after_write-ok next (s, some ok) e = (refl, refl)
after_write-ok next (s, some read_error) e = cc
after_write-ok next (s, some write_error) e = cc
after_write-ok next (s, some no_memory) e = cc
after_write-ok next (s, none) e = cc

after_write-ne-none :
    (next : Sink → Sink × Option StreamResult) (x : Sink × Option StreamResult)
    → x.1 ≢ none
    → ((s : Sink) → (next s).1 ≢ none)
    → (after_write next x).1 ≢ none
after_write-ne-none next (s, some ok) h k = k s
after_write-ne-none next (s, some read_error) h k = λ e. cc
after_write-ne-none next (s, some write_error) h k = λ e. cc
after_write-ne-none next (s, some no_memory) h k = λ e. cc
after_write-ne-none next (s, none) h k = h

abbrev pub crlf : Bytes
crlf = 13 ∷ 10 ∷ []

chunk_shape : (t h d : Bytes) → ((t ++ h) ++ d) ++ crlf ≡ t ++ (h ++ (d ++ crlf))
chunk_shape t h d = simp append_assoc

-- For every writer and every printing of lengths: a chunk that is reported written arrived as its
-- length, a line end, its bytes and a line end.
pub write_http_chunk-taken :
    (writer : Writer) (hex : ℕ → Bytes) (bytes : Bytes) (s : Sink)
    → (write_http_chunk writer hex bytes s).1 ≡ some ok
    → (write_http_chunk writer hex bytes s).0.taken
      ≡ s.taken ++ ((hex (length bytes) ++ crlf) ++ (bytes ++ crlf))
unfolding write_http_chunk
write_http_chunk-taken writer hex bytes s e =
    let head = hex (length bytes) ++ crlf in
    let first = write_all writer head s in
    let second = after_write (write_all writer bytes) first in
    let (e2, last) = after_write-ok (write_all writer crlf) second e in
    let (e1, middle) = after_write-ok (write_all writer bytes) first e2 in
    let t1 = write_all-taken writer head s e1 in
    let t2 : second.0.taken ≡ first.0.taken ++ bytes =
      ap (λ (x : Sink × Option StreamResult). x.0.taken) middle
      ∙ write_all-taken writer bytes first.0
          (sym (ap (λ (x : Sink × Option StreamResult). x.1) middle) ∙ e2) in
    ap (λ (x : Sink × Option StreamResult). x.0.taken) last
    ∙ write_all-taken writer crlf second.0
        (sym (ap (λ (x : Sink × Option StreamResult). x.1) last) ∙ e)
    ∙ ap (λ (d : Bytes). d ++ crlf) (t2 ∙ ap (λ (d : Bytes). d ++ bytes) t1)
    ∙ chunk_shape s.taken head bytes

module _ (reader : Reader) (writer : Writer) (chunk_size : ℕ) where
  -- The bytes that the reader delivers, one call after the other.
  abbrev pub or_nothing : Option Bytes → (Bytes → Bytes) → Bytes
  or_nothing none f = []
  or_nothing (some bytes) f = bytes ++ f bytes

  abbrev pub delivered : ℕ → ℕ → ℕ → Bytes
  delivered zero remaining n = []
  delivered (suc fuel) zero n = []
  delivered (suc fuel) (suc remaining) n =
      or_nothing (received reader writer chunk_size n (min (suc remaining) chunk_size))
        (λ (bytes : Bytes). delivered fuel (suc remaining - length bytes) (suc n))

  received-bounds :
      (n wanted : ℕ) (bytes : Bytes)
      → received reader writer chunk_size n wanted ≡ some bytes
      → (0 < length bytes) × (length bytes ≤ wanted)
  unfolding received
  received-bounds n wanted bytes e = ground arith

  copy_loop-taken :
      (fuel remaining n : ℕ) (s : Sink)
      → (copy_loop reader writer chunk_size fuel remaining n s).1 ≡ some ok
      → ((copy_loop reader writer chunk_size fuel remaining n s).0.taken
          ≡ s.taken ++ delivered fuel remaining n)
        × (length (delivered fuel remaining n) ≡ remaining)
  unfolding copy_loop
  copy_loop-taken zero zero n s e = (sym (append-nil s.taken), refl)
  copy_loop-taken (suc fuel) zero n s e = (sym (append-nil s.taken), refl)
  copy_loop-taken zero (suc remaining) n s e = cc
  copy_loop-taken (suc fuel) (suc remaining) n s e =
      let wanted = min (suc remaining) chunk_size in
      elim (Option-cases (received reader writer chunk_size n wanted)) [
        | inl fails ↦ cc (rw (fails, copy_loop) at e)
        | inr (bytes, came) ↦
            let next = λ (t : Sink).
              copy_loop reader writer chunk_size fuel (suc remaining - length bytes) (suc n) t in
            let first = write_all writer bytes s in
            let e' : (after_write next first).1 ≡ some ok = rw (came, copy_loop) at e in
            let (good, goes) = after_write-ok next first e' in
            let (wrote, long) =
              copy_loop-taken fuel (suc remaining - length bytes) (suc n) first.0
                (sym (ap (λ (x : Sink × Option StreamResult). x.1) goes) ∙ e') in
            let bounds = received-bounds n wanted bytes came in
            rw (came, copy_loop)
              (
                ap (λ (x : Sink × Option StreamResult). x.0.taken) goes
                    ∙ wrote
                    ∙ ap (λ (d : Bytes). d ++ delivered fuel (suc remaining - length bytes) (suc n))
                        (write_all-taken writer bytes s good)
                    ∙ append_assoc s.taken bytes _,
                omega (
                  arith,
                  long,
                  bounds,
                  length-append bytes (delivered fuel (suc remaining - length bytes) (suc n)),
                ),
              )
      ]

  copy_loop-ne-none :
      (fuel remaining n : ℕ) (s : Sink)
      → remaining ≤ fuel
      → (copy_loop reader writer chunk_size fuel remaining n s).1 ≢ none
  unfolding copy_loop
  copy_loop-ne-none fuel zero n s h = λ e. cc
  copy_loop-ne-none zero (suc remaining) n s h = absurd (omega arith)
  copy_loop-ne-none (suc fuel) (suc remaining) n s h =
      let wanted = min (suc remaining) chunk_size in
      elim (Option-cases (received reader writer chunk_size n wanted)) [
        | inl fails ↦ rw (fails, copy_loop) (λ e. cc)
        | inr (bytes, came) ↦
            rw (came, copy_loop)
              (after_write-ne-none
                (λ (t : Sink).
                  copy_loop reader writer chunk_size fuel (suc remaining - length bytes) (suc n) t)
                (write_all writer bytes s) (write_all-ne-none writer bytes s)
                (λ t.
                  copy_loop-ne-none fuel (suc remaining - length bytes) (suc n) t
                    (omega (arith, received-bounds n wanted bytes came))))
      ]

-- For every reader, writer and chunk size: where a copy succeeds, the writer took what the calls
-- of the reader delivered, in its order, and that is exactly as many bytes as were asked for.
pub copy-delivered :
    (granted : Bool) (reader : Reader) (writer : Writer) (size chunk_size : ℕ) (s : Sink)
    → (copy granted reader writer size chunk_size s).1 ≡ some ok
    → ((copy granted reader writer size chunk_size s).0.taken
        ≡ s.taken ++ delivered reader writer (min chunk_size size) size size 0)
      × (length (delivered reader writer (min chunk_size size) size size 0) ≡ size)
unfolding copy
copy-delivered granted reader writer zero chunk_size s e = elim (Bool-cases (chunk_size == 0)) [
  | inl whole ↦ cc (rw whole at e)
  | inr chunked ↦ rw chunked (sym (append-nil s.taken), refl)
]
copy-delivered granted reader writer (suc size) chunk_size s e =
    let some_left : (suc size == 0) ≡ false = ground arith in
    elim (Bool-cases (chunk_size == 0)) [
      | inl whole ↦ cc (rw whole at e)
      | inr chunked ↦ elim (Bool-cases granted) [
        | inl got ↦
            rw (chunked, some_left, got)
              (copy_loop-taken reader writer (min chunk_size (suc size)) (suc size) (suc size) 0 s
                (rw (chunked, some_left, got) at e))
        | inr denied ↦ cc (rw (chunked, some_left, denied) at e)
      ]
    ]

-- For every reader and writer a copy comes to a result, good or bad.
pub copy-ne-none :
    (granted : Bool) (reader : Reader) (writer : Writer) (size chunk_size : ℕ) (s : Sink)
    → (copy granted reader writer size chunk_size s).1 ≢ none
unfolding copy
copy-ne-none granted reader writer size chunk_size s =
    ground (arith, copy_loop-ne-none reader writer (min chunk_size size) size size 0 s)
