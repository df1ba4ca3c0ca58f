-- ===== src/Improv/Invariant.antt =====
-- What the parser has stored: the start of one frame, and the length announced in it.
use espresso.Prelude.{
  ℕ, zero, suc, ◌+◌, ◌≤◌, ◌<◌, ◌≡◌, refl, ◌∙◌, arith, dec_lt, [], ◌∷◌, ◌++◌, length, get_or, take,
  drop, ◌==◌, ==_iff, ◌&&◌, if◌then◌else◌, Bool-cases, inl, inr, ◌⊎◌, sym, ap, ◌≡⟨◌⟩◌, ◌∎,
  length-take, append-nil, append_assoc, nil_of_length, All, IsByte, Bytes, take-append,
  get_or-append, length-append,
}
use espresso.Improv.{
  header, version, max_packet_size, Packet, feed_all, Parser, nothing, packet, invalid,
  parser_reset, restart_with_byte, packet_overhead, checksum_from, judge_frame, parser_feed,
  encode_packet,
}

-- The states between frames and within one.
pub data Reading : Parser → Type 0 where
  in_header : (k : ℕ) → k ≤ 6 → Reading (record { bytes = take k header; expected_length = 0 })
  at_type : (v : ℕ) → Reading (record { bytes = header ++ v ∷ []; expected_length = 0 })
  at_length : (v t : ℕ) → Reading (record { bytes = header ++ v ∷ t ∷ []; expected_length = 0 })
  in_payload :
      (v t n : ℕ) (part : Bytes)
      → n < 256
      → length part ≤ n
      → Reading (record { bytes = header ++ v ∷ t ∷ n ∷ part; expected_length = 10 + n })

-- Before the header is complete the parser waits for its next letter, and starts again otherwise.
abbrev pub waiting : ℕ → Parser
waiting k = record { bytes = take k header; expected_length = 0 }

pub parser_feed-waiting :
    (k b : ℕ)
    → k < 6
    → parser_feed (waiting k) b
      ≡ ((if b == get_or header k 0 then waiting (suc k) else restart_with_byte b), nothing)
unfolding parser_feed
parser_feed-waiting zero b h = ground arith
parser_feed-waiting (suc zero) b h = ground arith
parser_feed-waiting (suc (suc zero)) b h = ground arith
parser_feed-waiting (suc (suc (suc zero))) b h = ground arith
parser_feed-waiting (suc (suc (suc (suc zero)))) b h = ground arith
parser_feed-waiting (suc (suc (suc (suc (suc zero))))) b h = ground arith
parser_feed-waiting (suc (suc (suc (suc (suc (suc k)))))) b h = absurd (omega arith)

restart-Reading : (b : ℕ) → Reading (restart_with_byte b)
unfolding restart_with_byte
restart-Reading b = elim (Bool-cases (b == b'I')) [
  | inl e ↦ rw e (rw ((==_iff b b'I').0 e) (in_header 1 (omega arith)))
  | inr e ↦ rw e (in_header 0 (omega arith))
]

-- A frame that is stored up to its length byte, as the parser holds it.
abbrev pub within : ℕ → ℕ → ℕ → Bytes → Parser
within v t n part = record {
  bytes = header ++ v ∷ t ∷ n ∷ part;
  expected_length = packet_overhead + n;
}

pub parser_feed-within :
    (v t n b : ℕ) (part : Bytes)
    → n < 256
    → length part < n
    → parser_feed (within v t n part) b ≡ (within v t n (part ++ b ∷ []), nothing)
unfolding parser_feed judge_frame
parser_feed-within v t n b part hn h = ground (arith, length-append part (b ∷ []))

-- A frame of the announced length is judged by its version and its checksum.
judge_frame_complete :
    (front : Bytes) (b : ℕ)
    → judge_frame (front ++ b ∷ []) (suc (length front)) ≡ (
      parser_reset,
      (if get_or (front ++ b ∷ []) 6 0 == version && checksum_from 0 front == b
          then packet (record {
            type = get_or (front ++ b ∷ []) 7 0;
            payload = take (get_or (front ++ b ∷ []) 8 0) (drop 9 (front ++ b ∷ []));
          })
          else invalid),
    )
unfolding judge_frame
judge_frame_complete front b =
    ground
      (arith, take-append front (b ∷ []), get_or-append front b 0, length-append front (b ∷ []))

parser_feed-judge :
    (v t n b : ℕ) (part : Bytes)
    → n < 256
    → length part ≡ n
    → parser_feed (within v t n part) b
      ≡ judge_frame
          (header ++ v ∷ t ∷ n ∷ (part ++ b ∷ []))
          (suc (length (header ++ v ∷ t ∷ n ∷ part)))
unfolding parser_feed
parser_feed-judge v t n b part hn h = ground (arith, length-append part (b ∷ []))

-- The last byte of a frame: the checksum.
pub parser_feed-last :
    (v t n b : ℕ) (part : Bytes)
    → n < 256
    → length part ≡ n
    → parser_feed (within v t n part) b ≡ (
      parser_reset,
      (if v == version && checksum_from 0 (header ++ v ∷ t ∷ n ∷ part) == b
          then packet (record { type = t; payload = part })
          else invalid),
    )
parser_feed-last v t n b part hn h =
    parser_feed-judge v t n b part hn h
    ∙ judge_frame_complete (header ++ v ∷ t ∷ n ∷ part) b
    ∙ rw (← h, take-append part (b ∷ [])) refl

pub parser_feed-length :
    (v t n : ℕ)
    → n < 256
    → parser_feed (record { bytes = header ++ v ∷ t ∷ []; expected_length = 0 }) n
      ≡ (within v t n [], nothing)
unfolding parser_feed judge_frame
parser_feed-length v t n hn = ground arith

pub parser_feed-at_type :
    (v t : ℕ)
    → parser_feed (record { bytes = header ++ v ∷ []; expected_length = 0 }) t
      ≡ (record { bytes = header ++ v ∷ t ∷ []; expected_length = 0 }, nothing)
unfolding parser_feed judge_frame
parser_feed-at_type v t = refl

pub parser_feed-header :
    (v : ℕ)
    → parser_feed (waiting 6) v
      ≡ (record { bytes = header ++ v ∷ []; expected_length = 0 }, nothing)
unfolding parser_feed judge_frame
parser_feed-header v = refl

next-Reading :
    (k b : ℕ)
    → k < 6
    → Reading (if b == get_or header k 0 then waiting (suc k) else restart_with_byte b)
next-Reading k b h = elim (Bool-cases (b == get_or header k 0)) [
  | inl e ↦ rw e (in_header (suc k) h)
  | inr e ↦ rw e (restart-Reading b)
]

pub step-Reading : {p : Parser} (b : ℕ) → b < 256 → Reading p → Reading (parser_feed p b).0
step-Reading b hb (in_header k h) = elim (dec_lt k 6) [
  | yes more ↦ rw (parser_feed-waiting k b more) (next-Reading k b more)
  | no full ↦ let e : k ≡ 6 = omega arith in rw e (rw (parser_feed-header b) (at_type b))
]
step-Reading b hb (at_type v) = rw (parser_feed-at_type v b) (at_length v b)
step-Reading b hb (at_length v t) =
    rw (parser_feed-length v t b hb) (in_payload v t b [] hb (omega arith))
step-Reading b hb (in_payload v t n part hn h) = elim (dec_lt (length part) n) [
  | yes more ↦
      rw (parser_feed-within v t n b part hn more)
        (in_payload v t n (part ++ b ∷ []) hn (omega (arith, length-append part (b ∷ []))))
  | no full ↦ rw (parser_feed-last v t n b part hn (omega arith)) (in_header 0 (omega arith))
]

run-Reading : (bs : Bytes) {p : Parser} → All IsByte bs → Reading p → Reading (feed_all p bs).0
unfolding feed_all
run-Reading [] h r = r
run-Reading (b ∷ bs) (hb, h) r = run-Reading bs h (step-Reading b hb r)

Reading-bounds :
    {p : Parser}
    → Reading p
    → (length p.bytes < max_packet_size) × (9 ≤ length p.bytes → length p.bytes < p.expected_length)
Reading-bounds (in_header k h) = omega (arith, length-take k header)
Reading-bounds (at_type v) = omega arith
Reading-bounds (at_length v t) = omega arith
Reading-bounds (in_payload v t n part hn h) = omega arith

-- In every state that a stream of bytes can lead to, the stored bytes fit the C array with room
-- for one more, and a frame in progress is shorter than the length it announced.
pub feed_all-bounds :
    (bs : Bytes)
    → All IsByte bs
    → (length (feed_all parser_reset bs).0.bytes < max_packet_size)
      × (9 ≤ length (feed_all parser_reset bs).0.bytes
          → length (feed_all parser_reset bs).0.bytes
            < (feed_all parser_reset bs).0.expected_length)
feed_all-bounds bs h = Reading-bounds (run-Reading bs h (in_header 0 (omega arith)))

-- A frame that is judged good is what `encode_packet` writes.
frame-packet :
    (v t n b : ℕ) (part : Bytes) {k : Packet}
    → n < 256
    → length part ≡ n
    → (if v == version && checksum_from 0 (header ++ v ∷ t ∷ n ∷ part) == b
        then packet (record { type = t; payload = part })
        else invalid)
      ≡ packet k
    → header ++ v ∷ t ∷ n ∷ (part ++ b ∷ []) ≡ encode_packet k.type k.payload max_packet_size
unfolding encode_packet
frame-packet v t n b part hn h e = ground arith

-- A packet comes only with the last byte of a frame that `encode_packet` writes.
Reading-packet :
    {p : Parser} (b : ℕ) {k : Packet}
    → b < 256
    → Reading p
    → (parser_feed p b).1 ≡ packet k
    → p.bytes ++ b ∷ [] ≡ encode_packet k.type k.payload max_packet_size
Reading-packet b hb (in_header k h) e = elim (dec_lt k 6) [
  | yes more ↦ cc (rw (parser_feed-waiting k b more) at e)
  | no full ↦ let six : k ≡ 6 = omega arith in cc (rw (parser_feed-header b) at (rw six at e))
]
Reading-packet b hb (at_type v) e = cc (rw (parser_feed-at_type v b) at e)
Reading-packet b hb (at_length v t) e = cc (rw (parser_feed-length v t b hb) at e)
Reading-packet b hb (in_payload v t n part hn h) e = elim (dec_lt (length part) n) [
  | yes more ↦ cc (rw (parser_feed-within v t n b part hn more) at e)
  | no full ↦
      frame-packet v t n b part hn (omega arith)
        (rw (parser_feed-last v t n b part hn (omega arith)) at e)
]

-- What is kept after a byte: everything, the byte alone, or nothing.
parser_feed-keeps :
    (p : Parser) (b : ℕ)
    → ((parser_feed p b).0.bytes ≡ p.bytes ++ b ∷ [])
      ⊎ (((parser_feed p b).0.bytes ≡ b ∷ []) ⊎ ((parser_feed p b).0.bytes ≡ []))
unfolding parser_feed judge_frame
parser_feed-keeps p b = ground (arith, nil_of_length p.bytes)

parser_feed-suffix :
    (p : Parser) (b : ℕ)
    → (front : Bytes) × (p.bytes ++ b ∷ [] ≡ front ++ (parser_feed p b).0.bytes)
parser_feed-suffix p b = elim (parser_feed-keeps p b) [
  | inl all ↦ ([], sym all)
  | inr (inl one) ↦ (p.bytes, rw one)
  | inr (inr none) ↦ (p.bytes ++ b ∷ [], rw (none, append-nil))
]

-- What the parser holds is the end of what it was fed.
feed_all-suffix :
    (bs : Bytes) (p : Parser) → (front : Bytes) × (p.bytes ++ bs ≡ front ++ (feed_all p bs).0.bytes)
unfolding feed_all
feed_all-suffix [] p = ([], append-nil p.bytes)
feed_all-suffix (b ∷ bs) p =
    let (f, e) = parser_feed-suffix p b in
    let (g, d) = feed_all-suffix bs (parser_feed p b).0 in
    (
      f ++ g,
      p.bytes ++ b ∷ bs
          ≡⟨ sym (append_assoc p.bytes (b ∷ []) bs) ⟩ (p.bytes ++ b ∷ []) ++ bs
          ≡⟨ rw (e, append_assoc) (ap (◌++◌ f) d) ⟩
            f ++ (g ++ (feed_all (parser_feed p b).0 bs).0.bytes)
          ≡⟨ sym (append_assoc f g _) ⟩ (f ++ g) ++ (feed_all (parser_feed p b).0 bs).0.bytes ∎,
    )

-- Whatever bytes came before, a packet is reported only when the stream so far ends in the frame
-- that `encode_packet` writes for it.
pub feed_all-packet :
    (bs : Bytes) (b : ℕ) {k : Packet}
    → All IsByte bs
    → b < 256
    → (parser_feed (feed_all parser_reset bs).0 b).1 ≡ packet k
    → (front : Bytes) × (bs ++ b ∷ [] ≡ front ++ encode_packet k.type k.payload max_packet_size)
feed_all-packet bs b h hb e =
    let (f, d) = feed_all-suffix bs parser_reset in
    let last = Reading-packet b hb (run-Reading bs h (in_header 0 (omega arith))) e in
    (f, ap (λ (t : Bytes). t ++ b ∷ []) d ∙ append_assoc f _ (b ∷ []) ∙ ap (◌++◌ f) last)
