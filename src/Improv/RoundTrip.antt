-- ===== src/Improv/RoundTrip.antt =====
-- A frame that `encode_packet` wrote is read back, whatever follows it.
use espresso.Prelude.{
  ℕ, zero, suc, ◌+◌, ◌≤◌, ◌<◌, ◌≡◌, refl, ap, ◌∙◌, arith, List, [], ◌∷◌, ◌++◌, length, Bytes,
  ==_refl, append-nil, append_assoc, length-append,
}
use espresso.Improv.{
  header, version, body, max_data, packet_overhead, Parser, ParseResult, nothing, packet,
  parser_reset, checksum_from, parser_feed, encode_packet, feed_all,
}
use espresso.Improv.Invariant.{
  waiting, within, parser_feed-waiting, parser_feed-header, parser_feed-at_type, parser_feed-length,
  parser_feed-within, parser_feed-last,
}

-- `n` bytes without a result in front of a run.
abbrev pub quiet : ℕ → Parser × List ParseResult → Parser × List ParseResult
quiet zero r = r
quiet (suc n) r = ((quiet n r).0, nothing ∷ (quiet n r).1)

feed_all-step :
    (p : Parser) {q : Parser} (b : ℕ) (bs : Bytes)
    → parser_feed p b ≡ (q, nothing)
    → feed_all p (b ∷ bs) ≡ quiet 1 (feed_all q bs)
unfolding feed_all
feed_all-step p b bs e = rw e

feed_all-header :
    (rest : Bytes) → feed_all parser_reset (header ++ rest) ≡ quiet 6 (feed_all (waiting 6) rest)
unfolding feed_all
feed_all-header rest = simp (
  parser_feed-waiting 0 b'I' (omega arith),
  parser_feed-waiting 1 b'M' (omega arith),
  parser_feed-waiting 2 b'P' (omega arith),
  parser_feed-waiting 3 b'R' (omega arith),
  parser_feed-waiting 4 b'O' (omega arith),
  parser_feed-waiting 5 b'V' (omega arith),
)

feed_all-fields :
    (v t n : ℕ) (rest : Bytes)
    → n < 256
    → feed_all (waiting 6) (v ∷ t ∷ n ∷ rest) ≡ quiet 3 (feed_all (within v t n []) rest)
unfolding feed_all
feed_all-fields v t n rest h =
    simp (parser_feed-header v, parser_feed-at_type v t, parser_feed-length v t n h)

feed_all-payload :
    (v t n : ℕ) (part more rest : Bytes)
    → n < 256
    → length part + length more ≡ n
    → feed_all (within v t n part) (more ++ rest)
      ≡ quiet (length more) (feed_all (within v t n (part ++ more)) rest)
feed_all-payload v t n part [] rest hn h = rw append-nil
feed_all-payload v t n part (b ∷ more) rest hn h =
    feed_all-step _ b (more ++ rest) (parser_feed-within v t n b part hn (omega arith))
    ∙ ap (quiet 1) (
        feed_all-payload v t n (part ++ b ∷ []) more rest hn
          (omega (arith, length-append part (b ∷ []))))
    ∙ rw append_assoc

feed_all-checksum :
    (t : ℕ) (payload rest : Bytes)
    → length payload < 256
    → feed_all (within version t (length payload) payload) (checksum_from 0 (body t payload) ∷ rest)
      ≡ (
        (feed_all parser_reset rest).0,
        packet (record { type = t; payload = payload }) ∷ (feed_all parser_reset rest).1,
      )
unfolding feed_all
feed_all-checksum t payload rest h =
    rw (parser_feed-last version t _ _ payload h refl)
      (rw (==_refl (checksum_from 0 (body t payload))))

-- Where the payload fits the length byte and the frame the buffer, the frame is written whole.
pub encode_packet_lem :
    (t capacity : ℕ) (payload : Bytes)
    → length payload ≤ max_data
    → packet_overhead + length payload ≤ capacity
    → encode_packet t payload capacity ≡ body t payload ++ checksum_from 0 (body t payload) ∷ []
unfolding encode_packet
encode_packet_lem t capacity payload h k = ground arith

-- For every payload of at most 255 bytes and a buffer that holds the frame: fed the frame and any
-- bytes behind it, a parser at rest reports nothing for all but the last byte of the frame, the
-- packet with its last byte, and then goes on with the rest as from the start.
pub feed_all-encode_packet :
    (t capacity : ℕ) (payload rest : Bytes)
    → length payload ≤ max_data
    → packet_overhead + length payload ≤ capacity
    → feed_all parser_reset (encode_packet t payload capacity ++ rest)
      ≡ quiet 6 (
          quiet 3 (
            quiet (length payload) (
              (feed_all parser_reset rest).0,
              packet (record { type = t; payload = payload }) ∷ (feed_all parser_reset rest).1,
            )))
feed_all-encode_packet t capacity payload rest h k =
    let check = checksum_from 0 (body t payload) in
    let behind : Bytes = payload ++ (check ∷ rest) in
    ap (λ (f : Bytes). feed_all parser_reset (f ++ rest)) (encode_packet_lem t capacity payload h k)
    ∙ ap (feed_all parser_reset) (append_assoc (body t payload) (check ∷ []) rest)
    ∙ feed_all-header (version ∷ t ∷ length payload ∷ behind)
    ∙ ap (quiet 6) (
        feed_all-fields version t (length payload) behind (omega arith)
        ∙ ap (quiet 3) (
            feed_all-payload version t (length payload) [] payload (check ∷ rest) (omega arith)
              (omega arith)
            ∙ ap (quiet (length payload)) (feed_all-checksum t payload rest (omega arith))))
