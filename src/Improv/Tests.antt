-- ===== src/Improv/Tests.antt =====
-- Runs of the Improv codec on concrete frames.
use espresso.Prelude.{[], ◌∷◌, ◌++◌, ◌≡◌, ◌<◌, ◌≤◌, refl, arith, codes, Bytes, All, IsByte, length}
use espresso.Improv.{
  max_packet_size, parser_reset, packet, parser_feed, judge_frame, restart_with_byte, checksum_from,
  encode_packet, feed_all,
}
use espresso.Improv.Invariant.{feed_all-bounds, feed_all-packet}
use espresso.Improv.RoundTrip.{quiet, feed_all-encode_packet}

encode_state : encode_packet 1 (2 ∷ []) 265 ≡ codes "IMPROV" ++ 1 ∷ 1 ∷ 1 ∷ 2 ∷ 226 ∷ []
unfolding encode_packet checksum_from
encode_state = refl

feed_all-encode_packet_example :
    feed_all parser_reset (encode_packet 1 (2 ∷ []) 265 ++ 73 ∷ [])
    ≡ quiet 6 (
        quiet 3 (
          quiet 1 (
            (feed_all parser_reset (73 ∷ [])).0,
            packet (record { type = 1; payload = 2 ∷ [] }) ∷ (feed_all parser_reset (73 ∷ [])).1,
          )))
feed_all-encode_packet_example =
    feed_all-encode_packet 1 265 (2 ∷ []) (73 ∷ []) (omega arith) (omega arith)

abbrev noisy : Bytes
noisy = 88 ∷ 73 ∷ 73 ∷ 77 ∷ 80 ∷ 82 ∷ 79 ∷ 86 ∷ 1 ∷ 1 ∷ 1 ∷ 2 ∷ []

noisy-IsByte : All IsByte noisy
noisy-IsByte = ground arith

noisy-packet :
    (parser_feed (feed_all parser_reset noisy).0 226).1
    ≡ packet (record { type = 1; payload = 2 ∷ [] })
unfolding parser_feed judge_frame restart_with_byte checksum_from feed_all
noisy-packet = refl

feed_all-packet_example :
    (front : Bytes) × (noisy ++ 226 ∷ [] ≡ front ++ encode_packet 1 (2 ∷ []) max_packet_size)
feed_all-packet_example = feed_all-packet noisy 226 noisy-IsByte (omega arith) noisy-packet

feed_all-bounds_example :
    (length (feed_all parser_reset noisy).0.bytes < max_packet_size)
    × (9 ≤ length (feed_all parser_reset noisy).0.bytes
        → length (feed_all parser_reset noisy).0.bytes
          < (feed_all parser_reset noisy).0.expected_length)
feed_all-bounds_example = feed_all-bounds noisy noisy-IsByte
