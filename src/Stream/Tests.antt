-- ===== src/Stream/Tests.antt =====
-- Runs of the streams, on a writer that takes three bytes at a time and a reader that delivers two.
use espresso.Prelude.{
  ℕ, ◌≡◌, ◌≢◌, refl, min, true, some, none, [], ◌∷◌, ◌++◌, length, Bytes, ◌+◌, ◌==◌, if◌then◌else◌,
}
use espresso.Stream.{
  Writer, Reader, Sink, ok, accepted, write_loop, write_all, write_http_chunk, received, copy_loop,
  copy,
}
use espresso.Stream.Laws.{crlf, delivered, write_http_chunk-taken, copy-delivered, copy-ne-none}

abbrev three : Writer
three n bytes = some (min 3 (length bytes))

abbrev two : Reader
two n wanted = some (if wanted == 1 then n ∷ [] else n ∷ n ∷ [])

abbrev fresh : Sink
fresh = record { taken = []; calls = 0 }

abbrev five : Bytes
five = 1 ∷ 2 ∷ 3 ∷ 4 ∷ 5 ∷ []

abbrev hex_digit : ℕ → Bytes
hex_digit n = (n + 48) ∷ []

write_five : (write_all three five fresh).1 ≡ some ok
unfolding write_loop accepted
write_five = refl

chunk_five : (write_http_chunk three hex_digit five fresh).1 ≡ some ok
unfolding write_http_chunk write_loop accepted
chunk_five = refl

write_http_chunk-taken_example :
    (write_http_chunk three hex_digit five fresh).0.taken
    ≡ [] ++ ((hex_digit 5 ++ crlf) ++ (five ++ crlf))
write_http_chunk-taken_example = write_http_chunk-taken three hex_digit five fresh chunk_five

copy_five : (copy true two three 5 4 fresh).1 ≡ some ok
unfolding copy copy_loop received write_loop accepted
copy_five = refl

copy-delivered_example :
    ((copy true two three 5 4 fresh).0.taken ≡ [] ++ delivered two three 4 5 5 0)
    × (length (delivered two three 4 5 5 0) ≡ 5)
copy-delivered_example = copy-delivered true two three 5 4 fresh copy_five

copy-ne-none_example : (copy true two three 5 4 fresh).1 ≢ none
copy-ne-none_example = copy-ne-none true two three 5 4 fresh
