-- ===== src/Stream.antt =====
-- main/ipp_stream.c: writing all of a buffer, HTTP chunks, and the copy from a reader to a writer.
-- The callbacks are parameters. Data and callbacks are not NULL.
pub mod Laws
mod Tests
use espresso.Prelude.{
  ℕ, zero, suc, ◌-◌, min, Bool, not, ◌||◌, Option, none, some, List, [], ◌∷◌, ◌++◌, length, take,
  drop, ltb, ◌==◌, if◌then◌else◌, Bytes,
}

-- The int that the n-th call of the writer returns for the bytes that it is offered, `none` for a
-- negative one.
abbrev pub Writer : Type 0
Writer = ℕ → Bytes → Option ℕ

-- The bytes that the n-th call of the reader stores, `none` for a negative return.
abbrev pub Reader : Type 0
Reader = ℕ → ℕ → Option Bytes

-- What the writer has taken, and how often it was called.
pub record Sink : Type 0 where
  pub taken : Bytes
  pub calls : ℕ

pub data StreamResult : Type 0 where
  ok : StreamResult
  read_error : StreamResult
  write_error : StreamResult
  no_memory : StreamResult

-- The next step, where the one before it succeeded.
abbrev pub after_write :
    (Sink → Sink × Option StreamResult) → Sink × Option StreamResult → Sink × Option StreamResult
after_write next (s, some ok) = next s
after_write next (s, some read_error) = (s, some read_error)
after_write next (s, some write_error) = (s, some write_error)
after_write next (s, some no_memory) = (s, some no_memory)
after_write next (s, none) = (s, none)

module _ (writer : Writer) where
  -- The bytes that the writer takes of those it is offered; `none` where its return is an error.
  unfoldable pub accepted : ℕ → Bytes → Option ℕ
  accepted n bytes = elim (writer n bytes) [
    | none ↦ none
    | some k ↦ if k == 0 || ltb (length bytes) k then none else some k
  ]

  -- The loop of `ipp_stream_write_all`, on the bytes not yet sent. Each turn sends one at least,
  -- so their number is enough fuel; `none` is no outcome of the C loop.
  unfoldable pub write_loop : ℕ → Bytes → Sink → Sink × Option StreamResult
  write_loop fuel [] s = (s, some ok)
  write_loop zero (b ∷ bs) s = (s, none)
  write_loop (suc fuel) (b ∷ bs) s = elim (accepted s.calls (b ∷ bs)) [
    | none ↦ (record s { calls = suc s.calls }, some write_error)
    | some k ↦
        write_loop fuel (drop k (b ∷ bs))
          (record { taken = s.taken ++ take k (b ∷ bs); calls = suc s.calls })
  ]

  abbrev pub write_all : Bytes → Sink → Sink × Option StreamResult
  write_all bytes s = write_loop (length bytes) bytes s

  -- `ipp_stream_write_http_chunk`; `hex` is what `%zx` prints for the length.
  unfoldable pub write_http_chunk : (ℕ → Bytes) → Bytes → Sink → Sink × Option StreamResult
  write_http_chunk hex bytes s =
      after_write (write_all (13 ∷ 10 ∷ []))
        (after_write (write_all bytes) (write_all (hex (length bytes) ++ 13 ∷ 10 ∷ []) s))

-- The loop of `ipp_stream_copy`, where `n` counts the calls of the reader.
module _ (reader : Reader) (writer : Writer) (chunk_size : ℕ) where
  -- What the reader delivers; `none` where its return is an error.
  unfoldable pub received : ℕ → ℕ → Option Bytes
  received n wanted = elim (reader n wanted) [
    | none ↦ none
    | some bytes ↦ if length bytes == 0 || ltb wanted (length bytes) then none else some bytes
  ]

  unfoldable pub copy_loop : ℕ → ℕ → ℕ → Sink → Sink × Option StreamResult
  copy_loop fuel zero n s = (s, some ok)
  copy_loop zero (suc remaining) n s = (s, none)
  copy_loop (suc fuel) (suc remaining) n s =
      let wanted = min (suc remaining) chunk_size in
      elim (received n wanted) [
        | none ↦ (s, some read_error)
        | some bytes ↦
            after_write (λ (t : Sink). copy_loop fuel (suc remaining - length bytes) (suc n) t)
              (write_all writer bytes s)
      ]

-- `ipp_stream_copy`; `granted` is whether the buffer's allocation succeeds.
unfoldable pub copy : Bool → Reader → Writer → ℕ → ℕ → Sink → Sink × Option StreamResult
copy granted reader writer size chunk_size s =
    if chunk_size == 0
    then (s, some read_error)
    else if size == 0
    then (s, some ok)
    else if not granted
    then (s, some no_memory)
    else copy_loop reader writer (min chunk_size size) size size 0 s
