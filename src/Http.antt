-- ===== src/Http.antt =====
-- main/ipp_http_request.c: the head of a request and its body, over a reader that is a parameter.
-- The buffer is the bytes of it that are not yet taken; no pointer is NULL.
pub mod Sizes
pub mod Fixed
pub mod Head
pub mod Open
pub mod Framing
pub mod Blank
pub mod Opening
pub mod Ends
mod Tests
use espresso.Prelude.{
  ℕ, zero, suc, ◌+◌, ◌-◌, min, Bool, true, false, not, ◌&&◌, ◌||◌, Option, none, some, List, [],
  ◌∷◌, ◌++◌, length, take, drop, ltb, leb, ◌==◌, if◌then◌else◌, Bytes, c_str, equal, inl, inr,
}
use espresso.Ipp.Buffer.{size_max}
use espresso.Http.Sizes.{
  HttpResult, done, malformed, too_large, io_error, parse_chunk_size, ChunkSize,
}
use espresso.Ipp.Walk.{is_empty}
use espresso.Raster.{Schedule}

-- `ipp_http_request_t`, with the calls of its reader and what the reader still has.
pub record Request : Type 0 where
  pub rest : Bytes
  pub reads : ℕ
  pub buffered : Bytes
  pub method : Bytes
  pub path : Bytes
  pub content_type : Bytes
  pub content_length : ℕ
  pub fixed_remaining : ℕ
  pub chunk_remaining : ℕ
  pub decoded_length : ℕ
  pub chunked : Bool
  pub expects_continue : Bool
  pub chunk_crlf_pending : Bool
  pub finished : Bool

-- `got` is IPP_HTTP_OK with what is stored, `failed` any other return; `spent` is no outcome of
-- the C code.
pub data Reply (A : Type 0) : Type 0 where
  got : A → Reply A
  failed : HttpResult → Reply A
  spent : Reply A

abbrev pub Run : Type 0 → Type 0
Run A = Request → Request × Reply A

abbrev pub follow : {A B : Type 0} → Request × Reply A → (A → Run B) → Request × Reply B
follow (r, got a) k = k a r
follow (r, failed code) k = (r, failed code)
follow (r, spent) k = (r, spent)

infixl 1 ◌>>=◌
abbrev pub ◌>>=◌ : {A B : Type 0} → Run A → (A → Run B) → Run B
(m >>= k) r = follow (m r) k

abbrev pub pure : {A : Type 0} → A → Run A
pure a r = (r, got a)

abbrev pub fail : {A : Type 0} → HttpResult → Run A
fail code r = (r, failed code)

abbrev pub http_line_size : ℕ
http_line_size = 256

abbrev pub http_trailers_max : ℕ
http_trailers_max = 2048

module _ (schedule : Schedule) where
  -- What a call of the reader stores; `none` where its return is an error, 0 included.
  unfoldable pub received : Request → ℕ → Option Bytes
  received r capacity = elim (schedule r.reads capacity) [
    | none ↦ none
    | some k ↦ if ltb capacity k || is_empty (take k r.rest) then none else some (take k r.rest)
  ]

  abbrev pub after_call : Request → Option Bytes → Request × Reply Bytes
  after_call r none = (record r { reads = suc r.reads }, failed io_error)
  after_call r (some bytes) =
      (record r { reads = suc r.reads; rest = drop (length bytes) r.rest }, got bytes)

  unfoldable pub raw_read : ℕ → Run Bytes
  raw_read capacity r =
      if capacity == 0
      then (r, got [])
      else if not (is_empty r.buffered)
      then (record r { buffered = drop capacity r.buffered }, got (take capacity r.buffered))
      else after_call r (received r capacity)

  -- `raw_byte`; another number of bytes than one is an error.
  abbrev pub one_byte : Bytes → Run ℕ
  one_byte (c ∷ []) = pure c
  one_byte [] = fail io_error
  one_byte (c ∷ d ∷ cs) = fail io_error

  abbrev pub as_io_error : Request × Reply Bytes → Request × Reply Bytes
  as_io_error (r, got bytes) = (r, got bytes)
  as_io_error (r, failed code) = (r, failed io_error)
  as_io_error (r, spent) = (r, spent)

  unfoldable pub raw_byte : Run ℕ
  raw_byte r = follow (as_io_error (raw_read 1 r)) one_byte

  -- `raw_exact`, on the bytes still wanted; each turn takes one at least.
  unfoldable pub exact_loop : ℕ → ℕ → Bytes → Run Bytes
  exact_loop fuel zero acc = pure acc
  exact_loop zero (suc left) acc = λ r. (r, spent)
  exact_loop (suc fuel) (suc left) acc = do
    bytes ← raw_read (suc left)
    if is_empty bytes
        then fail io_error
        else exact_loop fuel (suc left - length bytes) (acc ++ bytes)

  abbrev pub raw_exact : ℕ → Run Bytes
  raw_exact n = exact_loop n n []

  -- Behind a carriage return.
  abbrev pub line_feed : Bytes → Run Bytes
  line_feed line = do c ← raw_byte; if c == 10 then pure line else fail malformed

  -- The loop of `read_line`, on the room that is left for the line.
  unfoldable pub line_loop : ℕ → Bytes → Run Bytes
  line_loop zero line = do c ← raw_byte; if c == 13 then line_feed line else fail too_large
  line_loop (suc room) line = do
    c ← raw_byte
    (if c == 13
        then line_feed line
        else if c == 10
        then fail malformed
        else line_loop room (line ++ c ∷ []))

  abbrev pub read_line : Run Bytes
  read_line = line_loop (http_line_size - 1) []

  unfoldable pub has_colon : Bytes → Bool
  has_colon [] = false
  has_colon (c ∷ cs) = c == b':' || has_colon cs

  abbrev pub finish : Run Bytes
  finish r = (record r { finished = true }, failed done)

  -- The loop of `finish_chunked_body`, on the bytes of trailers that are left; each line has one at
  -- least, so their number and one more is enough fuel.
  unfoldable pub trailer_loop : ℕ → ℕ → Run Bytes
  trailer_loop zero left = λ r. (r, spent)
  trailer_loop (suc fuel) left = do
    line ← read_line
    (if is_empty line
        then finish
        else if ltb left (length line)
        then fail too_large
        else if not (has_colon (c_str line))
        then fail malformed
        else trailer_loop fuel (left - length line))

  abbrev pub finish_chunked_body : Run Bytes
  finish_chunked_body = trailer_loop (suc http_trailers_max) http_trailers_max

  -- Behind a chunk, the CRLF that ends it.
  unfoldable pub skip_crlf : Run (Unit {0})
  skip_crlf r =
      if r.chunk_crlf_pending
      then follow (raw_exact 2 r) (λ crlf m.
        if equal crlf (13 ∷ 10 ∷ [])
        then (record m { chunk_crlf_pending = false }, got tt)
        else (m, failed malformed))
      else (r, got tt)

  abbrev pub chunk_sized : ChunkSize → Run (Unit {0})
  chunk_sized (inl size) r = (record r { chunk_remaining = size }, got tt)
  chunk_sized (inr code) r = (r, failed code)

  -- The loop up to a chunk with data: a size of 0 returns, so it has one turn at most.
  unfoldable pub next_chunk : Run (Unit {0})
  next_chunk r =
      if r.chunk_remaining == 0
      then (do tt ← skip_crlf; line ← read_line; chunk_sized (parse_chunk_size (c_str line))) r
      else (r, got tt)

  abbrev pub take_chunk : Bytes → Run Bytes
  take_chunk bytes r = (
    record r {
      chunk_remaining = r.chunk_remaining - length bytes;
      chunk_crlf_pending = r.chunk_crlf_pending || r.chunk_remaining - length bytes == 0;
    },
    got bytes,
  )

  unfoldable pub read_chunked : ℕ → Run Bytes
  read_chunked capacity = do
    tt ← next_chunk
    λ r.
        if r.chunk_remaining == 0
        then finish_chunked_body r
        else follow (raw_read (min r.chunk_remaining capacity) r) take_chunk

  abbrev pub take_fixed : Bytes → Run Bytes
  take_fixed bytes r = (record r { fixed_remaining = r.fixed_remaining - length bytes }, got bytes)

  unfoldable pub read_fixed : ℕ → Run Bytes
  read_fixed capacity r =
      if r.fixed_remaining == 0
      then finish r
      else follow (raw_read (min r.fixed_remaining capacity) r) take_fixed

  abbrev pub count : Bytes → Run Bytes
  count bytes r =
      if ltb (size_max - r.decoded_length) (length bytes)
      then (r, failed too_large)
      else (record r { decoded_length = r.decoded_length + length bytes }, got bytes)

  -- `ipp_http_request_read`: the bytes of the body that are stored.
  unfoldable pub request_read : ℕ → Run Bytes
  request_read capacity r =
      if r.finished
      then (r, failed done)
      else if capacity == 0
      then (r, got [])
      else follow (if r.chunked then read_chunked capacity r else read_fixed capacity r) count
