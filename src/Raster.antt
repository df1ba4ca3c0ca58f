-- ===== src/Raster.antt =====
-- main/raster_converter.c: the conversion of compressed PWG raster pages to Apple raster, over a
-- reader and a writer that are parameters. They are not NULL.
pub mod Header
pub mod Laws
pub mod Encoding
pub mod Convert
pub mod Ends
mod Tests
use espresso.Prelude.{
  ℕ, zero, suc, ◌+◌, ◌-◌, ◌*◌, ◌%◌, ◌^◌, min, Bool, true, false, not, ◌&&◌, ◌||◌, Option, none,
  some, List, [], ◌∷◌, ◌++◌, length, take, drop, get_or, ltb, leb, ◌==◌, if◌then◌else◌, Bytes,
  codes, equal,
}
use espresso.Ipp.Buffer.{be32, read_u32}
use espresso.Raster.Header.{
  RasterResult, invalid, unsupported, read_error, write_error, Page, Built, built, refused,
  build_page_header, pwg_header_size, offset_total_page_count,
}
use espresso.Stream.{Writer, Sink, StreamResult, write_all}

-- What the n-th call of the reader returns for the bytes wanted, `none` for a negative return. It
-- stores the next bytes of the input, and returns no more than there are.
abbrev pub Schedule : Type 0
Schedule = ℕ → ℕ → Option ℕ

-- The input not yet read, the calls of the reader, and the writer's side.
pub record Io : Type 0 where
  pub rest : Bytes
  pub reads : ℕ
  pub sink : Sink

-- `stopped` is a return other than ESPRESSO_RASTER_OK; `spent` is no outcome of the C code.
pub data Outcome (A : Type 0) : Type 0 where
  done : A → Outcome A
  stopped : RasterResult → Outcome A
  spent : Outcome A

abbrev pub Run : Type 0 → Type 0
Run A = Io → Io × Outcome A

abbrev pub follow : {A B : Type 0} → Io × Outcome A → (A → Run B) → Io × Outcome B
follow (io, done a) k = k a io
follow (io, stopped code) k = (io, stopped code)
follow (io, spent) k = (io, spent)

infixl 1 ◌>>=◌
abbrev pub ◌>>=◌ : {A B : Type 0} → Run A → (A → Run B) → Run B
(m >>= k) io = follow (m io) k

abbrev pub pure : {A : Type 0} → A → Run A
pure a io = (io, done a)

abbrev pub stop : {A : Type 0} → RasterResult → Run A
stop code io = (io, stopped code)

unfoldable pub require : Bool → RasterResult → Run (Unit {0})
require b code = if b then pure tt else stop code

-- Pixels that a control byte stands for, and the bytes behind it.
unfoldable pub units : ℕ → ℕ
units control = if leb 128 control then 257 - control else control + 1

unfoldable pub encoded : ℕ → ℕ → ℕ
encoded control pixel = if leb 128 control then units control * pixel else pixel

abbrev pub file_header : Bytes → Bytes
file_header pwg = codes "UNIRAST" ++ 0 ∷ be32 (read_u32 (drop offset_total_page_count pwg))

-- The number of pages that the first header announces; 0 and 0xffffffff announce none.
unfoldable pub is_expected : ℕ → ℕ → Bool
is_expected expected pages = expected == 0 || expected == 0xffffffff || pages == expected

-- `read_result_t`; `read_spent` is no outcome of the C code.
pub data ReadResult : Type 0 where
  read_ok : Bytes → ReadResult
  read_eof : ReadResult
  read_failed : ReadResult
  read_spent : ReadResult

module _ (schedule : Schedule) where
  -- What one call of the reader delivers, `none` where its return is an error.
  unfoldable pub delivered : Io → ℕ → Option Bytes
  delivered io wanted = elim (schedule io.reads wanted) [
    | none ↦ none
    | some k ↦ if ltb wanted k then none else some (take k io.rest)
  ]

  -- The loop of `read_exact`, on the bytes still wanted. Each turn reads one at least.
  unfoldable pub read_loop : ℕ → ℕ → Bool → Bytes → Io → Io × ReadResult
  read_loop fuel zero eof_allowed received io = (io, read_ok received)
  read_loop zero (suc left) eof_allowed received io = (io, read_spent)
  read_loop (suc fuel) (suc left) eof_allowed received io = elim (delivered io (suc left)) [
    | none ↦ (record io { reads = suc io.reads }, read_failed)
    | some bytes ↦
        if length bytes == 0
        then (
          record io { reads = suc io.reads },
          if length received == 0 && eof_allowed then read_eof else read_failed,
        )
        else read_loop fuel (suc left - length bytes) eof_allowed (received ++ bytes)
            (record io { reads = suc io.reads; rest = drop (length bytes) io.rest })
  ]

  abbrev pub read_exact : ℕ → Bool → Io → Io × ReadResult
  read_exact n eof_allowed = read_loop n n eof_allowed []

  -- A read whose failure is ESPRESSO_RASTER_INVALID.
  abbrev pub after_read : Io × ReadResult → Io × Outcome Bytes
  after_read (io, read_ok bytes) = (io, done bytes)
  after_read (io, read_eof) = (io, stopped invalid)
  after_read (io, read_failed) = (io, stopped invalid)
  after_read (io, read_spent) = (io, spent)

  abbrev pub must_read : ℕ → Run Bytes
  must_read n io = after_read (read_exact n false io)

  -- The sync word, where an end of the input is told apart from a failure.
  abbrev pub after_sync : Io × ReadResult → Io × Outcome Bytes
  after_sync (io, read_ok bytes) = (io, done bytes)
  after_sync (io, read_eof) = (io, stopped read_error)
  after_sync (io, read_failed) = (io, stopped invalid)
  after_sync (io, read_spent) = (io, spent)

  abbrev pub read_sync : Run Bytes
  read_sync io = after_sync (read_exact 4 false io)

  -- The next page's header, `none` at the end of the input.
  abbrev pub after_page : Io × ReadResult → Io × Outcome (Option Bytes)
  after_page (io, read_ok bytes) = (io, done (some bytes))
  after_page (io, read_eof) = (io, done none)
  after_page (io, read_failed) = (io, stopped invalid)
  after_page (io, read_spent) = (io, spent)

  abbrev pub read_page : Run (Option Bytes)
  read_page io = after_page (read_exact pwg_header_size true io)

  module _ (writer : Writer) where
    abbrev pub after_write : Io → Sink × Option StreamResult → Io × Outcome (Unit {0})
    after_write io (s, some StreamResult.ok) = (record io { sink = s }, done tt)
    after_write io (s, some StreamResult.read_error) = (record io { sink = s }, stopped write_error)
    after_write io (s, some StreamResult.write_error) =
        (record io { sink = s }, stopped write_error)
    after_write io (s, some StreamResult.no_memory) = (record io { sink = s }, stopped write_error)
    after_write io (s, none) = (record io { sink = s }, spent)

    -- `write_all`, the same loop as the one of main/ipp_stream.c.
    abbrev pub must_write : Bytes → Run (Unit {0})
    must_write bytes io = after_write io (write_all writer bytes io.sink)

    abbrev pub copy_bytes : ℕ → Run Bytes
    copy_bytes n = do bytes ← must_read n; tt ← must_write bytes; pure bytes

    unfoldable pub copy_byte : Run ℕ
    copy_byte = do bytes ← copy_bytes 1; pure (get_or bytes 0 0)

    -- `copy_payload`, in pieces of at most 64 bytes.
    unfoldable pub payload_loop : ℕ → ℕ → Run (Unit {0})
    payload_loop fuel zero = pure tt
    payload_loop zero (suc left) = λ io. (io, spent)
    payload_loop (suc fuel) (suc left) = do
      bytes ← copy_bytes (min (suc left) 64)
      payload_loop fuel (suc left - 64)

    abbrev pub copy_payload : ℕ → Run (Unit {0})
    copy_payload n = payload_loop n n

    -- The loop over a line, on the bytes of the line that are not decoded yet.
    unfoldable pub line_loop : ℕ → ℕ → ℕ → Run (Unit {0})
    line_loop fuel pixel zero = pure tt
    line_loop zero pixel (suc left) = λ io. (io, spent)
    line_loop (suc fuel) pixel (suc left) = do
      control ← copy_byte
      tt ← require (not (control == 128)) invalid
      tt ← require (leb (units control * pixel) (suc left)) invalid
      tt ← copy_payload (encoded control pixel)
      line_loop fuel pixel (suc left - units control * pixel)

    -- Each turn reads a byte, so the rest of the input is enough fuel.
    abbrev pub copy_line : Page → Run (Unit {0})
    copy_line page io = line_loop (suc (length io.rest)) page.bytes_per_pixel page.bytes_per_line io

    -- The loop of `copy_page`, on the rows that are left.
    unfoldable pub row_loop : ℕ → Page → ℕ → Run (Unit {0})
    row_loop fuel page zero = pure tt
    row_loop zero page (suc left) = λ io. (io, spent)
    row_loop (suc fuel) page (suc left) = do
      repeat ← copy_byte
      tt ← require (leb (repeat + 1) (suc left)) invalid
      tt ← copy_line page
      row_loop fuel page (suc left - (repeat + 1))

    abbrev pub copy_page : Page → Run (Unit {0})
    copy_page page io = row_loop (suc (length io.rest)) page page.height io

    abbrev pub page_built : Built → Run Page
    page_built (refused code) = stop code
    page_built (built apple page) = do tt ← must_write apple; pure page

    -- On to the next page, if there is one.
    abbrev pub page_more : (Bytes → Run ℕ) → ℕ → Option Bytes → Run ℕ
    page_more loop pages none = pure pages
    page_more loop pages (some next) = loop next

    -- The loop over the pages, from a page's header on; it returns their number.
    unfoldable pub page_loop : ℕ → ℕ → Bytes → Run ℕ
    page_loop zero pages pwg = λ io. (io, spent)
    page_loop (suc fuel) pages pwg = do
      page ← page_built (build_page_header pwg)
      tt ← copy_page page
      more ← read_page
      page_more (page_loop fuel (suc pages % 2 ^ 32)) (suc pages % 2 ^ 32) more

    abbrev pub copy_pages : Bytes → Run ℕ
    copy_pages pwg io = page_loop (suc (length io.rest)) 0 pwg io

    -- `espresso_pwg_to_urf`
    unfoldable pub pwg_to_urf : Run (Unit {0})
    pwg_to_urf = do
      sync ← read_sync
      tt ← require (equal sync (codes "RaS2")) unsupported
      pwg ← must_read pwg_header_size
      tt ← must_write (file_header pwg)
      pages ← copy_pages pwg
      require (is_expected (read_u32 (drop offset_total_page_count pwg)) pages) invalid
