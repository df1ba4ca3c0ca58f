-- ===== src/Raster/Ends.antt =====
-- The loops of main/raster_converter.c end, and which results they end with.
use espresso.Prelude.{
  ℕ, zero, suc, ◌+◌, ◌-◌, ◌*◌, ◌%◌, ◌^◌, ◌≤◌, ◌<◌, ◌≡◌, ◌≢◌, refl, ap, arith, min, Bool, true,
  false, not, Option, none, some, length, leb, ◌==◌, Bytes, codes, equal, length-append,
}
use espresso.Raster.{
  Schedule, Io, Outcome, done, stopped, spent, Run, follow, require, ReadResult, read_ok, read_eof,
  read_failed, read_spent, read_exact, after_read, must_read, after_sync, read_sync, after_page,
  read_page, after_write, must_write, copy_bytes, copy_byte, payload_loop, copy_payload, units,
  encoded, line_loop, copy_line, row_loop, copy_page, page_built, page_more, page_loop, copy_pages,
  file_header, pwg_to_urf,
}
use espresso.Raster.Convert.{after_page-some, page_built-done}
use espresso.Raster.Encoding.{payload_loop-Copies, line_loop-Copies, copy_page-Copies}
use espresso.Raster.Header.{
  RasterResult, invalid, unsupported, read_error, Page, Built, built, refused, build_page_header,
  check_line, pwg_header_size,
}
use espresso.Raster.Laws.{
  require-done, Copies, read_exact-ok, read_exact-ne-eof, read_exact-ne-spent, copy_byte-Copies,
}
use espresso.Stream.{Writer, Sink, StreamResult, write_all}
use espresso.Stream.Laws.{write_all-ne-none}

-- A result that the code can return, and that is no read error.
abbrev pub IsResult : {A : Type 0} → Outcome A → Type 0
IsResult (done a) = Unit
IsResult (stopped code) = code ≢ read_error
IsResult spent = ⊥

follow-IsResult :
    {A B : Type 0} (x : Io × Outcome A) (k : A → Run B)
    → IsResult x.1
    → ((mid : Io) (a : A) → x ≡ (mid, done a) → IsResult (k a mid).1)
    → IsResult (follow x k).1
follow-IsResult (mid, done a) k r h = h mid a refl
follow-IsResult (mid, stopped code) k r h = r
follow-IsResult (mid, spent) k r h = r

require-IsResult :
    (b : Bool) (code : RasterResult) (io : Io) → code ≢ read_error → IsResult (require b code io).1
unfolding require
require-IsResult true code io h = tt
require-IsResult false code io h = h

Copies-shorter : {P : Bytes → Type 0} {a b : Io} → Copies P a b → length b.rest ≤ length a.rest
Copies-shorter {b = b} c = omega (arith, ap length c.read_is, length-append c.bytes b.rest)

module _ (schedule : Schedule) where
  after_read-IsResult :
      (x : Io × ReadResult) → x.1 ≢ read_spent → IsResult (after_read schedule x).1
  after_read-IsResult (io, read_ok d) h = tt
  after_read-IsResult (io, read_eof) h = λ e. cc
  after_read-IsResult (io, read_failed) h = λ e. cc
  after_read-IsResult (io, read_spent) h = absurd (h refl)

  must_read-IsResult : (n : ℕ) (io : Io) → IsResult (must_read schedule n io).1
  must_read-IsResult n io =
      after_read-IsResult (read_exact schedule n false io) (read_exact-ne-spent schedule n false io)

  -- A read of the sync word that may not meet the end does not report it.
  after_sync-IsResult :
      (x : Io × ReadResult) → x.1 ≢ read_eof → x.1 ≢ read_spent → IsResult (after_sync schedule x).1
  after_sync-IsResult (io, read_ok d) h k = tt
  after_sync-IsResult (io, read_eof) h k = absurd (h refl)
  after_sync-IsResult (io, read_failed) h k = λ e. cc
  after_sync-IsResult (io, read_spent) h k = absurd (k refl)

  after_page-IsResult :
      (x : Io × ReadResult) → x.1 ≢ read_spent → IsResult (after_page schedule x).1
  after_page-IsResult (io, read_ok d) h = tt
  after_page-IsResult (io, read_eof) h = tt
  after_page-IsResult (io, read_failed) h = λ e. cc
  after_page-IsResult (io, read_spent) h = absurd (h refl)

  module _ (writer : Writer) where
    after_write-IsResult :
        (io : Io) (x : Sink × Option StreamResult)
        → x.1 ≢ none
        → IsResult (after_write schedule writer io x).1
    after_write-IsResult io (s, some StreamResult.ok) h = tt
    after_write-IsResult io (s, some StreamResult.read_error) h = λ e. cc
    after_write-IsResult io (s, some StreamResult.write_error) h = λ e. cc
    after_write-IsResult io (s, some StreamResult.no_memory) h = λ e. cc
    after_write-IsResult io (s, none) h = absurd (h refl)

    must_write-IsResult :
        (bytes : Bytes) (io : Io) → IsResult (must_write schedule writer bytes io).1
    must_write-IsResult bytes io =
        after_write-IsResult io (write_all writer bytes io.sink)
          (write_all-ne-none writer bytes io.sink)

    copy_bytes-IsResult : (n : ℕ) (io : Io) → IsResult (copy_bytes schedule writer n io).1
    copy_bytes-IsResult n io =
        follow-IsResult (must_read schedule n io) _ (must_read-IsResult n io) (λ mid bytes _.
          follow-IsResult (must_write schedule writer bytes mid) _ (must_write-IsResult bytes mid)
            (λ last u _. tt))

    copy_byte-IsResult : (io : Io) → IsResult (copy_byte schedule writer io).1
    unfolding copy_byte
    copy_byte-IsResult io =
        follow-IsResult (copy_bytes schedule writer 1 io) _ (copy_bytes-IsResult 1 io)
          (λ mid b _. tt)

    payload_loop-IsResult :
        (fuel n : ℕ) (io : Io) → n ≤ fuel → IsResult (payload_loop schedule writer fuel n io).1
    unfolding payload_loop
    payload_loop-IsResult fuel zero io h = tt
    payload_loop-IsResult zero (suc n) io h = absurd (omega arith)
    payload_loop-IsResult (suc fuel) (suc n) io h =
        follow-IsResult (copy_bytes schedule writer (min (suc n) 64) io) _
          (copy_bytes-IsResult (min (suc n) 64) io)
          (λ mid b _. payload_loop-IsResult fuel (suc n - 64) mid (omega arith))

    -- A byte is read before anything else of a turn.
    byte_shorter :
        (io mid : Io) (c : ℕ)
        → copy_byte schedule writer io ≡ (mid, done c)
        → length mid.rest < length io.rest
    byte_shorter io mid c e =
        let copied = copy_byte-Copies schedule writer io mid c e in
        omega (
          arith,
          ap length copied.read_is,
          ap length copied.holds,
          length-append copied.bytes mid.rest,
        )

    line_loop-IsResult :
        (fuel pixel n : ℕ) (io : Io)
        → length io.rest < fuel
        → IsResult (line_loop schedule writer fuel pixel n io).1
    unfolding line_loop
    line_loop-IsResult fuel pixel zero io h = tt
    line_loop-IsResult zero pixel (suc n) io h = absurd (omega arith)
    line_loop-IsResult (suc fuel) pixel (suc n) io h =
        follow-IsResult (copy_byte schedule writer io) _ (copy_byte-IsResult io) (λ m1 c e1.
          follow-IsResult (require (not (c == 128)) invalid m1) _
            (require-IsResult _ invalid m1 (λ e. cc))
            (λ m2 _ e2.
              follow-IsResult (require (leb (units c * pixel) (suc n)) invalid m2) _
                (require-IsResult _ invalid m2 (λ e. cc))
                (λ m3 _ e3.
                  follow-IsResult (copy_payload schedule writer (encoded c pixel) m3) _
                    (payload_loop-IsResult (encoded c pixel) (encoded c pixel) m3 (omega arith))
                    (λ m4 _ e4. line_loop-IsResult fuel pixel (suc n - units c * pixel) m4 (
                      omega (
                        arith,
                        byte_shorter io m1 c e1,
                        ap (λ (m : Io). length m.rest) (require-done _ invalid m1 m2 tt e2).1,
                        ap (λ (m : Io). length m.rest) (require-done _ invalid m2 m3 tt e3).1,
                        Copies-shorter (
                            payload_loop-Copies schedule writer (encoded c pixel) (encoded c pixel)
                              m3 m4 tt e4),
                      ))))))

    row_loop-IsResult :
        (fuel : ℕ) (p : Page) (n : ℕ) (io : Io)
        → length io.rest < fuel
        → IsResult (row_loop schedule writer fuel p n io).1
    unfolding row_loop
    row_loop-IsResult fuel p zero io h = tt
    row_loop-IsResult zero p (suc n) io h = absurd (omega arith)
    row_loop-IsResult (suc fuel) p (suc n) io h =
        follow-IsResult (copy_byte schedule writer io) _ (copy_byte-IsResult io) (λ m1 again e1.
          follow-IsResult (require (leb (again + 1) (suc n)) invalid m1) _
            (require-IsResult _ invalid m1 (λ e. cc))
            (λ m2 _ e2.
              follow-IsResult (copy_line schedule writer p m2) _
                (line_loop-IsResult (suc (length m2.rest)) p.bytes_per_pixel p.bytes_per_line m2
                  (omega arith))
                (λ m3 _ e3. row_loop-IsResult fuel p (suc n - (again + 1)) m3 (
                  omega (
                    arith,
                    byte_shorter io m1 again e1,
                    ap (λ (m : Io). length m.rest) (require-done _ invalid m1 m2 tt e2).1,
                    Copies-shorter (
                        line_loop-Copies schedule writer (suc (length m2.rest)) p.bytes_per_pixel
                          p.bytes_per_line m2 m3 tt e3),
                  )))))

    build_page_header-ne-read_error : (pwg : Bytes) → build_page_header pwg ≢ refused read_error
    unfolding build_page_header check_line
    build_page_header-ne-read_error pwg = ground arith

    page_built-IsResult :
        (b : Built) (io : Io)
        → b ≢ refused read_error
        → IsResult (page_built schedule writer b io).1
    page_built-IsResult (refused code) io h = λ e. h (ap refused e)
    page_built-IsResult (built apple p) io h =
        follow-IsResult (must_write schedule writer apple io) _ (must_write-IsResult apple io)
          (λ mid u _. tt)

    page_more-IsResult :
        (loop : Bytes → Run ℕ) (pages : ℕ) (more : Option Bytes) (m2 m3 : Io)
        → read_page schedule m2 ≡ (m3, done more)
        → ((next : Bytes) → length m3.rest < length m2.rest → IsResult (loop next m3).1)
        → IsResult (page_more schedule writer loop pages more m3).1
    page_more-IsResult loop pages none m2 m3 e k = tt
    page_more-IsResult loop pages (some next) m2 m3 e k =
        let (rest_is, size, _) = read_exact-ok schedule pwg_header_size true m2 m3 next (
          after_page-some schedule writer (read_exact schedule pwg_header_size true m2) m3 next
            e) in
        k next (omega (arith, ap length rest_is, length-append next m3.rest))

    page_loop-IsResult :
        (fuel pages : ℕ) (pwg : Bytes) (io : Io)
        → length io.rest < fuel
        → IsResult (page_loop schedule writer fuel pages pwg io).1
    unfolding page_loop
    page_loop-IsResult zero pages pwg io h = absurd (omega arith)
    page_loop-IsResult (suc fuel) pages pwg io h =
        follow-IsResult (page_built schedule writer (build_page_header pwg) io) _
          (page_built-IsResult (build_page_header pwg) io (build_page_header-ne-read_error pwg))
          (λ m1 p e1.
            follow-IsResult (copy_page schedule writer p m1) _
              (row_loop-IsResult (suc (length m1.rest)) p p.height m1 (omega arith))
              (λ m2 _ e2.
                follow-IsResult (read_page schedule m2) _
                  (after_page-IsResult (read_exact schedule pwg_header_size true m2)
                    (read_exact-ne-spent schedule pwg_header_size true m2))
                  (λ m3 more e3.
                    page_more-IsResult (page_loop schedule writer fuel (suc pages % 2 ^ 32))
                      (suc pages % 2 ^ 32) more m2 m3 e3
                      (λ next shorter. page_loop-IsResult fuel (suc pages % 2 ^ 32) next m3 (
                        omega (
                          arith,
                          shorter,
                          ap length
                              (page_built-done schedule writer (build_page_header pwg) io m1 p
                                e1).1.1,
                          Copies-shorter (copy_page-Copies schedule writer p m1 m2 tt e2),
                        ))))))

    -- For every reader and writer the conversion ends: none of its loops, that of `read_exact`
    -- included, runs out of the turns it is given. It comes to a result of the code, good or bad,
    -- which is never ESPRESSO_RASTER_READ_ERROR, also where the reader fails.
    pub pwg_to_urf-IsResult : (io : Io) → IsResult (pwg_to_urf schedule writer io).1
    unfolding pwg_to_urf
    pwg_to_urf-IsResult io =
        follow-IsResult (read_sync schedule io) _
          (after_sync-IsResult (read_exact schedule 4 false io) (read_exact-ne-eof schedule 4 io)
            (read_exact-ne-spent schedule 4 false io))
          (λ m1 sync _.
            follow-IsResult (require (equal sync (codes "RaS2")) unsupported m1) _
              (require-IsResult _ unsupported m1 (λ e. cc))
              (λ n1 _ _.
                follow-IsResult (must_read schedule pwg_header_size n1) _
                  (must_read-IsResult pwg_header_size n1)
                  (λ m2 pwg _.
                    follow-IsResult (must_write schedule writer (file_header pwg) m2) _
                      (must_write-IsResult (file_header pwg) m2)
                      (λ m3 _ _.
                        follow-IsResult (copy_pages schedule writer pwg m3) _
                          (page_loop-IsResult (suc (length m3.rest)) 0 pwg m3 (omega arith))
                          (λ m4 q _. require-IsResult _ invalid m4 (λ e. cc))))))
