-- ===== src/Raster/Convert.antt =====
-- What `espresso_pwg_to_urf` of main/raster_converter.c converts a document to.
use espresso.Prelude.{
  ℕ, zero, suc, ◌+◌, ◌%◌, ◌^◌, ◌≡◌, refl, sym, ap, subst, ◌∙◌, arith, true, false, Option, none,
  some, [], ◌++◌, length, drop, Bytes, codes, equal, equal_iff, append_assoc, append-nil,
}
use espresso.Raster.{
  Schedule, Io, done, Run, pure, require, ReadResult, read_ok, read_eof, read_failed, read_spent,
  read_exact, must_read, read_sync, read_page, after_sync, after_page, must_write, copy_page,
  page_built, page_more, page_loop, copy_pages, file_header, is_expected, pwg_to_urf,
}
use espresso.Raster.Encoding.{IsRows, copy_page-Copies}
use espresso.Raster.Header.{
  Page, Built, built, refused, build_page_header, pwg_header_size, invalid, unsupported,
  offset_total_page_count,
}
use espresso.Raster.Laws.{
  follow-done, require-done, Copies, read_exact-ok, read_exact-eof, must_read-done, must_write-done,
}
use espresso.Ipp.Buffer.{read_u32}
use espresso.Stream.{Writer}

-- So many pages of PWG raster, and the same pages of Apple raster: a header that can be converted
-- and its conversion, and the rows of both.
pub data IsPages : ℕ → Bytes → Bytes → Type 0 where
  no_pages : IsPages 0 [] []
  page :
      (n : ℕ) (pwg apple rows more converted : Bytes) (p : Page)
      → length pwg ≡ pwg_header_size
      → build_page_header pwg ≡ built apple p
      → IsRows p p.height rows
      → IsPages n more converted
      → IsPages (suc n) (pwg ++ (rows ++ more)) (apple ++ (rows ++ converted))

rearrange : (a b c d : Bytes) → a ++ (b ++ (c ++ d)) ≡ (a ++ (b ++ c)) ++ d
rearrange a b c d = rw (append_assoc a (b ++ c) d, append_assoc b c d) refl

rearrange_left : (a b c d : Bytes) → ((a ++ b) ++ c) ++ d ≡ a ++ (b ++ (c ++ d))
rearrange_left a b c d = rw (append_assoc a b c, append_assoc a (b ++ c) d, append_assoc b c d) refl

module _ (schedule : Schedule) (writer : Writer) where
  pub after_page-some :
      (x : Io × ReadResult) (out : Io) (next : Bytes)
      → after_page schedule x ≡ (out, done (some next))
      → x ≡ (out, read_ok next)
  after_page-some (io, read_ok d) out next e = ground arith
  after_page-some (io, read_eof) out next e = cc
  after_page-some (io, read_failed) out next e = cc
  after_page-some (io, read_spent) out next e = cc

  after_page-none :
      (x : Io × ReadResult) (out : Io)
      → after_page schedule x ≡ (out, done none)
      → x ≡ (out, read_eof)
  after_page-none (io, read_ok d) out e = cc
  after_page-none (io, read_eof) out e = ground arith
  after_page-none (io, read_failed) out e = cc
  after_page-none (io, read_spent) out e = cc

  pub page_built-done :
      (b : Built) (io out : Io) (p : Page)
      → page_built schedule writer b io ≡ (out, done p)
      → (apple : Bytes) × ((b ≡ built apple p)
          × (out.rest ≡ io.rest)
          × (out.sink.taken ≡ io.sink.taken ++ apple))
  page_built-done (refused code) io out p e = cc
  page_built-done (built apple q) io out p e =
      let (mid, u, wrote, ends) =
        follow-done (must_write schedule writer apple io) (λ _. pure q) out p e in
      let same : mid ≡ out = ground arith in
      let page_is : q ≡ p = ground arith in
      let (rest_is, taken_is) = must_write-done schedule writer apple io mid u wrote in
      (apple, (ap (built apple) page_is, rw (← same) rest_is, rw (← same) taken_is))

  -- What the loop over the pages reads and writes, from behind a page's header on.
  record Converted (pwg : Bytes) (before after : ℕ) (from to : Io) : Type 0 where
    count : ℕ
    read : Bytes
    sent : Bytes
    read_is : from.rest ≡ read ++ to.rest
    sent_is : to.sink.taken ≡ from.sink.taken ++ sent
    pages : IsPages count (pwg ++ read) sent
    counted : after ≡ (before + count) % 2 ^ 32

  last_page :
      (pwg apple : Bytes) (p : Page) (before : ℕ) (io m1 m2 out : Io)
      → length pwg ≡ pwg_header_size
      → build_page_header pwg ≡ built apple p
      → (m1.rest ≡ io.rest) × (m1.sink.taken ≡ io.sink.taken ++ apple)
      → Copies (IsRows p p.height) m1 m2
      → (m2.rest ≡ out.rest) × (out.sink ≡ m2.sink)
      → Converted pwg before (suc before % 2 ^ 32) io out
  last_page pwg apple p before io m1 m2 out len good (r1, s1) rows (r2, s2) = record {
    count = 1;
    read = rows.bytes;
    sent = apple ++ rows.bytes;
    read_is = sym r1 ∙ rows.read_is ∙ rw r2 refl;
    sent_is = rw s2 (rows.sent_is ∙ rw s1 (append_assoc io.sink.taken apple rows.bytes));
    pages =
        subst (λ (b : Bytes). IsPages 1 (pwg ++ b) (apple ++ b)) (append-nil rows.bytes)
          (page 0 pwg apple rows.bytes [] [] p len good rows.holds no_pages);
    counted = omega arith;
  }

  next_page :
      (pwg apple next : Bytes) (p : Page) (before after : ℕ) (io m1 m2 m3 out : Io)
      → length pwg ≡ pwg_header_size
      → build_page_header pwg ≡ built apple p
      → (m1.rest ≡ io.rest) × (m1.sink.taken ≡ io.sink.taken ++ apple)
      → Copies (IsRows p p.height) m1 m2
      → (m2.rest ≡ next ++ m3.rest) × (m3.sink ≡ m2.sink)
      → Converted next (suc before % 2 ^ 32) after m3 out
      → Converted pwg before after io out
  next_page pwg apple next p before after io m1 m2 m3 out len good (r1, s1) rows (r2, s2) more =
      record {
        count = suc more.count;
        read = rows.bytes ++ (next ++ more.read);
        sent = apple ++ (rows.bytes ++ more.sent);
        read_is =
            sym r1
            ∙ rows.read_is
            ∙ rw (r2, more.read_is) (rearrange rows.bytes next more.read out.rest);
        sent_is =
            more.sent_is
            ∙ rw (s2, rows.sent_is, s1) (rearrange_left io.sink.taken apple rows.bytes more.sent);
        pages = page more.count pwg apple rows.bytes _ more.sent p len good rows.holds more.pages;
        counted = more.counted ∙ omega arith;
      }

  -- The end of a turn, where the next ones are known to convert.
  page_end :
      (before after : ℕ) (pwg apple : Bytes) (p : Page) (io m1 m2 m3 out : Io)
      (loop : Bytes → Run ℕ)
      → ((next : Bytes)
          → length next ≡ pwg_header_size
          → loop next m3 ≡ (out, done after)
          → Converted next (suc before % 2 ^ 32) after m3 out)
      → length pwg ≡ pwg_header_size
      → build_page_header pwg ≡ built apple p
      → (m1.rest ≡ io.rest) × (m1.sink.taken ≡ io.sink.taken ++ apple)
      → Copies (IsRows p p.height) m1 m2
      → (more : Option Bytes) → read_page schedule m2 ≡ (m3, done more)
      → page_more schedule writer loop (suc before % 2 ^ 32) more m3 ≡ (out, done after)
      → Converted pwg before after io out
  page_end before after pwg apple p io m1 m2 m3 out loop again len good moved rows none read e =
      let (rest_is, sink_is) =
        read_exact-eof schedule pwg_header_size m2 m3
          (after_page-none (read_exact schedule pwg_header_size true m2) m3 read) in
      let same : m3 ≡ out = ground arith in
      let counted : suc before % 2 ^ 32 ≡ after = ground arith in
      rw (← counted, ← same)
        (last_page pwg apple p before io m1 m2 m3 len good moved rows (rest_is, sink_is))
  page_end before after pwg apple p io m1 m2 m3 out loop again len good moved rows (some next) read
        e =
      let (rest_is, size, sink_is) =
        read_exact-ok schedule pwg_header_size true m2 m3 next
          (after_page-some (read_exact schedule pwg_header_size true m2) m3 next read) in
      next_page pwg apple next p before after io m1 m2 m3 out len good moved rows (rest_is, sink_is)
        (again next size e)

  page_loop-Converted :
      (fuel before after : ℕ) (pwg : Bytes) (io out : Io)
      → length pwg ≡ pwg_header_size
      → page_loop schedule writer fuel before pwg io ≡ (out, done after)
      → Converted pwg before after io out
  unfolding page_loop
  page_loop-Converted zero before after pwg io out len e = cc
  page_loop-Converted (suc fuel) before after pwg io out len e =
      let (m1, p, header, e1) =
        follow-done (page_built schedule writer (build_page_header pwg) io) _ out after e in
      let (m2, _, copied, e2) = follow-done (copy_page schedule writer p m1) _ out after e1 in
      let (m3, more, read, e3) = follow-done (read_page schedule m2) _ out after e2 in
      let (apple, (good, rest_is, taken_is)) =
        page_built-done (build_page_header pwg) io m1 p header in
      page_end before after pwg apple p io m1 m2 m3 out
        (page_loop schedule writer fuel (suc before % 2 ^ 32))
        (λ next size more_e.
          page_loop-Converted fuel (suc before % 2 ^ 32) after next m3 out size more_e)
        len good (rest_is, taken_is) (copy_page-Copies schedule writer p m1 m2 tt copied) more read
        e3

  -- A document read, and what was written for it.
  pub record IsConverted (from to : Io) : Type 0 where
    pub count : ℕ
    pub first : Bytes
    pub read : Bytes
    pub sent : Bytes
    pub read_is : from.rest ≡ codes "RaS2" ++ (first ++ (read ++ to.rest))
    pub sent_is : to.sink.taken ≡ from.sink.taken ++ (file_header first ++ sent)
    pub pages : IsPages count (first ++ read) sent
    pub announced :
        is_expected (read_u32 (drop offset_total_page_count first)) (count % 2 ^ 32) ≡ true

  after_sync-done :
      (x : Io × ReadResult) (out : Io) (bytes : Bytes)
      → after_sync schedule x ≡ (out, done bytes)
      → x ≡ (out, read_ok bytes)
  after_sync-done (io, read_ok d) out bytes e = ground arith
  after_sync-done (io, read_eof) out bytes e = cc
  after_sync-done (io, read_failed) out bytes e = cc
  after_sync-done (io, read_spent) out bytes e = cc

  converted :
      (sync pwg : Bytes) (q : ℕ) (io m1 n1 m2 m3 m4 out : Io)
      → (io.rest ≡ sync ++ m1.rest) × (m1.sink ≡ io.sink)
      → (equal sync (codes "RaS2") ≡ true) × (m1 ≡ n1)
      → (n1.rest ≡ pwg ++ m2.rest) × (m2.sink ≡ n1.sink)
      → (m3.rest ≡ m2.rest) × (m3.sink.taken ≡ m2.sink.taken ++ file_header pwg)
      → Converted pwg 0 q m3 m4
      → (is_expected (read_u32 (drop offset_total_page_count pwg)) q ≡ true) × (m4 ≡ out)
      → IsConverted io out
  converted sync pwg q io m1 n1 m2 m3 m4 out (r1, s1) (known, n_is) (r2, s2) (r3, s3) c (ok, last) =
      record {
        count = c.count;
        first = pwg;
        read = c.read;
        sent = c.sent;
        read_is =
            r1 ∙ rw ((equal_iff sync (codes "RaS2")).0 known, n_is, r2, ← r3, c.read_is, last) refl;
        sent_is = rw (← last) (
            c.sent_is
            ∙ rw (s3, s2, ← n_is, s1) (append_assoc io.sink.taken (file_header pwg) c.sent));
        pages = c.pages;
        announced =
            subst (λ (n : ℕ). is_expected (read_u32 (drop offset_total_page_count pwg)) n ≡ true)
              (omega (arith, c.counted)) ok;
      }

  -- For every reader and writer: where the conversion succeeds, it has read the sync word and
  -- pages of PWG raster, each a header that can be converted and rows that make up its height of
  -- lines of its length; it has written Apple's file header and the same
  -- pages, each with its converted header and the same rows; and the number of pages is the one
  -- that the first header announces, or none is.
  pub pwg_to_urf-IsConverted :
      (io out : Io) → pwg_to_urf schedule writer io ≡ (out, done tt) → IsConverted io out
  unfolding pwg_to_urf
  pwg_to_urf-IsConverted io out e =
      let (m1, sync, read, e1) = follow-done (read_sync schedule io) _ out tt e in
      let (n1, _, known, e2) =
        follow-done (require (equal sync (codes "RaS2")) unsupported m1) _ out tt e1 in
      let (m2, pwg, header, e3) = follow-done (must_read schedule pwg_header_size n1) _ out tt e2 in
      let (m3, _, wrote, e4) =
        follow-done (must_write schedule writer (file_header pwg) m2) _ out tt e3 in
      let (m4, q, looped, e5) = follow-done (copy_pages schedule writer pwg m3) _ out tt e4 in
      let (r1, _, s1) =
        read_exact-ok schedule 4 false io m1 sync
          (after_sync-done (read_exact schedule 4 false io) m1 sync read) in
      let (r2, len, s2) = must_read-done schedule pwg_header_size n1 m2 pwg header in
      converted sync pwg q io m1 n1 m2 m3 m4 out (r1, s1)
        (require-done (equal sync (codes "RaS2")) unsupported m1 n1 tt known) (r2, s2)
        (must_write-done schedule writer (file_header pwg) m2 m3 tt wrote)
        (page_loop-Converted (suc (length m3.rest)) 0 q pwg m3 m4 len looped)
        (require-done (is_expected (read_u32 (drop offset_total_page_count pwg)) q) invalid m4 out
          tt e5)
