-- ===== src/Raster/Encoding.antt =====
-- The compressed rows of a page, which both raster formats share, and what the loops of
-- main/raster_converter.c copy of them.
use espresso.Prelude.{
  ℕ, zero, suc, ◌+◌, ◌-◌, ◌*◌, ◌≤◌, ◌<◌, ◌≡◌, ◌≢◌, refl, subst, arith, min, true, not, [], ◌∷◌,
  ◌++◌, length, leb, ◌==◌, Bytes, length-append, Bool-cases, inl, inr,
}
use espresso.Raster.{
  Schedule, Io, done, require, units, encoded, copy_bytes, copy_byte, payload_loop, copy_payload,
  line_loop, copy_line, row_loop, copy_page,
}
use espresso.Raster.Header.{Page, invalid}
use espresso.Raster.Laws.{
  follow-done, require-done, Copies, Copies-none, Copies-join, copy_bytes-Copies, copy_byte-Copies,
}
use espresso.Stream.{Writer}

-- Bytes that expand to a line: a control byte below 128 repeats the pixel behind it, one above
-- stands before pixels of their own.
pub data IsLine (pixel : ℕ) : ℕ → Bytes → Type 0 where
  line_end : IsLine pixel 0 []
  repeated :
      (c n : ℕ) (one rest : Bytes)
      → c < 128
      → length one ≡ pixel
      → IsLine pixel n rest
      → IsLine pixel ((c + 1) * pixel + n) (c ∷ one ++ rest)
  literal :
      (c n : ℕ) (own rest : Bytes)
      → 128 < c
      → length own ≡ (257 - c) * pixel
      → IsLine pixel n rest
      → IsLine pixel ((257 - c) * pixel + n) (c ∷ own ++ rest)

-- Bytes that expand to rows: how often each line is repeated, and the line.
pub data IsRows (page : Page) : ℕ → Bytes → Type 0 where
  rows_end : IsRows page 0 []
  row :
      (again n : ℕ) (line rest : Bytes)
      → IsLine page.bytes_per_pixel page.bytes_per_line line
      → IsRows page n rest
      → IsRows page (again + 1 + n) (again ∷ line ++ rest)

sub_back : (a l : ℕ) → a ≤ l → a + (l - a) ≡ l
sub_back a l h = omega arith

-- A control byte and what belongs to it, in front of the rest of a line.
piece-IsLine :
    (pixel c left : ℕ) (x y : Bytes)
    → c ≢ 128
    → units c * pixel ≤ left
    → length x ≡ encoded c pixel
    → IsLine pixel (left - units c * pixel) y
    → IsLine pixel left (c ∷ x ++ y)
unfolding units encoded
piece-IsLine pixel c left x y ne fits len line = elim (Bool-cases (leb 128 c)) [
  | inl own ↦
      subst (λ (n : ℕ). IsLine pixel n (c ∷ x ++ y))
        (sub_back ((257 - c) * pixel) left (rw own at fits))
        (literal c _ x y (ground arith) (rw own at len) (rw own at line))
  | inr again ↦
      subst (λ (n : ℕ). IsLine pixel n (c ∷ x ++ y))
        (sub_back ((c + 1) * pixel) left (rw again at fits))
        (repeated c _ x y (ground arith) (rw again at len) (rw again at line))
]

module _ (schedule : Schedule) (writer : Writer) where
  pub payload_loop-Copies :
      (fuel n : ℕ) (io out : Io) (u : Unit {0})
      → payload_loop schedule writer fuel n io ≡ (out, done u)
      → Copies (λ (b : Bytes). length b ≡ n) io out
  unfolding payload_loop
  payload_loop-Copies fuel zero io out u e =
      let same : io ≡ out = ground arith in rw (← same) (Copies-none io refl)
  payload_loop-Copies zero (suc left) io out u e = cc
  payload_loop-Copies (suc fuel) (suc left) io out u e =
      let (mid, got, copied, later) =
        follow-done (copy_bytes schedule writer (min (suc left) 64) io)
          (λ _. payload_loop schedule writer fuel (suc left - 64)) out u e in
      Copies-join (λ x y (whole, len) k. omega (arith, length-append x y))
        (copy_bytes-Copies schedule writer (min (suc left) 64) io mid got copied)
        (payload_loop-Copies fuel (suc left - 64) mid out u later)

  turn_of_control :
      (pixel c left : ℕ) (io m1 m2 m3 m4 out : Io)
      → Copies (λ (b : Bytes). b ≡ c ∷ []) io m1
      → (not (c == 128) ≡ true) × (m1 ≡ m2)
      → (leb (units c * pixel) left ≡ true) × (m2 ≡ m3)
      → Copies (λ (b : Bytes). length b ≡ encoded c pixel) m3 m4
      → Copies (IsLine pixel (left - units c * pixel)) m4 out
      → Copies (IsLine pixel left) io out
  turn_of_control pixel c left io m1 m2 m3 m4 out control (ne, s12) (fits, s23) payload more =
      let piece : Copies (IsLine pixel (left - units c * pixel)) m4 out = more in
      let from : Copies (λ (b : Bytes). length b ≡ encoded c pixel) m1 m4 = rw (s12, s23) payload in
      Copies-join
        (λ x y one (z, w, (parts, len, line)).
          rw (one, parts) (piece-IsLine pixel c left z w (ground arith) (ground arith) len line))
        control
        (Copies-join
          {R = λ (b : Bytes).
            (z : Bytes) × (w : Bytes) × ((b ≡ z ++ w)
              × (length z ≡ encoded c pixel)
              × IsLine pixel (left - units c * pixel) w)}
          (λ x y len line. (x, y, (refl, len, line))) from piece)

  pub line_loop-Copies :
      (fuel pixel n : ℕ) (io out : Io) (u : Unit {0})
      → line_loop schedule writer fuel pixel n io ≡ (out, done u)
      → Copies (IsLine pixel n) io out
  unfolding line_loop
  line_loop-Copies fuel pixel zero io out u e =
      let same : io ≡ out = ground arith in rw (← same) (Copies-none io line_end)
  line_loop-Copies zero pixel (suc left) io out u e = cc
  line_loop-Copies (suc fuel) pixel (suc left) io out u e =
      let (m1, c, read, e1) = follow-done (copy_byte schedule writer io) _ out u e in
      let (m2, _, apart, e2) = follow-done (require (not (c == 128)) invalid m1) _ out u e1 in
      let (m3, _, room, e3) =
        follow-done (require (leb (units c * pixel) (suc left)) invalid m2) _ out u e2 in
      let (m4, _, payload, e4) =
        follow-done (copy_payload schedule writer (encoded c pixel) m3)
          (λ _. line_loop schedule writer fuel pixel (suc left - units c * pixel)) out u e3 in
      turn_of_control pixel c (suc left) io m1 m2 m3 m4 out
        (copy_byte-Copies schedule writer io m1 c read)
        (require-done (not (c == 128)) invalid m1 m2 tt apart)
        (require-done (leb (units c * pixel) (suc left)) invalid m2 m3 tt room)
        (payload_loop-Copies (encoded c pixel) (encoded c pixel) m3 m4 tt payload)
        (line_loop-Copies fuel pixel (suc left - units c * pixel) m4 out u e4)

  turn_of_count :
      (page : Page) (again left : ℕ) (io m1 m2 m3 out : Io)
      → Copies (λ (b : Bytes). b ≡ again ∷ []) io m1
      → (leb (again + 1) left ≡ true) × (m1 ≡ m2)
      → Copies (IsLine page.bytes_per_pixel page.bytes_per_line) m2 m3
      → Copies (IsRows page (left - (again + 1))) m3 out
      → Copies (IsRows page left) io out
  turn_of_count page again left io m1 m2 m3 out count (fits, s12) line more =
      let from : Copies (IsLine page.bytes_per_pixel page.bytes_per_line) m1 m3 = rw s12 line in
      let whole : again + 1 + (left - (again + 1)) ≡ left =
        sub_back (again + 1) left (ground arith) in
      Copies-join
        (λ x y one (z, w, (parts, l, rows)).
          rw (one, parts)
            (subst (λ (n : ℕ). IsRows page n (again ∷ z ++ w)) whole (row again _ z w l rows)))
        count
        (Copies-join
          {R = λ (b : Bytes).
            (z : Bytes) × (w : Bytes) × ((b ≡ z ++ w)
              × IsLine page.bytes_per_pixel page.bytes_per_line z
              × IsRows page (left - (again + 1)) w)}
          (λ x y l rows. (x, y, (refl, l, rows))) from more)

  row_loop-Copies :
      (fuel : ℕ) (page : Page) (n : ℕ) (io out : Io) (u : Unit {0})
      → row_loop schedule writer fuel page n io ≡ (out, done u)
      → Copies (IsRows page n) io out
  unfolding row_loop
  row_loop-Copies fuel page zero io out u e =
      let same : io ≡ out = ground arith in rw (← same) (Copies-none io rows_end)
  row_loop-Copies zero page (suc left) io out u e = cc
  row_loop-Copies (suc fuel) page (suc left) io out u e =
      let (m1, again, read, e1) = follow-done (copy_byte schedule writer io) _ out u e in
      let (m2, _, room, e2) =
        follow-done (require (leb (again + 1) (suc left)) invalid m1) _ out u e1 in
      let (m3, _, line, e3) =
        follow-done (copy_line schedule writer page m2)
          (λ _. row_loop schedule writer fuel page (suc left - (again + 1))) out u e2 in
      turn_of_count page again (suc left) io m1 m2 m3 out
        (copy_byte-Copies schedule writer io m1 again read)
        (require-done (leb (again + 1) (suc left)) invalid m1 m2 tt room)
        (line_loop-Copies (suc (length m2.rest)) page.bytes_per_pixel page.bytes_per_line m2 m3 tt
          line)
        (row_loop-Copies fuel page (suc left - (again + 1)) m3 out u e3)

  -- For every reader and writer: what the copy of a page reads it writes, and that is rows of the
  -- page's height, each a line of the page's length.
  pub copy_page-Copies :
      (page : Page) (io out : Io) (u : Unit {0})
      → copy_page schedule writer page io ≡ (out, done u)
      → Copies (IsRows page page.height) io out
  copy_page-Copies page io out u e =
      row_loop-Copies (suc (length io.rest)) page page.height io out u e
