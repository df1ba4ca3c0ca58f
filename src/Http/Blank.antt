-- ===== src/Http/Blank.antt =====
-- Where the head of a request ends: the first blank line, which `find_end` of
-- main/ipp_http_request.c looks for in the bytes read so far.
use espresso.Prelude.{
  ℕ, zero, suc, ◌+◌, ◌-◌, ◌≤◌, ◌≡◌, refl, sym, ap, ◌∙◌, arith, Bool, true, false, ◌||◌, none, some,
  [], ◌∷◌, ◌++◌, length, take, drop, ◌<◌, leb, Bytes, equal, ◌==◌, ◌&&◌, length-append, length-take,
  take-append, take-append-drop, append_assoc, Bool-cases, inl, inr,
}
use espresso.Http.Open.{find_end, search_from}
use espresso.Raster.{Schedule}

abbrev pub blank_line : Bytes
blank_line = 13 ∷ 10 ∷ 13 ∷ 10 ∷ []

-- Whether a blank line stands anywhere in the bytes.
unfoldable pub has_blank_line : Bytes → Bool
has_blank_line [] = false
has_blank_line (c ∷ cs) = equal (c ∷ take 3 cs) blank_line || has_blank_line cs

-- The bytes up to and with their first blank line.
pub record IsWholeHead (head : Bytes) : Type 0 where
  pub front : Bytes
  pub ends : head ≡ front ++ blank_line
  pub first : has_blank_line (front ++ 13 ∷ 10 ∷ 13 ∷ []) ≡ false

take-append_take : (n m : ℕ) (xs ys : Bytes) → n ≤ m → take n (xs ++ take m ys) ≡ take n (xs ++ ys)
take-append_take zero m xs ys h = refl
take-append_take (suc n) m (x ∷ xs) ys h = ap (◌∷◌ x) (take-append_take n m xs ys (omega arith))
take-append_take (suc n) zero [] ys h = absurd (omega arith)
take-append_take (suc n) (suc m) [] [] h = refl
take-append_take (suc n) (suc m) [] (y ∷ ys) h =
    ap (◌∷◌ y) (take-append_take n m [] ys (omega arith))

-- A blank line across two pieces has at most three bytes in the second one, or is inside of it.
pub has_blank_line-append :
    (xs ys : Bytes)
    → has_blank_line (xs ++ take 3 ys) ≡ false
    → has_blank_line ys ≡ false
    → has_blank_line (xs ++ ys) ≡ false
unfolding has_blank_line
has_blank_line-append [] ys h k = k
has_blank_line-append (x ∷ xs) ys h k =
    ground (arith, take-append_take 3 3 xs ys (omega arith), has_blank_line-append xs ys)

pub find_end-none : (index : ℕ) (xs : Bytes) → find_end index xs ≡ none → has_blank_line xs ≡ false
unfolding find_end has_blank_line equal
find_end-none index [] e = refl
find_end-none index (a ∷ []) e = ground arith
find_end-none index (a ∷ b ∷ []) e = ground arith
find_end-none index (a ∷ b ∷ c ∷ []) e = ground arith
find_end-none index (a ∷ b ∷ c ∷ d ∷ cs) e =
    ground (arith, find_end-none (suc index) (b ∷ c ∷ d ∷ cs))

-- The four bytes that are tested, as `find_end` does it and as `has_blank_line` does.
four_bytes :
    (a b c d : ℕ)
    → (a == 13 && b == 10 && c == 13 && d == 10) ≡ true
    → (a ≡ 13) × (b ≡ 10) × (c ≡ 13) × (d ≡ 10)
four_bytes a b c d e = ground arith

not_here :
    (a b c d : ℕ) (cs front rest : Bytes)
    → (a == 13 && b == 10 && c == 13 && d == 10) ≡ false
    → b ∷ c ∷ d ∷ cs ≡ front ++ (blank_line ++ rest)
    → equal (a ∷ take 3 (front ++ 13 ∷ 10 ∷ 13 ∷ [])) blank_line ≡ false
unfolding equal
not_here a b c d cs front rest e split =
    let three : take 3 (front ++ 13 ∷ 10 ∷ 13 ∷ []) ≡ b ∷ c ∷ d ∷ [] =
      take-append_take 3 3 front (blank_line ++ rest) (omega arith) ∙ ap (take 3) (sym split) in
    rw three (ground arith)

none_in_front : has_blank_line (13 ∷ 10 ∷ 13 ∷ []) ≡ false
unfolding has_blank_line equal
none_in_front = refl

none_before :
    (a : ℕ) (front : Bytes)
    → equal (a ∷ take 3 (front ++ 13 ∷ 10 ∷ 13 ∷ [])) blank_line ≡ false
    → has_blank_line (front ++ 13 ∷ 10 ∷ 13 ∷ []) ≡ false
    → has_blank_line (a ∷ front ++ 13 ∷ 10 ∷ 13 ∷ []) ≡ false
unfolding has_blank_line
none_before a front h k = rw (h, k) refl

pub find_end-some :
    (index : ℕ) (xs : Bytes) (n : ℕ)
    → find_end index xs ≡ some n
    → (front : Bytes) × (rest : Bytes) × (xs ≡ front ++ (blank_line ++ rest))
      × (n ≡ index + length front + 4)
      × (has_blank_line (front ++ 13 ∷ 10 ∷ 13 ∷ []) ≡ false)
unfolding find_end
find_end-some index [] n e = cc
find_end-some index (a ∷ []) n e = cc
find_end-some index (a ∷ b ∷ []) n e = cc
find_end-some index (a ∷ b ∷ c ∷ []) n e = cc
find_end-some index (a ∷ b ∷ c ∷ d ∷ cs) n e =
    elim (Bool-cases (a == 13 && b == 10 && c == 13 && d == 10)) [
      | inl here ↦
          let (ea, eb, ec, ed) = four_bytes a b c d here in
          ([], cs, rw (ea, eb, ec, ed) refl, ground arith, none_in_front)
      | inr later ↦
          let (front, rest, split, at, first) =
            find_end-some (suc index) (b ∷ c ∷ d ∷ cs) n (ground arith) in
          (
            a ∷ front,
            rest,
            ap (◌∷◌ a) split,
            omega arith,
            none_before a front (not_here a b c d cs front rest later split) first,
          )
    ]

-- The bytes up to the blank line that is found behind `index` are a head, where no blank line
-- stands across the index.
pub found-IsWholeHead :
    (index : ℕ) (xs : Bytes) (n : ℕ)
    → index ≤ length xs
    → has_blank_line (take index xs ++ take 3 (drop index xs)) ≡ false
    → find_end index (drop index xs) ≡ some n
    → IsWholeHead (take n xs)
found-IsWholeHead index xs n h across e =
    let (front, rest, split, at, first) = find_end-some index (drop index xs) n e in
    let whole = take index xs ++ front in
    let size : length (whole ++ blank_line) ≡ n = omega (
      arith,
      at,
      length-append whole blank_line,
      length-append (take index xs) front,
      length-take index xs,
    ) in
    let xs_is : xs ≡ (whole ++ blank_line) ++ rest =
      sym (take-append-drop index xs)
      ∙ rw split (
          sym (append_assoc (take index xs) front (blank_line ++ rest))
          ∙ sym (append_assoc whole blank_line rest)) in
    let three : take 3 (front ++ 13 ∷ 10 ∷ 13 ∷ []) ≡ take 3 (drop index xs) =
      take-append_take 3 3 front (blank_line ++ rest) (omega arith) ∙ ap (take 3) (sym split) in
    record {
      front = whole;
      ends = ap (take n) xs_is ∙ rw (← size) (take-append (whole ++ blank_line) rest);
      first = rw (append_assoc (take index xs) front (13 ∷ 10 ∷ 13 ∷ [])) (
          has_blank_line-append (take index xs) (front ++ 13 ∷ 10 ∷ 13 ∷ []) (rw three across)
            first);
    }

take_plus : (n m k : ℕ) (xs : Bytes) → n + m ≡ k → take n xs ++ take m (drop n xs) ≡ take k xs
take_plus zero m k xs e = ap (λ j. take j xs) (omega arith)
take_plus (suc n) m zero xs e = absurd (omega arith)
take_plus (suc n) zero (suc k) [] e = refl
take_plus (suc n) (suc m) (suc k) [] e = refl
take_plus (suc n) m (suc k) (x ∷ xs) e = ap (◌∷◌ x) (take_plus n m k xs (omega arith))

has_blank_line_short : (xs : Bytes) → has_blank_line (take 3 xs) ≡ false
unfolding has_blank_line equal
has_blank_line_short [] = refl
has_blank_line_short (a ∷ []) = ground arith
has_blank_line_short (a ∷ b ∷ []) = ground arith
has_blank_line_short (a ∷ b ∷ c ∷ cs) = ground arith

-- Where the search goes on behind bytes without a blank line, none stands across its position.
module _ (schedule : Schedule) where
  pub search_from-across :
      (start : ℕ) (old new : Bytes)
      → has_blank_line old ≡ false
      → (length old < 3 → start ≡ 0)
      → (search_from schedule (length old) start ≤ length old)
        × (has_blank_line (
              take (search_from schedule (length old) start) (old ++ new)
              ++ take 3 (drop (search_from schedule (length old) start) (old ++ new)))
            ≡ false)
  unfolding search_from
  search_from-across start old new clean k = elim (Bool-cases (leb 3 (length old))) [
    | inl long ↦
        let joined : length old - 3 + 3 ≡ length old = ground arith in
        rw long (
          omega arith,
          rw (take_plus (length old - 3) 3 (length old) (old ++ new) joined, take-append old new)
              clean,
        )
    | inr short ↦
        let from : start ≡ 0 = k (ground arith) in
        rw (short, from) (omega arith, has_blank_line_short (old ++ new))
  ]
