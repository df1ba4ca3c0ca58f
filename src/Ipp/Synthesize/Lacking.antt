-- ===== src/Ipp/Synthesize/Lacking.antt =====
-- Which attributes an answer lacks, said by their names instead of the flags of main/ipp_codec.c.
use Prim.Native.Nat.{bit_and, bit_or}
use espresso.Prelude.{
  ℕ, suc, ◌+◌, ◌^◌, ◌≡◌, ◌⊎◌, inl, inr, refl, sym, ap, ◌∙◌, arith, Bool, true, false, not, ◌&&◌,
  ◌||◌, List, [], ◌∷◌, ◌++◌, map, get_or, ◌==◌, if◌then◌else◌, Bytes, equal, equal_iff, Bool-cases,
  bit_or-digit, bit_or-zero, zero-bit_and, pow-cancel, subst, ==_refl,
}
use native.Mathlib.Nat.{pow-suc, one-le-pow}
use espresso.Ipp.Rewrite.{is_one_of, presence_names, presence_flag, attribute_presence}
use espresso.Ipp.Synthesize.{Field, unless}
use espresso.Ipp.Synthesize.Copy.{copies, stays, present_of, output, copied}
use espresso.Ipp.Synthesize.Message.{well_named}
use espresso.Ipp.Synthesize.WellNamed.{IsNamed}
use espresso.Ipp.Walk.{is_empty}
use espresso.Ipp.Walk.Parse.{Item, group, value}
use espresso.Ipp.Walk.Select.{selected}

-- The names of a message's attributes.
abbrev pub names_of : List Item → List Bytes
names_of [] = []
names_of (group g ∷ items) = names_of items
names_of (value a ∷ items) = a.name ∷ names_of items

-- An attribute that is looked for, and that a message with these names has.
unfoldable pub is_there : List Bytes → Bytes → Bool
is_there names name = is_one_of name presence_names && is_one_of name names

-- The fields of `fs` less those attributes; a field without a name goes with the one in front.
unfoldable pub lacking : List Bytes → Bool → List Field → List Field
lacking names keep [] = []
lacking names keep (f ∷ fs) =
    let kept = if is_empty f.name then keep else not (is_there names f.name) in
    let rest = lacking names kept fs in if kept then f ∷ rest else rest

-- The flag of a name is that of its place among the names.
presence_flag-cases :
    (k : ℕ) (name : Bytes) (ns : List Bytes)
    → (presence_flag (2 ^ k) name ns ≡ 0)
      ⊎ ((i : ℕ) × (presence_flag (2 ^ k) name ns ≡ 2 ^ (k + i)) × (get_or ns i [] ≡ name))
unfolding presence_flag
presence_flag-cases k name [] = inl refl
presence_flag-cases k name (n ∷ ns) = elim (Bool-cases (equal name n)) [
  | inl e ↦ rw e (inr (0, ap (λ j. 2 ^ j) (omega arith), sym ((equal_iff name n).0 e)))
  | inr e ↦
      rw (e, ← pow-suc 2 k)
        (elim (presence_flag-cases (suc k) name ns) [
          | inl z ↦ inl z
          | inr (i, flag, at) ↦ inr (suc i, flag ∙ ap (λ j. 2 ^ j) (omega arith), at)
        ])
]

module _ (n : ℕ) (flag_is : attribute_presence (get_or presence_names n []) ≡ 2 ^ n) where
  named_flag :
      (name : Bytes)
      → equal (get_or presence_names n []) name ≡ true
      → attribute_presence name ≡ 2 ^ n
  named_flag name e = subst (λ m. attribute_presence m ≡ 2 ^ n) ((equal_iff _ name).0 e) flag_is

  place_is :
      (i : ℕ) (name : Bytes)
      → attribute_presence name ≡ 2 ^ i
      → get_or presence_names i [] ≡ name
      → (i == n) ≡ equal (get_or presence_names n []) name
  place_is i name flag at = elim (Bool-cases (i == n)) [
    | inl same ↦
        let e : i ≡ n = ground arith in
        rw same (sym ((equal_iff _ name).1 (ap (λ j. get_or presence_names j []) (sym e) ∙ at)))
    | inr other ↦ elim (Bool-cases (equal (get_or presence_names n []) name)) [
      | inl named ↦
          let e : i ≡ n = pow-cancel i n (sym flag ∙ named_flag name named) in
          cc (rw (e, ==_refl n) at other)
      | inr unlike ↦ rw (other, unlike) refl
    ]
  ]

  -- Of an attribute's flag, the n-th digit says whether it is the n-th name.
  attribute_presence-digit :
      (p : ℕ) (name : Bytes)
      → (bit_and (bit_or p (attribute_presence name)) (2 ^ n) == 0)
        ≡ (bit_and p (2 ^ n) == 0) && not (equal (get_or presence_names n []) name)
  unfolding attribute_presence
  attribute_presence-digit p name = elim (presence_flag-cases 0 name presence_names) [
    | inl none_is ↦
        let unlike : equal (get_or presence_names n []) name ≡ false =
          elim (Bool-cases (equal (get_or presence_names n []) name)) [
            | inl named ↦
                let e : 0 ≡ 2 ^ n = sym none_is ∙ named_flag name named in
                absurd (omega (arith, one-le-pow n 2 (omega arith)))
            | inr e ↦ e
          ] in
        rw (unlike, none_is, bit_or-zero p) (ground arith)
    | inr (i, flag, at) ↦
        let flag_at : attribute_presence name ≡ 2 ^ i = flag ∙ ap (λ j. 2 ^ j) (omega arith) in
        rw (← place_is i name flag_at at, flag_at) (bit_or-digit i n p)
  ]

  -- The n-th flag is missing where the copied attributes lack the n-th name.
  present_of-digit :
      (printer_uri authority : Bytes) (g p : ℕ) (items : List Item)
      → (bit_and (present_of p items) (2 ^ n) == 0)
        ≡ (bit_and p (2 ^ n) == 0)
          && not (
              is_one_of
                (get_or presence_names n [])
                (names_of (selected stays g (map (output printer_uri authority) items))))
  unfolding is_one_of
  present_of-digit printer_uri authority g p [] = ground arith
  present_of-digit printer_uri authority g p (group h ∷ items) =
      present_of-digit printer_uri authority h p items
  present_of-digit printer_uri authority g p (value a ∷ items) = elim (Bool-cases (copies a.name)) [
    | inl s ↦ rw s (
        ground (
          arith,
          present_of-digit printer_uri authority g (bit_or p (attribute_presence a.name)) items,
          attribute_presence-digit p a.name,
        ))
    | inr goes ↦ rw goes (present_of-digit printer_uri authority g p items)
  ]

-- The names of the fields pass a test; a field without one goes with the field in front.
unfoldable pub names_all : (Bytes → Bool) → List Field → Bool
names_all p [] = true
names_all p (f ∷ fs) = (is_empty f.name || p f.name) && names_all p fs

if-cons :
    (b : Bool) (f : Field) (fs : List Field)
    → (if b then f ∷ (if b then fs else []) else (if b then fs else []))
      ≡ (if b then f ∷ fs else [])
if-cons true f fs = refl
if-cons false f fs = refl

if-not :
    (b : Bool) (f : Field) (fs : List Field)
    → (if not b then f ∷ (if not b then fs else []) else (if not b then fs else []))
      ≡ (if b then [] else f ∷ fs)
if-not true f fs = refl
if-not false f fs = refl

if_unless :
    (b c : Bool) (fs : List Field) → c ≡ not b → (if b then [] else fs) ≡ (if c then fs else [])
if_unless true c fs e = rw e refl
if_unless false c fs e = rw e refl

not-not : (b : Bool) → b ≡ not (not b)
not-not true = refl
not-not false = refl

module _ (names : List Bytes) where
  keeps :
      (p : Bytes → Bool) (keep : Bool) (name : Bytes)
      → ((m : Bytes) → p m ≡ true → is_there names m ≡ not keep)
      → is_empty name || p name ≡ true
      → (if is_empty name then keep else not (is_there names name)) ≡ keep
  keeps p keep [] h e = refl
  keeps p true (c ∷ cs) h e = rw (h (c ∷ cs) e) refl
  keeps p false (c ∷ cs) h e = rw (h (c ∷ cs) e) refl

  lacking-all :
      (p : Bytes → Bool) (keep : Bool) (fs : List Field)
      → ((name : Bytes) → p name ≡ true → is_there names name ≡ not keep)
      → names_all p fs ≡ true
      → lacking names keep fs ≡ (if keep then fs else [])
  unfolding lacking names_all
  lacking-all p true [] h e = refl
  lacking-all p false [] h e = refl
  lacking-all p keep (f ∷ fs) h e =
      let first : is_empty f.name || p f.name ≡ true = ground arith in
      rw (keeps p keep f.name h first, lacking-all p keep fs h (ground arith)) (if-cons keep f fs)

  -- Fields of attributes that they name, of which all or none are left.
  lacking-named :
      (p : Bytes → Bool) (gone keep : Bool) (fs : List Field)
      → ((name : Bytes) → p name ≡ true → is_there names name ≡ gone)
      → well_named false fs ≡ true
      → names_all p fs ≡ true
      → lacking names keep fs ≡ (if gone then [] else fs)
  unfolding lacking names_all well_named
  lacking-named p true keep [] h n e = refl
  lacking-named p false keep [] h n e = refl
  lacking-named p gone keep (f ∷ fs) h n e =
      let named : is_empty f.name ≡ false = ground arith in
      let first : p f.name ≡ true = ground arith in
      rw (named, h f.name first)
        (rw (lacking-all p (not gone) fs (λ m k. h m k ∙ not-not gone) (ground arith))
          (if-not gone f fs))

  lacking-append :
      (keep : Bool) (fs gs hs : List Field)
      → ((k : Bool) → lacking names k gs ≡ hs)
      → lacking names keep (fs ++ gs) ≡ lacking names keep fs ++ hs
  unfolding lacking
  lacking-append keep [] gs hs h = h keep
  lacking-append keep (f ∷ fs) gs hs h =
      elim (Bool-cases (if is_empty f.name then keep else not (is_there names f.name))) [
        | inl stay ↦ rw stay (ap (◌∷◌ f) (lacking-append true fs gs hs h))
        | inr goes ↦ rw goes (lacking-append false fs gs hs h)
      ]

-- What is left of some fields.
pub record Leaves (names : List Bytes) (fs gs : List Field) : Type 0 where
  pub left : (keep : Bool) → lacking names keep fs ≡ gs

pub append-Leaves :
    {names : List Bytes} {fs gs hs ks : List Field}
    → Leaves names fs hs
    → Leaves names gs ks
    → Leaves names (fs ++ gs) (hs ++ ks)
append-Leaves {names} {fs} {gs} {hs} {ks} s t = record {
  left = λ keep.
      lacking-append names keep fs gs ks t.left ∙ ap (λ (xs : List Field). xs ++ ks) (s.left keep);
}

-- The named fields among `fs` have names that pass the test.
pub record IsAbout (p : Bytes → Bool) (fs : List Field) : Type 0 where
  pub about : names_all p fs ≡ true

-- Names that are not looked for.
unfoldable pub untracked : Bytes → Bool
untracked name = not (is_one_of name presence_names)

pub untracked-Leaves :
    {names : List Bytes} {fs : List Field}
    → IsNamed false fs
    → IsAbout untracked fs
    → Leaves names fs fs
unfolding is_there untracked
untracked-Leaves {names} {fs} s t = record {
  left =
      λ keep. lacking-named names untracked false keep fs (λ name e. ground arith) s.named t.about;
}

-- The n-th name, which is looked for under the n-th flag.
unfoldable pub nth_name : ℕ → Bytes
nth_name n = get_or presence_names n []

unfoldable pub is_tracked : ℕ → Bool
is_tracked n = is_one_of (nth_name n) presence_names && attribute_presence (nth_name n) == 2 ^ n

module _ (printer_uri authority : Bytes) (items : List Item) where
  abbrev pub copied_names : List Bytes
  copied_names = names_of (copied printer_uri authority items)

  -- The fields of the n-th name are there where the copied attributes lack it.
  pub unless-Leaves :
      (n : ℕ) {fs : List Field}
      → is_tracked n ≡ true
      → IsNamed false fs
      → IsAbout (equal (nth_name n)) fs
      → Leaves copied_names (unless 0 n fs) (unless (present_of 0 items) n fs)
  unfolding unless is_tracked nth_name
  unless-Leaves n {fs} tracked s t =
      let one : is_one_of (nth_name n) presence_names ≡ true = ground arith in
      let flag : attribute_presence (nth_name n) ≡ 2 ^ n = ground arith in
      let digit = present_of-digit n flag printer_uri authority 0 0 items in
      let missing : (bit_and (present_of 0 items) (2 ^ n) == 0)
          ≡ not (is_one_of (nth_name n) copied_names) =
        digit ∙ rw (zero-bit_and (2 ^ n)) refl in
      let there : (name : Bytes)
          → equal (nth_name n) name ≡ true
          → is_there copied_names name ≡ is_one_of (nth_name n) copied_names =
        λ name e. rw (← (equal_iff (nth_name n) name).0 e) (unfold is_there in rw one refl) in
      record {
        left = λ keep. rw (zero-bit_and (2 ^ n)) (
            lacking-named copied_names (equal (nth_name n)) (is_one_of (nth_name n) copied_names)
              keep fs there s.named t.about
            ∙ if_unless (is_one_of (nth_name n) copied_names) _ fs missing);
      }
