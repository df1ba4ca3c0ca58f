-- ===== src/Ipp/Walk/Parse.antt =====
-- The loop as a parse of the envelope and a run over what was parsed.
use espresso.Prelude.{
  ℕ, zero, suc, ◌≤◌, ◌<◌, ◌≡◌, ◌≢◌, refl, arith, List, [], ◌∷◌, length, drop, leb, ◌==◌,
  if◌then◌else◌, Bytes, length-drop,
}
use espresso.Ipp.{Code, incomplete}
use espresso.Ipp.Buffer.{read_u16}
use espresso.Ipp.Walk.{
  Attribute, Read, attribute, refused, read_attribute, read_value, tag_end, Turn, next, leave,
  follow, proceed, Outcome, ended, broken, exhausted, Handler, walk,
}

pub data Item : Type 0 where
  group : ℕ → Item
  value : Attribute → Item

-- Where the envelope ends: before the document, at an error, or when the fuel ran out.
pub data Ending : Type 0 where
  document : Bytes → Ending
  bad : Code → Ending
  cut : Ending

pub record Parsed : Type 0 where
  pub items : List Item
  pub ending : Ending

abbrev pub cons : Item → Parsed → Parsed
cons i p = record { items = i ∷ p.items; ending = p.ending }

abbrev pub stop : Ending → Parsed
stop e = record { items = []; ending = e }

abbrev pub after_read : (Bytes → Bytes → Parsed) → Read → Parsed
after_read more (refused code) = stop (bad code)
after_read more (attribute a rest) = cons (value a) (more a.name rest)

unfoldable pub parse : ℕ → Bytes → Bytes → Parsed
parse fuel current_name [] = stop (bad incomplete)
parse zero current_name (tag ∷ input) = stop cut
parse (suc fuel) current_name (tag ∷ input) =
    let more = parse fuel [] input in
    if tag == tag_end
    then stop (document input)
    else if leb tag 15
    then cons (group tag) more
    else after_read (parse fuel) (read_attribute tag current_name input)

abbrev pub parse_all : Bytes → Parsed
parse_all input = parse (length input) [] input

follow_ext {ℓ κ} :
    {S : Type ℓ} {R : Type κ} (t : Turn S R) (f g : S → Outcome S R)
    → ((s : S) → f s ≡ g s)
    → follow t f ≡ follow t g
follow_ext (next s) f g h = h s
follow_ext (leave r) f g h = refl

module _ {ℓ κ} {S : Type ℓ} {R : Type κ} (h : Handler S R) where
  abbrev pub finish : S → Ending → Outcome S R
  finish s (document rest) = ended s rest
  finish s (bad code) = broken code
  finish s cut = exhausted

  unfoldable pub run : S → List Item → Ending → Outcome S R
  run s [] e = finish s e
  run s (group g ∷ items) e = follow (h.on_group s g) (λ t. run t items e)
  run s (value a ∷ items) e = follow (h.on_attribute s a) (λ t. run t items e)

  proceed-run :
      (fuel : ℕ) (s : S)
      → ((t : S) (name rest : Bytes)
          → walk h fuel t name rest
            ≡ run t (parse fuel name rest).items (parse fuel name rest).ending)
      → (r : Read)
      → proceed h s (walk h fuel) r
        ≡ run s (after_read (parse fuel) r).items (after_read (parse fuel) r).ending
  unfolding run
  proceed-run fuel s ih (refused code) = refl
  proceed-run fuel s ih (attribute a rest) =
      follow_ext (h.on_attribute s a) _ _ (λ t. ih t a.name rest)

  -- The loop is the parse followed by the run, on every input.
  pub walk-run :
      (fuel : ℕ) (s : S) (name input : Bytes)
      → walk h fuel s name input
        ≡ run s (parse fuel name input).items (parse fuel name input).ending
  unfolding walk run parse
  walk-run fuel s name [] = refl
  walk-run zero s name (tag ∷ input) = refl
  walk-run (suc fuel) s name (tag ∷ input) = ground (
    arith,
    follow_ext (h.on_group s tag) (λ t. walk h fuel t [] input) _ (λ t. walk-run fuel t [] input),
    proceed-run fuel s (walk-run fuel) (read_attribute tag name input),
  )

-- An attribute that is read takes five bytes at least, its tag included.
read_attribute-shorter :
    (tag : ℕ) (name input : Bytes) {a : Attribute} {rest : Bytes}
    → read_attribute tag name input ≡ attribute a rest
    → length rest < length input
unfolding read_attribute read_value
read_attribute-shorter tag name input e = ground (
  arith,
  length-drop 2 input,
  length-drop (read_u16 input) (drop 2 input),
  length-drop 2 (drop (read_u16 input) (drop 2 input)),
  length-drop (read_u16 (drop (read_u16 input) (drop 2 input)))
      (drop 2 (drop (read_u16 input) (drop 2 input))),
  length-drop 2 (drop 2 input),
  length-drop (read_u16 (drop 2 input)) (drop 2 (drop 2 input)),
)

after_read-ne-cut :
    (fuel : ℕ) (r : Read)
    → ((a : Attribute) (rest : Bytes)
        → r ≡ attribute a rest
        → (parse fuel a.name rest).ending ≢ cut)
    → (after_read (parse fuel) r).ending ≢ cut
after_read-ne-cut fuel (refused code) h = λ e. cc
after_read-ne-cut fuel (attribute a rest) h = h a rest refl

-- The parse ends: a fuel of at least the length of the input is never used up.
pub parse-ne-cut :
    (fuel : ℕ) (name input : Bytes) → length input ≤ fuel → (parse fuel name input).ending ≢ cut
unfolding parse
parse-ne-cut fuel name [] h = λ e. cc
parse-ne-cut zero name (tag ∷ input) h = absurd (omega arith)
parse-ne-cut (suc fuel) name (tag ∷ input) h = ground (
  arith,
  parse-ne-cut fuel [] input (omega arith),
  after_read-ne-cut fuel (read_attribute tag name input) (λ a rest d.
      parse-ne-cut fuel a.name rest (omega (arith, read_attribute-shorter tag name input d))),
)
