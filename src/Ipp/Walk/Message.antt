-- ===== src/Ipp/Walk/Message.antt =====
-- Messages and their items: a message written from its items is parsed back to them, and
-- whatever is parsed up to its end tag was written from its items.
use espresso.Prelude.{
  ℕ, zero, suc, ◌≤◌, ◌<◌, ◌≡◌, ◌≢◌, inl, inr, refl, sym, ap, subst, ◌∙◌, arith, List, [], ◌∷◌, ◌++◌,
  length, All, IsByte, leb, ◌==◌, ==_iff, Bytes, Bool-cases, length-append, append_assoc, drop,
  drop-append,
}
use espresso.Ipp.Buffer.{be16}
use espresso.Ipp.Buffer.{attribute_bytes}
use espresso.Ipp.Walk.{Attribute, Read, attribute, refused, read_attribute, tag_end}
use espresso.Ipp.Walk.Parse.{
  Item, group, value, Ending, document, bad, cut, Parsed, parse, parse_all, cons, stop, after_read,
}
use espresso.Ipp.Walk.Format.{encode, IsMessage, Reads, read_attribute-Reads, read_attribute-encode}

parse-group :
    (fuel g : ℕ) (current input : Bytes)
    → g ≤ 15
    → g ≢ tag_end
    → parse (suc fuel) current (g ∷ input) ≡ cons (group g) (parse fuel [] input)
unfolding parse
parse-group fuel g current input h ne = ground arith

parse-value :
    (fuel tag : ℕ) (current input : Bytes)
    → 15 < tag
    → parse (suc fuel) current (tag ∷ input)
      ≡ after_read (parse fuel) (read_attribute tag current input)
unfolding parse
parse-value fuel tag current input h = ground arith

parse-document :
    (fuel : ℕ) (current input : Bytes)
    → parse (suc fuel) current (tag_end ∷ input) ≡ stop (document input)
unfolding parse
parse-document fuel current input = refl

-- The bytes of the first attribute, in front of the others.
attribute_front :
    (a : Attribute) (rest : Bytes)
    → attribute_bytes a.tag a.name_field a.value ++ rest
      ≡ a.tag
        ∷ (be16 (length a.name_field)
            ++ (a.name_field ++ (be16 (length a.value) ++ (a.value ++ rest))))
attribute_front a rest = simp append_assoc

-- The items of a message, written with the end tag and a document behind them, are parsed back
-- with that document, where the fuel is above the length of the items.
pub parse-encode :
    (fuel : ℕ) (items : List Item) (current doc : Bytes)
    → IsMessage current items
    → length (encode items) < fuel
    → parse fuel current (encode items ++ tag_end ∷ doc)
      ≡ record { items = items; ending = document doc }
parse-encode zero items current doc m h = absurd (omega arith)
parse-encode (suc fuel) [] current doc m h = parse-document fuel current doc
parse-encode (suc fuel) (group g ∷ items) current doc (small, ne, m) h =
    parse-group fuel g current (encode items ++ tag_end ∷ doc) small ne
    ∙ ap (cons (group g)) (parse-encode fuel items [] doc m (omega arith))
parse-encode (suc fuel) (value a ∷ items) current doc (v, m) h =
    let rest = encode items ++ tag_end ∷ doc in
    ap (parse (suc fuel) current) (
      append_assoc (attribute_bytes a.tag a.name_field a.value) (encode items) (tag_end ∷ doc)
      ∙ attribute_front a rest)
    ∙ parse-value fuel a.tag current _ v.tag_above
    ∙ ap (after_read (parse fuel)) (read_attribute-encode current a rest v)
    ∙ ap (cons (value a)) (
        parse-encode fuel items a.name doc m (
          omega (arith, length-append (attribute_bytes a.tag a.name_field a.value) (encode items))))

-- A parse that reached the end tag has the input written from its items.
abbrev Written : Bytes → Bytes → Parsed → Type 0
Written current input p = elim p.ending [
  | document doc ↦ (encode p.items ++ tag_end ∷ doc ≡ input) × IsMessage current p.items
  | _ ↦ Unit {0}
]

after_read-Written :
    (loop : Bytes → Bytes → Parsed) (tag : ℕ) (current input : Bytes) (r : Read)
    → ((name rest : Bytes) → All IsByte rest → Written name rest (loop name rest))
    → Reads tag current input r
    → Written current (tag ∷ input) (after_read loop r)
after_read-Written loop tag current input (refused code) ih v = tt
after_read-Written loop tag current input (attribute a rest) ih (e, v, bytes) =
    cons-Written (loop a.name rest).ending (loop a.name rest).items (ih a.name rest bytes)
  where
    cons-Written :
        (d : Ending) (items : List Item)
        → Written a.name rest (record { items = items; ending = d })
        → Written current (tag ∷ input) (record { items = value a ∷ items; ending = d })
    cons-Written (document doc) items (w, m) = (
      append_assoc (attribute_bytes a.tag a.name_field a.value) (encode items) (tag_end ∷ doc)
          ∙ ap (◌++◌ (attribute_bytes a.tag a.name_field a.value)) w
          ∙ sym e,
      (v, m),
    )
    cons-Written (bad code) items w = tt
    cons-Written cut items w = tt

group-Written :
    (g : ℕ) (current rest : Bytes) (d : Ending) (items : List Item)
    → g ≤ 15
    → g ≢ tag_end
    → Written [] rest (record { items = items; ending = d })
    → Written current (g ∷ rest) (record { items = group g ∷ items; ending = d })
group-Written g current rest (document doc) items h ne (w, m) = (ap (◌∷◌ g) w, (h, ne, m))
group-Written g current rest (bad code) items h ne w = tt
group-Written g current rest cut items h ne w = tt

parse-Written :
    (fuel : ℕ) (current input : Bytes)
    → All IsByte input
    → Written current input (parse fuel current input)
parse-Written fuel current [] bytes = unfold parse in tt
parse-Written zero current (tag ∷ input) bytes = unfold parse in tt
parse-Written (suc fuel) current (tag ∷ input) (b, bytes) = elim (Bool-cases (tag == tag_end)) [
  | inl e ↦ rw ((==_iff tag tag_end).0 e, parse-document) (refl, tt)
  | inr ne ↦ elim (Bool-cases (leb tag 15)) [
    | inl small ↦ rw (parse-group fuel tag current input (ground arith) (ground arith)) (
        group-Written tag current input _ _ (ground arith) (ground arith)
          (parse-Written fuel [] input bytes))
    | inr large ↦ rw (parse-value fuel tag current input (ground arith)) (
        after_read-Written (parse fuel) tag current input _
          (λ name rest h. parse-Written fuel name rest h)
          (read_attribute-Reads tag current input (ground arith) bytes))
  ]
]

-- For every list of bytes on which the parse reaches an end tag: the items, the end tag and the
-- document behind it, written again, are the list, and the items are a message.
pub encode-parse :
    (fuel : ℕ) (current input doc : Bytes)
    → All IsByte input
    → (parse fuel current input).ending ≡ document doc
    → (encode (parse fuel current input).items ++ tag_end ∷ doc ≡ input)
      × IsMessage current (parse fuel current input).items
encode-parse fuel current input doc bytes e =
    subst
      (λ (d : Ending).
        Written current input (record { items = (parse fuel current input).items; ending = d }))
      e (parse-Written fuel current input bytes)

-- A copy with a header of `k` bytes in front is a message of its items.
pub parse_all-copy :
    (k : ℕ) (header doc : Bytes) (items : List Item)
    → length header ≡ k
    → IsMessage [] items
    → parse_all (drop k (header ++ (encode items ++ tag_end ∷ doc)))
      ≡ record { items = items; ending = document doc }
parse_all-copy k header doc items h m =
    ap (λ (j : ℕ). parse_all (drop j (header ++ (encode items ++ tag_end ∷ doc)))) (sym h)
    ∙ ap parse_all (drop-append header (encode items ++ tag_end ∷ doc))
    ∙ parse-encode (length (encode items ++ tag_end ∷ doc)) items [] doc m
        (omega (arith, length-append (encode items) (tag_end ∷ doc)))
