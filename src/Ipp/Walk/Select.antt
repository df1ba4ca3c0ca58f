-- ===== src/Ipp/Walk/Select.antt =====
-- A selection of a message's items by their group and name is again a message.
use espresso.Prelude.{
  ℕ, ◌≡◌, ◌⊎◌, inl, inr, refl, ap, arith, Bool, true, false, List, [], ◌∷◌, if◌then◌else◌, Bytes,
  Bool-cases,
}
use espresso.Ipp.Walk.{Attribute}
use espresso.Ipp.Walk.Parse.{Item, group, value}
use espresso.Ipp.Walk.Format.{IsAttribute, IsMessage}

module _ (stays : ℕ → Bytes → Bool) where
  -- All group tags, and the attributes that stay, from a group on.
  abbrev pub selected : ℕ → List Item → List Item
  selected g [] = []
  selected g (group h ∷ items) = group h ∷ selected h items
  selected g (value a ∷ items) =
      if stays g a.name then value a ∷ selected g items else selected g items

  -- The name before an item among those that stay is the name before it in the message, unless
  -- the attribute of that name was taken out.
  abbrev Aligned : ℕ → Bytes → Bytes → Type 0
  Aligned g before after = (after ≡ before) ⊎ (stays g before ≡ false)

  moved-IsAttribute :
      (g : ℕ) (before after : Bytes) (a : Attribute)
      → Aligned g before after
      → stays g a.name ≡ true
      → IsAttribute before a
      → IsAttribute after a
  moved-IsAttribute g before after a (inl same) s v = rw same v
  moved-IsAttribute g before after a (inr out) s v = record {
    tag_above = v.tag_above;
    name_fits = v.name_fits;
    value_fits = v.value_fits;
    named = elim v.named [ inl own ↦ inl own | inr (none, same, ne) ↦ absurd (ground arith) ];
  }

  -- No value that stays loses the attribute that it belongs to.
  selected-Aligned :
      (items : List Item) (g : ℕ) (before after : Bytes)
      → Aligned g before after
      → IsMessage before items
      → IsMessage after (selected g items)
  selected-Aligned [] g before after al m = tt
  selected-Aligned (group h ∷ items) g before after al (small, ne, m) =
      (small, ne, selected-Aligned items h [] [] (inl refl) m)
  selected-Aligned (value a ∷ items) g before after al (v, m) = elim (Bool-cases (stays g a.name)) [
    | inl s ↦ rw s (
      moved-IsAttribute g before after a al s v,
      selected-Aligned items g a.name a.name (inl refl) m,
    )
    | inr goes ↦ rw goes (selected-Aligned items g a.name after (inr goes) m)
  ]

  pub selected-IsMessage :
      (items : List Item) (g : ℕ) (name : Bytes)
      → IsMessage name items
      → IsMessage name (selected g items)
  selected-IsMessage items g name m = selected-Aligned items g name name (inl refl) m

  -- A second selection takes nothing more away.
  pub selected_idem : (items : List Item) (g : ℕ) → selected g (selected g items) ≡ selected g items
  selected_idem [] g = refl
  selected_idem (group h ∷ items) g = ap (◌∷◌ (group h)) (selected_idem items h)
  selected_idem (value a ∷ items) g = elim (Bool-cases (stays g a.name)) [
    | inl s ↦ rw (s, s) (ap (◌∷◌ (value a)) (selected_idem items g))
    | inr goes ↦ rw goes (selected_idem items g)
  ]
