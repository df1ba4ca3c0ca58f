-- ===== src/Ipp/Synthesize/Copy.antt =====
-- What `transform_message` copies of an answer that it normalizes.
use Prim.Native.Nat.{bit_or}
use espresso.Prelude.{
  ℕ, ◌≡◌, refl, sym, ap, arith, Bool, not, Option, none, some, List, [], ◌∷◌, ◌++◌, map,
  if◌then◌else◌, Bytes, append-nil, Bool-cases, inl, inr,
}
use espresso.Ipp.Buffer.{Heap, Buffer}
use espresso.Ipp.Buffer.Laws.{append-bytes}
use espresso.Ipp.Rewrite.{
  is_one_of, replaced_names, Transform, Synthesize, new_value, transform_group, transform_attribute,
  attribute_presence, transformer, continue,
}
use espresso.Ipp.Rewrite.Exact.{output_item, attribute-account}
use espresso.Ipp.Walk.{next}
use espresso.Ipp.Walk.Parse.{Item, group, value}
use espresso.Ipp.Walk.Format.{encode, item_bytes}
use espresso.Ipp.Walk.Select.{selected}
use espresso.Ipp.Walk.Simulate.{step, written, viewed}

-- The attributes of an answer that are copied, in any group.
unfoldable pub copies : Bytes → Bool
copies name = not (is_one_of name replaced_names)

abbrev pub stays : ℕ → Bytes → Bool
stays g name = copies name

-- The flags of the attributes that are copied, and the last group.
abbrev pub present_of : ℕ → List Item → ℕ
present_of p [] = p
present_of p (group g ∷ items) = present_of p items
present_of p (value a ∷ items) =
    present_of (if copies a.name then bit_or p (attribute_presence a.name) else p) items

abbrev pub last_group : ℕ → List Item → ℕ
last_group g [] = g
last_group g (group h ∷ items) = last_group h items
last_group g (value a ∷ items) = last_group g items

module _ (printer_uri authority : Bytes) where
  abbrev pub output : Item → Item
  output = output_item printer_uri authority

  -- What is copied of an answer.
  abbrev pub copied : List Item → List Item
  copied items = selected stays 0 (map output items)

  abbrev pub normalized : ℕ × ℕ → Item → (ℕ × ℕ) × Bytes
  normalized (p, g) (group h) = ((p, h), h ∷ [])
  normalized (p, g) (value a) =
      if copies a.name
      then ((bit_or p (attribute_presence a.name), g), item_bytes (output (value a)))
      else ((p, g), [])

  pub written-copied :
      (items : List Item) (p g h : ℕ)
      → written normalized (p, g) items ≡ encode (selected stays h (map output items))
  written-copied [] p g h = refl
  written-copied (group k ∷ items) p g h = ap (◌∷◌ k) (written-copied items p k k)
  written-copied (value a ∷ items) p g h = elim (Bool-cases (copies a.name)) [
    | inl s ↦ rw s (ap (◌++◌ (item_bytes (output (value a)))) (written-copied items _ g h))
    | inr goes ↦ rw goes (written-copied items p g h)
  ]

  pub viewed-of :
      (items : List Item) (p g : ℕ)
      → viewed normalized (p, g) items ≡ (present_of p items, last_group g items)
  viewed-of [] p g = refl
  viewed-of (group k ∷ items) p g = viewed-of items p k
  viewed-of (value a ∷ items) p g = elim (Bool-cases (copies a.name)) [
    | inl s ↦ rw s (viewed-of items _ g)
    | inr goes ↦ rw goes (viewed-of items p g)
  ]

  module _ (heap : Heap) (f : Synthesize) where
    continue-keeps :
        (s t : Transform) (o : Option Buffer)
        → continue heap printer_uri authority (some f) s o ≡ next t
        → (o ≡ some t.buffer)
          × (◌≡◌ {A = ℕ × ℕ} (t.present, t.current_group) (s.present, s.current_group))
    continue-keeps s t none e = cc
    continue-keeps s t (some b) e = (ground arith, ground arith)

    pub step-normalized :
        (s t : Transform) (i : Item)
        → step (transformer heap printer_uri authority (some f)) s i ≡ next t
        → (t.buffer.bytes ≡ s.buffer.bytes ++ (normalized (s.present, s.current_group) i).1)
          × (◌≡◌ {A = ℕ × ℕ}
              (t.present, t.current_group)
              (normalized (s.present, s.current_group) i).0)
    unfolding transform_group transform_attribute copies new_value
    step-normalized s t (group g) e =
        let (wrote, same) = continue-keeps (record s { current_group = g }) t _ e in
        (append-bytes heap (g ∷ []) s.buffer t.buffer wrote, same)
    step-normalized s t (value a) e = elim (Bool-cases (is_one_of a.name replaced_names)) [
      | inl gone ↦
          let same : s ≡ t = ground arith in
          rw gone (rw (← same) (sym (append-nil s.buffer.bytes), refl))
      | inr keeps ↦
          let (wrote, same) =
            continue-keeps (record s { present = bit_or s.present (attribute_presence a.name) }) t _
              (rw keeps at e) in
          rw keeps (attribute-account printer_uri authority heap a s.buffer t.buffer wrote, same)
    ]
