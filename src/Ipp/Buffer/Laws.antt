-- ===== src/Ipp/Buffer/Laws.antt =====
-- What the writers append.
use espresso.Prelude.{
  ℕ, zero, suc, ◌+◌, ◌*◌, ◌^◌, ◌≤◌, ◌<◌, ◌≡◌, ap, ◌∙◌, arith, true, Option, some, [], ◌∷◌, ◌++◌,
  length, Bytes, ◌>>=◌, >>=-eq-some, append-nil, append_assoc, length-append, nil_of_length,
  Option-cases, inl, inr,
}
use native.Mathlib.Nat.{pow-suc}
use espresso.Ipp.Buffer.{
  size_max, Heap, Buffer, grow, new_capacity, append, append_u16, append_attribute, attribute_bytes,
  be16,
}

-- `grow` reaches what is required: `fuel` doublings of a capacity that is not 0 are enough.
pub grow-le :
    (fuel capacity required : ℕ)
    → required ≤ capacity * 2 ^ fuel
    → required ≤ grow fuel capacity required
unfolding grow
grow-le zero c r h = omega arith
grow-le (suc fuel) c r h =
    ground (arith, grow-le fuel (c * 2) r (omega (arith, ap (λ (t : ℕ). c * t) (pow-suc 2 fuel))))

-- The doubling stays a size_t.
pub grow-le-size_max :
    (fuel capacity required : ℕ)
    → capacity ≤ size_max
    → required ≤ size_max
    → grow fuel capacity required ≤ size_max
unfolding grow
grow-le-size_max zero c r h k = h
grow-le-size_max (suc fuel) c r h k = ground (arith, grow-le-size_max fuel (c * 2) r)

new_capacity_bounds :
    (b : Buffer) (required : ℕ)
    → b.capacity ≤ size_max
    → required ≤ size_max
    → (required ≤ new_capacity b required) × (new_capacity b required ≤ size_max)
unfolding new_capacity
new_capacity_bounds b required h k = ground (
  arith,
  grow-le 32 256 required,
  grow-le 32 b.capacity required,
  grow-le-size_max 32 256 required,
  grow-le-size_max 32 b.capacity required,
)

-- The array never overflows.
pub record IsValid (b : Buffer) : Type 0 where
  pub fits : length b.bytes ≤ b.capacity
  pub sized : b.capacity ≤ size_max

module _ (heap : Heap) where
  pub append-bytes : (d : Bytes) (b c : Buffer) → append heap d b ≡ some c → c.bytes ≡ b.bytes ++ d
  unfolding append
  append-bytes d b c e = ground (arith, nil_of_length d, append-nil b.bytes)

  pub append-some :
      (d : Bytes) (b : Buffer)
      → ((n size : ℕ) → heap n size ≡ true)
      → length b.bytes + length d ≤ size_max
      → (c : Buffer) × (append heap d b ≡ some c)
  unfolding append
  append-some d b all h = elim (Option-cases (append heap d b)) [
    | inl fails ↦
        absurd (ground (arith, all b.requests (new_capacity b (length b.bytes + length d))))
    | inr found ↦ found
  ]

  pub append-IsValid :
      (d : Bytes) (b : Buffer) {c : Buffer} → IsValid b → append heap d b ≡ some c → IsValid c
  unfolding append
  append-IsValid d b v e = ground (
    arith,
    new_capacity_bounds b (length b.bytes + length d),
    length-append b.bytes d,
    nil_of_length d,
    append-nil b.bytes,
  )

-- What an operation appends whenever it succeeds.
abbrev pub Writes : (Buffer → Option Buffer) → Bytes → Type 0
Writes f d = (b c : Buffer) → f b ≡ some c → c.bytes ≡ b.bytes ++ d

pub Writes->>= :
    (f g : Buffer → Option Buffer) (d e : Bytes)
    → Writes f d
    → Writes g e
    → Writes (λ b. f b >>= g) (d ++ e)
Writes->>= f g d e hf hg b c h =
    let (m, hm, hc) = >>=-eq-some (f b) g h in
    hg m c hc ∙ ap (λ (t : Bytes). t ++ e) (hf b m hm) ∙ append_assoc b.bytes d e

module _ (heap : Heap) where
  pub append_u16-Writes : (n : ℕ) → Writes (append_u16 heap n) (be16 n)
  unfolding append_u16
  append_u16-Writes n b c e = ground (arith, append-bytes heap (be16 n) b c)

  pub append_attribute-Writes :
      (tag : ℕ) (name value : Bytes)
      → Writes (append_attribute heap tag name value) (attribute_bytes tag name value)
  unfolding append_attribute
  append_attribute-Writes tag name value =
      Writes->>= (append heap (tag ∷ [])) _ _ _ (append-bytes heap (tag ∷ [])) (
        Writes->>= (append_u16 heap (length name)) _ _ _ (append_u16-Writes (length name)) (
          Writes->>= (append heap name) _ _ _ (append-bytes heap name) (
            Writes->>= (append_u16 heap (length value)) _ _ _ (append_u16-Writes (length value))
              (append-bytes heap value))))

abbrev pub Grants : Heap → Type 0
Grants heap = (n size : ℕ) → heap n size ≡ true

-- An operation that succeeds wherever its bytes still fit a size_t.
abbrev pub Sure : (Buffer → Option Buffer) → Bytes → Type 0
Sure f d = (b : Buffer) → length b.bytes + length d ≤ size_max → (c : Buffer) × (f b ≡ some c)

pub Sure->>= :
    (f g : Buffer → Option Buffer) (d e : Bytes)
    → Writes f d
    → Sure f d
    → Sure g e
    → Sure (λ b. f b >>= g) (d ++ e)
Sure->>= f g d e w hf hg b h =
    let (m, hm) = hf b (omega (arith, length-append d e)) in
    let (c, hc) =
      hg m (omega (arith, length-append d e, ap length (w b m hm), length-append b.bytes d)) in
    (c, rw hm hc)

module _ (heap : Heap) (all : Grants heap) where
  append_u16-Sure : (n : ℕ) → n < 65536 → Sure (append_u16 heap n) (be16 n)
  unfolding append_u16
  append_u16-Sure n h b k = let (c, e) = append-some heap (be16 n) b all k in (c, ground (arith))

  pub append_attribute-Sure :
      (tag : ℕ) (name value : Bytes)
      → length name < 65536
      → length value < 65536
      → Sure (append_attribute heap tag name value) (attribute_bytes tag name value)
  unfolding append_attribute
  append_attribute-Sure tag name value h k =
      let sure = λ (d : Bytes) (b : Buffer). append-some heap d b all in
      Sure->>= (append heap (tag ∷ [])) _ _ _ (append-bytes heap (tag ∷ [])) (sure (tag ∷ [])) (
        Sure->>= (append_u16 heap (length name)) _ _ _ (append_u16-Writes heap (length name))
          (append_u16-Sure (length name) h)
          (Sure->>= (append heap name) _ _ _ (append-bytes heap name) (sure name) (
            Sure->>= (append_u16 heap (length value)) _ _ _ (append_u16-Writes heap (length value))
              (append_u16-Sure (length value) k) (sure value))))
