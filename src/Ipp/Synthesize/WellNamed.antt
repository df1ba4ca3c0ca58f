-- ===== src/Ipp/Synthesize/WellNamed.antt =====
-- Every value that the facade adds belongs to an attribute that it names.
use espresso.Prelude.{
  ℕ, ◌≡◌, refl, arith, Bool, true, false, not, ◌&&◌, List, [], ◌∷◌, ◌++◌, map, ltb, Bytes, equal,
  c_str, Option-cases, inl, inr,
}
use espresso.Ipp.Synthesize.{Field, field, number, unless, when, values, csv_fields, list_values}
use espresso.Ipp.Synthesize.Media.{
  Measure, Size, Collection, media_collection, media_size, collections, media_default_fields,
  media_dimensions, tag_begin_collection,
}
use espresso.Ipp.Synthesize.Message.{is_name, well_named}
use espresso.Ipp.Walk.{is_empty}

-- The values of `fs` belong to attributes; `have` is whether there is one in front of them.
pub record IsNamed (have : Bool) (fs : List Field) : Type 0 where
  pub named : well_named have fs ≡ true

pub well_named-front :
    (b : Bool) (fs : List Field) → well_named b fs ≡ true → well_named true fs ≡ true
unfolding well_named
well_named-front b [] h = refl
well_named-front true (f ∷ fs) h = h
well_named-front false (f ∷ fs) h = ground arith

well_named-append :
    (b : Bool) (fs gs : List Field)
    → well_named b fs ≡ true
    → well_named b gs ≡ true
    → well_named b (fs ++ gs) ≡ true
unfolding well_named
well_named-append b [] gs h k = k
well_named-append b (f ∷ fs) gs h k =
    ground (arith, well_named-append true fs gs, well_named-front b gs k)

pub append-IsNamed :
    {b : Bool} {fs gs : List Field} → IsNamed b fs → IsNamed b gs → IsNamed b (fs ++ gs)
append-IsNamed {b} {fs} {gs} s t = record { named = well_named-append b fs gs s.named t.named }

pub nil-IsNamed : {b : Bool} → IsNamed b []
unfolding well_named
nil-IsNamed = record { named = refl }

pub unless-IsNamed :
    (present n : ℕ) {b : Bool} {fs : List Field} → IsNamed b fs → IsNamed b (unless present n fs)
unfolding unless
unless-IsNamed present n s = grind (arith, nil-IsNamed)

pub when-IsNamed : (c : Bool) {b : Bool} {fs : List Field} → IsNamed b fs → IsNamed b (when c fs)
unfolding when
when-IsNamed true s = s
when-IsNamed false s = nil-IsNamed

-- A tag above the groups', and a name that fits.
unfoldable pub heads : ℕ → Bytes → Bool
unfolding is_name equal c_str
heads tag name = ltb 15 tag && is_name name && not (is_empty name)

pub head-IsNamed :
    {b : Bool} {tag : ℕ} {name v : Bytes} {fs : List Field}
    → heads tag name ≡ true
    → IsNamed true fs
    → IsNamed b (field tag name v ∷ fs)
unfolding heads well_named
head-IsNamed {b = true} h s = record { named = ground (arith, s.named) }
head-IsNamed {b = false} h s = record { named = ground (arith, s.named) }

pub more-IsNamed :
    {tag : ℕ} {v : Bytes} {fs : List Field}
    → ltb 15 tag ≡ true
    → IsNamed true fs
    → IsNamed true (field tag [] v ∷ fs)
unfolding well_named is_name equal c_str
more-IsNamed h s = record { named = ground (arith, s.named) }

pub more_values :
    (tag : ℕ) (vs : List Bytes) → ltb 15 tag ≡ true → IsNamed true (map (field tag []) vs)
more_values tag [] h = nil-IsNamed
more_values tag (v ∷ vs) h = more-IsNamed h (more_values tag vs h)

heads-above : (tag : ℕ) (name : Bytes) → heads tag name ≡ true → ltb 15 tag ≡ true
unfolding heads
heads-above tag name h = ground arith

pub values-IsNamed :
    {b : Bool} (tag : ℕ) (name : Bytes) (vs : List Bytes)
    → heads tag name ≡ true
    → IsNamed b (values tag name vs)
unfolding values
values-IsNamed tag name [] h = nil-IsNamed
values-IsNamed tag name (v ∷ vs) h = head-IsNamed h (more_values tag vs (heads-above tag name h))

pub csv_fields-IsNamed :
    {b : Bool} (tag : ℕ) (name csv : Bytes)
    → heads tag name ≡ true
    → IsNamed b (csv_fields tag name csv)
unfolding csv_fields
csv_fields-IsNamed tag name csv h = values-IsNamed tag name (list_values csv) h

pub ruleset named = (
  append-IsNamed, nil-IsNamed, unless-IsNamed, when-IsNamed, values-IsNamed, csv_fields-IsNamed,
  head-IsNamed, more-IsNamed,
)

-- A collection in front of more values, under a name and as one more value.
pub record IsCollection (one : Collection) : Type 0 where
  first :
      (name media : Bytes) (size : Size) {fs : List Field}
      → heads tag_begin_collection name ≡ true
      → IsNamed true fs
      → IsNamed false (one name media size ++ fs)
  later :
      (media : Bytes) (size : Size) {fs : List Field}
      → IsNamed true fs
      → IsNamed true (one [] media size ++ fs)

pub media_collection-IsCollection : IsCollection media_collection
unfolding number
media_collection-IsCollection = record {
  first = λ name media (w, h) k s. search (head-IsNamed, more-IsNamed, refl) depth 60 fits 4000;
  later = λ media (w, h) s. search (more-IsNamed, refl) depth 60 fits 4000;
}

pub media_size-IsCollection : IsCollection media_size
unfolding number
media_size-IsCollection = record {
  first = λ name media (w, h) k s. search (head-IsNamed, more-IsNamed, refl) depth 60 fits 4000;
  later = λ media (w, h) s. search (more-IsNamed, refl) depth 60 fits 4000;
}

module _ (measure : Measure) (one : Collection) (collects : IsCollection one) where
  more_collections : (ms : List Bytes) → IsNamed true (collections measure one [] ms)
  unfolding collections
  more_collections [] = nil-IsNamed
  more_collections (m ∷ ms) = elim (Option-cases (media_dimensions measure m)) [
    | inl e ↦ rw e (more_collections ms)
    | inr (size, e) ↦ rw e (collects.later m size (more_collections ms))
  ]

  pub collections-IsNamed :
      (name : Bytes) (ms : List Bytes)
      → heads tag_begin_collection name ≡ true
      → IsNamed false (collections measure one name ms)
  unfolding collections
  collections-IsNamed name [] k = nil-IsNamed
  collections-IsNamed name (m ∷ ms) k = elim (Option-cases (media_dimensions measure m)) [
    | inl e ↦ rw e (collections-IsNamed name ms k)
    | inr (size, e) ↦ rw e (collects.first name m size k (more_collections ms))
  ]

pub media_default_fields-IsNamed :
    (measure : Measure) (name media : Bytes)
    → heads tag_begin_collection name ≡ true
    → IsNamed false (media_default_fields measure name media)
unfolding media_default_fields
media_default_fields-IsNamed measure name media k =
    elim (Option-cases (media_dimensions measure media)) [
      | inl e ↦ rw e nil-IsNamed
      | inr (size, e) ↦ rw e (media_collection-IsCollection.first name media size k nil-IsNamed)
    ]
