-- ===== src/Ipp/Synthesize/About.antt =====
-- The names of the fields that the facade adds for one attribute.
use espresso.Prelude.{
  ℕ, ◌≡◌, refl, arith, Bool, true, false, ◌||◌, List, [], ◌∷◌, ◌++◌, map, Bytes, Option-cases, inl,
  inr,
}
use espresso.Ipp.Synthesize.{Field, field, number, when, values, csv_fields, list_values}
use espresso.Ipp.Synthesize.Lacking.{IsAbout, names_all}
use espresso.Ipp.Synthesize.Media.{
  Measure, Size, Collection, media_collection, media_size, collections, media_default_fields,
  media_dimensions,
}
use espresso.Ipp.Walk.{is_empty}

-- A name that a field may have.
unfoldable pub suits : (Bytes → Bool) → Bytes → Bool
suits p name = is_empty name || p name

names_all-append :
    (p : Bytes → Bool) (fs gs : List Field)
    → names_all p fs ≡ true
    → names_all p gs ≡ true
    → names_all p (fs ++ gs) ≡ true
unfolding names_all
names_all-append p [] gs h k = k
names_all-append p (f ∷ fs) gs h k = ground (arith, names_all-append p fs gs)

abbrev IsUnder : (Bytes → Bool) → Collection → Type 0
IsUnder p one =
    (name media : Bytes) (size : Size) → suits p name ≡ true → IsAbout p (one name media size)

module _ {p : Bytes → Bool} where
  pub append-IsAbout : {fs gs : List Field} → IsAbout p fs → IsAbout p gs → IsAbout p (fs ++ gs)
  append-IsAbout {fs} {gs} s t = record { about = names_all-append p fs gs s.about t.about }

  pub nil-IsAbout : IsAbout p []
  unfolding names_all
  nil-IsAbout = record { about = refl }

  pub when-IsAbout : (c : Bool) {fs : List Field} → IsAbout p fs → IsAbout p (when c fs)
  unfolding when
  when-IsAbout true s = s
  when-IsAbout false s = nil-IsAbout

  pub head-IsAbout :
      {tag : ℕ} {name v : Bytes} {fs : List Field}
      → suits p name ≡ true
      → IsAbout p fs
      → IsAbout p (field tag name v ∷ fs)
  unfolding names_all suits
  head-IsAbout h s = record { about = ground (arith, s.about) }

  more-IsAbout : (tag : ℕ) (vs : List Bytes) → IsAbout p (map (field tag []) vs)
  unfolding suits
  more-IsAbout tag [] = nil-IsAbout
  more-IsAbout tag (v ∷ vs) = head-IsAbout refl (more-IsAbout tag vs)

  pub values-IsAbout :
      (tag : ℕ) (name : Bytes) (vs : List Bytes)
      → suits p name ≡ true
      → IsAbout p (values tag name vs)
  unfolding values
  values-IsAbout tag name [] h = nil-IsAbout
  values-IsAbout tag name (v ∷ vs) h = head-IsAbout h (more-IsAbout tag vs)

  pub csv_fields-IsAbout :
      (tag : ℕ) (name csv : Bytes) → suits p name ≡ true → IsAbout p (csv_fields tag name csv)
  unfolding csv_fields
  csv_fields-IsAbout tag name csv h = values-IsAbout tag name (list_values csv) h

  media_collection-IsAbout :
      (name media : Bytes) (size : Size)
      → suits p name ≡ true
      → IsAbout p (media_collection name media size)
  unfolding number suits
  media_collection-IsAbout name media (w, h) k =
      head-IsAbout k (search (head-IsAbout, nil-IsAbout, refl) depth 60 fits 4000)

  media_size-IsAbout :
      (name media : Bytes) (size : Size)
      → suits p name ≡ true
      → IsAbout p (media_size name media size)
  unfolding number suits
  media_size-IsAbout name media (w, h) k =
      head-IsAbout k (search (head-IsAbout, nil-IsAbout, refl) depth 60 fits 4000)

  module _ (measure : Measure) where
    collections-IsAbout :
        (one : Collection) (name : Bytes) (ms : List Bytes)
        → IsUnder p one
        → suits p name ≡ true
        → IsAbout p (collections measure one name ms)
    unfolding collections suits
    collections-IsAbout one name [] c k = nil-IsAbout
    collections-IsAbout one name (m ∷ ms) c k = elim (Option-cases (media_dimensions measure m)) [
      | inl e ↦ rw e (collections-IsAbout one name ms c k)
      | inr (size, e) ↦
          rw e (append-IsAbout (c name m size k) (collections-IsAbout one [] ms c refl))
    ]

    pub databases-IsAbout :
        (name : Bytes) (ms : List Bytes)
        → suits p name ≡ true
        → IsAbout p (collections measure media_collection name ms)
    databases-IsAbout name ms =
        collections-IsAbout media_collection name ms media_collection-IsAbout

    pub sizes-IsAbout :
        (name : Bytes) (ms : List Bytes)
        → suits p name ≡ true
        → IsAbout p (collections measure media_size name ms)
    sizes-IsAbout name ms = collections-IsAbout media_size name ms media_size-IsAbout

    pub media_default_fields-IsAbout :
        (name media : Bytes)
        → suits p name ≡ true
        → IsAbout p (media_default_fields measure name media)
    unfolding media_default_fields
    media_default_fields-IsAbout name media k =
        elim (Option-cases (media_dimensions measure media)) [
          | inl e ↦ rw e nil-IsAbout
          | inr (size, e) ↦
              rw e (append-IsAbout (media_collection-IsAbout name media size k) nil-IsAbout)
        ]

pub ruleset about = (
  append-IsAbout, nil-IsAbout, when-IsAbout, head-IsAbout, values-IsAbout, csv_fields-IsAbout,
  databases-IsAbout, sizes-IsAbout, media_default_fields-IsAbout,
)
