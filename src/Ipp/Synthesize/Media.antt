-- ===== src/Ipp/Synthesize/Media.antt =====
-- The media collections of main/ipp_codec.c: `media_dimensions`, `append_media_collection`,
-- `append_media_database` and `append_media_sizes`.
use espresso.Prelude.{
  ℕ, ◌-◌, ◌&&◌, ◌||◌, Option, none, some, List, [], ◌∷◌, ◌++◌, length, take, drop, ltb, leb, ◌==◌,
  if◌then◌else◌, Bytes, codes, ◌>>=◌,
}
use espresso.Ipp.Csv.{equal_span}
use espresso.Ipp.Inspect.{tag_integer, tag_keyword}
use espresso.Ipp.Synthesize.{Field, field, text, number, list_values}
use espresso.Ipp.Target.{media_name_max}

abbrev pub tag_begin_collection : ℕ
tag_begin_collection = 0x34

abbrev pub tag_end_collection : ℕ
tag_end_collection = 0x37

abbrev pub tag_member_name : ℕ
tag_member_name = 0x4a

-- What the floating-point arithmetic of the C library makes of a text and a factor: the product in
-- whole hundredths of a millimetre, `none` where `strtod` does not read all of the text, the number
-- is not positive, or the product is above UINT32_MAX.
abbrev pub Measure : Type 0
Measure = Bytes → ℕ → Option ℕ

abbrev pub Size : Type 0
Size = ℕ × ℕ

abbrev pub aliases : List (Bytes × Size)
aliases =
    (codes "A3", (29700, 42000))
    ∷ (codes "iso-a3", (29700, 42000))
    ∷ (codes "A4", (21000, 29700))
    ∷ (codes "iso-a4", (21000, 29700))
    ∷ (codes "A5", (14800, 21000))
    ∷ (codes "iso-a5", (14800, 21000))
    ∷ (codes "Letter", (21590, 27940))
    ∷ (codes "na-letter", (21590, 27940))
    ∷ (codes "Legal", (21590, 35560))
    ∷ (codes "na-legal", (21590, 35560))
    ∷ (codes "Executive", (18415, 26670))
    ∷ (codes "Tabloid", (27940, 43180))
    ∷ (codes "4x6", (10160, 15240))
    ∷ (codes "5x7", (12700, 17780))
    ∷ (codes "Env10", (10478, 24130))
    ∷ (codes "EnvDL", (11000, 22000))
    ∷ []

unfoldable pub find_alias : Bytes → List (Bytes × Size) → Option Size
find_alias name [] = none
find_alias name ((alias, size) ∷ rest) =
    if equal_span name alias then some size else find_alias name rest

-- `strrchr(media, '_') + 1`, or the whole text.
unfoldable pub after_last : Bytes → Bytes → Bytes
after_last best [] = best
after_last best (c ∷ cs) = if c == b'_' then after_last cs cs else after_last best cs

-- Behind the last two characters, and what stands before them.
unfoldable pub multiplier : Bytes → Option ℕ
multiplier dimensions =
    let unit = drop (length dimensions - 2) dimensions in
    if ltb 2 (length dimensions) && equal_span unit (codes "mm")
    then some 100
    else if ltb 2 (length dimensions) && equal_span unit (codes "in")
    then some 2540
    else none

-- The first 'x'.
unfoldable pub split_x : Bytes → Option (Bytes × Bytes)
split_x [] = none
split_x (c ∷ cs) =
    let rest = split_x cs in if c == b'x' then some ([], cs) else do (a, b) ← rest; some (c ∷ a, b)

module _ (measure : Measure) where
  unfoldable pub measured : Bytes → Option Size
  measured dimensions = do
    factor ← multiplier dimensions
    (w, h) ← split_x (take (length dimensions - 2) dimensions)
    width ← measure w factor
    height ← measure h factor
    some (width, height)

  -- `media_dimensions`
  unfoldable pub media_dimensions : Bytes → Option Size
  media_dimensions name = elim (find_alias name aliases) [
    | some size ↦ some size
    | none ↦
        if length name == 0 || leb media_name_max (length name)
        then none
        else measured (after_last name name)
  ]

-- The fields for one medium, under a name that only the first has.
abbrev pub Collection : Type 0
Collection = Bytes → Bytes → Size → List Field

abbrev pub member : Bytes → Field
member name = text tag_member_name [] name

-- `append_media_collection`
abbrev pub media_collection : Collection
media_collection name media (width, height) =
    field tag_begin_collection name []
    ∷ member (codes "media-key")
    ∷ field tag_keyword [] media
    ∷ member (codes "media-size")
    ∷ field tag_begin_collection [] []
    ∷ member (codes "x-dimension")
    ∷ number tag_integer [] width
    ∷ member (codes "y-dimension")
    ∷ number tag_integer [] height
    ∷ field tag_end_collection [] []
    ∷ member (codes "media-size-name")
    ∷ field tag_keyword [] media
    ∷ member (codes "media-bottom-margin")
    ∷ number tag_integer [] 0
    ∷ member (codes "media-left-margin")
    ∷ number tag_integer [] 0
    ∷ member (codes "media-right-margin")
    ∷ number tag_integer [] 0
    ∷ member (codes "media-top-margin")
    ∷ number tag_integer [] 0
    ∷ member (codes "media-source")
    ∷ text tag_keyword [] (codes "main")
    ∷ member (codes "media-type")
    ∷ text tag_keyword [] (codes "stationery")
    ∷ field tag_end_collection [] []
    ∷ []

abbrev pub media_size : Collection
media_size name media (width, height) =
    field tag_begin_collection name []
    ∷ member (codes "x-dimension")
    ∷ number tag_integer [] width
    ∷ member (codes "y-dimension")
    ∷ number tag_integer [] height
    ∷ field tag_end_collection [] []
    ∷ []

-- The collection of a medium whose dimensions are known, and those of the media behind it.
abbrev pub collected : Collection → Bytes → Bytes → Option Size → (Bytes → List Field) → List Field
collected one name media none rest = rest name
collected one name media (some size) rest = one name media size ++ rest []

module _ (measure : Measure) where
  unfoldable pub collections : Collection → Bytes → List Bytes → List Field
  collections one name [] = []
  collections one name (media ∷ more) =
      collected one name media (media_dimensions measure media)
        (λ (n : Bytes). collections one n more)

  -- `append_media_database`
  unfoldable pub media_database : Bytes → List Field
  media_database csv = collections media_collection (codes "media-col-database") (list_values csv)

  -- `append_media_sizes`
  unfoldable pub media_sizes : Bytes → List Field
  media_sizes csv = collections media_size (codes "media-size-supported") (list_values csv)

  -- The collection of the default medium.
  unfoldable pub media_default_fields : Bytes → Bytes → List Field
  media_default_fields name media =
      collected media_collection name media (media_dimensions measure media) (λ _. [])
