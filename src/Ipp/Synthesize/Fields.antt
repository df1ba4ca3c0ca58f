-- ===== src/Ipp/Synthesize/Fields.antt =====
-- The fields of each part, and of the whole, belong to attributes that they name.
use espresso.Prelude.{
  ℕ, ◌≡◌, ◌≢◌, refl, arith, true, false, List, [], ◌∷◌, ◌++◌, length, ltb, ◌==◌, Bytes, codes,
  Bool-cases, inl, inr,
}
use espresso.Ipp.Synthesize.{number, flag, when, values, csv_fields, list_values, non_empty}
use espresso.Ipp.Synthesize.Describe.{
  protocol_fields, name_fields, format_fields, added_raster, default_format,
}
use espresso.Ipp.Synthesize.Facade.{
  job_fields, device_fields, timeout_fields, raster_fields, raster_types, synthesized,
}
use espresso.Ipp.Synthesize.Media.{Measure, media_database, media_sizes}
use espresso.Ipp.Synthesize.Offer.{
  sides_fields, media_fields, tray_fields, color_fields, finishing_fields, state_fields,
  creation_fields, resolution, with_media, with_default,
}
use espresso.Ipp.Csv.{csv_contains, has_span, spans, equal_span}
use espresso.Ipp.Inspect.{tag_mimetype}
use espresso.Ipp.Target.{PrinterTarget}
use espresso.Ipp.Synthesize.WellNamed.{
  IsNamed, append-IsNamed, nil-IsNamed, when-IsNamed, head-IsNamed, more-IsNamed, more_values,
  values-IsNamed, csv_fields-IsNamed, collections-IsNamed, media_default_fields-IsNamed,
  media_collection-IsCollection, media_size-IsCollection, heads, named,
}

module _ (present : ℕ) (printer_uri local_uuid : Bytes) (target : PrinterTarget) where
  protocol_fields-IsNamed : IsNamed false (protocol_fields present printer_uri local_uuid target)
  unfolding protocol_fields heads
  protocol_fields-IsNamed = search (named, refl) depth 30

  name_fields-IsNamed : IsNamed false (name_fields present printer_uri local_uuid target)
  unfolding name_fields heads number
  name_fields-IsNamed = search (named, refl) depth 60

  equal_span-nil : (v : Bytes) → equal_span [] v ≡ true → v ≡ []
  unfolding equal_span
  equal_span-nil [] h = refl
  equal_span-nil (c ∷ cs) h = cc

  -- A list that contains a format has a first one.
  has_span-cons :
      (v : Bytes) (ss : List Bytes)
      → length v ≢ 0
      → has_span v ss ≡ true
      → (s : Bytes) × (more : List Bytes) × (non_empty ss ≡ s ∷ more)
  unfolding has_span non_empty
  has_span-cons v [] k h = cc
  has_span-cons v ([] ∷ ss) k h = has_span-cons v ss k (ground (arith, equal_span-nil v))
  has_span-cons v ((c ∷ cs) ∷ ss) k h = (c ∷ cs, non_empty ss, refl)

  pub format_names-IsNamed : IsNamed false (
      csv_fields tag_mimetype (codes "document-format-supported") target.pdl
      ++ added_raster present printer_uri local_uuid target)
  unfolding added_raster csv_contains csv_fields list_values heads values when
  format_names-IsNamed = elim (Bool-cases (csv_contains target.pdl (codes "image/urf"))) [
    | inl h ↦
        let (s, more, e) =
          has_span-cons (codes "image/urf") (spans (length target.pdl) target.pdl) (omega arith)
            h in
        rw e (
          head-IsNamed refl (
            append-IsNamed (more_values tag_mimetype more refl)
              (when-IsNamed _ (more-IsNamed refl nil-IsNamed))))
    | inr h ↦ rw h (append-IsNamed (csv_fields-IsNamed tag_mimetype _ target.pdl refl) nil-IsNamed)
  ]

  pub default_format-IsNamed : IsNamed false (default_format present printer_uri local_uuid target)
  unfolding default_format heads
  default_format-IsNamed = elim (Bool-cases (csv_contains target.pdl (codes "application/pdf"))) [
    | inl h ↦ rw h (head-IsNamed refl nil-IsNamed)
    | inr h ↦ rw h (elim (Bool-cases (csv_contains target.pdl (codes "image/urf"))) [
      | inl u ↦ rw u (head-IsNamed refl nil-IsNamed)
      | inr u ↦ rw u nil-IsNamed
    ])
  ]

  format_fields-IsNamed : IsNamed false (format_fields present printer_uri local_uuid target)
  unfolding format_fields heads number
  format_fields-IsNamed =
      search (format_names-IsNamed, default_format-IsNamed, named, refl) depth 30

module _ (measure : Measure) (present : ℕ) (target : PrinterTarget) where
  sides_fields-IsNamed : IsNamed false (sides_fields measure present target)
  unfolding sides_fields heads number flag
  sides_fields-IsNamed = search (named, refl) depth 60

  media_fields-IsNamed : IsNamed false (media_fields measure present target)
  unfolding media_fields media_sizes media_database with_media with_default heads
  media_fields-IsNamed =
      search
        (
          named, collections-IsNamed, media_default_fields-IsNamed, media_collection-IsCollection,
          media_size-IsCollection, refl,
        )
        depth 60

  tray_fields-IsNamed : IsNamed false (tray_fields measure present target)
  unfolding tray_fields heads number
  tray_fields-IsNamed = search (named, refl) depth 60

  color_fields-IsNamed : IsNamed false (color_fields measure present target)
  unfolding color_fields heads number flag resolution
  color_fields-IsNamed = search (named, refl) depth 60

  finishing_fields-IsNamed : IsNamed false (finishing_fields measure present target)
  unfolding finishing_fields heads number flag
  finishing_fields-IsNamed = search (named, refl) depth 60

  state_fields-IsNamed : IsNamed false (state_fields measure present target)
  unfolding state_fields heads number flag
  state_fields-IsNamed = search (named, refl) depth 60

  creation_fields-IsNamed : IsNamed false (creation_fields measure present target)
  unfolding creation_fields heads number flag
  creation_fields-IsNamed = search (named, refl) depth 60

module _ (target : PrinterTarget) where
  pub job_fields-IsNamed : IsNamed false (job_fields target)
  unfolding job_fields heads number flag
  job_fields-IsNamed = search (named, refl) depth 60

  pub device_fields-IsNamed : IsNamed false (device_fields target)
  unfolding heads number flag
  device_fields-IsNamed = search (named, refl) depth 60

  pub timeout_fields-IsNamed : IsNamed false (timeout_fields target)
  unfolding timeout_fields heads number flag
  timeout_fields-IsNamed = search (named, refl) depth 60

  no_upper :
      (target.resolution_low_dpi ≡ 0 → target.resolution_high_dpi ≡ 0)
      → (target.resolution_low_dpi == 0) ≡ true
      → ltb target.resolution_low_dpi target.resolution_high_dpi ≡ false
  no_upper k e = let z = k (ground arith) in ground arith

  -- Without a lower resolution there is no upper one, which would be a value of no attribute.
  pub raster_fields-IsNamed :
      (target.resolution_low_dpi ≡ 0 → target.resolution_high_dpi ≡ 0)
      → IsNamed false (raster_fields target)
  unfolding raster_fields heads resolution
  raster_fields-IsNamed k = when-IsNamed _ (elim (Bool-cases (target.resolution_low_dpi == 0)) [
    | inl e ↦ rw (e, no_upper k e) (unfold when in search (named, refl) depth 30)
    | inr e ↦ rw e (
        unfold when in
        head-IsNamed refl (
          append-IsNamed
            (append-IsNamed
              (when-IsNamed (ltb target.resolution_low_dpi target.resolution_high_dpi)
                (more-IsNamed refl nil-IsNamed))
              (head-IsNamed refl nil-IsNamed))
            (values-IsNamed _ _ (raster_types target) refl)))
  ])

module _ (measure : Measure) (printer_uri local_uuid : Bytes) (target : PrinterTarget) where
  -- Whatever the answer has: all values that are added belong to attributes that are named.
  pub synthesized-IsNamed :
      (present : ℕ)
      → (target.resolution_low_dpi ≡ 0 → target.resolution_high_dpi ≡ 0)
      → IsNamed false (synthesized measure printer_uri local_uuid target present)
  unfolding synthesized
  synthesized-IsNamed present k =
      let who =
        append-IsNamed (protocol_fields-IsNamed present printer_uri local_uuid target)
          (name_fields-IsNamed present printer_uri local_uuid target) in
      let formats =
        append-IsNamed who (format_fields-IsNamed present printer_uri local_uuid target) in
      let sides = append-IsNamed formats (sides_fields-IsNamed measure present target) in
      let media = append-IsNamed sides (media_fields-IsNamed measure present target) in
      let trays = append-IsNamed media (tray_fields-IsNamed measure present target) in
      let colors = append-IsNamed trays (color_fields-IsNamed measure present target) in
      let finishings = append-IsNamed colors (finishing_fields-IsNamed measure present target) in
      let states = append-IsNamed finishings (state_fields-IsNamed measure present target) in
      let creation = append-IsNamed states (creation_fields-IsNamed measure present target) in
      let jobs = append-IsNamed creation (job_fields-IsNamed target) in
      let device = append-IsNamed jobs (device_fields-IsNamed target) in
      let times = append-IsNamed device (timeout_fields-IsNamed target) in
      append-IsNamed times (raster_fields-IsNamed target k)
