-- ===== src/Ipp/Synthesize/Left.antt =====
-- What is added to an answer, out of what is added to an empty one.
use espresso.Prelude.{◌≡◌, refl, List, Bytes, codes, Bool-cases, inl, inr, equal}
use espresso.Ipp.Csv.{csv_contains}
use espresso.Ipp.Rewrite.{is_one_of, attribute_presence, presence_flag}
use espresso.Ipp.Synthesize.{number, flag}
use espresso.Ipp.Synthesize.About.{
  about, nil-IsAbout, head-IsAbout, when-IsAbout, append-IsAbout, csv_fields-IsAbout, suits,
}
use espresso.Ipp.Synthesize.Copy.{present_of}
use espresso.Ipp.Synthesize.Describe.{
  protocol_fields, name_fields, format_fields, added_raster, default_format, label,
}
use espresso.Ipp.Synthesize.Lacking.{
  IsAbout, Leaves, append-Leaves, untracked-Leaves, unless-Leaves, copied_names, nth_name,
  is_tracked, untracked,
}
use espresso.Ipp.Synthesize.Facade.{
  synthesized, job_fields, device_fields, timeout_fields, raster_fields,
}
use espresso.Ipp.Synthesize.Fields.{
  format_names-IsNamed, default_format-IsNamed, job_fields-IsNamed, device_fields-IsNamed,
  timeout_fields-IsNamed, raster_fields-IsNamed,
}
use espresso.Ipp.Synthesize.Media.{Measure, media_database, media_sizes}
use espresso.Ipp.Synthesize.Offer.{
  sides_fields, media_fields, tray_fields, color_fields, finishing_fields, state_fields,
  creation_fields, resolution, with_media, with_default,
}
use espresso.Ipp.Synthesize.WellNamed.{
  heads, named, when-IsNamed, collections-IsNamed, media_default_fields-IsNamed,
  media_collection-IsCollection, media_size-IsCollection,
}
use espresso.Ipp.Target.{PrinterTarget}
use espresso.Ipp.Walk.Parse.{Item}

module _ (printer_uri authority local_uuid : Bytes) (target : PrinterTarget)
    (items : List Item) where
  name_fields-Leaves :
      Leaves
        (copied_names printer_uri authority items)
        (name_fields 0 printer_uri local_uuid target)
        (name_fields (present_of 0 items) printer_uri local_uuid target)
  unfolding name_fields label heads number suits nth_name is_tracked attribute_presence
      presence_flag is_one_of equal
  name_fields-Leaves =
      search (append-Leaves, unless-Leaves printer_uri authority items, named, about, refl) depth 60

  protocol_fields-Leaves :
      Leaves
        (copied_names printer_uri authority items)
        (protocol_fields 0 printer_uri local_uuid target)
        (protocol_fields (present_of 0 items) printer_uri local_uuid target)
  unfolding protocol_fields heads number suits nth_name is_tracked attribute_presence presence_flag
      is_one_of equal
  protocol_fields-Leaves =
      search (append-Leaves, unless-Leaves printer_uri authority items, named, about, refl) depth 60

  default_format-IsAbout :
      IsAbout (equal (nth_name 11)) (default_format 0 printer_uri local_uuid target)
  unfolding default_format suits nth_name equal
  default_format-IsAbout = elim (Bool-cases (csv_contains target.pdl (codes "application/pdf"))) [
    | inl h ↦ rw h (head-IsAbout refl nil-IsAbout)
    | inr h ↦ rw h (elim (Bool-cases (csv_contains target.pdl (codes "image/urf"))) [
      | inl u ↦ rw u (head-IsAbout refl nil-IsAbout)
      | inr u ↦ rw u nil-IsAbout
    ])
  ]

  format_fields-Leaves :
      Leaves
        (copied_names printer_uri authority items)
        (format_fields 0 printer_uri local_uuid target)
        (format_fields (present_of 0 items) printer_uri local_uuid target)
  unfolding format_fields default_format added_raster heads number suits nth_name is_tracked
      attribute_presence presence_flag is_one_of equal
  format_fields-Leaves =
      let offered = format_names-IsNamed 0 printer_uri local_uuid target in
      let formats = unless-Leaves printer_uri authority items 10 refl (when-IsNamed _ offered) (
        when-IsAbout _ (
          append-IsAbout (csv_fields-IsAbout _ _ target.pdl refl)
            (when-IsAbout _ (head-IsAbout refl nil-IsAbout)))) in
      let default =
        unless-Leaves printer_uri authority items 11 refl
          (default_format-IsNamed 0 printer_uri local_uuid target) default_format-IsAbout in
      append-Leaves
        (append-Leaves (append-Leaves formats default)
          (search (unless-Leaves printer_uri authority items, named, about, refl) depth 60))
        (search (unless-Leaves printer_uri authority items, named, about, refl) depth 60)

module _ (measure : Measure) (printer_uri authority : Bytes) (target : PrinterTarget)
    (items : List Item) where
  sides_fields-Leaves :
      Leaves
        (copied_names printer_uri authority items)
        (sides_fields measure 0 target)
        (sides_fields measure (present_of 0 items) target)
  unfolding sides_fields heads number flag suits nth_name is_tracked attribute_presence
      presence_flag is_one_of equal
  sides_fields-Leaves =
      search (append-Leaves, unless-Leaves printer_uri authority items, named, about, refl) depth 60

  tray_fields-Leaves :
      Leaves
        (copied_names printer_uri authority items)
        (tray_fields measure 0 target)
        (tray_fields measure (present_of 0 items) target)
  unfolding tray_fields heads number flag suits nth_name is_tracked attribute_presence presence_flag
      is_one_of equal
  tray_fields-Leaves =
      search (append-Leaves, unless-Leaves printer_uri authority items, named, about, refl) depth 60

  color_fields-Leaves :
      Leaves
        (copied_names printer_uri authority items)
        (color_fields measure 0 target)
        (color_fields measure (present_of 0 items) target)
  unfolding color_fields heads number flag suits nth_name is_tracked attribute_presence
      presence_flag is_one_of equal resolution
  color_fields-Leaves =
      search (append-Leaves, unless-Leaves printer_uri authority items, named, about, refl) depth 60

  finishing_fields-Leaves :
      Leaves
        (copied_names printer_uri authority items)
        (finishing_fields measure 0 target)
        (finishing_fields measure (present_of 0 items) target)
  unfolding finishing_fields heads number flag suits nth_name is_tracked attribute_presence
      presence_flag is_one_of equal
  finishing_fields-Leaves =
      search (append-Leaves, unless-Leaves printer_uri authority items, named, about, refl) depth 60

  state_fields-Leaves :
      Leaves
        (copied_names printer_uri authority items)
        (state_fields measure 0 target)
        (state_fields measure (present_of 0 items) target)
  unfolding state_fields heads number flag suits nth_name is_tracked attribute_presence
      presence_flag is_one_of equal
  state_fields-Leaves =
      search (append-Leaves, unless-Leaves printer_uri authority items, named, about, refl) depth 60

  creation_fields-Leaves :
      Leaves
        (copied_names printer_uri authority items)
        (creation_fields measure 0 target)
        (creation_fields measure (present_of 0 items) target)
  unfolding creation_fields heads number flag suits nth_name is_tracked attribute_presence
      presence_flag is_one_of equal
  creation_fields-Leaves =
      search (append-Leaves, unless-Leaves printer_uri authority items, named, about, refl) depth 60

  media_fields-Leaves :
      Leaves
        (copied_names printer_uri authority items)
        (media_fields measure 0 target)
        (media_fields measure (present_of 0 items) target)
  unfolding media_fields heads number flag suits nth_name is_tracked attribute_presence
      presence_flag is_one_of equal media_sizes media_database with_media with_default
  media_fields-Leaves =
      search
        (
          append-Leaves,
          unless-Leaves printer_uri authority items,
          named,
          about,
          collections-IsNamed,
          media_default_fields-IsNamed,
          media_collection-IsCollection,
          media_size-IsCollection,
          refl,
        )
        depth 60

module _ (target : PrinterTarget) where
  job_fields-IsAbout : IsAbout untracked (job_fields target)
  unfolding job_fields number flag suits untracked is_one_of equal
  job_fields-IsAbout = search (about, refl) depth 60

  device_fields-IsAbout : IsAbout untracked (device_fields target)
  unfolding number suits untracked is_one_of equal
  device_fields-IsAbout = search (about, refl) depth 60

  timeout_fields-IsAbout : IsAbout untracked (timeout_fields target)
  unfolding timeout_fields number suits untracked is_one_of equal
  timeout_fields-IsAbout = search (about, refl) depth 60

  raster_fields-IsAbout : IsAbout untracked (raster_fields target)
  unfolding raster_fields resolution suits untracked is_one_of equal
  raster_fields-IsAbout = search (about, refl) depth 60

module _ (measure : Measure) (printer_uri authority local_uuid : Bytes) (target : PrinterTarget)
    (items : List Item) where
  pub synthesized-Leaves :
      (target.resolution_low_dpi ≡ 0 → target.resolution_high_dpi ≡ 0)
      → Leaves
          (copied_names printer_uri authority items)
          (synthesized measure printer_uri local_uuid target 0)
          (synthesized measure printer_uri local_uuid target (present_of 0 items))
  unfolding synthesized
  synthesized-Leaves k =
      let job = untracked-Leaves (job_fields-IsNamed target) (job_fields-IsAbout target) in
      let device = untracked-Leaves (device_fields-IsNamed target) (device_fields-IsAbout target) in
      let times =
        untracked-Leaves (timeout_fields-IsNamed target) (timeout_fields-IsAbout target) in
      let raster =
        untracked-Leaves (raster_fields-IsNamed target k) (raster_fields-IsAbout target) in
      let who =
        append-Leaves (protocol_fields-Leaves printer_uri authority local_uuid target items)
          (name_fields-Leaves printer_uri authority local_uuid target items) in
      let formats =
        append-Leaves who (format_fields-Leaves printer_uri authority local_uuid target items) in
      let sides =
        append-Leaves formats (sides_fields-Leaves measure printer_uri authority target items) in
      let media =
        append-Leaves sides (media_fields-Leaves measure printer_uri authority target items) in
      let trays =
        append-Leaves media (tray_fields-Leaves measure printer_uri authority target items) in
      let colors =
        append-Leaves trays (color_fields-Leaves measure printer_uri authority target items) in
      let finishings =
        append-Leaves colors (finishing_fields-Leaves measure printer_uri authority target items) in
      let states =
        append-Leaves finishings (state_fields-Leaves measure printer_uri authority target items) in
      let creation =
        append-Leaves states (creation_fields-Leaves measure printer_uri authority target items) in
      append-Leaves (append-Leaves (append-Leaves (append-Leaves creation job) device) times) raster
