-- ===== src/Ipp/Synthesize/Usual.antt =====
-- The attributes that every normalized answer has.
use espresso.Prelude.{
  ℕ, not, if◌then◌else◌, ◌≡◌, refl, arith, Bool, true, false, ◌||◌, List, [], ◌∷◌, ◌++◌, All,
  All-append, IsByte, ◌<◌, drop, ◌^◌, Bytes, codes, equal, equal_iff, Bool-cases, inl, inr,
  zero-bit_and,
}
use espresso.Ipp.{ok}
use espresso.Ipp.Buffer.{Heap}
use espresso.Ipp.Inspect.{message_code}
use espresso.Ipp.Rewrite.{header_length, is_one_of}
use espresso.Ipp.Rewrite.Reparse.{ValueFits}
use espresso.Ipp.Synthesize.{Field, field, number, flag, unless, values}
use espresso.Ipp.Synthesize.Describe.{protocol_fields, name_fields}
use espresso.Ipp.Synthesize.Copy.{copied, last_group}
use espresso.Ipp.Synthesize.Facade.{synthesized, normalize_printer_response}
use espresso.Ipp.Synthesize.Lacking.{lacking, is_there, names_of, copied_names}
use espresso.Ipp.Synthesize.Media.{Measure}
use espresso.Ipp.Synthesize.Message.{field_items, own_name}
use espresso.Ipp.Synthesize.Normalize.{opened, added_lacking, normalize_printer_response-parse_all}
use espresso.Ipp.Synthesize.Offer.{sides_fields, tray_fields, finishing_fields, creation_fields}
use espresso.Ipp.Target.{PrinterTarget}
use espresso.Ipp.Walk.{is_empty}
use espresso.Ipp.Walk.Parse.{Item, group, value, parse_all}

unfoldable pub offers : Bytes → List Field → Bool
offers name [] = false
offers name (f ∷ fs) = equal name f.name || offers name fs

record Offers (name : Bytes) (fs : List Field) : Type 0 where
  offered : offers name fs ≡ true

offers-append :
    (name : Bytes) (fs gs : List Field)
    → offers name fs || offers name gs ≡ true
    → offers name (fs ++ gs) ≡ true
unfolding offers
offers-append name [] gs h = h
offers-append name (f ∷ fs) gs h = ground (arith, offers-append name fs gs)

left-Offers :
    {name : Bytes} {fs : List Field} (gs : List Field) → Offers name fs → Offers name (fs ++ gs)
left-Offers {name} {fs} gs s = record {
  offered = offers-append name fs gs (ground (arith, s.offered));
}

right-Offers :
    {name : Bytes} (fs : List Field) {gs : List Field} → Offers name gs → Offers name (fs ++ gs)
right-Offers {name} fs {gs} s = record {
  offered = offers-append name fs gs (ground (arith, s.offered));
}

unless-Offers :
    (n : ℕ) {name : Bytes} {fs : List Field} → Offers name fs → Offers name (unless 0 n fs)
unfolding unless
unless-Offers n s = rw (zero-bit_and (2 ^ n)) s

head-Offers :
    {name other v : Bytes} {tag : ℕ} {fs : List Field}
    → equal name other ≡ true
    → Offers name (field tag other v ∷ fs)
unfolding offers
head-Offers h = record { offered = rw h refl }

values-Offers :
    {name : Bytes} (tag : ℕ) (other v : Bytes) (vs : List Bytes)
    → equal name other ≡ true
    → Offers name (values tag other (v ∷ vs))
unfolding values
values-Offers tag other v vs h = head-Offers h

ruleset offered = (left-Offers, right-Offers, unless-Offers, head-Offers, values-Offers)

own_name_full : (current name : Bytes) → is_empty name ≡ false → own_name current name ≡ name
own_name_full current [] h = cc
own_name_full current (c ∷ cs) h = refl

either : (a b : Bool) → b ≡ true → a || b ≡ true
either a b h = ground arith

-- A name that is offered, and that a message lacks, is among the names behind it.
lacking-named :
    (names : List Bytes) (name current : Bytes) (keep : Bool) (fs : List Field)
    → is_empty name ≡ false
    → is_there names name ≡ false
    → offers name fs ≡ true
    → is_one_of name (names_of (field_items current (lacking names keep fs))) ≡ true
unfolding lacking offers is_one_of
lacking-named names name current keep [] h k e = cc
lacking-named names name current keep (f ∷ fs) h k e = elim (Bool-cases (equal name f.name)) [
  | inl here ↦
      let same : name ≡ f.name = (equal_iff name f.name).0 here in
      let full : is_empty f.name ≡ false = rw (← same) h in
      let lacks : is_there names f.name ≡ false = rw (← same) k in
      rw (full, lacks) (rw (own_name_full current f.name full, here) refl)
  | inr other ↦ elim (Bool-cases (if is_empty f.name then keep else not (is_there names f.name))) [
    | inl stay ↦
        rw stay (
          either _ _
            (lacking-named names name (own_name current f.name) true fs h k (ground arith)))
    | inr goes ↦ rw goes (lacking-named names name current false fs h k (ground arith))
  ]
]

unfoldable pub HasName : Bytes → List Item → Type 0
HasName name items = is_one_of name (names_of items) ≡ true

HasName-left : (name : Bytes) (xs ys : List Item) → HasName name xs → HasName name (xs ++ ys)
unfolding is_one_of HasName
HasName-left name [] ys h = cc
HasName-left name (group g ∷ xs) ys h = HasName-left name xs ys h
HasName-left name (value a ∷ xs) ys h = ground (arith, HasName-left name xs ys)

HasName-right : (name : Bytes) (xs ys : List Item) → HasName name ys → HasName name (xs ++ ys)
unfolding is_one_of HasName
HasName-right name [] ys h = h
HasName-right name (group g ∷ xs) ys h = HasName-right name xs ys h
HasName-right name (value a ∷ xs) ys h = either _ _ (HasName-right name xs ys h)

-- Names of attributes that the facade has a value for whatever the printer is.
abbrev pub protocol_names : List Bytes
protocol_names =
    codes "ipp-versions-supported"
    ∷ codes "printer-uri-supported"
    ∷ codes "uri-authentication-supported"
    ∷ codes "uri-security-supported"
    ∷ codes "reference-uri-schemes-supported"
    ∷ []

abbrev pub printer_names : List Bytes
printer_names =
    codes "printer-name"
    ∷ codes "printer-info"
    ∷ codes "printer-make-and-model"
    ∷ codes "printer-location"
    ∷ codes "charset-configured"
    ∷ codes "charset-supported"
    ∷ codes "natural-language-configured"
    ∷ codes "generated-natural-language-supported"
    ∷ codes "printer-more-info"
    ∷ codes "printer-up-time"
    ∷ codes "pdl-override-supported"
    ∷ codes "queued-job-count"
    ∷ []

abbrev pub media_names : List Bytes
media_names =
    codes "color-supported"
    ∷ codes "media-source-supported"
    ∷ codes "media-type-supported"
    ∷ codes "printer-input-tray"
    ∷ []

abbrev pub finishing_names : List Bytes
finishing_names =
    codes "finishings-default"
    ∷ codes "finishings-supported"
    ∷ codes "orientation-requested-default"
    ∷ codes "orientation-requested-supported"
    ∷ codes "output-bin-default"
    ∷ codes "output-bin-supported"
    ∷ codes "print-quality-default"
    ∷ codes "print-quality-supported"
    ∷ codes "sides-default"
    ∷ codes "pages-per-minute"
    ∷ codes "compression-supported"
    ∷ codes "multiple-document-jobs-supported"
    ∷ codes "job-creation-attributes-supported"
    ∷ []

abbrev pub usual_names : List Bytes
usual_names = protocol_names ++ printer_names ++ media_names ++ finishing_names

module _ (measure : Measure) (printer_uri local_uuid : Bytes) (target : PrinterTarget) where
  abbrev Offered : Bytes → Type 0
  Offered name = Offers name (synthesized measure printer_uri local_uuid target 0)

  protocol_names-Offered : All Offered protocol_names
  unfolding synthesized protocol_fields number flag equal
  protocol_names-Offered = search (offered, refl) depth 60 fits 60000

  printer_names-Offered : All Offered printer_names
  unfolding synthesized name_fields number flag equal
  printer_names-Offered = search (offered, refl) depth 60 fits 60000

  media_names-Offered : All Offered media_names
  unfolding synthesized sides_fields tray_fields number flag equal
  media_names-Offered = search (offered, refl) depth 60 fits 60000

  finishing_names-Offered : All Offered finishing_names
  unfolding synthesized finishing_fields creation_fields number flag equal
  finishing_names-Offered = search (offered, refl) depth 60 fits 60000

  usual_names-Offered : All Offered usual_names
  usual_names-Offered =
      All-append Offered (protocol_names ++ printer_names ++ media_names) finishing_names
        (All-append Offered (protocol_names ++ printer_names) media_names
          (All-append Offered protocol_names printer_names protocol_names-Offered
            printer_names-Offered)
          media_names-Offered)
        finishing_names-Offered

usual_named : All (λ (name : Bytes). is_empty name ≡ false) usual_names
usual_named = search (refl)

module _ (measure : Measure) (printer_uri authority local_uuid : Bytes) (target : PrinterTarget)
    (heap : Heap) where
  -- A copied attribute, or one that is added.
  added_one :
      (items : List Item) (name : Bytes)
      → is_empty name ≡ false
      → Offers name (synthesized measure printer_uri local_uuid target 0)
      → HasName name (
          copied printer_uri authority items
          ++ added_lacking measure printer_uri authority local_uuid target heap items)
  unfolding HasName
  added_one items name full s =
      let names = copied_names printer_uri authority items in
      elim (Bool-cases (is_there names name)) [
        | inl there ↦
            HasName-left name (copied printer_uri authority items) _
              (unfold is_there in ground (arith, there))
        | inr lacks ↦ HasName-right name (copied printer_uri authority items) _ (
            HasName-right name (opened (last_group 0 items)) _ (
              lacking-named names name [] true (synthesized measure printer_uri local_uuid target 0)
                full lacks s.offered))
      ]

  added_each :
      (items : List Item) (ns : List Bytes)
      → All (λ (name : Bytes). is_empty name ≡ false) ns
      → All (λ (name : Bytes). Offers name (synthesized measure printer_uri local_uuid target 0)) ns
      → All
          (λ (name : Bytes). HasName name (
            copied printer_uri authority items
            ++ added_lacking measure printer_uri authority local_uuid target heap items))
          ns
  added_each items [] full s = tt
  added_each items (n ∷ ns) (f, full) (o, s) = (added_one items n f o, added_each items ns full s)

  -- For every heap and every answer of bytes without an error status, whose new values fit, and a
  -- target that has no upper resolution without a lower one: where the normalization succeeds,
  -- each of `usual_names` is the name of an attribute that what it returns parses to, whatever the
  -- answer has and the printer can do.
  pub normalize_printer_response-HasName :
      (input out : Bytes) (n : ℕ)
      → All IsByte input
      → (target.resolution_low_dpi ≡ 0 → target.resolution_high_dpi ≡ 0)
      → All (ValueFits printer_uri authority) (parse_all (drop header_length input)).items
      → message_code input < 0x400
      → normalize_printer_response measure printer_uri local_uuid target heap authority input
        ≡ ok (out, n)
      → All (λ (name : Bytes). HasName name (parse_all (drop header_length out)).items) usual_names
  normalize_printer_response-HasName input out n bytes k fits good e =
      let (items, _) =
        normalize_printer_response-parse_all measure printer_uri authority local_uuid target heap
          input out n bytes k fits good e in
      rw items (
        added_each (parse_all (drop header_length input)).items usual_names usual_named
          (usual_names-Offered measure printer_uri local_uuid target))
