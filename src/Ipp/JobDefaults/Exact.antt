-- ===== src/Ipp/JobDefaults/Exact.antt =====
-- What `normalize_facade_job_defaults` writes, and what it refuses.
use espresso.Prelude.{
  ℕ, ◌+◌, ◌≡◌, ◌≢◌, ◌⊎◌, refl, sym, ap, ap₂, subst, ◌∙◌, arith, Bool, true, false, Option, some,
  List, [], ◌∷◌, ◌++◌, length, take, drop, ltb, Bytes, ◌>>=◌, >>=-eq-some, append-nil, append_assoc,
  Bool-cases, Option-cases, inl, inr, length-append,
}
use espresso.Ipp.{ok}
use espresso.Ipp.Buffer.{Heap, Buffer, empty, append}
use espresso.Ipp.Buffer.Laws.{append-bytes, append_attribute-Writes}
use espresso.Ipp.JobDefaults.{
  JobAction, keep, drop_it, refuse, group_action, output_name, format_value, Normalizing, Refusal,
  emit_group, emit, emitted, apply_action, normalizer, normalize_end, normalize_result, normalize,
}
use espresso.Ipp.Rewrite.{header_length}
use espresso.Ipp.Target.{PrinterTarget}
use espresso.Ipp.Walk.{Attribute, next, Outcome, ended, left, broken, exhausted, walk_all, tag_end}
use espresso.Ipp.Walk.Parse.{Item, group, value, Ending, parse_all, walk-run, run}
use espresso.Ipp.Walk.Format.{encode, item_bytes}
use espresso.Ipp.Walk.Simulate.{step, written, run-written, run-step, follow-ended}

abbrev pub if_kept : {A : Type 0} → JobAction → A → A → A
if_kept keep x y = x
if_kept drop_it x y = y
if_kept refuse x y = y

module _ (target : PrinterTarget) (upstream : Option Bytes) where
  -- An attribute under the name and with the value that the printer gets.
  abbrev pub output_attribute : ℕ → Attribute → Attribute
  output_attribute g a = record a {
    name_field = output_name target g a;
    value = format_value upstream g a;
  }

  abbrev pub heading : ℕ → Bool → List Item → List Item
  heading g true items = items
  heading g false items = group g ∷ items

  -- The items that are left, in a group whose tag is written or not yet.
  abbrev pub normalized : ℕ → Bool → List Item → List Item
  normalized g done [] = []
  normalized g done (group h ∷ items) = normalized h false items
  normalized g done (value a ∷ items) =
      if_kept (group_action target g a)
        (heading g done (value (output_attribute g a) ∷ normalized g true items))
        (normalized g done items)

  -- No attribute has a value that the printer cannot be asked for.
  abbrev pub Accepted : ℕ → List Item → Type 0
  Accepted g [] = Unit
  Accepted g (group h ∷ items) = Accepted h items
  Accepted g (value a ∷ items) = (group_action target g a ≢ refuse) × Accepted g items

  abbrev heading_bytes : ℕ → Bool → Bytes
  heading_bytes g true = []
  heading_bytes g false = g ∷ []

  abbrev account_value : ℕ × Bool → Attribute → JobAction → (ℕ × Bool) × Bytes
  account_value v a x =
      if_kept x ((v.0, true), heading_bytes v.0 v.1 ++ item_bytes (value (output_attribute v.0 a)))
        (v, [])

  abbrev account : ℕ × Bool → Item → (ℕ × Bool) × Bytes
  account v (group h) = ((h, false), [])
  account v (value a) =
      if_kept (group_action target v.0 a)
        ((v.0, true), heading_bytes v.0 v.1 ++ item_bytes (value (output_attribute v.0 a))) (v, [])

  encode-heading :
      (g : ℕ) (done : Bool) (items : List Item)
      → heading_bytes g done ++ encode items ≡ encode (heading g done items)
  encode-heading g true items = refl
  encode-heading g false items = refl

  action-cases : (x : JobAction) → (x ≡ keep) ⊎ (x ≡ drop_it) ⊎ (x ≡ refuse)
  action-cases keep = inl refl
  action-cases drop_it = inr (inl refl)
  action-cases refuse = inr (inr refl)

  written-normalized :
      (g : ℕ) (done : Bool) (items : List Item)
      → written account (g, done) items ≡ encode (normalized g done items)
  written-normalized g done [] = refl
  written-normalized g done (group h ∷ items) = written-normalized h false items
  written-normalized g done (value a ∷ items) = elim (action-cases (group_action target g a)) [
    | inl e ↦
        rw (e, written-normalized g true items)
          (append_assoc (heading_bytes g done) (item_bytes (value (output_attribute g a)))
              (encode (normalized g true items))
            ∙ encode-heading g done (value (output_attribute g a) ∷ normalized g true items))
    | inr (inl e) ↦ rw e (written-normalized g done items)
    | inr (inr e) ↦ rw e (written-normalized g done items)
  ]

  -- A request, and its copy with the items that are left.
  pub record IsNormalized (input output : Bytes) (n : ℕ) : Type 0 where
    pub document : Bytes
    pub reached : (parse_all (drop header_length input)).ending ≡ Ending.document document
    pub accepted : Accepted 0 (parse_all (drop header_length input)).items
    pub output_is :
        output
        ≡ take header_length input
          ++ (encode (normalized 0 true (parse_all (drop header_length input)).items)
              ++ tag_end ∷ document)
    pub length_is : n + length document ≡ length output

  module _ (heap : Heap) (rejected_size : ℕ) where
    abbrev view : Normalizing → ℕ × Bool
    view s = (s.current_group, s.current_group_emitted)

    emit-bytes :
        (g : ℕ) (done : Bool) (a : Attribute) (b c : Buffer)
        → emit heap target upstream rejected_size g done a b ≡ some c
        → c.bytes ≡ b.bytes ++ (heading_bytes g done ++ item_bytes (value (output_attribute g a)))
    unfolding emit emit_group
    emit-bytes g true a b c e =
        append_attribute-Writes heap a.tag (output_name target g a) (format_value upstream g a) b c
          e
    emit-bytes g false a b c e =
        let (d, tagged, later) = >>=-eq-some (append heap (g ∷ []) b) _ e in
        append_attribute-Writes heap a.tag (output_name target g a) (format_value upstream g a) d c
          later
        ∙ ap (λ (s : Bytes). s ++ item_bytes (value (output_attribute g a)))
            (append-bytes heap (g ∷ []) b d tagged)
        ∙ append_assoc b.bytes (g ∷ []) (item_bytes (value (output_attribute g a)))

    next-exact :
        (s t : Normalizing) (a : Attribute) (x : JobAction)
        → apply_action heap target upstream rejected_size s a x ≡ next t
        → (t.buffer.bytes ≡ s.buffer.bytes ++ (account_value (view s) a x).1)
          × (view t ≡ (account_value (view s) a x).0)
    next-exact s t a refuse e = cc
    next-exact s t a drop_it e =
        let same : s ≡ t = ground arith in
        (
          ap (λ (u : Normalizing). u.buffer.bytes) (sym same) ∙ sym (append-nil s.buffer.bytes),
          ap view (sym same),
        )
    next-exact s t a keep e =
        elim (Option-cases (
          emit heap target upstream rejected_size s.current_group s.current_group_emitted a
            s.buffer)) [
              | inl fails ↦ cc (rw fails at e)
              | inr (b, made) ↦
                  let go : emitted heap target upstream rejected_size s (some b) ≡ next t =
                    rw made at e in
                  let same : record s { buffer = b; current_group_emitted = true } ≡ t =
                    ground arith in
                  (
                    ap (λ (u : Normalizing). u.buffer.bytes) (sym same)
                        ∙ emit-bytes s.current_group s.current_group_emitted a s.buffer b made,
                    ap view (sym same),
                  )
            ]

    step-exact :
        (s t : Normalizing) (i : Item)
        → step (normalizer heap target upstream rejected_size) s i ≡ next t
        → (t.buffer.bytes ≡ s.buffer.bytes ++ (account (view s) i).1)
          × (view t ≡ (account (view s) i).0)
    step-exact s t (group g) e =
        let same : record s { current_group = g; current_group_emitted = false } ≡ t =
          ground arith in
        (
          ap (λ (u : Normalizing). u.buffer.bytes) (sym same) ∙ sym (append-nil s.buffer.bytes),
          ap view (sym same),
        )
    step-exact s t (value a) e = next-exact s t a (group_action target s.current_group a) e

    account_value-group :
        (v : ℕ × Bool) (a : Attribute) (x : JobAction) → (account_value v a x).0.0 ≡ v.0
    account_value-group v a keep = refl
    account_value-group v a drop_it = refl
    account_value-group v a refuse = refl

    next-accepted :
        (s t : Normalizing) (a : Attribute) (x : JobAction)
        → apply_action heap target upstream rejected_size s a x ≡ next t
        → x ≢ refuse
    next-accepted s t a refuse e = cc
    next-accepted s t a keep e = λ r. cc
    next-accepted s t a drop_it e = λ r. cc

    Accepted-step :
        (s m : Normalizing) (i : Item) (items : List Item)
        → step (normalizer heap target upstream rejected_size) s i ≡ next m
        → m.current_group ≡ (account (view s) i).0.0
        → Accepted m.current_group items
        → Accepted s.current_group (i ∷ items)
    Accepted-step s m (group g) items first same rest =
        subst (λ (h : ℕ). Accepted h items) same rest
    Accepted-step s m (value a) items first same rest = (
      next-accepted s m a (group_action target s.current_group a) first,
      subst (λ (h : ℕ). Accepted h items)
          (same ∙ account_value-group (view s) a (group_action target s.current_group a)) rest,
    )

    run-Accepted :
        (items : List Item) (s t : Normalizing) (ending : Ending) (d : Bytes)
        → run (normalizer heap target upstream rejected_size) s items ending ≡ ended t d
        → Accepted s.current_group items
    run-Accepted [] s t ending d e = tt
    run-Accepted (i ∷ items) s t ending d e =
        let h = normalizer heap target upstream rejected_size in
        let (m, first, later) =
          follow-ended (step h s i) (λ u. run h u items ending) t d
            (sym (run-step h s i items ending) ∙ e) in
        let rest = run-Accepted items m t ending d later in
        let group_is = ap (λ (v : ℕ × Bool). v.0) (step-exact s m i first).1 in
        Accepted-step s m i items first group_is rest

    end-bytes :
        (t : Normalizing) (doc o : Bytes) (n : ℕ)
        → normalize_end heap target upstream rejected_size t doc ≡ some (o, n)
        → (o ≡ t.buffer.bytes ++ (tag_end ∷ doc)) × (n + length doc ≡ length o)
    unfolding normalize_end
    end-bytes t doc o n e =
        let (b, tagged, later) =
          >>=-eq-some (append heap (tag_end ∷ []) t.buffer)
            (λ b. append heap doc b >>= λ c. some (c.bytes, length b.bytes)) e in
        let (c, copied, last) =
          >>=-eq-some (append heap doc b) (λ c. some (c.bytes, length b.bytes)) later in
        let grown = append-bytes heap doc b c copied in
        let out : (c.bytes ≡ o) × (length b.bytes ≡ n) = ground arith in
        (
          sym out.0
              ∙ grown
              ∙ ap (λ (s : Bytes). s ++ doc) (append-bytes heap (tag_end ∷ []) t.buffer b tagged)
              ∙ append_assoc t.buffer.bytes (tag_end ∷ []) doc,
          omega (arith, out.1, ap length out.0, ap length grown, length-append b.bytes doc),
        )

    outcome-IsNormalized :
        (input : Bytes) (b : Buffer) (w : Outcome Normalizing Refusal) (output name : Bytes) (n : ℕ)
        → b.bytes ≡ take header_length input
        → walk_all
            (normalizer heap target upstream rejected_size)
            (record { buffer = b; current_group = 0; current_group_emitted = true })
            (drop header_length input)
          ≡ w
        → normalize_result heap target upstream rejected_size w ≡ (ok (output, n), name)
        → IsNormalized input output n
    outcome-IsNormalized input b (ended t doc) output name n hb walked e =
        let parsed = parse_all (drop header_length input) in
        let start : Normalizing = record {
          buffer = b;
          current_group = 0;
          current_group_emitted = true;
        } in
        let h = normalizer heap target upstream rejected_size in
        let ran =
          sym (walk-run h (length (drop header_length input)) start [] (drop header_length input))
          ∙ walked in
        let (wrote, reached) =
          run-written h (λ s. s.buffer.bytes) view account step-exact parsed.items start t
            parsed.ending doc ran in
        elim (Option-cases (normalize_end heap target upstream rejected_size t doc)) [
          | inl fails ↦ cc (rw (fails, normalize_result) at e)
          | inr ((o, k), made) ↦
              let same : (o ≡ output) × (k ≡ n) = ground arith in
              let (whole, lengths) = end-bytes t doc o k made in
              record {
                document = doc;
                reached = reached;
                accepted = run-Accepted parsed.items start t parsed.ending doc ran;
                output_is =
                    sym same.0
                    ∙ whole
                    ∙ ap (λ (s : Bytes). s ++ tag_end ∷ doc)
                        (wrote ∙ ap₂ ◌++◌ hb (written-normalized 0 true parsed.items))
                    ∙ append_assoc (take header_length input) _ (tag_end ∷ doc);
                length_is = omega (arith, lengths, same.1, ap length same.0);
              }
        ]
    outcome-IsNormalized input b (left (code, x)) output name n hb walked e = cc
    outcome-IsNormalized input b (broken code) output name n hb walked e = cc
    outcome-IsNormalized input b exhausted output name n hb walked e = cc

    -- For every heap: where the job attributes are normalized, none of them was refused, and the
    -- output is the header, the items that are left under their new names and values, each group
    -- with its tag only if an attribute of it is left, the end tag and the document.
    pub normalize-IsNormalized :
        (input output name : Bytes) (n : ℕ)
        → normalize heap target upstream rejected_size input ≡ (ok (output, n), name)
        → IsNormalized input output n
    unfolding normalize
    normalize-IsNormalized input output name n e =
        elim (Bool-cases (ltb (length input) header_length)) [
          | inl short ↦ cc (rw short at e)
          | inr long ↦ elim (Option-cases (append heap (take header_length input) empty)) [
            | inl fails ↦ cc (rw (long, fails) at e)
            | inr (b, made) ↦
                outcome-IsNormalized input b _ output name n
                  (append-bytes heap (take header_length input) empty b made) refl
                  (rw (long, made) at e)
          ]
        ]
