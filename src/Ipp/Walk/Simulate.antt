-- ===== src/Ipp/Walk/Simulate.antt =====
-- A run that writes, against an abstract account of what it writes: `view` is what the account
-- needs of the state, and `account` gives for each item the next view and the bytes written.
use espresso.Prelude.{
  ◌≡◌, refl, sym, ◌∙◌, arith, List, [], ◌∷◌, ◌++◌, Bytes, ℕ, ◌+◌, ◌≤◌, length, length-append, All,
  append-nil, append_assoc,
}
use espresso.Ipp.Walk.{Turn, next, leave, follow, Outcome, ended, Handler}
use espresso.Ipp.Walk.Parse.{Item, group, value, Ending, document, bad, cut, run}

abbrev pub step {ℓ κ} : {S : Type ℓ} {R : Type κ} → Handler S R → S → Item → Turn S R
step h s (group g) = h.on_group s g
step h s (value a) = h.on_attribute s a

abbrev pub written : {A : Type 0} → (A → Item → A × Bytes) → A → List Item → Bytes
written account a [] = []
written account a (i ∷ items) = (account a i).1 ++ written account (account a i).0 items

-- The view behind the items.
abbrev pub viewed : {A : Type 0} → (A → Item → A × Bytes) → A → List Item → A
viewed account a [] = a
viewed account a (i ∷ items) = viewed account (account a i).0 items

pub run-step {ℓ κ} :
    {S : Type ℓ} {R : Type κ} (h : Handler S R) (s : S) (i : Item) (items : List Item) (e : Ending)
    → run h s (i ∷ items) e ≡ follow (step h s i) (λ t. run h t items e)
unfolding run
run-step h s (group g) items e = refl
run-step h s (value a) items e = refl

pub follow-ended {ℓ κ} :
    {S : Type ℓ} {R : Type κ} (t : Turn S R) (k : S → Outcome S R) (u : S) (d : Bytes)
    → follow t k ≡ ended u d
    → (s : S) × (t ≡ next s) × (k s ≡ ended u d)
follow-ended (next s) k u d e = (s, refl, e)
follow-ended (leave r) k u d e = cc

module _ {κ} {S A : Type 0} {R : Type κ} (h : Handler S R) (out : S → Bytes) (view : S → A)
    (account : A → Item → A × Bytes)
    (exact : (s t : S) (i : Item)
      → step h s i ≡ next t
      → (out t ≡ out s ++ (account (view s) i).1) × (view t ≡ (account (view s) i).0)) where
  pub run-viewed :
      (items : List Item) (s t : S) (ending : Ending) (d : Bytes)
      → run h s items ending ≡ ended t d
      → view t ≡ viewed account (view s) items
  run-viewed [] s t (document doc) d e = unfold run in ground arith
  run-viewed [] s t (bad code) d e = unfold run in cc
  run-viewed [] s t cut d e = unfold run in cc
  run-viewed (i ∷ items) s t ending d e =
      let (m, first, later) =
        follow-ended (step h s i) (λ u. run h u items ending) t d
          (sym (run-step h s i items ending) ∙ e) in
      rw (← (exact s m i first).1) (run-viewed items m t ending d later)

  -- A run that reaches the document has written what the account says, and stops before it.
  pub run-written :
      (items : List Item) (s t : S) (ending : Ending) (d : Bytes)
      → run h s items ending ≡ ended t d
      → (out t ≡ out s ++ written account (view s) items) × (ending ≡ document d)
  run-written [] s t (document doc) d e =
      unfold run in (ground (arith, append-nil (out s)), ground arith)
  run-written [] s t (bad code) d e = unfold run in cc
  run-written [] s t cut d e = unfold run in cc
  run-written (i ∷ items) s t ending d e =
      let (m, first, later) =
        follow-ended (step h s i) (λ u. run h u items ending) t d
          (sym (run-step h s i items ending) ∙ e) in
      let (more, view_m) = exact s m i first in
      let (all, stops) = run-written items m t ending d later in
      (all ∙ rw (more, view_m, append_assoc), stops)

module _ {κ} {S A : Type 0} {R : Type κ} (h : Handler S R) (out : S → Bytes) (view : S → A)
    (account : A → Item → A × Bytes) (limit : ℕ) (Fits : Item → Type 0)
    (exact : (s t : S) (i : Item)
      → step h s i ≡ next t
      → (out t ≡ out s ++ (account (view s) i).1) × (view t ≡ (account (view s) i).0))
    (sure : (s : S) (i : Item)
      → Fits i
      → length (out s) + length (account (view s) i).1 ≤ limit
      → (t : S) × (step h s i ≡ next t)) where
  -- A run whose steps succeed within a limit reaches the document, if all it writes is within it.
  pub run-ended :
      (items : List Item) (s : S) (d : Bytes)
      → All Fits items
      → length (out s) + length (written account (view s) items) ≤ limit
      → (t : S) × (run h s items (document d) ≡ ended t d)
  run-ended [] s d f k = unfold run in (s, refl)
  run-ended (i ∷ items) s d (fi, f) k =
      let o = (account (view s) i).1 in
      let more = written account (account (view s) i).0 items in
      let (m, first) = sure s i fi (omega (arith, length-append o more)) in
      let (wrote, view_m) = exact s m i first in
      let left : length (out m) + length (written account (view m) items) ≤ limit =
        rw (wrote, view_m) (omega (arith, length-append o more, length-append (out s) o)) in
      let (t, later) = run-ended items m d f left in
      (t, run-step h s i items (document d) ∙ rw first later)
