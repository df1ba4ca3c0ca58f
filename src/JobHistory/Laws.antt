-- ===== src/JobHistory/Laws.antt =====
-- The invariant of the job history, and what its operations keep and find.
use espresso.Prelude.{
  ℕ, suc, ◌+◌, ◌-◌, ◌≤◌, ◌<◌, Option, none, some, List, [], ◌∷◌, ◌≡◌, ◌≢◌, inl, inr, refl, ap,
  subst, length, All, All-drop, All-append, length-drop, length-append, length-take, ◌==◌,
  Bool-cases, Option-cases, arith, Bytes, codes,
}
use espresso.JobHistory.{
  capacity, name_size, format_size, JobState, JobRecord, JobHistory, copy_text, expired, prune,
  make_room, increment, text_or, new_record, begin, change_record, changed, format_or, updated,
  update, attached, attach_upstream,
}

-- A job has an id, and its C strings fit their arrays.
pub record IsJob (r : JobRecord) : Type 0 where
  pub id_set : r.id ≢ 0
  pub name_fits : length r.name < name_size
  pub format_fits : length r.format < format_size

pub record IsValid (h : JobHistory) : Type 0 where
  pub count_fits : length h.records ≤ capacity
  pub next_fits : h.next_id < 4294967296
  pub jobs : All IsJob h.records

-- The ids rise from the oldest record to the newest, from above `low` up to `high`.
abbrev pub Rising : ℕ → List JobRecord → ℕ → Type 0
Rising low [] high = low ≤ high
Rising low (r ∷ rs) high = (low < r.id) × Rising r.id rs high

copy_text-lt : (size : ℕ) (s : Bytes) → 0 < size → length (copy_text size s) < size
unfolding copy_text
copy_text-lt size s h = omega (arith, length-take (size - 1) s)

increment-bounds : (n : ℕ) → (increment n ≢ 0) × (increment n < 4294967296)
unfolding increment
increment-bounds n = ground arith

pub increment_small : (n : ℕ) → n + 1 < 4294967296 → increment n ≡ n + 1
unfolding increment
increment_small n h = ground arith

pub length-prune : (now : ℕ) (rs : List JobRecord) → length (prune now rs) ≤ length rs
unfolding prune
length-prune now [] = omega arith
length-prune now (r ∷ rs) = ground (arith, length-prune now rs)

pub All-prune {ℓ} :
    (P : JobRecord → Type ℓ) (now : ℕ) (rs : List JobRecord) → All P rs → All P (prune now rs)
unfolding prune
All-prune P now [] h = h
All-prune P now (r ∷ rs) (p, h) = elim (Bool-cases (expired now r)) [
  | inl e ↦ rw e (All-prune P now rs h)
  | inr e ↦ rw e (p, All-prune P now rs h)
]

pub length-make_room :
    (rs : List JobRecord) → length rs ≤ capacity → length (make_room rs) + 1 ≤ capacity
unfolding make_room
length-make_room rs h = ground (arith, length-drop 1 rs)

pub All-make_room {ℓ} :
    (P : JobRecord → Type ℓ) (rs : List JobRecord) → All P rs → All P (make_room rs)
unfolding make_room
All-make_room P rs h = elim (Bool-cases (length rs == capacity)) [
  | inl e ↦ rw e (All-drop P 1 rs h)
  | inr e ↦ rw e h
]

-- Whatever is begun in a valid history, at any time and under any name and format, the history
-- stays valid and the id that is returned is not 0.
pub begin-IsValid :
    (name format : Bytes) (state : JobState) (now : ℕ) (h : JobHistory)
    → IsValid h
    → IsValid (begin name format state now h).0 × ((begin name format state now h).1 ≢ 0)
unfolding begin
begin-IsValid name format state now h v =
    let (ne, lt) = increment-bounds h.next_id in
    let kept = make_room (prune now h.records) in
    let new = new_record (increment h.next_id) name format state now in
    (
      record {
        count_fits = omega (
          arith,
          v.count_fits,
          length-prune now h.records,
          length-make_room (prune now h.records)
              (omega (arith, v.count_fits, length-prune now h.records)),
          length-append kept (new ∷ []),
        );
        next_fits = lt;
        jobs =
            All-append IsJob kept (new ∷ [])
              (All-make_room IsJob (prune now h.records) (All-prune IsJob now h.records v.jobs))
              (
                record {
                  id_set = ne;
                  name_fits =
                      copy_text-lt name_size (text_or (codes "Print job") name) (omega arith);
                  format_fits = copy_text-lt format_size format (omega arith);
                },
                tt,
              );
      },
      ne,
    )

-- A statement about the list of a change that finds its record.
abbrev OnSome : (List JobRecord → Type 0) → Option (List JobRecord) → Type 0
OnSome P none = Unit
OnSome P (some qs) = P qs

abbrev Keeps : (JobRecord → Type 0) → List JobRecord → List JobRecord → Type 0
Keeps P rs qs = (length qs ≡ length rs) × All P qs

change_record-Keeps :
    (P : JobRecord → Type 0) (f : JobRecord → JobRecord)
    → ((r : JobRecord) → P r → P (f r))
    → (id : ℕ) (rs : List JobRecord) → All P rs
    → OnSome (Keeps P rs) (change_record f id rs)
unfolding change_record
change_record-Keeps P f k id [] h = tt
change_record-Keeps P f k id (r ∷ rs) (p, h) = elim (Bool-cases (r.id == id)) [
  | inl e ↦ rw e (refl, (k r p, h))
  | inr e ↦ elim (Option-cases (change_record f id rs)) [
    | inl n ↦ rw (e, n) tt
    | inr (qs, m) ↦
        let (l, a) = subst (OnSome (Keeps P rs)) m (change_record-Keeps P f k id rs h) in
        rw (e, m) (ap suc l, (p, a))
  ]
]

changed-IsValid :
    (h : JobHistory) (o : Option (List JobRecord))
    → IsValid h
    → OnSome (Keeps IsJob h.records) o
    → IsValid (changed h o).0
changed-IsValid h none v k = v
changed-IsValid h (some qs) v (l, a) = record {
  count_fits = omega (arith, v.count_fits, l);
  next_fits = v.next_fits;
  jobs = a;
}

format_or-lt : (old s : Bytes) → length old < format_size → length (format_or old s) < format_size
unfolding format_or
format_or-lt old [] h = h
format_or-lt old (c ∷ s) h = copy_text-lt format_size (c ∷ s) (omega arith)

-- An update of any id, known or not, keeps a valid history valid.
pub update-IsValid :
    (id : ℕ) (state : JobState) (format : Bytes) (bytes now : ℕ) (h : JobHistory)
    → IsValid h
    → IsValid (update id state format bytes now h).0
unfolding update updated
update-IsValid id state format bytes now h v = changed-IsValid h _ v (
    change_record-Keeps IsJob (updated state format bytes now)
      (λ (r : JobRecord) (j : IsJob r). record {
        id_set = j.id_set;
        name_fits = j.name_fits;
        format_fits = format_or-lt r.format format j.format_fits;
      })
      id h.records v.jobs)

-- An upstream id that is attached to any id, known or not, keeps a valid history valid.
pub attach_upstream-IsValid :
    (id upstream now : ℕ) (h : JobHistory)
    → IsValid h
    → IsValid (attach_upstream id upstream now h).0
unfolding attach_upstream attached
attach_upstream-IsValid id upstream now h v = changed-IsValid h _ v (
    change_record-Keeps IsJob (attached upstream now)
      (λ (r : JobRecord) (j : IsJob r). record {
        id_set = j.id_set;
        name_fits = j.name_fits;
        format_fits = j.format_fits;
      })
      id h.records v.jobs)
