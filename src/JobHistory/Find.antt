-- ===== src/JobHistory/Find.antt =====
-- The ids of the job history, and the job that an upstream id leads back to.
use espresso.Prelude.{
  ℕ, suc, ◌+◌, ◌-◌, ◌≤◌, ◌<◌, true, false, some, List, [], ◌∷◌, ◌++◌, ◌≡◌, ◌∙◌, inl, inr, refl, ap,
  subst, length, take, drop, All, All-append, take_all, ltb, if◌then◌else◌, ◌==◌, ==_refl,
  Bool-cases, arith, Bytes, length-append,
}
use mathlib.Core.List.{reverse, reverse_aux, reverse-append}
use espresso.JobHistory.{
  capacity, JobState, JobRecord, JobHistory, expired, prune, make_room, increment, new_record,
  begin, change_record, attached, attach_upstream, newest_upstream, find_upstream, snapshot,
}
use espresso.JobHistory.Laws.{
  IsValid, Rising, increment_small, All-prune, All-make_room, length-prune, length-make_room,
}

abbrev Older : ℕ → JobRecord → Type 0
Older id r = r.id < id

Rising-Older :
    (low high : ℕ) (rs : List JobRecord)
    → Rising low rs high
    → (low ≤ high) × All (Older (suc high)) rs
Rising-Older low high [] h = (h, tt)
Rising-Older low high (r ∷ rs) (l, h) =
    let (k, a) = Rising-Older r.id high rs h in (omega arith, (omega arith, a))

change_record_last :
    (f : JobRecord → JobRecord) (id : ℕ) (rs : List JobRecord) (r : JobRecord)
    → All (Older id) rs
    → r.id ≡ id
    → change_record f id (rs ++ r ∷ []) ≡ some (rs ++ f r ∷ [])
unfolding change_record
change_record_last f id [] r h e = rw (e, ==_refl id) refl
change_record_last f id (q ∷ rs) r (o, h) e =
    let ne : (q.id == id) ≡ false = ground arith in rw (ne, change_record_last f id rs r h e) refl

newest_upstream_last :
    (upstream : ℕ) (rs : List JobRecord) (r : JobRecord)
    → r.has_upstream_job_id ≡ true
    → r.upstream_job_id ≡ upstream
    → newest_upstream upstream (rs ++ r ∷ []) ≡ some r.id
unfolding newest_upstream
newest_upstream_last upstream [] r h e = rw (h, e, ==_refl upstream) refl
newest_upstream_last upstream (q ∷ rs) r h e = rw (newest_upstream_last upstream rs r h e) refl

-- In a history whose ids rise and whose counter is not at its end, the upstream id that is attached
-- to a job just begun leads back to that job, whatever the older jobs have attached.
pub find_upstream-attach_upstream :
    (name format : Bytes) (state : JobState) (upstream now later : ℕ) (h : JobHistory)
    → Rising 0 h.records h.next_id
    → h.next_id + 1 < 4294967296
    → find_upstream upstream
        (attach_upstream
          (begin name format state now h).1
          upstream
          later
          (begin name format state now h).0).0
      ≡ (begin name format state now h).1
unfolding begin find_upstream attach_upstream attached
find_upstream-attach_upstream name format state upstream now later h up small =
    let id = increment h.next_id in
    let kept = make_room (prune now h.records) in
    let new = new_record id name format state now in
    let older : All (Older id) kept =
      subst (λ (n : ℕ). All (Older n) kept) (omega (arith, increment_small h.next_id small))
        (All-make_room (Older (suc h.next_id)) (prune now h.records) (
          All-prune (Older (suc h.next_id)) now h.records
            (Rising-Older 0 h.next_id h.records up).1)) in
    rw
      (
        change_record_last (attached upstream later) id kept new older refl,
        find_upstream,
        newest_upstream_last upstream kept (attached upstream later new) refl refl,
      )
      refl

Rising-lower :
    (low mid high : ℕ) (rs : List JobRecord) → low ≤ mid → Rising mid rs high → Rising low rs high
Rising-lower low mid high [] l h = omega arith
Rising-lower low mid high (r ∷ rs) l (k, h) = (omega arith, h)

Rising-prune :
    (now low high : ℕ) (rs : List JobRecord) → Rising low rs high → Rising low (prune now rs) high
unfolding prune
Rising-prune now low high [] h = h
Rising-prune now low high (r ∷ rs) (k, h) = elim (Bool-cases (expired now r)) [
  | inl e ↦
      rw e
        (Rising-lower low r.id high (prune now rs) (omega arith) (Rising-prune now r.id high rs h))
  | inr e ↦ rw e (k, Rising-prune now r.id high rs h)
]

Rising-drop :
    (low high : ℕ) (rs : List JobRecord) → Rising low rs high → Rising low (drop 1 rs) high
Rising-drop low high [] h = h
Rising-drop low high (r ∷ rs) (k, h) = Rising-lower low r.id high rs (omega arith) h

Rising-make_room :
    (low high : ℕ) (rs : List JobRecord) → Rising low rs high → Rising low (make_room rs) high
unfolding make_room
Rising-make_room low high rs h = elim (Bool-cases (length rs == capacity)) [
  | inl e ↦ rw e (Rising-drop low high rs h)
  | inr e ↦ rw e h
]

Rising-last :
    (low high : ℕ) (rs : List JobRecord) (r : JobRecord)
    → Rising low rs high
    → r.id ≡ suc high
    → Rising low (rs ++ r ∷ []) (suc high)
Rising-last low high [] r h e = (omega arith, omega arith)
Rising-last low high (q ∷ rs) r (k, h) e = (k, Rising-last q.id high rs r h e)

-- A job that is begun keeps the ids rising, where the counter is not at its end.
pub begin-Rising :
    (name format : Bytes) (state : JobState) (now : ℕ) (h : JobHistory)
    → Rising 0 h.records h.next_id
    → h.next_id + 1 < 4294967296
    → Rising 0 (begin name format state now h).0.records (begin name format state now h).0.next_id
unfolding begin
begin-Rising name format state now h up small =
    let next : increment h.next_id ≡ suc h.next_id =
      omega (arith, increment_small h.next_id small) in
    rw next (
      Rising-last 0 h.next_id _ _
        (Rising-make_room 0 h.next_id (prune now h.records)
          (Rising-prune now 0 h.next_id h.records up))
        refl)

length-reverse_aux : (xs ys : List JobRecord) → length (reverse_aux xs ys) ≡ length xs + length ys
length-reverse_aux [] ys = omega arith
length-reverse_aux (x ∷ xs) ys = omega (arith, length-reverse_aux xs (x ∷ ys))

abbrev pub IsFresh : ℕ → JobRecord → Type 0
IsFresh now r = expired now r ≡ false

prune-IsFresh : (now : ℕ) (rs : List JobRecord) → All (IsFresh now) (prune now rs)
unfolding prune
prune-IsFresh now [] = tt
prune-IsFresh now (r ∷ rs) = elim (Bool-cases (expired now r)) [
  | inl e ↦ rw e (prune-IsFresh now rs)
  | inr e ↦ rw e (e, prune-IsFresh now rs)
]

fresh-kept : (now : ℕ) (rs : List JobRecord) → All (IsFresh now) rs → prune now rs ≡ rs
unfolding prune
fresh-kept now [] h = refl
fresh-kept now (r ∷ rs) (e, h) = rw (e, fresh-kept now rs h) refl

expired_self :
    (id : ℕ) (name format : Bytes) (state : JobState) (now : ℕ)
    → IsFresh now (new_record id name format state now)
unfolding expired
expired_self id name format state now = ground arith

-- A record counts until an hour after its last change. This is written without the code's tests.
unfoldable pub live : ℕ → List JobRecord → List JobRecord
live now [] = []
live now (r ∷ rs) =
    let rest = live now rs in if ltb now (r.updated_ms + 3_600_000) then r ∷ rest else rest

-- The last `n` records.
abbrev pub newest : ℕ → List JobRecord → List JobRecord
newest n rs = drop (length rs - n) rs

prune-live : (now : ℕ) (rs : List JobRecord) → prune now rs ≡ live now rs
unfolding prune live expired
prune-live now [] = refl
prune-live now (r ∷ rs) = ground (arith, prune-live now rs)

make_room-newest : (rs : List JobRecord) → length rs ≤ capacity → make_room rs ≡ newest 15 rs
unfolding make_room
make_room-newest rs h = elim (Bool-cases (length rs == capacity)) [
  | inl full ↦ let one : length rs - 15 ≡ 1 = ground arith in rw (full, one) refl
  | inr room ↦ let none_goes : length rs - 15 ≡ 0 = ground arith in rw (room, none_goes) refl
]

-- Of a valid history, a snapshot that has room for all records and is taken when a job begins
-- lists that job first, under the id that was returned, and after it, the newest first, the last
-- fifteen of the older jobs that changed less than an hour before.
pub snapshot-begin :
    (name format : Bytes) (state : JobState) (now size : ℕ) (h : JobHistory)
    → capacity ≤ size
    → IsValid h
    → (snapshot size now (begin name format state now h).0).1
      ≡ new_record (begin name format state now h).1 name format state now
        ∷ reverse (newest 15 (live now h.records))
unfolding snapshot begin
snapshot-begin name format state now size h room v =
    let kept = make_room (prune now h.records) in
    let new = new_record (increment h.next_id) name format state now in
    let count : length (prune now h.records) ≤ capacity =
      omega (arith, v.count_fits, length-prune now h.records) in
    let older : kept ≡ newest 15 (live now h.records) =
      make_room-newest (prune now h.records) count ∙ ap (newest 15) (prune-live now h.records) in
    let fresh : All (IsFresh now) (kept ++ new ∷ []) =
      All-append (IsFresh now) kept (new ∷ [])
        (All-make_room (IsFresh now) (prune now h.records) (prune-IsFresh now h.records))
        (expired_self (increment h.next_id) name format state now, tt) in
    rw (fresh-kept now (kept ++ new ∷ []) fresh) (
      ap (take _) (reverse-append kept (new ∷ []))
      ∙ take_all _ _ (
          omega (
            arith,
            room,
            length-append kept (new ∷ []),
            length-reverse_aux kept [],
            length-make_room (prune now h.records) count,
          ))
      ∙ ap (λ (rs : List JobRecord). new ∷ reverse rs) older)
