-- ===== src/JobHistory.antt =====
-- main/job_history.c and main/job_history.h: the recent print jobs, the oldest first. The list is
-- the first `count` entries of the array. A C string is a list without NUL, NULL is the empty one;
-- the history itself is never NULL.
pub mod Laws
pub mod Find
mod Tests
use espresso.Prelude.{
  ℕ, ◌+◌, ◌-◌, ◌%◌, min, Bool, true, false, not, ◌&&◌, Option, none, some, List, [], ◌∷◌, ◌++◌,
  length, take, drop, ltb, leb, ◌==◌, if◌then◌else◌, Bytes, codes,
}
use mathlib.Core.List.{reverse}

abbrev pub capacity : ℕ
capacity = 16

abbrev pub ttl_ms : ℕ
ttl_ms = 3600000

abbrev pub name_size : ℕ
name_size = 64

abbrev pub format_size : ℕ
format_size = 48

pub data JobState : Type 0 where
  queued : JobState
  sending : JobState
  completed : JobState
  failed : JobState
  cancelled : JobState

pub record JobRecord : Type 0 where
  pub id : ℕ
  pub upstream_job_id : ℕ
  pub has_upstream_job_id : Bool
  pub state : JobState
  pub started_ms : ℕ
  pub updated_ms : ℕ
  pub document_bytes : ℕ
  pub name : Bytes
  pub format : Bytes

pub record JobHistory : Type 0 where
  pub records : List JobRecord
  pub next_id : ℕ

-- `espresso_job_history_init`
abbrev pub init : JobHistory
init = record { records = []; next_id = 0 }

unfoldable pub copy_text : ℕ → Bytes → Bytes
copy_text size source = take (size - 1) source

unfoldable pub expired : ℕ → JobRecord → Bool
expired now r = leb r.updated_ms now && leb ttl_ms (now - r.updated_ms)

unfoldable pub prune : ℕ → List JobRecord → List JobRecord
prune now [] = []
prune now (r ∷ rs) = if expired now r then prune now rs else r ∷ prune now rs

-- Of a full history the oldest job goes.
unfoldable pub make_room : List JobRecord → List JobRecord
make_room rs = if length rs == capacity then drop 1 rs else rs

-- `++next_id` on 32 bits, which passes over 0.
unfoldable pub increment : ℕ → ℕ
increment n = let m = (n + 1) % 4294967296 in if m == 0 then 1 else m

unfoldable pub text_or : Bytes → Bytes → Bytes
text_or default [] = default
text_or default (c ∷ cs) = c ∷ cs

abbrev pub new_record : ℕ → Bytes → Bytes → JobState → ℕ → JobRecord
new_record id name format state now = record {
  id = id;
  upstream_job_id = 0;
  has_upstream_job_id = false;
  state = state;
  started_ms = now;
  updated_ms = now;
  document_bytes = 0;
  name = copy_text name_size (text_or (codes "Print job") name);
  format = copy_text format_size format;
}

-- `espresso_job_history_begin`: the history after it, and the id that it returns.
unfoldable pub begin : Bytes → Bytes → JobState → ℕ → JobHistory → JobHistory × ℕ
begin name format state now h =
    let id = increment h.next_id in
    (
      record {
        records = make_room (prune now h.records) ++ new_record id name format state now ∷ [];
        next_id = id;
      },
      id,
    )

-- The first record of an id, changed in place as `find_record` and its callers do.
unfoldable pub change_record :
    (JobRecord → JobRecord) → ℕ → List JobRecord → Option (List JobRecord)
change_record f id [] = none
change_record f id (r ∷ rs) =
    let rest = change_record f id rs in
    if r.id == id then some (f r ∷ rs) else elim rest [ some qs ↦ some (r ∷ qs) | none ↦ none ]

abbrev pub changed : JobHistory → Option (List JobRecord) → JobHistory × Bool
changed h none = (h, false)
changed h (some rs) = (record h { records = rs }, true)

unfoldable pub size_or : ℕ → ℕ → ℕ
size_or old n = if n == 0 then old else n

unfoldable pub format_or : Bytes → Bytes → Bytes
format_or old [] = old
format_or old (c ∷ cs) = copy_text format_size (c ∷ cs)

unfoldable pub updated : JobState → Bytes → ℕ → ℕ → JobRecord → JobRecord
updated state format document_bytes now r = record r {
  state = state;
  updated_ms = now;
  format = format_or r.format format;
  document_bytes = size_or r.document_bytes document_bytes;
}

-- `espresso_job_history_update`
unfoldable pub update : ℕ → JobState → Bytes → ℕ → ℕ → JobHistory → JobHistory × Bool
update id state format document_bytes now h =
    changed h (change_record (updated state format document_bytes now) id h.records)

unfoldable pub attached : ℕ → ℕ → JobRecord → JobRecord
attached upstream now r = record r {
  upstream_job_id = upstream;
  has_upstream_job_id = true;
  updated_ms = now;
}

-- `espresso_job_history_attach_upstream`
unfoldable pub attach_upstream : ℕ → ℕ → ℕ → JobHistory → JobHistory × Bool
attach_upstream id upstream now h = changed h (change_record (attached upstream now) id h.records)

-- The search runs from the newest record to the oldest.
unfoldable pub newest_upstream : ℕ → List JobRecord → Option ℕ
newest_upstream upstream [] = none
newest_upstream upstream (r ∷ rs) =
    let later = newest_upstream upstream rs in
    elim later [
      | some id ↦ some id
      | none ↦ if r.has_upstream_job_id && (r.upstream_job_id == upstream) then some r.id else none
    ]

-- `espresso_job_history_find_upstream`
unfoldable pub find_upstream : ℕ → JobHistory → ℕ
find_upstream upstream h = elim (newest_upstream upstream h.records) [ some id ↦ id | none ↦ 0 ]

-- `espresso_job_history_snapshot`: the history after it, and what it writes to `records`.
unfoldable pub snapshot : ℕ → ℕ → JobHistory → JobHistory × List JobRecord
snapshot size now h =
    let kept = prune now h.records in
    (record h { records = kept }, take (min (length kept) size) (reverse kept))
