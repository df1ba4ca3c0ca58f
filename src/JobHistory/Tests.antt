-- ===== src/JobHistory/Tests.antt =====
-- Runs of the job history.
use espresso.Prelude.{[], ◌∷◌, ◌≡◌, ◌≢◌, arith, codes, ◌+◌, ◌<◌}
use mathlib.Core.List.{reverse}
use espresso.JobHistory.{
  JobHistory, JobState, init, begin, update, attach_upstream, find_upstream, snapshot, new_record,
  increment,
}
use espresso.JobHistory.Laws.{
  IsValid, begin-IsValid, update-IsValid, attach_upstream-IsValid, Rising,
}
use espresso.JobHistory.Find.{
  find_upstream-attach_upstream, begin-Rising, live, newest, snapshot-begin,
}

init-IsValid : IsValid init
init-IsValid = record { count_fits = omega arith; next_fits = omega arith; jobs = tt }

abbrev one_job : JobHistory
one_job = (begin (codes "a.pdf") (codes "image/urf") JobState.queued 1000 init).0

one_job-IsValid : IsValid one_job
one_job-IsValid =
    (begin-IsValid (codes "a.pdf") (codes "image/urf") JobState.queued 1000 init init-IsValid).0

one_job-Rising : Rising 0 one_job.records one_job.next_id
one_job-Rising =
    begin-Rising (codes "a.pdf") (codes "image/urf") JobState.queued 1000 init (omega arith)
      (omega arith)

one_job_small : one_job.next_id + 1 < 4294967296
unfolding begin increment
one_job_small = omega arith

begin-IsValid_example :
    IsValid (begin (codes "b.pdf") [] JobState.sending 2000 one_job).0
    × ((begin (codes "b.pdf") [] JobState.sending 2000 one_job).1 ≢ 0)
begin-IsValid_example =
    begin-IsValid (codes "b.pdf") [] JobState.sending 2000 one_job one_job-IsValid

update-IsValid_example : IsValid (update 1 JobState.completed [] 512 3000 one_job).0
update-IsValid_example = update-IsValid 1 JobState.completed [] 512 3000 one_job one_job-IsValid

attach_upstream-IsValid_example : IsValid (attach_upstream 1 77 3000 one_job).0
attach_upstream-IsValid_example = attach_upstream-IsValid 1 77 3000 one_job one_job-IsValid

find_upstream-attach_upstream_example :
    find_upstream 77
      (attach_upstream
        (begin [] [] JobState.queued 2000 one_job).1
        77
        3000
        (begin [] [] JobState.queued 2000 one_job).0).0
    ≡ (begin [] [] JobState.queued 2000 one_job).1
find_upstream-attach_upstream_example =
    find_upstream-attach_upstream [] [] JobState.queued 77 2000 3000 one_job one_job-Rising
      one_job_small

begin-Rising_example :
    Rising 0
      (begin [] [] JobState.queued 2000 one_job).0.records
      (begin [] [] JobState.queued 2000 one_job).0.next_id
begin-Rising_example = begin-Rising [] [] JobState.queued 2000 one_job one_job-Rising one_job_small

snapshot-begin_example :
    (snapshot 16 2000 (begin (codes "b.pdf") [] JobState.queued 2000 one_job).0).1
    ≡ new_record
        (begin (codes "b.pdf") [] JobState.queued 2000 one_job).1
        (codes "b.pdf")
        []
        JobState.queued
        2000
      ∷ reverse (newest 15 (live 2000 one_job.records))
snapshot-begin_example =
    snapshot-begin (codes "b.pdf") [] JobState.queued 2000 16 one_job (omega arith) one_job-IsValid
