-- ===== src/Images.antt =====
-- src/native/dns-image-resolver.h: the paths of the processes that query, resolved by workers off the
-- consumer's thread. This file has the slots and the steps, Lru the cache.
pub mod Lru
pub mod Counts
pub mod Mirror
pub mod Slots
pub mod Sound
pub mod Look
pub mod Invariant
pub mod Reach
pub mod Wait
use wireguard_dns_program_sp.Base.{
  ℕ, zero, suc, ◌+◌, ◌-◌, Bool, true, false, not, ◌&&◌, ◌||◌, Option, none, some, List, [], ◌∷◌,
  ◌==◌, if◌then◌else◌, leb, ltb,
}
use wireguard_dns_program_sp.Images.Lru.{
  Key, same_key, Status, Result, Cached, Cache, find, is_over, touch, forget, keep,
}

pub data Phase : Type 0 where
  empty queued running done : Phase

pub record Job : Type 0 where
  pub key : Key
  pub phase : Phase
  pub process : Option ℕ
  pub submitted : ℕ
  pub started : ℕ
  pub path : List ℕ

-- What the workers share, and the cache of the one consumer.
pub record State : Type 0 where
  pub jobs : List Job
  pub cache : Cache

abbrev pub slots : ℕ
slots = 16

abbrev pub is_empty_phase : Phase → Bool
is_empty_phase Phase.empty = true
is_empty_phase _ = false

abbrev pub is_queued : Phase → Bool
is_queued Phase.queued = true
is_queued _ = false

abbrev pub is_running : Phase → Bool
is_running Phase.running = true
is_running _ = false

abbrev pub is_done : Phase → Bool
is_done Phase.done = true
is_done _ = false

abbrev pub unavailable : Result
unavailable = record { path = []; status = Status.unavailable }

abbrev pub pending : Result
pending = record { path = []; status = Status.pending }

-- `cached`: the answer that the cache has, and the cache after it.
abbrev pub looked_up : Key → ℕ → Cache → Option Cached → Option Result × Cache
looked_up key now c none = (none, c)
looked_up key now c (some found) =
    if is_over found now then (none, forget key c) else (some found.result, touch key c)

unfoldable pub cached : Key → ℕ → Cache → Option Result × Cache
unfolding find forget touch
cached key now c = looked_up key now c (find key c.entries)

-- `harvest`: what the workers have done goes to the cache, and its slot is free. The clock is read for
-- each slot on its own.
unfoldable pub harvest : (ℕ → ℕ) → ℕ → List Job → Cache → List Job × Cache
harvest ticks i [] c = ([], c)
harvest ticks i (job ∷ jobs) c =
    let freed = record job { phase = Phase.empty; path = [] } in
    let after_done = harvest ticks (i + 1) jobs (keep (ticks i) job.key job.path c) in
    let after_other = harvest ticks (i + 1) jobs c in
    if is_done job.phase
    then (freed ∷ after_done.0, after_done.1)
    else (job ∷ after_other.0, after_other.1)

abbrev pub harvested : (ℕ → ℕ) → State → State
harvested ticks s =
    let (jobs, cache) = harvest ticks 0 s.jobs s.cache in record { jobs = jobs; cache = cache }

-- Whether a slot is at work for the key.
unfoldable pub is_asked : Key → List Job → Bool
is_asked key [] = false
is_asked key (job ∷ jobs) =
    let rest = is_asked key jobs in not (is_empty_phase job.phase) && same_key job.key key || rest

abbrev pub one_if : Bool → ℕ
one_if true = 1
one_if false = 0

unfoldable pub running_count : List Job → ℕ
running_count [] = 0
running_count (job ∷ jobs) = let rest = running_count jobs in one_if (is_running job.phase) + rest

unfoldable pub overdue_count : ℕ → ℕ → List Job → ℕ
overdue_count now wait [] = 0
overdue_count now wait (job ∷ jobs) =
    let rest = overdue_count now wait jobs in
    one_if (is_running job.phase && leb job.started now && leb wait (now - job.started)) + rest

-- The first free slot takes the query; `none` where there is none.
unfoldable pub submit : Key → ℕ → ℕ → List Job → Option (List Job)
submit key process now [] = none
submit key process now (job ∷ jobs) =
    let taken = record job {
      key = key;
      process = some process;
      submitted = now;
      phase = Phase.queued;
    } in
    let rest = submit key process now jobs in
    let behind = elim rest as (λ r. Option (List Job)) [
      | none ↦ none
      | some more ↦ some (job ∷ more)
    ] in
    if is_empty_phase job.phase then some (taken ∷ jobs) else behind

abbrev pub submitted_or_not : State → Option (List Job) → Option Result × State
submitted_or_not s none = (some pending, s)
submitted_or_not s (some jobs) = (none, record s { jobs = jobs })

abbrev pub ask_workers : ℕ → ℕ → Key → ℕ → ℕ → State → Option Result × State
ask_workers workers wait key process now s =
    if is_asked key s.jobs
    then (none, s)
    else if running_count s.jobs == workers && overdue_count now wait s.jobs == workers
    then (some pending, s)
    else submitted_or_not s (submit key process now s.jobs)

abbrev pub ask_after :
    ℕ → ℕ → Key → ℕ → ℕ → List Job → Option Result × Cache → Option Result × State
ask_after workers wait key process now jobs (some hit, cache) =
    (some hit, record { jobs = jobs; cache = cache })
ask_after workers wait key process now jobs (none, cache) =
    ask_workers workers wait key process now (record { jobs = jobs; cache = cache })

-- `identifyPinned` up to its wait: an answer, or `none` where it waits.
unfoldable pub ask : Bool → ℕ → ℕ → Key → Option ℕ → ℕ → (ℕ → ℕ) → State → Option Result × State
unfolding cached harvest is_asked running_count overdue_count submit
ask stopped workers wait key none now ticks s = (some unavailable, s)
ask stopped workers wait key (some process) now ticks s =
    let h = harvested ticks s in
    if workers == 0 || stopped
    then (some unavailable, s)
    else ask_after workers wait key process now h.jobs (cached key now h.cache)

abbrev pub answer_after : List Job → Option Result × Cache → Result × State
answer_after jobs (some hit, cache) = (hit, record { jobs = jobs; cache = cache })
answer_after jobs (none, cache) = (pending, record { jobs = jobs; cache = cache })

-- `identifyPinned` from its wait on.
unfoldable pub answer : Bool → Key → ℕ → (ℕ → ℕ) → State → Result × State
unfolding cached harvest
answer stopped key now ticks s =
    let h = harvested ticks s in
    if stopped then (unavailable, s) else answer_after h.jobs (cached key now h.cache)

-- The oldest of the queued jobs, the first of those as old, and its place.
abbrev pub older : Option (ℕ × Job) → ℕ → Job → Option (ℕ × Job)
older none i job = some (i, job)
older (some (k, best)) i job =
    if ltb job.submitted best.submitted then some (i, job) else some (k, best)

unfoldable pub oldest : ℕ → List Job → Option (ℕ × Job) → Option (ℕ × Job)
oldest i [] best = best
oldest i (job ∷ jobs) best =
    let after_queued = oldest (i + 1) jobs (older best i job) in
    let after_other = oldest (i + 1) jobs best in
    if is_queued job.phase then after_queued else after_other

unfoldable pub put_job : ℕ → Job → List Job → List Job
put_job i job [] = []
put_job zero job (j ∷ jobs) = job ∷ jobs
put_job (suc i) job (j ∷ jobs) = j ∷ put_job i job jobs

unfoldable pub job_at : ℕ → List Job → Option Job
job_at i [] = none
job_at zero (j ∷ jobs) = some j
job_at (suc i) (j ∷ jobs) = job_at i jobs

-- `run`: a worker takes a job, and later lays down what it resolved, nothing where that failed.
unfoldable pub take : ℕ → State → State
unfolding oldest put_job
take now s = elim (oldest 0 s.jobs none) as (λ o. State) [
  | none ↦ s
  | some (i, job) ↦ record s {
    jobs = put_job i (record job { phase = Phase.running; started = now }) s.jobs;
  }
]

unfoldable pub finish : ℕ → Job → List ℕ → State → State
unfolding put_job
finish i job path s = record s {
  jobs = put_job i (record job { process = none; path = path; phase = Phase.done }) s.jobs;
}
