-- ===== src/Images/Slots.antt =====
-- How the slots change: a process has at most one, and the workers take the oldest query first.
use wireguard_dns_program_sp.Base.{
  some_same, elim_some, ℕ, zero, suc, ◌≡◌, ◌⊎◌, ◌≤◌, ◌+◌, refl, sym, ap, ◌∙◌, true, false, not,
  ◌&&◌, Option, none, some, List, [], ◌∷◌, ltb, Bool-cases, inl, inr, arith,
}
use wireguard_dns_program_sp.Images.Lru.{Key, same_key, Cache, keep}
use wireguard_dns_program_sp.Images.{
  Phase, Job, one_if, is_empty_phase, is_queued, is_done, harvest, is_asked, submit, put_job,
  job_at, oldest, older,
}
use wireguard_dns_program_sp.Images.Counts.{same_key_right}

pub done_phase : (phase : Phase) → is_done phase ≡ true → phase ≡ Phase.done
done_phase Phase.empty h = absurd (cc)
done_phase Phase.queued h = absurd (cc)
done_phase Phase.running h = absurd (cc)
done_phase Phase.done h = refl

pub queued_phase : (phase : Phase) → is_queued phase ≡ true → phase ≡ Phase.queued
queued_phase Phase.empty h = absurd (cc)
queued_phase Phase.queued h = refl
queued_phase Phase.running h = absurd (cc)
queued_phase Phase.done h = absurd (cc)

-- How many slots are at work for the key.
unfoldable pub active_count : Key → List Job → ℕ
active_count key [] = 0
active_count key (job ∷ jobs) =
    let rest = active_count key jobs in
    one_if (not (is_empty_phase job.phase) && same_key job.key key) + rest

pub is_asked-active_count :
    (key : Key) (jobs : List Job) → is_asked key jobs ≡ false → active_count key jobs ≡ 0
unfolding is_asked active_count
is_asked-active_count key [] h = refl
is_asked-active_count key (job ∷ jobs) h =
    let rest = is_asked-active_count key jobs (ground (arith, h)) in
    let here : (not (is_empty_phase job.phase) && same_key job.key key) ≡ false =
      ground (arith, h) in
    rw here (omega (arith, rest))

pub harvest-active_count :
    (ticks : ℕ → ℕ) (i : ℕ) (jobs : List Job) (c : Cache) (key : Key)
    → active_count key (harvest ticks i jobs c).0 ≤ active_count key jobs
unfolding harvest active_count
harvest-active_count ticks i [] c key = omega arith
harvest-active_count ticks i (job ∷ jobs) c key = elim (Bool-cases (is_done job.phase)) [
  | inl e ↦ rw e (
      omega
        (arith, harvest-active_count ticks (i + 1) jobs (keep (ticks i) job.key job.path c) key))
  | inr e ↦ rw e (omega (arith, harvest-active_count ticks (i + 1) jobs c key))
]

pub submit-active_count :
    (key : Key) (p now : ℕ) (jobs : List Job) {jobs' : List Job} (k : Key)
    → submit key p now jobs ≡ some jobs'
    → active_count k jobs' ≡ one_if (same_key key k) + active_count k jobs
unfolding submit active_count
submit-active_count key p now [] k h = absurd (cc)
submit-active_count key p now (job ∷ jobs) {jobs'} k h =
    elim (Bool-cases (is_empty_phase job.phase)) [
      | inl e ↦ rw (sym (ap (active_count k) (some_same (rw e at h))), e) (omega arith)
      | inr e ↦
          let (more, (rest, made)) = elim_some (submit key p now jobs) (rw e at h) in
          rw (sym (ap (active_count k) (some_same made)))
            (omega (arith, submit-active_count key p now jobs k rest))
    ]

-- A slot that stays at work for the same key.
pub put_job-active_count :
    (i : ℕ) (job : Job) (jobs : List Job) {old : Job} (k : Key)
    → job_at i jobs ≡ some old
    → is_empty_phase old.phase ≡ is_empty_phase job.phase
    → old.key ≡ job.key
    → active_count k (put_job i job jobs) ≡ active_count k jobs
unfolding put_job job_at active_count
put_job-active_count i job [] k h same keys = absurd (cc)
put_job-active_count zero job (j ∷ jobs) k h same keys =
    let phases : is_empty_phase job.phase ≡ is_empty_phase j.phase =
      sym (ap (λ (x : Job). is_empty_phase x.phase) (some_same h) ∙ same) in
    let names : job.key ≡ j.key = sym (ap (λ (x : Job). x.key) (some_same h) ∙ keys) in
    rw (phases, names) refl
put_job-active_count (suc i) job (j ∷ jobs) k h same keys =
    omega (arith, put_job-active_count i job jobs k h same keys)

-- What the search has found so far, or a queued job of those that are left.
abbrev FoundIn : Option (ℕ × Job) → ℕ → List Job → ℕ → Job → Type 0
FoundIn best i jobs k job =
    (best ≡ some (k, job))
    ⊎ ((d : ℕ) × ((k ≡ i + d) × ((job_at d jobs ≡ some job) × (is_queued job.phase ≡ true))))

older_or_not :
    (best : Option (ℕ × Job)) (i : ℕ) (job : Job)
    → (older best i job ≡ best) ⊎ (older best i job ≡ some (i, job))
older_or_not none i job = inr refl
older_or_not (some (k, b)) i job = elim (Bool-cases (ltb job.submitted b.submitted)) [
  | inl e ↦ inr (rw e refl)
  | inr e ↦ inl (rw e refl)
]

oldest-FoundIn :
    (i : ℕ) (jobs : List Job) (best : Option (ℕ × Job)) (k : ℕ) {job : Job}
    → oldest i jobs best ≡ some (k, job)
    → FoundIn best i jobs k job
unfolding oldest job_at
oldest-FoundIn i [] best k h = inl h
oldest-FoundIn i (j ∷ jobs) best k {job} h = elim (Bool-cases (is_queued j.phase)) [
  | inl e ↦ elim (oldest-FoundIn (i + 1) jobs (older best i j) k (rw e at h)) [
    | inr (d, (at, rest)) ↦ inr (suc d, (omega (arith, at), rest))
    | inl f ↦ elim (older_or_not best i j) [
      | inl same ↦ inl (sym same ∙ f)
      | inr new ↦
          let pair : (i, j) ≡ (k, job) = some_same (sym new ∙ f) in
          let at : i ≡ k = ap (λ (x : ℕ × Job). x.0) pair in
          let it : j ≡ job = ap (λ (x : ℕ × Job). x.1) pair in
          inr (
            zero,
            (
              omega (arith, at),
              (ap (λ (x : Job). some x) it, ap (λ (x : Job). is_queued x.phase) (sym it) ∙ e),
            ),
          )
    ]
  ]
  | inr e ↦ elim (oldest-FoundIn (i + 1) jobs best k (rw e at h)) [
    | inr (d, (at, rest)) ↦ inr (suc d, (omega (arith, at), rest))
    | inl f ↦ inl f
  ]
]

-- The search never gives up what it has found.
oldest_keeps :
    (i : ℕ) (jobs : List Job) (m : ℕ) (b : Job) (k : ℕ) {job : Job}
    → oldest i jobs (some (m, b)) ≡ some (k, job)
    → job.submitted ≤ b.submitted
unfolding oldest
oldest_keeps i [] m b k h =
    let same : b.submitted ≡ _ = ap (λ (x : ℕ × Job). x.1.submitted) (some_same h) in
    omega (arith, same)
oldest_keeps i (j ∷ jobs) m b k h = elim (Bool-cases (is_queued j.phase)) [
  | inl e ↦ elim (Bool-cases (ltb j.submitted b.submitted)) [
    | inl l ↦
        let below = oldest_keeps (i + 1) jobs i j k (rw (e, l) at h) in ground (arith, below, l)
    | inr l ↦ oldest_keeps (i + 1) jobs m b k (rw (e, l) at h)
  ]
  | inr e ↦ oldest_keeps (i + 1) jobs m b k (rw e at h)
]

-- At a queued job the search has what is at least as old.
older_bounds :
    (best : Option (ℕ × Job)) (i : ℕ) (j : Job)
    → (m : ℕ) × (b : Job) × ((older best i j ≡ some (m, b)) × (b.submitted ≤ j.submitted))
older_bounds none i j = (i, j, (refl, omega arith))
older_bounds (some (m, b)) i j = elim (Bool-cases (ltb j.submitted b.submitted)) [
  | inl l ↦ (i, j, (rw l refl, omega arith))
  | inr l ↦ (m, b, (rw l refl, ground (arith, l)))
]

oldest_before :
    (i : ℕ) (jobs : List Job) (best : Option (ℕ × Job)) (k : ℕ) {job : Job} (d : ℕ) {j : Job}
    → oldest i jobs best ≡ some (k, job)
    → job_at d jobs ≡ some j
    → is_queued j.phase ≡ true
    → job.submitted ≤ j.submitted
unfolding oldest job_at
oldest_before i [] best k d h at q = absurd (cc)
oldest_before i (j' ∷ jobs) best k {job} zero {j} h at q =
    let here : j' ≡ j = some_same at in
    let queued : is_queued j'.phase ≡ true = ap (λ (x : Job). is_queued x.phase) here ∙ q in
    let (m, b, (found, bound)) = older_bounds best i j' in
    let same : j'.submitted ≡ j.submitted = ap (λ (x : Job). x.submitted) here in
    let kept = oldest_keeps (i + 1) jobs m b k (rw (queued, found) at h) in
    omega (arith, kept, bound, same)
oldest_before i (j' ∷ jobs) best k (suc d) h at q = elim (Bool-cases (is_queued j'.phase)) [
  | inl e ↦ oldest_before (i + 1) jobs (older best i j') k d (rw e at h) at q
  | inr e ↦ oldest_before (i + 1) jobs best k d (rw e at h) at q
]

-- What a worker takes is queued in the slot it takes it from.
pub oldest-queued :
    (jobs : List Job) (k : ℕ) {job : Job}
    → oldest 0 jobs none ≡ some (k, job)
    → (job_at k jobs ≡ some job) × (is_queued job.phase ≡ true)
oldest-queued jobs k h = elim (oldest-FoundIn 0 jobs none k h) [
  | inl f ↦ absurd (cc)
  | inr (d, (at, (here, queued))) ↦ let same : k ≡ d = omega (arith, at) in (rw same here, queued)
]

-- The job that a worker takes is a queued one, and no queued job was submitted before it.
pub oldest_first :
    (jobs : List Job) (k : ℕ) {job : Job} (d : ℕ) {j : Job}
    → oldest 0 jobs none ≡ some (k, job)
    → job_at d jobs ≡ some j
    → is_queued j.phase ≡ true
    → ((job_at k jobs ≡ some job) × (is_queued job.phase ≡ true)) × (job.submitted ≤ j.submitted)
oldest_first jobs k d h at q = (oldest-queued jobs k h, oldest_before 0 jobs none k d h at q)

-- Keys that are the same have the same slots at work.
pub same_key-active_count :
    (a b : Key) (jobs : List Job) → same_key a b ≡ true → active_count a jobs ≡ active_count b jobs
unfolding active_count
same_key-active_count a b [] h = refl
same_key-active_count a b (job ∷ jobs) h =
    rw (same_key_right job.key a b h, same_key-active_count a b jobs h) refl
