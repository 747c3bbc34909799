-- ===== src/Images/Sound.antt =====
-- Where the paths come from that the slots and the cache hold.
use wireguard_dns_program_sp.Base.{
  some_same, elim_some, ℕ, zero, suc, ◌≡◌, ◌⊎◌, ◌+◌, refl, ap, ◌∙◌, true, none, some, List, [], ◌∷◌,
  leb, length, Bool-cases, inl, inr, arith,
}
use mathlib.Core.Path.{subst}
use wireguard_dns_program_sp.Images.Lru.{
  Key, same_key, Status, Cached, Cache, cache_entries, find, drop_entry, forget, back, displaced,
  displace, entry_of, keep,
}
use wireguard_dns_program_sp.Images.{
  Phase, Job, is_empty_phase, is_done, harvest, submit, put_job, job_at,
}
use wireguard_dns_program_sp.Images.Slots.{done_phase}

same_key_sound : (a b : Key) → same_key a b ≡ true → a ≡ b
unfolding same_key
same_key_sound a b h =
    let pids : a.pid ≡ b.pid = ground (arith, h) in
    let births : a.created ≡ b.created = ground (arith, h) in
    λ i. record { pid = pids i; created = births i }

-- `owner` has the process of a handle, and `gives` what the resolver may make of it.
module _ (owner : ℕ → Key) (gives : ℕ → List ℕ → Type 0) where
  -- A path that the resolver gave for a handle of that very process.
  abbrev pub Genuine : Key → List ℕ → Type 0
  Genuine key path = (p : ℕ) × ((owner p ≡ key) × gives p path)

  abbrev pub IsOwned : Job → Type 0
  IsOwned job = (p : ℕ) × ((job.process ≡ some p) × (owner p ≡ job.key))

  -- A slot has a handle while it waits and while it is worked at, and a path once it is done.
  abbrev pub SoundAt : Phase → Job → Type 0
  SoundAt Phase.empty job = job.process ≡ none
  SoundAt Phase.queued job = IsOwned job
  SoundAt Phase.running job = IsOwned job
  SoundAt Phase.done job = (job.process ≡ none) × ((job.path ≡ []) ⊎ Genuine job.key job.path)

  abbrev pub AllSound : List Job → Type 0
  AllSound [] = Unit {0}
  AllSound (job ∷ jobs) = SoundAt job.phase job × AllSound jobs

  abbrev pub AllGenuine : List (Key × Cached) → Type 0
  AllGenuine [] = Unit {0}
  AllGenuine ((k, c) ∷ entries) =
      (c.result.status ≡ Status.known → Genuine k c.result.path) × AllGenuine entries

  pub drop_entry-AllGenuine :
      (key : Key) (entries : List (Key × Cached))
      → AllGenuine entries
      → AllGenuine (drop_entry key entries)
  unfolding drop_entry
  drop_entry-AllGenuine key [] all = tt
  drop_entry-AllGenuine key ((k, c) ∷ entries) all = elim (Bool-cases (same_key k key)) [
    | inl e ↦ rw e (drop_entry-AllGenuine key entries all.1)
    | inr e ↦ rw e (all.0, drop_entry-AllGenuine key entries all.1)
  ]

  displaced-AllGenuine :
      (recent : List Key) (entries : List (Key × Cached))
      → AllGenuine entries
      → AllGenuine (displaced recent entries).entries
  displaced-AllGenuine [] entries all = all
  displaced-AllGenuine (k ∷ ks) entries all = drop_entry-AllGenuine (back k ks) entries all

  displace-AllGenuine : (c : Cache) → AllGenuine c.entries → AllGenuine (displace c).entries
  unfolding displace
  displace-AllGenuine c all = elim (Bool-cases (leb cache_entries (length c.entries))) [
    | inl e ↦ rw e (displaced-AllGenuine c.recent c.entries all)
    | inr e ↦ rw e all
  ]

  -- Only a path that is not empty is known.
  entry_of-Genuine :
      (tick : ℕ) (key : Key) (path : List ℕ)
      → (path ≡ []) ⊎ Genuine key path
      → (entry_of tick path).result.status ≡ Status.known
      → Genuine key (entry_of tick path).result.path
  entry_of-Genuine tick key [] made h = absurd (cc)
  entry_of-Genuine tick key (x ∷ path) (inl h') h = absurd (cc)
  entry_of-Genuine tick key (x ∷ path) (inr genuine) h = genuine

  keep-AllGenuine :
      (tick : ℕ) (key : Key) (path : List ℕ) (c : Cache)
      → (path ≡ []) ⊎ Genuine key path
      → AllGenuine c.entries
      → AllGenuine (keep tick key path c).entries
  unfolding keep forget
  keep-AllGenuine tick key path c made all = (
    entry_of-Genuine tick key path made,
    drop_entry-AllGenuine key (displace c).entries (displace-AllGenuine c all),
  )

  -- What is done moves from the slots to the cache.
  pub harvest-AllSound :
      (ticks : ℕ → ℕ) (i : ℕ) (jobs : List Job) (c : Cache)
      → AllSound jobs
      → AllGenuine c.entries
      → AllSound (harvest ticks i jobs c).0 × AllGenuine (harvest ticks i jobs c).1.entries
  unfolding harvest
  harvest-AllSound ticks i [] c sound all = (tt, all)
  harvest-AllSound ticks i (job ∷ jobs) c sound all = elim (Bool-cases (is_done job.phase)) [
    | inl e ↦
        let ended : job.phase ≡ Phase.done = done_phase job.phase e in
        let (empty, made) = subst (λ (x : Phase). SoundAt x job) ended sound.0 in
        let rest =
          harvest-AllSound ticks (i + 1) jobs (keep (ticks i) job.key job.path c) sound.1
            (keep-AllGenuine (ticks i) job.key job.path c made all) in
        rw e ((empty, rest.0), rest.1)
    | inr e ↦
        let rest = harvest-AllSound ticks (i + 1) jobs c sound.1 all in
        rw e ((sound.0, rest.0), rest.1)
  ]

  pub find-Genuine :
      (key : Key) (entries : List (Key × Cached)) {c : Cached}
      → AllGenuine entries
      → find key entries ≡ some c
      → c.result.status ≡ Status.known
      → Genuine key c.result.path
  unfolding find
  find-Genuine key [] all h known = absurd (cc)
  find-Genuine key ((k, c') ∷ entries) {c} all h known = elim (Bool-cases (same_key k key)) [
    | inl e ↦
        let here : c' ≡ c = some_same (rw e at h) in
        let (p, (mine, given)) = all.0 (ap (λ (x : Cached). x.result.status) here ∙ known) in
        (
          p,
          (mine ∙ same_key_sound k key e, subst (λ (x : Cached). gives p x.result.path) here given),
        )
    | inr e ↦ find-Genuine key entries all.1 (rw e at h) known
  ]

  pub put_job-AllSound :
      (i : ℕ) (job : Job) (jobs : List Job)
      → SoundAt job.phase job
      → AllSound jobs
      → AllSound (put_job i job jobs)
  unfolding put_job
  put_job-AllSound i job [] sound all = tt
  put_job-AllSound zero job (j ∷ jobs) sound all = (sound, all.1)
  put_job-AllSound (suc i) job (j ∷ jobs) sound all =
      (all.0, put_job-AllSound i job jobs sound all.1)

  pub job_at-SoundAt :
      (i : ℕ) (jobs : List Job) {job : Job}
      → AllSound jobs
      → job_at i jobs ≡ some job
      → SoundAt job.phase job
  unfolding job_at
  job_at-SoundAt i [] all h = absurd (cc)
  job_at-SoundAt zero (j ∷ jobs) {job} all h =
      subst (λ (x : Job). SoundAt x.phase x) (some_same h) all.0
  job_at-SoundAt (suc i) (j ∷ jobs) all h = job_at-SoundAt i jobs all.1 h

  pub submit-AllSound :
      (key : Key) (p : ℕ) (now : ℕ) (jobs : List Job) {jobs' : List Job}
      → owner p ≡ key
      → AllSound jobs
      → submit key p now jobs ≡ some jobs'
      → AllSound jobs'
  unfolding submit
  submit-AllSound key p now [] mine all h = absurd (cc)
  submit-AllSound key p now (job ∷ jobs) {jobs'} mine all h =
      elim (Bool-cases (is_empty_phase job.phase)) [
        | inl e ↦
            subst (λ (x : List Job). AllSound x) (some_same (rw e at h)) ((p, (refl, mine)), all.1)
        | inr e ↦
            let (more, (rest, made)) = elim_some (submit key p now jobs) (rw e at h) in
            subst (λ (x : List Job). AllSound x) (some_same made)
              (all.0, submit-AllSound key p now jobs mine all.1 rest)
      ]
