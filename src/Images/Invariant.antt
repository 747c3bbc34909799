-- ===== src/Images/Invariant.antt =====
-- What holds of the slots and the cache together, and that each step of src/native/dns-image-resolver.h keeps it.
use wireguard_dns_program_sp.Base.{
  some_same, ℕ, zero, suc, ◌≡◌, ◌⊎◌, ◌≤◌, refl, ap, ◌∙◌, Bool, true, false, ◌&&◌, ◌||◌, Option,
  none, some, List, [], ◌∷◌, ◌==◌, Bool-cases, Option-cases, inl, inr, arith,
}
use mathlib.Core.Path.{subst}
use wireguard_dns_program_sp.Images.Lru.{Key, same_key, Status, Result, Cache}
use wireguard_dns_program_sp.Images.{
  Phase, Job, State, slots, is_empty_phase, cached, harvested, is_asked, running_count,
  overdue_count, submit, submitted_or_not, ask_workers, ask_after, ask, answer_after, answer,
  oldest, job_at, take, finish, pending, unavailable,
}
use wireguard_dns_program_sp.Images.Mirror.{IsMirrored, empty-IsMirrored}
use wireguard_dns_program_sp.Images.Slots.{
  active_count, is_asked-active_count, harvest-active_count, submit-active_count,
  put_job-active_count, same_key-active_count, oldest-queued, queued_phase,
}
use wireguard_dns_program_sp.Images.Sound.{
  Genuine, IsOwned, SoundAt, AllSound, AllGenuine, harvest-AllSound, put_job-AllSound,
  job_at-SoundAt, submit-AllSound,
}
use wireguard_dns_program_sp.Images.Look.{LookGood, cached-LookGood, harvest-IsMirrored}

abbrev pub free_slots : ℕ → List Job
free_slots zero = []
free_slots (suc n) =
    record {
      key = record { pid = 0; created = 0 };
      phase = Phase.empty;
      process = none;
      submitted = 0;
      started = 0;
      path = [];
    }
    ∷ free_slots n

abbrev pub initial : State
initial = record { jobs = free_slots slots; cache = record { recent = []; entries = [] } }

free_slots-active_count : (n : ℕ) (key : Key) → active_count key (free_slots n) ≡ 0
unfolding active_count
free_slots-active_count zero key = refl
free_slots-active_count (suc n) key = omega (arith, free_slots-active_count n key)

module _ (owner : ℕ → Key) (gives : ℕ → List ℕ → Type 0) where
  pub record Good (s : State) : Type 0 where
    pub sound : AllSound owner gives s.jobs
    pub genuine : AllGenuine owner gives s.cache.entries
    pub mirrored : IsMirrored s.cache
    pub once : (key : Key) → active_count key s.jobs ≤ 1

  free_slots-AllSound : (n : ℕ) → AllSound owner gives (free_slots n)
  free_slots-AllSound zero = tt
  free_slots-AllSound (suc n) = (refl, free_slots-AllSound n)

  pub initial-Good : Good initial
  initial-Good = record {
    sound = free_slots-AllSound slots;
    genuine = tt;
    mirrored = empty-IsMirrored;
    once = λ key. omega (arith, free_slots-active_count slots key);
  }

  harvested-Good : (ticks : ℕ → ℕ) (s : State) → Good s → Good (harvested ticks s)
  harvested-Good ticks s g =
      let kept = harvest-AllSound owner gives ticks 0 s.jobs s.cache g.sound g.genuine in
      record {
        sound = kept.0;
        genuine = kept.1;
        mirrored = harvest-IsMirrored ticks 0 s.jobs s.cache g.mirrored;
        once = λ key. omega (arith, harvest-active_count ticks 0 s.jobs s.cache key, g.once key);
      }

  abbrev pub AnswerGood : Key → Option Result × State → Type 0
  AnswerGood key (hit, s) =
      Good s
      × ((r : Result) → hit ≡ some r → r.status ≡ Status.known → Genuine owner gives key r.path)

  pending_unknown :
      (key : Key) {r : Result}
      → some pending ≡ some r
      → r.status ≡ Status.known
      → Genuine owner gives key r.path
  pending_unknown key h known =
      let same : pending ≡ _ = some_same h in
      let clash : Status.pending ≡ Status.known = ap (λ (x : Result). x.status) same ∙ known in
      absurd (cc)

  submitted-Good :
      (key : Key) (s : State) (p now : ℕ) (taken : Option (List Job))
      → Good s
      → owner p ≡ key
      → is_asked key s.jobs ≡ false
      → submit key p now s.jobs ≡ taken
      → AnswerGood key (submitted_or_not s taken)
  submitted-Good key s p now none g mine fresh e = (g, λ r h known. pending_unknown key h known)
  submitted-Good key s p now (some jobs) g mine fresh e = (
    record {
      sound = submit-AllSound owner gives key p now s.jobs mine g.sound e;
      genuine = g.genuine;
      mirrored = g.mirrored;
      once = λ k. elim (Bool-cases (same_key key k)) [
        | inl same ↦
            let none_yet = is_asked-active_count key s.jobs fresh in
            let other = same_key-active_count key k s.jobs same in
            let more = submit-active_count key p now s.jobs k e in
            ground (arith, none_yet, other, more, same)
        | inr other ↦
            let more = submit-active_count key p now s.jobs k e in
            ground (arith, more, other, g.once k)
      ];
    },
    λ r h known. absurd (cc),
  )

  asked-Good :
      (workers wait : ℕ) (key : Key) (p now : ℕ) (s : State)
      → Good s
      → owner p ≡ key
      → AnswerGood key (ask_workers workers wait key p now s)
  asked-Good workers wait key p now s g mine = elim (Bool-cases (is_asked key s.jobs)) [
    | inl e ↦ rw e (g, λ r h known. absurd (cc))
    | inr e ↦
        elim (Bool-cases
          (running_count s.jobs == workers && overdue_count now wait s.jobs == workers)) [
            | inl full ↦ rw (e, full) (g, λ r h known. pending_unknown key h known)
            | inr free ↦
                rw (e, free) (submitted-Good key s p now (submit key p now s.jobs) g mine e refl)
          ]
  ]

  ask_after-Good :
      (workers wait : ℕ) (key : Key) (p now : ℕ) (jobs : List Job) (look : Option Result × Cache)
      → AllSound owner gives jobs
      → ((k : Key) → active_count k jobs ≤ 1)
      → LookGood owner gives key look
      → owner p ≡ key
      → AnswerGood key (ask_after workers wait key p now jobs look)
  ask_after-Good workers wait key p now jobs (some hit, c) sound once ((all, w), known) mine =
      (record { sound = sound; genuine = all; mirrored = w; once = once }, known)
  ask_after-Good workers wait key p now jobs (none, c) sound once ((all, w), known) mine =
      asked-Good workers wait key p now (record { jobs = jobs; cache = c })
        (record { sound = sound; genuine = all; mirrored = w; once = once }) mine

  pub ask-Good :
      (stopped : Bool) (workers wait : ℕ) (key : Key) (p now : ℕ) (ticks : ℕ → ℕ) (s : State)
      → Good s
      → owner p ≡ key
      → AnswerGood key (ask stopped workers wait key (some p) now ticks s)
  unfolding ask
  ask-Good stopped workers wait key p now ticks s g mine =
      elim (Bool-cases (workers == 0 || stopped)) [
        | inl e ↦ rw e (
          g,
          λ r h known.
              let same : unavailable ≡ r = cc in
              let clash : Status.unavailable ≡ Status.known =
                ap (λ (x : Result). x.status) same ∙ known in
              absurd (cc),
        )
        | inr e ↦
            let kept = harvested-Good ticks s g in
            let h = harvested ticks s in
            rw e (
              ask_after-Good workers wait key p now h.jobs (cached key now h.cache) kept.sound
                kept.once (cached-LookGood owner gives key now h.cache kept.genuine kept.mirrored)
                mine)
      ]

  abbrev pub ReplyGood : Key → Result × State → Type 0
  ReplyGood key (r, s) = Good s × (r.status ≡ Status.known → Genuine owner gives key r.path)

  answer_after-Good :
      (key : Key) (jobs : List Job) (look : Option Result × Cache)
      → AllSound owner gives jobs
      → ((k : Key) → active_count k jobs ≤ 1)
      → LookGood owner gives key look
      → ReplyGood key (answer_after jobs look)
  answer_after-Good key jobs (some hit, c) sound once ((all, w), known) =
      (record { sound = sound; genuine = all; mirrored = w; once = once }, λ k. known hit refl k)
  answer_after-Good key jobs (none, c) sound once ((all, w), known) =
      (record { sound = sound; genuine = all; mirrored = w; once = once }, λ k. absurd (cc))

  pub answer-Good :
      (stopped : Bool) (key : Key) (now : ℕ) (ticks : ℕ → ℕ) (s : State)
      → Good s
      → ReplyGood key (answer stopped key now ticks s)
  unfolding answer
  answer-Good true key now ticks s g = (g, λ k. absurd (cc))
  answer-Good false key now ticks s g =
      let kept = harvested-Good ticks s g in
      let h = harvested ticks s in
      answer_after-Good key h.jobs (cached key now h.cache) kept.sound kept.once
        (cached-LookGood owner gives key now h.cache kept.genuine kept.mirrored)

  pub take-Good : (now : ℕ) (s : State) → Good s → Good (take now s)
  unfolding take
  take-Good now s g = elim (Option-cases (oldest 0 s.jobs none)) [
    | inl e ↦ rw (take, e) g
    | inr ((i, job), e) ↦
        let (at, queued) = oldest-queued s.jobs i e in
        let phase : job.phase ≡ Phase.queued = queued_phase job.phase queued in
        let taken : Job = record job { phase = Phase.running; started = now } in
        let owned : IsOwned owner gives job =
          subst (λ (x : Phase). SoundAt owner gives x job) phase
            (job_at-SoundAt owner gives i s.jobs g.sound at) in
        rw (take, e)
          (record {
            sound = put_job-AllSound owner gives i taken s.jobs owned g.sound;
            genuine = g.genuine;
            mirrored = g.mirrored;
            once = λ k. omega (
              arith,
              g.once k,
              put_job-active_count i taken s.jobs k at (ap is_empty_phase phase) refl,
            );
          })
  ]

  pub finish-Good :
      (i : ℕ) (job : Job) (p : ℕ) (path : List ℕ) (s : State)
      → Good s
      → job_at i s.jobs ≡ some job
      → job.phase ≡ Phase.running
      → job.process ≡ some p
      → (path ≡ []) ⊎ gives p path
      → Good (finish i job path s)
  unfolding finish
  finish-Good i job p path s g at phase process made =
      let ended : Job = record job { process = none; path = path; phase = Phase.done } in
      let (q, (mine, owned)) =
        subst (λ (x : Phase). SoundAt owner gives x job) phase
          (job_at-SoundAt owner gives i s.jobs g.sound at) in
      let same : q ≡ p = cc in
      let given : (path ≡ []) ⊎ Genuine owner gives job.key path = elim made [
        | inl e ↦ inl e
        | inr given ↦ inr (p, (subst (λ (x : ℕ). owner x ≡ job.key) same owned, given))
      ] in
      record {
        sound = put_job-AllSound owner gives i ended s.jobs (refl, given) g.sound;
        genuine = g.genuine;
        mirrored = g.mirrored;
        once = λ k. omega (
          arith,
          g.once k,
          put_job-active_count i ended s.jobs k at (ap is_empty_phase phase) refl,
        );
      }
