-- ===== src/Images/Reach.antt =====
-- The image resolver of src/native/dns-image-resolver.h under every order of the consumer's and the
-- workers' steps.
use wireguard_dns_program_sp.Base.{ℕ, ◌≡◌, ◌⊎◌, ◌≤◌, ap, ◌∙◌, Bool, some, List, [], inl, inr}
use mathlib.Core.Path.{subst}
use wireguard_dns_program_sp.Images.Lru.{Key, Status, Result}
use wireguard_dns_program_sp.Images.{Phase, Job, State, ask, answer, job_at, take, finish}
use wireguard_dns_program_sp.Images.Mirror.{IsMirrored}
use wireguard_dns_program_sp.Images.Slots.{active_count}
use wireguard_dns_program_sp.Images.Sound.{Genuine, AllSound}
use wireguard_dns_program_sp.Images.Invariant.{
  initial, Good, initial-Good, ask-Good, answer-Good, take-Good, finish-Good,
}

module _ (owner : ℕ → Key) (gives : ℕ → List ℕ → Type 0) where
  -- The queries come with a handle of their process, and a worker lays down what the resolver gave, or nothing.
  pub data Reachable : State → Type 0 where
    reach-start : Reachable initial
    reach-ask :
        {s : State}
        → Reachable s
        → (stopped : Bool) (workers wait : ℕ) (key : Key) (p now : ℕ) (ticks : ℕ → ℕ)
        → owner p ≡ key
        → Reachable (ask stopped workers wait key (some p) now ticks s).1
    reach-answer :
        {s : State}
        → Reachable s
        → (stopped : Bool) (key : Key) (now : ℕ) (ticks : ℕ → ℕ)
        → Reachable (answer stopped key now ticks s).1
    reach-take : {s : State} → Reachable s → (now : ℕ) → Reachable (take now s)
    reach-finish :
        {s : State}
        → Reachable s
        → (i : ℕ) (job : Job) (p : ℕ) (path : List ℕ) → job_at i s.jobs ≡ some job
        → job.phase ≡ Phase.running
        → job.process ≡ some p
        → (path ≡ []) ⊎ gives p path
        → Reachable (finish i job path s)

  pub Reachable-Good : {s : State} → Reachable s → Good owner gives s
  Reachable-Good reach-start = initial-Good owner gives
  Reachable-Good (reach-ask {s} r stopped workers wait key p now ticks mine) =
      (ask-Good owner gives stopped workers wait key p now ticks s (Reachable-Good r) mine).0
  Reachable-Good (reach-answer {s} r stopped key now ticks) =
      (answer-Good owner gives stopped key now ticks s (Reachable-Good r)).0
  Reachable-Good (reach-take {s} r now) = take-Good owner gives now s (Reachable-Good r)
  Reachable-Good (reach-finish {s} r i job p path at phase process made) =
      finish-Good owner gives i job p path s (Reachable-Good r) at phase process made

  -- In every reachable state the list and the map of the cache have the same keys, each once, and at most 2048.
  pub Reachable-IsMirrored : {s : State} → Reachable s → IsMirrored s.cache
  Reachable-IsMirrored r = (Reachable-Good r).mirrored

  -- In every reachable state at most one slot is at work for a process, and a slot holds a handle exactly while it
  -- waits or is worked at: a handle of the very process of its key.
  pub Reachable-AllSound :
      {s : State} (key : Key)
      → Reachable s
      → (active_count key s.jobs ≤ 1) × AllSound owner gives s.jobs
  Reachable-AllSound key r = ((Reachable-Good r).once key, (Reachable-Good r).sound)

  -- In every reachable state, where the handle of a query is one of its process: a path that the query is told is
  -- known, at once or after its wait, is one that the resolver gave for a handle of that very process.
  pub answer-Genuine :
      {s : State} (stopped : Bool) (workers wait : ℕ) (key : Key) (p now : ℕ) (ticks : ℕ → ℕ)
      (r : Result)
      → Reachable s
      → owner p ≡ key
      → ((ask stopped workers wait key (some p) now ticks s).0 ≡ some r)
        ⊎ ((answer stopped key now ticks s).0 ≡ r)
      → r.status ≡ Status.known
      → Genuine owner gives key r.path
  answer-Genuine {s} stopped workers wait key p now ticks r reach mine (inl h) known =
      (ask-Good owner gives stopped workers wait key p now ticks s (Reachable-Good reach) mine).1 r
        h known
  answer-Genuine {s} stopped workers wait key p now ticks r reach mine (inr h) known =
      subst (λ (x : Result). Genuine owner gives key x.path) h
        ((answer-Good owner gives stopped key now ticks s (Reachable-Good reach)).1
          (ap (λ (x : Result). x.status) h ∙ known))
