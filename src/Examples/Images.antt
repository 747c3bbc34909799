-- ===== src/Examples/Images.antt =====
-- Instances for src/native/dns-image-resolver.h: a process is asked for, a worker resolves it, and it is asked for
-- again.
use wireguard_dns_program_sp.Base.{ℕ, ◌≡◌, ◌≤◌, refl, false, some, List, [], ◌∷◌, inr}
use wireguard_dns_program_sp.Images.{
  Job, State, Phase, cached, harvest, is_asked, running_count, overdue_count, submit, ask, answer,
  oldest, put_job, job_at, take, finish,
}
use wireguard_dns_program_sp.Images.Lru.{Key, Status, same_key, find, keep}
use wireguard_dns_program_sp.Images.Mirror.{IsMirrored}
use wireguard_dns_program_sp.Images.Slots.{active_count}
use wireguard_dns_program_sp.Images.Sound.{Genuine, AllSound}
use wireguard_dns_program_sp.Images.Invariant.{initial}
use wireguard_dns_program_sp.Images.Reach.{
  Reachable, reach-start, reach-ask, reach-take, reach-finish, Reachable-IsMirrored,
  Reachable-AllSound, answer-Genuine,
}

abbrev key : Key
key = record { pid = 7; created = 1 }

abbrev owner : ℕ → Key
owner p = key

-- The resolver gives the handle's own number as the path.
abbrev Gives : ℕ → List ℕ → Type 0
Gives p path = path ≡ (p ∷ [])

abbrev asked : State
asked = (ask false 4 150 key (some 8) 100 (λ i. 100) initial).1

abbrev taken : State
taken = take 101 asked

abbrev job : Job
job = record {
  key = key;
  phase = Phase.running;
  process = some 8;
  submitted = 100;
  started = 101;
  path = [];
}

abbrev resolved : State
resolved = finish 0 job (8 ∷ []) taken

resolved-Reachable : Reachable owner Gives resolved
unfolding same_key ask cached harvest is_asked running_count overdue_count submit find oldest
    put_job job_at take
resolved-Reachable =
    reach-finish (reach-take (reach-ask reach-start false 4 150 key 8 100 (λ i. 100) refl) 101) 0
      job 8 (8 ∷ []) refl refl refl (inr refl)

Reachable-IsMirrored_example : IsMirrored resolved.cache
Reachable-IsMirrored_example = Reachable-IsMirrored owner Gives resolved-Reachable

Reachable-AllSound_example :
    (active_count key resolved.jobs ≤ 1) × AllSound owner Gives resolved.jobs
Reachable-AllSound_example = Reachable-AllSound owner Gives key resolved-Reachable

answer-Genuine_example : Genuine owner Gives key (8 ∷ [])
unfolding same_key answer cached harvest find finish ask is_asked running_count overdue_count submit
    oldest put_job take keep
answer-Genuine_example =
    answer-Genuine owner Gives false 4 150 key 8 200 (λ i. 200)
      (record { path = 8 ∷ []; status = Status.known }) resolved-Reachable refl (inr refl) refl
