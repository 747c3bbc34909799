-- ===== src/Examples/Drains.antt =====
-- Instances for src/linux/native/drain.h: two threads, of which one is walked only in the next scan.
use wireguard_dns_program_sp.Base.{
  ℕ, ◌≡◌, ◌≢◌, ◌⊎◌, refl, Bool, true, false, none, some, List, [], ◌∷◌, leb, ◌||◌, arith,
}
use wireguard_dns_program_sp.Drain.{
  KernelSymbols, Sample, TaskReads, Scans, classify_walk, drain_tasks, is_clear, contains,
  any_contains, any_inside, outermost, drain, drain_loop, drain_round, rescan, keep_pending,
  first_pending, insert_id, remains,
}
use wireguard_dns_program_sp.Drain.Samples.{Outside, drain_tasks-classify_walk}
use wireguard_dns_program_sp.Drain.Rounds.{All, Proved}
use wireguard_dns_program_sp.Drain.Settled.{id_of, drain_settled, drain_ends}

abbrev symbols : KernelSymbols
symbols = record {
  traced = record { start = 100; end = 200 } ∷ record { start = 300; end = 400 } ∷ [];
  bottoms = record { start = 900; end = 1000 } ∷ [];
}

abbrev a_task : ℕ → Bool → TaskReads
a_task tid running = record {
  pid = tid;
  start_time = 7;
  exited = false;
  current = false;
  scratch = true;
  switches_first = 3;
  on_cpu_first = running;
  stack_size = 16;
  on_cpu_second = running;
  switches_second = 3;
}

abbrev frames : List ℕ
frames = 500 ∷ 950 ∷ []

abbrev sample : ℕ → Bool → Sample
sample tid running = record { record_of = drain_tasks (a_task tid running); frames = frames }

abbrev clears : Sample → Bool
clears s = is_clear (classify_walk s.record_of s.frames 127 symbols)

drain_tasks-classify_walk_example :
    ((false || false) ≡ true) ⊎ Outside (a_task 5 false) frames 127 symbols
unfolding classify_walk drain_tasks any_inside any_contains contains outermost
drain_tasks-classify_walk_example =
    drain_tasks-classify_walk (a_task 5 false) frames 127 symbols refl

abbrev first_scan : List Sample
first_scan = sample 5 false ∷ sample 6 true ∷ []

abbrev scans : Scans
scans = record {
  first = some first_scan;
  full = λ round. some (sample 6 false ∷ []);
  one = λ round tid. some (sample 6 false ∷ []);
  late = λ round. leb 300 round;
  filtered = true;
}

drain_settled_example : All (λ s. (clears s ≡ true) ⊎ Proved clears scans (id_of s)) first_scan
unfolding drain drain_loop drain_round rescan keep_pending first_pending insert_id remains
    classify_walk drain_tasks any_inside any_contains contains outermost
drain_settled_example = drain_settled clears scans 301 first_scan refl refl

drain_ends_example : drain clears scans 301 ≢ none
drain_ends_example = drain_ends clears scans 301 300 refl (omega arith)
