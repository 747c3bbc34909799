-- ===== src/Drain.antt =====
-- src/linux/native/drain.h and drain_tasks of src/linux/bpf/resolver_guard.bpf.c: the proof that no
-- task is still inside a call that began before the completion programs were attached.
pub mod Samples
pub mod Rounds
pub mod Settled
use wireguard_dns_program_sp.Base.{
  ℕ, zero, suc, ◌+◌, ◌%◌, ◌^◌, Bool, true, false, not, ◌&&◌, ◌||◌, Option, none, some, List, [],
  ◌∷◌, ltb, leb, ◌==◌, ◌!=◌, if◌then◌else◌, length, bit_and, bit_or,
}

pub record Range : Type 0 where
  pub start : ℕ
  pub end : ℕ

unfoldable pub contains : Range → ℕ → Bool
contains r address = leb r.start address && ltb address r.end

unfoldable pub any_contains : List Range → ℕ → Bool
unfolding contains
any_contains [] address = false
any_contains (r ∷ ranges) address = contains r address || any_contains ranges address

unfoldable pub any_inside : List Range → List ℕ → Bool
any_inside ranges [] = false
any_inside ranges (address ∷ frames) = any_contains ranges address || any_inside ranges frames

pub record KernelSymbols : Type 0 where
  pub traced : List Range
  pub bottoms : List Range

pub record DrainRecord : Type 0 where
  pub tid : ℕ
  pub flags : ℕ
  pub start : ℕ
  pub switches_before : ℕ
  pub switches_after : ℕ
  pub bytes : ℕ

-- `enum class Walk`.
pub data Walk : Type 0 where
  clear unknown inside : Walk

-- `frames.back()`; of no frames it is not asked.
unfoldable pub outermost : ℕ → List ℕ → ℕ
outermost last [] = last
outermost last (address ∷ frames) = outermost address frames

-- `record.flags & mask`.
abbrev pub flagged : DrainRecord → ℕ → Bool
flagged r mask = bit_and r.flags mask != 0

unfoldable pub classify_walk : DrainRecord → List ℕ → ℕ → KernelSymbols → Walk
classify_walk r frames cap symbols =
    if flagged r 3
    then Walk.clear
    else if flagged r 12
        || r.switches_before != r.switches_after
        || length frames == 0
        || leb cap (length frames)
    then Walk.unknown
    else if any_inside symbols.traced frames
    then Walk.inside
    else if any_contains symbols.bottoms (outermost 0 frames)
    then Walk.clear
    else Walk.unknown

pub record Sample : Type 0 where
  pub record_of : DrainRecord
  pub frames : List ℕ

abbrev pub is_clear : Walk → Bool
is_clear Walk.clear = true
is_clear _ = false

-- What `drain_tasks` reads of a task, in its order; a negative size of the walk is 0.
pub record TaskReads : Type 0 where
  pub pid : ℕ
  pub start_time : ℕ
  pub exited : Bool
  pub current : Bool
  pub scratch : Bool
  pub switches_first : ℕ
  pub on_cpu_first : Bool
  pub stack_size : ℕ
  pub on_cpu_second : Bool
  pub switches_second : ℕ

abbrev pub flag_if : Bool → ℕ → ℕ → ℕ
flag_if b mask flags = if b then bit_or flags mask else flags

-- The record that `drain_tasks` writes. A path_scratch is 8192 bytes.
unfoldable pub drain_tasks : TaskReads → DrainRecord
drain_tasks t =
    let early = flag_if t.current 2 (flag_if t.exited 1 0) in
    let running = flag_if t.on_cpu_second 4 (flag_if t.on_cpu_first 4 early) in
    let walked = leb 1 t.stack_size && leb t.stack_size 8192 in
    let short : DrainRecord = record {
      tid = t.pid;
      flags = flag_if (not t.scratch) 8 early;
      start = t.start_time;
      switches_before = 0;
      switches_after = 0;
      bytes = 0;
    } in
    let full : DrainRecord = record {
      tid = t.pid;
      flags = flag_if (not walked) 8 running;
      start = t.start_time;
      switches_before = t.switches_first;
      switches_after = t.switches_second;
      bytes = if walked then t.stack_size else 0;
    } in
    if early != 0 || not t.scratch then short else full

-- A thread by its id and start time.
pub record TaskId : Type 0 where
  pub tid : ℕ
  pub start : ℕ

abbrev pub is_of : TaskId → Sample → Bool
is_of id s = s.record_of.tid == id.tid && s.record_of.start == id.start

-- What a scan leaves of a pending thread: the last sample of it decides; none means that it exited.
unfoldable pub remains : (Sample → Bool) → TaskId → List Sample → Bool → Bool
remains clears id [] so_far = so_far
remains clears id (s ∷ samples) so_far =
    remains clears id samples (if is_of id s then not (clears s) else so_far)

-- Pairs of a thread and its start time in their order.
abbrev pub id_before : TaskId → TaskId → Bool
id_before a b = ltb a.tid b.tid || a.tid == b.tid && ltb a.start b.start

abbrev pub same_id : TaskId → TaskId → Bool
same_id a b = a.tid == b.tid && a.start == b.start

unfoldable pub insert_id : TaskId → List TaskId → List TaskId
insert_id a [] = a ∷ []
insert_id a (b ∷ pending) =
    let rest = insert_id a pending in
    if id_before a b then a ∷ b ∷ pending else if same_id a b then b ∷ pending else b ∷ rest

unfoldable pub first_pending : (Sample → Bool) → List Sample → List TaskId
unfolding insert_id
first_pending clears [] = []
first_pending clears (s ∷ samples) =
    let rest = first_pending clears samples in
    if clears s
    then rest
    else insert_id (record { tid = s.record_of.tid; start = s.record_of.start }) rest

unfoldable pub keep_pending : (Sample → Bool) → List Sample → List TaskId → List TaskId
keep_pending clears samples [] = []
keep_pending clears samples (id ∷ pending) =
    let rest = keep_pending clears samples pending in
    if remains clears id samples false then id ∷ rest else rest

-- The scans of one attempt: each gives none where the deadline passes first. `late` is the test at
-- the start of a round, `filtered` whether the thread filter works.
pub record Scans : Type 0 where
  pub first : Option (List Sample)
  pub full : ℕ → Option (List Sample)
  pub one : ℕ → ℕ → Option (List Sample)
  pub late : ℕ → Bool
  pub filtered : Bool

abbrev add_pending : Bool → TaskId → Option (List TaskId) → Option (List TaskId)
add_pending keep id none = none
add_pending keep id (some rest) = some (if keep then id ∷ rest else rest)

-- The rescans of the single threads in a round.
unfoldable pub rescan : (Sample → Bool) → Scans → ℕ → List TaskId → Option (List TaskId)
rescan clears e round [] = some []
rescan clears e round (id ∷ pending) = elim (e.one round id.tid) [
  | none ↦ none
  | some samples ↦ add_pending (remains clears id samples false) id (rescan clears e round pending)
]

abbrev pub keep_after : (Sample → Bool) → List TaskId → Option (List Sample) → Option (List TaskId)
keep_after clears pending none = none
keep_after clears pending (some samples) = some (keep_pending clears samples pending)

unfoldable pub drain_round : (Sample → Bool) → Scans → ℕ → List TaskId → Option (List TaskId)
drain_round clears e round pending =
    if e.late round
    then none
    else if e.filtered && leb (length pending) 64
    then rescan clears e round pending
    else keep_after clears pending (e.full round)

-- `enum class Drain` without Unproven, which is returned before the scans.
pub data Drain : Type 0 where
  settled deadline : Drain

-- The loop; none where the fuel runs out.
unfoldable pub drain_loop : (Sample → Bool) → Scans → ℕ → ℕ → List TaskId → Option Drain
drain_loop clears e fuel round [] = some Drain.settled
drain_loop clears e zero round (id ∷ pending) = none
drain_loop clears e (suc fuel) round (id ∷ pending) =
    elim (drain_round clears e round (id ∷ pending)) [
      | none ↦ some Drain.deadline
      | some rest ↦ drain_loop clears e fuel (round + 1) rest
    ]

abbrev drain_from : (Sample → Bool) → Scans → ℕ → Option (List Sample) → Option Drain
drain_from clears e fuel none = some Drain.deadline
drain_from clears e fuel (some samples) = drain_loop clears e fuel 0 (first_pending clears samples)

unfoldable pub drain : (Sample → Bool) → Scans → ℕ → Option Drain
drain clears e fuel = drain_from clears e fuel e.first
