-- ===== src/Drain/Settled.antt =====
-- What `drain` of drain.h has proved when it settles the guard, and that it ends.
use wireguard_dns_program_sp.Base.{
  ℕ, zero, suc, ◌+◌, ◌<◌, ◌≡◌, ◌≢◌, ◌⊎◌, inl, inr, Bool, true, none, some, List, [], ◌∷◌, arith,
  Bool-cases, Option-cases,
}
use wireguard_dns_program_sp.Drain.{
  Sample, TaskId, Scans, Drain, first_pending, insert_id, id_before, same_id, rescan, drain_round,
  drain_loop, drain,
}
use wireguard_dns_program_sp.Drain.Rounds.{All, Proved, drain_round-Proved, loop_ends}

drain_loop-Proved :
    (clears : Sample → Bool) (e : Scans) (fuel round : ℕ) (pending : List TaskId)
    → drain_loop clears e fuel round pending ≡ some Drain.settled
    → All (Proved clears e) pending
unfolding drain_loop
drain_loop-Proved clears e fuel round [] over = tt
drain_loop-Proved clears e zero round (id ∷ pending) over = absurd (cc)
drain_loop-Proved clears e (suc fuel) round (id ∷ pending) over =
    elim (Option-cases (drain_round clears e round (id ∷ pending))) [
      | inl stop ↦ let no = rw (drain_loop, stop) at over in absurd (cc)
      | inr (rest, more) ↦
          drain_round-Proved clears e round (id ∷ pending) more
            (drain_loop-Proved clears e fuel (round + 1) rest (rw (drain_loop, more) at over))
    ]

-- The thread of a sample.
abbrev pub id_of : Sample → TaskId
id_of s = record { tid = s.record_of.tid; start = s.record_of.start }

same_id-equal : (a b : TaskId) → same_id a b ≡ true → a ≡ b
same_id-equal a b h =
    let tids : a.tid ≡ b.tid = ground arith in let starts : a.start ≡ b.start = ground arith in cc

-- What holds for the elements with one put in holds for that one and the others.
All-insert_id :
    (P : TaskId → Type 0) (a : TaskId) (pending : List TaskId)
    → All P (insert_id a pending)
    → P a × All P pending
unfolding insert_id
All-insert_id P a [] all = all
All-insert_id P a (b ∷ pending) all = elim (Bool-cases (id_before a b)) [
  | inl first ↦ rw first at all
  | inr later ↦ elim (Bool-cases (same_id a b)) [
    | inl same ↦ let both = rw (later, same) at all in (rw (same_id-equal a b same) both.0, both)
    | inr other ↦
        let (this, more) = rw (later, other) at all in
        let (new, rest) = All-insert_id P a pending more in (new, (this, rest))
  ]
]

first_pending-Proved :
    (clears : Sample → Bool) (e : Scans) (samples : List Sample)
    → All (Proved clears e) (first_pending clears samples)
    → All (λ s. (clears s ≡ true) ⊎ Proved clears e (id_of s)) samples
unfolding first_pending
first_pending-Proved clears e [] all = tt
first_pending-Proved clears e (s ∷ samples) all = elim (Bool-cases (clears s)) [
  | inl now ↦ (inl now, first_pending-Proved clears e samples (rw now at all))
  | inr later ↦
      let (this, rest) =
        All-insert_id (Proved clears e) (id_of s) (first_pending clears samples)
          (rw later at all) in
      (inr this, first_pending-Proved clears e samples rest)
]

-- The guard is settled only with a proof for every thread of the first scan: its first sample was
-- cleared, or a later scan of all threads or of this one has cleared the last sample of it, or holds
-- none. Condition: the first scan was read whole.
pub drain_settled :
    (clears : Sample → Bool) (e : Scans) (fuel : ℕ) (samples : List Sample)
    → e.first ≡ some samples
    → drain clears e fuel ≡ some Drain.settled
    → All (λ s. (clears s ≡ true) ⊎ Proved clears e (id_of s)) samples
unfolding drain drain_loop drain_round rescan
drain_settled clears e fuel samples first over =
    first_pending-Proved clears e samples
      (drain_loop-Proved clears e fuel 0 (first_pending clears samples) (rw first at over))

-- The loop ends: with more rounds of fuel than the round at which the deadline has passed, it
-- gives a result.
pub drain_ends :
    (clears : Sample → Bool) (e : Scans) (fuel limit : ℕ)
    → e.late limit ≡ true
    → limit < fuel
    → drain clears e fuel ≢ none
unfolding drain drain_loop drain_round rescan
drain_ends clears e fuel limit late enough none_e = elim (Option-cases e.first) [
  | inl over ↦ let no = rw over at none_e in cc
  | inr (samples, first) ↦
      loop_ends clears e fuel 0 limit (first_pending clears samples) late (omega arith)
        (omega arith) (rw first at none_e)
]
