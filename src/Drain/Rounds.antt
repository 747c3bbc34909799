-- ===== src/Drain/Rounds.antt =====
-- What the rounds of `drain` of drain.h prove of the threads that they take off the pending ones.
use wireguard_dns_program_sp.Base.{
  ℕ, zero, suc, ◌+◌, ◌≤◌, ◌<◌, ◌≡◌, ◌≢◌, inl, inr, refl, ◌∙◌, sym, not, Option, if◌then◌else◌, Bool,
  true, false, ◌&&◌, none, some, List, [], ◌∷◌, leb, length, arith, Bool-cases, Option-cases,
}
use wireguard_dns_program_sp.Drain.{
  Sample, TaskId, Scans, is_of, remains, keep_pending, rescan, drain_round, drain_loop,
}

abbrev pub All {ℓ} : {A : Type ℓ} → (A → Type 0) → List A → Type 0
All P [] = Unit {0}
All P (x ∷ xs) = P x × All P xs

-- The last sample of a thread in a scan.
unfoldable pub latest : TaskId → List Sample → Option Sample
latest id [] = none
latest id (s ∷ samples) =
    let here = if is_of id s then some s else none in
    elim (latest id samples) [ none ↦ here | some later ↦ some later ]

-- The scan found no sample of the thread, or cleared the last one.
abbrev pub IsCleared : (Sample → Bool) → Option Sample → Type 0
IsCleared clears none = Unit {0}
IsCleared clears (some s) = clears s ≡ true

-- A thread that a later scan cleared or did not find.
pub data Proved (clears : Sample → Bool) (e : Scans) (id : TaskId) : Type 0 where
  in_full :
      (round : ℕ) {samples : List Sample}
      → e.full round ≡ some samples
      → IsCleared clears (latest id samples)
      → Proved clears e id
  in_rescan :
      (round : ℕ) {samples : List Sample}
      → e.one round id.tid ≡ some samples
      → IsCleared clears (latest id samples)
      → Proved clears e id

-- What the scan says of a thread, from its last sample.
abbrev after_latest : (Sample → Bool) → Bool → Option Sample → Bool
after_latest clears so_far none = so_far
after_latest clears so_far (some s) = not (clears s)

remains-latest :
    (clears : Sample → Bool) (id : TaskId) (samples : List Sample) (so_far : Bool)
    → remains clears id samples so_far ≡ after_latest clears so_far (latest id samples)
unfolding remains latest
remains-latest clears id [] so_far = refl
remains-latest clears id (s ∷ samples) so_far =
    remains-latest clears id samples (if is_of id s then not (clears s) else so_far)
    ∙ elim (Option-cases (latest id samples)) [
      | inl last ↦
          rw (latest, last)
            (elim (Bool-cases (is_of id s)) [ inl e ↦ rw e refl | inr e ↦ rw e refl ])
      | inr (later, more) ↦ rw (latest, more) refl
    ]

after_latest-IsCleared :
    (clears : Sample → Bool) (last : Option Sample)
    → after_latest clears false last ≡ false
    → IsCleared clears last
after_latest-IsCleared clears none h = tt
after_latest-IsCleared clears (some s) h = ground arith

remains-IsCleared :
    (clears : Sample → Bool) (id : TaskId) (samples : List Sample)
    → remains clears id samples false ≡ false
    → IsCleared clears (latest id samples)
remains-IsCleared clears id samples gone =
    after_latest-IsCleared clears (latest id samples)
      (sym (remains-latest clears id samples false) ∙ gone)

keep_pending-Proved :
    (clears : Sample → Bool) (e : Scans) (round : ℕ) (samples : List Sample) (pending : List TaskId)
    → e.full round ≡ some samples
    → All (Proved clears e) (keep_pending clears samples pending)
    → All (Proved clears e) pending
unfolding keep_pending
keep_pending-Proved clears e round samples [] found all = tt
keep_pending-Proved clears e round samples (id ∷ pending) found all =
    elim (Bool-cases (remains clears id samples false)) [
      | inl stays ↦
          let (this, rest) = rw stays at all in
          (this, keep_pending-Proved clears e round samples pending found rest)
      | inr gone ↦ (
        in_full round found (remains-IsCleared clears id samples gone),
        keep_pending-Proved clears e round samples pending found (rw gone at all),
      )
    ]

rescan-Proved :
    (clears : Sample → Bool) (e : Scans) (round : ℕ) (pending : List TaskId) {rest : List TaskId}
    → rescan clears e round pending ≡ some rest
    → All (Proved clears e) rest
    → All (Proved clears e) pending
unfolding rescan
rescan-Proved clears e round [] found all = tt
rescan-Proved clears e round (id ∷ pending) {rest} found all =
    elim (Option-cases (e.one round id.tid)) [
      | inl over ↦ let no = rw (rescan, over) at found in absurd (cc)
      | inr (samples, scan) ↦ elim (Option-cases (rescan clears e round pending)) [
        | inl over ↦ let no = rw (rescan, scan, over) at found in absurd (cc)
        | inr (later, more) ↦
            let now = rw (rescan, scan, more) at found in
            elim (Bool-cases (remains clears id samples false)) [
              | inl stays ↦
                  let same : id ∷ later ≡ rest = (let it = rw stays at now in cc) in
                  let (this, others) = rw (sym same) at all in
                  (this, rescan-Proved clears e round pending more others)
              | inr gone ↦
                  let same : later ≡ rest = (let it = rw gone at now in cc) in
                  (
                    in_rescan round scan (remains-IsCleared clears id samples gone),
                    rescan-Proved clears e round pending more (rw (sym same) at all),
                  )
            ]
      ]
    ]

pub loop_ends :
    (clears : Sample → Bool) (e : Scans) (fuel round limit : ℕ) (pending : List TaskId)
    → e.late limit ≡ true
    → round ≤ limit
    → limit < round + fuel
    → drain_loop clears e fuel round pending ≢ none
unfolding drain_loop drain_round
loop_ends clears e fuel round limit [] late before enough bad = cc
loop_ends clears e zero round limit (id ∷ pending) late before enough bad = omega arith
loop_ends clears e (suc fuel) round limit (id ∷ pending) late before enough bad =
    elim (Option-cases (drain_round clears e round (id ∷ pending))) [
      | inl over ↦ let no = rw (drain_loop, over) at bad in cc
      | inr (rest, more) ↦
          let on = rw (drain_loop, more) at bad in
          let early : e.late round ≡ false = ground (arith, more) in
          let apart : round ≢ limit =
            λ same. (let now_late : e.late round ≡ true = rw same late in cc) in
          let below : round < limit = omega arith in
          loop_ends clears e fuel (round + 1) limit rest late (omega arith) (omega arith) on
    ]

pub drain_round-Proved :
    (clears : Sample → Bool) (e : Scans) (round : ℕ) (pending : List TaskId) {rest : List TaskId}
    → drain_round clears e round pending ≡ some rest
    → All (Proved clears e) rest
    → All (Proved clears e) pending
unfolding drain_round
drain_round-Proved clears e round pending {rest} more all =
    let early : e.late round ≡ false = ground (arith, more) in
    elim (Bool-cases (e.filtered && leb (length pending) 64)) [
      | inl few ↦ rescan-Proved clears e round pending (rw (drain_round, early, few) at more) all
      | inr many ↦ elim (Option-cases (e.full round)) [
        | inl over ↦ let no = rw (drain_round, early, many, over) at more in absurd (cc)
        | inr (samples, scan) ↦
            let kept = rw (drain_round, early, many, scan) at more in
            let same : keep_pending clears samples pending ≡ rest = cc in
            keep_pending-Proved clears e round samples pending scan (rw same all)
      ]
    ]
