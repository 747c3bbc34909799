-- ===== src/Drain/Samples.antt =====
-- What a cleared sample proves of its task (drain_tasks and `classify` of drain.h).
use wireguard_dns_program_sp.Base.{
  ℕ, ◌<◌, ◌≡◌, ◌≢◌, ◌⊎◌, inl, inr, refl, sym, ◌∙◌, Bool, true, false, not, ◌&&◌, ◌||◌, List, leb,
  ◌!=◌, if◌then◌else◌, length, bit_and, arith, Bool-cases,
}
use wireguard_dns_program_sp.Drain.{
  DrainRecord, KernelSymbols, TaskReads, Walk, classify_walk, drain_tasks, any_inside, any_contains,
  outermost, flagged, flag_if,
}

-- A task whose stack was walked while it did not run, to a stack bottom, outside the traced functions.
pub record Outside (t : TaskReads) (frames : List ℕ) (cap : ℕ) (symbols : KernelSymbols)
    : Type 0 where
  pub off_cpu_first : t.on_cpu_first ≡ false
  pub off_cpu_second : t.on_cpu_second ≡ false
  pub not_switched : t.switches_first ≡ t.switches_second
  pub walked : length frames < cap
  pub some_frame : length frames ≢ 0
  pub outside : any_inside symbols.traced frames ≡ false
  pub bottom : any_contains symbols.bottoms (outermost 0 frames) ≡ true

-- Why a record is cleared that is not of an exited or scanning task.
record Proof (r : DrainRecord) (frames : List ℕ) (cap : ℕ) (symbols : KernelSymbols) : Type 0 where
  pub steady : flagged r 12 ≡ false
  pub same : r.switches_before ≡ r.switches_after
  pub walked : length frames < cap
  pub some_frame : length frames ≢ 0
  pub outside : any_inside symbols.traced frames ≡ false
  pub bottom : any_contains symbols.bottoms (outermost 0 frames) ≡ true

classify_walk-Proof :
    (r : DrainRecord) (frames : List ℕ) (cap : ℕ) (symbols : KernelSymbols)
    → flagged r 3 ≡ false
    → classify_walk r frames cap symbols ≡ Walk.clear
    → Proof r frames cap symbols
unfolding classify_walk
classify_walk-Proof r frames cap symbols alive e = record {
  steady = ground arith;
  same = ground arith;
  walked = ground arith;
  some_frame = ground arith;
  outside = ground arith;
  bottom = ground arith;
}

-- The flags of a task that is alive and not scanning.
flags_alive :
    (scratch first second walked : Bool)
    → let running = flag_if second 4 (flag_if first 4 0) in
      let flags = if not scratch then 8 else flag_if (not walked) 8 running in
      ((bit_and flags 3 != 0) ≡ false)
      × ((bit_and flags 12 != 0) ≡ false → (scratch ≡ true) × (first ≡ false) × (second ≡ false))
flags_alive false first second walked = (refl, λ e. absurd (cc))
flags_alive true true true true = (refl, λ e. absurd (cc))
flags_alive true true true false = (refl, λ e. absurd (cc))
flags_alive true true false true = (refl, λ e. absurd (cc))
flags_alive true true false false = (refl, λ e. absurd (cc))
flags_alive true false true true = (refl, λ e. absurd (cc))
flags_alive true false true false = (refl, λ e. absurd (cc))
flags_alive true false false true = (refl, λ e. (refl, refl, refl))
flags_alive true false false false = (refl, λ e. absurd (cc))

walked_of : TaskReads → Bool
walked_of t = leb 1 t.stack_size && leb t.stack_size 8192

alive-flags :
    (t : TaskReads)
    → t.exited ≡ false
    → t.current ≡ false
    → (drain_tasks t).flags ≡ (
        if not t.scratch
        then 8
        else flag_if (not (walked_of t)) 8 (flag_if t.on_cpu_second 4 (flag_if t.on_cpu_first 4 0)))
unfolding drain_tasks walked_of
alive-flags t ex cu = rw (ex, cu) (ground arith)

alive-switches :
    (t : TaskReads)
    → t.exited ≡ false
    → t.current ≡ false
    → t.scratch ≡ true
    → ((drain_tasks t).switches_before ≡ t.switches_first)
      × ((drain_tasks t).switches_after ≡ t.switches_second)
unfolding drain_tasks
alive-switches t ex cu scratch = rw (ex, cu, scratch) (refl, refl)

alive-Outside :
    (t : TaskReads) (frames : List ℕ) (cap : ℕ) (symbols : KernelSymbols)
    → t.exited ≡ false
    → t.current ≡ false
    → classify_walk (drain_tasks t) frames cap symbols ≡ Walk.clear
    → Outside t frames cap symbols
alive-Outside t frames cap symbols ex cu e =
    let flags = alive-flags t ex cu in
    let (low, high) = flags_alive t.scratch t.on_cpu_first t.on_cpu_second (walked_of t) in
    let proof = classify_walk-Proof (drain_tasks t) frames cap symbols (rw flags low) e in
    let (scratch, first, second) = high (rw flags at proof.steady) in
    let (before, after) = alive-switches t ex cu scratch in
    record {
      off_cpu_first = first;
      off_cpu_second = second;
      not_switched = sym before ∙ proof.same ∙ after;
      walked = proof.walked;
      some_frame = proof.some_frame;
      outside = proof.outside;
      bottom = proof.bottom;
    }

-- A sample of a task is cleared only if the task had exited or was the scanning one, or if its
-- stack was walked to a bottom while it did not run, below the depth cap and outside the functions
-- that are traced.
pub drain_tasks-classify_walk :
    (t : TaskReads) (frames : List ℕ) (cap : ℕ) (symbols : KernelSymbols)
    → classify_walk (drain_tasks t) frames cap symbols ≡ Walk.clear
    → ((t.exited || t.current) ≡ true) ⊎ Outside t frames cap symbols
drain_tasks-classify_walk t frames cap symbols e = elim (Bool-cases (t.exited || t.current)) [
  | inl over ↦ inl over
  | inr alive ↦ inr (alive-Outside t frames cap symbols (ground arith) (ground arith) e)
]
