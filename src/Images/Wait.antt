-- ===== src/Images/Wait.antt =====
-- The wait of `identifyPinned` in src/native/dns-image-resolver.h: how long a query may hold up the consumer.
use wireguard_dns_program_sp.Base.{
  ℕ, ◌+◌, ◌-◌, ◌*◌, ◌/◌, ◌≤◌, min, ◌&&◌, ◌==◌, if◌then◌else◌, ltb, leb, Bool-cases, inl, inr, arith,
}

-- `windowStarted_` and `waited_`, in nanoseconds of the steady clock.
pub record Window : Type 0 where
  pub started : ℕ
  pub waited : ℕ

abbrev pub millisecond : ℕ
millisecond = 1000000

abbrev pub second : ℕ
second = 1000000000

-- The window that a wait falls in.
abbrev pub renewed : ℕ → Window → Window
renewed now w = if leb second (now - w.started) then record { started = now; waited = 0 } else w

-- In milliseconds: the wait of this query is up at `wait`, and so is that of all queries of the window.
unfoldable pub allowance : ℕ → ℕ → ℕ → ℕ
allowance wait elapsed waited =
    let available = wait * millisecond - waited in
    if ltb elapsed wait && ltb 0 available
    then min (wait - elapsed) (available / millisecond)
    else 0

-- What the wait that began and ended at these readings adds.
unfoldable pub count_wait : ℕ → ℕ → ℕ → ℕ → Window → Window
unfolding allowance
count_wait wait elapsed before after w =
    let window = renewed before w in
    if allowance wait elapsed window.waited == 0
    then window
    else record window { waited = window.waited + (after - before) }

allowance_bound :
    (wait elapsed waited : ℕ)
    → (allowance wait elapsed waited ≤ wait - elapsed)
      × (allowance wait elapsed waited * millisecond ≤ wait * millisecond - waited)
unfolding allowance
allowance_bound wait elapsed waited =
    elim (Bool-cases (ltb elapsed wait && ltb 0 (wait * millisecond - waited))) [
      | inl e ↦ rw e (omega arith, omega arith)
      | inr e ↦ rw e (omega arith, omega arith)
    ]

renewed_bound : (now bound : ℕ) (w : Window) → w.waited ≤ bound → (renewed now w).waited ≤ bound
renewed_bound now bound w h = elim (Bool-cases (leb second (now - w.started))) [
  | inl e ↦ rw e (omega arith)
  | inr e ↦ rw e h
]

-- Where each wait keeps its allowance up to a slack: a query waits no longer than what is left of its own time, and
-- all queries of a window of a second together no longer than one may, and one slack.
pub count_wait_bound :
    (wait elapsed before after slack : ℕ) (w : Window)
    → w.waited ≤ wait * millisecond + slack
    → after - before ≤ allowance wait elapsed (renewed before w).waited * millisecond + slack
    → ((count_wait wait elapsed before after w).waited ≤ wait * millisecond + slack)
      × (allowance wait elapsed (renewed before w).waited ≤ wait - elapsed)
unfolding count_wait
count_wait_bound wait elapsed before after slack w h kept =
    let waited = (renewed before w).waited in
    let (own, shared) = allowance_bound wait elapsed waited in
    let start = renewed_bound before (wait * millisecond + slack) w h in
    (
      elim (Bool-cases (allowance wait elapsed waited == 0)) [
        | inl e ↦ rw e start
        | inr e ↦ rw e (ground (arith, shared, kept, e))
      ],
      own,
    )
