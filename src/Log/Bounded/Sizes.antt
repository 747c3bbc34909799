-- ===== src/Log/Bounded/Sizes.antt =====
-- The size of the log file of bounded-log.h.
use wireguard_dns_program_sp.Base.{
  ℕ, ◌≡◌, ◌≤◌, ◌+◌, ◌-◌, min, max, refl, ap, Bool, true, false, Option, none, List, [], ◌∷◌, ltb,
  length, take, zero, suc, Bool-cases, inl, inr, arith, length-append,
}
use wireguard_dns_program_sp.Log.Bounded.{
  Files, BoundedLog, Calls, content, rotate, open_log, append, append_if, reopen_if, write_open,
  write,
}

-- The size that is kept of an open file is its size.
abbrev pub IsTracked : BoundedLog → Type 0
IsTracked s = s.is_open ≡ true → s.size ≡ length (content (s.files.current))

length-take : (n : ℕ) (xs : List ℕ) → length (take n xs) ≤ n
length-take zero xs = omega arith
length-take (suc n) [] = omega arith
length-take (suc n) (x ∷ xs) = omega (arith, length-take n xs)

rotate-current : (c : Calls) (f : Files) → (rotate c f).0 ≡ true → (rotate c f).1.current ≡ none
unfolding rotate
rotate-current c f h = elim (Bool-cases c.moved_second) [
  | inr e ↦ absurd (cc)
  | inl e ↦ elim (Bool-cases c.moved_first) [
    | inr g ↦ absurd (cc)
    | inl g ↦ elim (Bool-cases c.moved_current) [ inr k ↦ absurd (cc) | inl k ↦ rw (e, g, k) refl ]
  ]
]

-- Once it is opened its size is known.
abbrev Opened : Bool × BoundedLog → Type 0
Opened o = (o.0 ≡ true → o.1.size ≡ length (content (o.1.files.current))) × IsTracked o.1

open_log-Opened :
    (opened sized : Bool) (s : BoundedLog)
    → IsTracked s
    → Opened (open_log opened sized s)
      × (length (content ((open_log opened sized s).1.files.current))
          ≡ length (content (s.files.current)))
unfolding open_log
open_log-Opened opened sized s t = elim (Bool-cases s.is_open) [
  | inl e ↦ rw e ((λ h. t e, λ h. t e), refl)
  | inr e ↦ elim (Bool-cases opened) [
    | inr g ↦ rw (e, g) ((λ h. absurd (cc), λ h. absurd (cc)), refl)
    | inl g ↦ elim (Bool-cases sized) [
      | inl k ↦ rw (e, g, k) ((λ h. refl, λ h. refl), refl)
      | inr k ↦ rw (e, g, k) ((λ h. absurd (cc), λ h. absurd (cc)), refl)
    ]
  ]
]

append_bound :
    (c : Calls) (limit count : ℕ) (bytes : List ℕ) (s : BoundedLog)
    → s.size ≡ length (content (s.files.current))
    → s.size + count ≤ limit
    → (length (content ((append c count bytes s).1.files.current)) ≤ limit)
      × IsTracked (append c count bytes s).1
append_bound c limit count bytes s tracked room =
    let more = take (min c.written count) bytes in
    let grown = length-append (content (s.files.current)) more in
    (
      omega (arith, grown, tracked, room, length-take (min c.written count) bytes),
      λ h. omega (arith, grown, tracked),
    )

append_if_bound :
    (c : Calls) (limit count : ℕ) (bytes : List ℕ) (o : Bool × BoundedLog)
    → Opened o
    → length (content (o.1.files.current)) + count ≤ limit
    → (length (content ((append_if c count bytes o).1.files.current)) ≤ limit)
      × IsTracked (append_if c count bytes o).1
append_if_bound c limit count bytes (false, s) (known, t) room = (omega (arith, room), t)
append_if_bound c limit count bytes (true, s) (known, t) room =
    append_bound c limit count bytes s (known refl) (omega (arith, known refl, room))

rotate-stays : (c : Calls) (f : Files) → (rotate c f).0 ≡ false → (rotate c f).1.current ≡ f.current
unfolding rotate
rotate-stays c f h = elim (Bool-cases c.moved_second) [
  | inr e ↦ rw e refl
  | inl e ↦ elim (Bool-cases c.moved_first) [
    | inr g ↦ rw (e, g) refl
    | inl g ↦ elim (Bool-cases c.moved_current) [ inr k ↦ rw (e, g, k) refl | inl k ↦ absurd (cc) ]
  ]
]

abbrev Within : ℕ → ℕ → BoundedLog → Type 0
Within limit before s = (length (content (s.files.current)) ≤ max limit before) × IsTracked s

reopened_bound :
    (c : Calls) (limit count : ℕ) (bytes : List ℕ) (s : BoundedLog) (r : Bool × Files)
    → count ≤ limit
    → (r.0 ≡ true → r.1.current ≡ none)
    → (r.0 ≡ false → r.1.current ≡ s.files.current)
    → Within limit
        (length (content (s.files.current)))
        (append_if c count bytes (reopen_if c r s)).1
reopened_bound c limit count bytes s (false, f) fits emptied stays =
    let same : length (content f.current) ≡ length (content (s.files.current)) =
      ap (λ (x : Option (List ℕ)). length (content x)) (stays refl) in
    (omega (arith, same), λ h. absurd (cc))
reopened_bound c limit count bytes s (true, f) fits emptied stays =
    let closed : BoundedLog = record s { files = f; is_open = false } in
    let none_left : length (content f.current) ≡ 0 =
      ap (λ (x : Option (List ℕ)). length (content x)) (emptied refl) in
    let (known, same) = open_log-Opened c.opened_again c.sized_again closed (λ h. absurd (cc)) in
    let (bound, t) =
      append_if_bound c limit count bytes (open_log c.opened_again c.sized_again closed) known
        (omega (arith, same, none_left, fits)) in
    (omega (arith, bound), t)

write_open_bound :
    (c : Calls) (limit count before : ℕ) (bytes : List ℕ) (o : Bool × BoundedLog)
    → count ≤ limit
    → Opened o
    → length (content (o.1.files.current)) ≡ before
    → Within limit before (write_open c limit count bytes o).1
write_open_bound c limit count before bytes (false, s) fits (known, t) same =
    (omega (arith, same), t)
write_open_bound c limit count before bytes (true, s) fits (known, t) same =
    elim (Bool-cases (ltb (limit - count) s.size)) [
      | inl e ↦
          let (bound, kept) =
            reopened_bound c limit count bytes s (rotate c s.files) fits (rotate-current c s.files)
              (rotate-stays c s.files) in
          rw e (omega (arith, bound, same), kept)
      | inr e ↦
          let (bound, kept) =
            append_bound c limit count bytes s (known refl) (ground (arith, e, fits)) in
          rw e (omega (arith, bound), kept)
    ]

-- Whatever calls fail, a write leaves a file that is no longer than the limit, or than it was before, and the size
-- that is kept is still the one of the file that is open.
pub write_bound :
    (c : Calls) (limit : ℕ) (bytes : List ℕ) (s : BoundedLog)
    → IsTracked s
    → (length (content ((write c limit bytes s).1.files.current))
        ≤ max limit (length (content (s.files.current))))
      × IsTracked (write c limit bytes s).1
unfolding write
write_bound c limit bytes s t =
    let (known, same) = open_log-Opened c.opened c.sized s t in
    write_open_bound c limit (min (min (length bytes) limit) 65536)
      (length (content (s.files.current))) bytes (open_log c.opened c.sized s) (omega arith) known
      same
