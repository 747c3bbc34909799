-- ===== src/Log/Bounded/Writes.antt =====
-- The order of what the log file of bounded-log.h and its archives hold.
use wireguard_dns_program_sp.Base.{
  ℕ, ◌≡◌, ◌-◌, min, refl, sym, ap, ◌∙◌, Bool, true, false, Option, none, some, List, [], ◌++◌, ltb,
  length, take, Bool-cases, inl, inr,
}
use mathlib.Core.List.{append_assoc, append-nil}
use wireguard_dns_program_sp.Log.Bounded.{
  Files, BoundedLog, Calls, content, target_after, rotate, open_log, append, append_if, reopen_if,
  write_open, write,
}

-- The archives from the oldest on, and then the file.
abbrev pub chronicle : Files → List ℕ
chronicle f = content f.third ++ (content f.second ++ (content f.first ++ content f.current))

moved :
    (source target : Option (List ℕ))
    → (d : List ℕ) × (content target ++ content source
        ≡ d ++ content (target_after true source target))
moved none target = ([], append-nil (content target))
moved (some bytes) target = (content target, refl)

fresh : (source : Option (List ℕ)) → content (target_after true source none) ≡ content source
fresh none = refl
fresh (some bytes) = refl

-- A rotation that stops anywhere drops at most the oldest archive.
rotate-chronicle :
    (c : Calls) (f : Files) → (d : List ℕ) × (chronicle f ≡ d ++ chronicle (rotate c f).1)
unfolding rotate
rotate-chronicle c f = elim (Bool-cases c.moved_second) [
  | inr e ↦ rw e ([], refl)
  | inl e ↦
      let (d, kept) = moved f.second f.third in
      let rest = content f.first ++ content f.current in
      let older = content (target_after true f.second f.third) in
      let base : chronicle f ≡ d ++ (older ++ rest) =
        sym (append_assoc (content f.third) (content f.second) rest)
        ∙ ap (λ (x : List ℕ). x ++ rest) kept
        ∙ append_assoc d older rest in
      elim (Bool-cases c.moved_first) [
        | inr h ↦ rw (e, h) (d, base)
        | inl h ↦ elim (Bool-cases c.moved_current) [
          | inr g ↦ rw (e, h, g) (d, rw (fresh f.first) base)
          | inl g ↦
              rw (e, h, g)
                (d, rw (fresh f.first, fresh f.current, append-nil (content f.current)) base)
        ]
      ]
]

open_log-chronicle :
    (opened sized : Bool) (s : BoundedLog)
    → chronicle (open_log opened sized s).1.files ≡ chronicle s.files
unfolding open_log
open_log-chronicle opened sized s = elim (Bool-cases s.is_open) [
  | inl e ↦ rw e refl
  | inr e ↦ elim (Bool-cases opened) [
    | inr g ↦ rw (e, g) refl
    | inl g ↦ elim (Bool-cases sized) [ inl k ↦ rw (e, g, k) refl | inr k ↦ rw (e, g, k) refl ]
  ]
]

-- What a write does to the files: the oldest bytes may go, and a part of the bytes is appended.
abbrev Chronicled : List ℕ → Files → Files → Type 0
Chronicled bytes f g =
    (n : ℕ) × (dropped : List ℕ) × (chronicle f ++ take n bytes ≡ dropped ++ chronicle g)

same-Chronicled : (bytes : List ℕ) (f g : Files) → chronicle g ≡ chronicle f → Chronicled bytes f g
same-Chronicled bytes f g e = (0, [], append-nil (chronicle f) ∙ sym e)

append-chronicle :
    (c : Calls) (count : ℕ) (bytes : List ℕ) (s : BoundedLog)
    → chronicle s.files ++ take (min c.written count) bytes
      ≡ chronicle (append c count bytes s).1.files
append-chronicle c count bytes s =
    let f = s.files in
    let more = take (min c.written count) bytes in
    append_assoc (content f.third) (content f.second ++ (content f.first ++ content f.current)) more
    ∙ ap (λ (x : List ℕ). content f.third ++ x)
        (append_assoc (content f.second) (content f.first ++ content f.current) more
          ∙ ap (λ (x : List ℕ). content f.second ++ x)
              (append_assoc (content f.first) (content f.current) more))

append_if-chronicle :
    (c : Calls) (count : ℕ) (bytes : List ℕ) (o : Bool × BoundedLog)
    → (n : ℕ) × (chronicle o.1.files ++ take n bytes
        ≡ chronicle (append_if c count bytes o).1.files)
append_if-chronicle c count bytes (false, s) = (0, append-nil (chronicle s.files))
append_if-chronicle c count bytes (true, s) =
    (min c.written count, append-chronicle c count bytes s)

reopened-Chronicled :
    (c : Calls) (count : ℕ) (bytes : List ℕ) (s : BoundedLog) (r : Bool × Files) (d : List ℕ)
    → chronicle s.files ≡ d ++ chronicle r.1
    → Chronicled bytes s.files (append_if c count bytes (reopen_if c r s)).1.files
reopened-Chronicled c count bytes s (false, f) d kept =
    (0, d, append-nil (chronicle s.files) ∙ kept)
reopened-Chronicled c count bytes s (true, f) d kept =
    let o = open_log c.opened_again c.sized_again (record s { files = f; is_open = false }) in
    let same =
      open_log-chronicle c.opened_again c.sized_again (record s { files = f; is_open = false }) in
    let (n, grown) = append_if-chronicle c count bytes o in
    (
      n,
      d,
      ap (λ (x : List ℕ). x ++ take n bytes) kept
          ∙ append_assoc d (chronicle f) (take n bytes)
          ∙ ap (λ (x : List ℕ). d ++ x) (ap (λ (x : List ℕ). x ++ take n bytes) (sym same) ∙ grown),
    )

write_open-Chronicled :
    (c : Calls) (limit count : ℕ) (bytes : List ℕ) (f : Files) (o : Bool × BoundedLog)
    → chronicle o.1.files ≡ chronicle f
    → Chronicled bytes f (write_open c limit count bytes o).1.files
write_open-Chronicled c limit count bytes f (false, s) same = same-Chronicled bytes f s.files same
write_open-Chronicled c limit count bytes f (true, s) same =
    elim (Bool-cases (ltb (limit - count) s.size)) [
      | inl e ↦
          let (d, kept) = rotate-chronicle c s.files in
          let (n, dropped, all) = reopened-Chronicled c count bytes s (rotate c s.files) d kept in
          rw e (n, dropped, ap (λ (x : List ℕ). x ++ take n bytes) (sym same) ∙ all)
      | inr e ↦ rw e (
        min c.written count,
        [],
        ap (λ (x : List ℕ). x ++ take (min c.written count) bytes) (sym same)
            ∙ append-chronicle c count bytes s,
      )
    ]

-- Whatever calls fail: the archives and the file hold, in order, what they held and a first part of the bytes, of
-- which only the oldest bytes may be gone.
pub write-chronicle :
    (c : Calls) (limit : ℕ) (bytes : List ℕ) (s : BoundedLog)
    → (n : ℕ) × (dropped : List ℕ) × (chronicle s.files ++ take n bytes
        ≡ dropped ++ chronicle (write c limit bytes s).1.files)
unfolding write
write-chronicle c limit bytes s =
    write_open-Chronicled c limit (min (min (length bytes) limit) 65536) bytes s.files
      (open_log c.opened c.sized s) (open_log-chronicle c.opened c.sized s)
