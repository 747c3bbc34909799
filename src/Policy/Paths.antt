-- ===== src/Policy/Paths.antt =====
-- What `resolve_policy` of policy.bpf.h answers for a live image, and for one that an upgrade
-- replaced, from the text that d_path gives.
use wireguard_dns_program_sp.Base.{
  ℕ, ◌+◌, ◌-◌, ◌<◌, ◌≤◌, ◌≡◌, refl, ap, true, false, List, [], ◌∷◌, ◌++◌, length, arith, get_or,
  set, codes, suc,
}
use wireguard_dns_program_sp.Kernel.{Kernel}
use wireguard_dns_program_sp.Policy.{
  PolicyMaps, resolve_policy, resolve_path, linked_file, synthetic_file, Resolved, strip_deleted,
  tail_is, deleted_suffix, verdict, path_bytes,
}
use wireguard_dns_program_sp.Policy.Tier.{NoNul, CopiesText, enrolled, lookup_path-enrolled}

-- A path as d_path gives it: absolute, without NUL, more than the slash alone.
pub record IsPath (text : List ℕ) : Type 0 where
  pub clean : NoNul text
  pub absolute : get_or text 0 0 ≡ b'/'
  pub proper : 0 < length text

-- d_path of the file gives this text, with whatever stands behind it in the buffer.
abbrev pub Gives : Kernel → ℕ → List ℕ → List ℕ → Type 0
Gives k exe text rest = k.d_path exe ≡ record { length = length text + 1; bytes = text ++ 0 ∷ rest }

get_or-append : (xs ys : List ℕ) (d : ℕ) → 0 < length xs → get_or (xs ++ ys) 0 d ≡ get_or xs 0 d
get_or-append [] ys d h = absurd (omega arith)
get_or-append (x ∷ xs) ys d h = refl

-- A live image is judged by its enrolment: included if its path is enrolled, direct if not.
-- Condition: the helper copies texts, and d_path gives an absolute path that fits the buffer.
pub resolve_policy-live :
    (k : Kernel) (s : PolicyMaps) (exe : ℕ) (text rest : List ℕ)
    → CopiesText k
    → IsPath text
    → length text < path_bytes
    → k.scratch ≡ true
    → linked_file k exe ≡ true
    → Gives k exe text rest
    → resolve_policy k s exe ≡ verdict (enrolled s text) true
unfolding resolve_policy resolve_path
resolve_policy-live k s exe text rest copies path fits scratch linked gives = ground (
  arith,
  path.absolute,
  path.proper,
  get_or-append text (0 ∷ rest) 0 path.proper,
  lookup_path-enrolled k s true text rest copies path.clean fits,
)

get_or-append_right : (xs ys : List ℕ) (n : ℕ) → get_or (xs ++ ys) (length xs + n) 0 ≡ get_or ys n 0
get_or-append_right [] ys n = ap (λ (t : ℕ). get_or ys t 0) (omega arith)
get_or-append_right (x ∷ xs) ys n =
    let shift : length (x ∷ xs) + n ≡ suc (length xs + n) = omega arith in
    rw shift (get_or-append_right xs ys n)

tail_is-append :
    (xs ys cs : List ℕ) (n : ℕ) → tail_is (xs ++ ys) (length xs + n) cs ≡ tail_is ys n cs
unfolding tail_is
tail_is-append xs ys [] n = rw (get_or-append_right xs ys n)
tail_is-append xs ys (c ∷ cs) n =
    let shift : length xs + n + 1 ≡ length xs + (n + 1) = omega arith in
    rw (get_or-append_right xs ys n, shift, tail_is-append xs ys cs (n + 1))

set-append : (xs ys : List ℕ) (y v : ℕ) → set (xs ++ y ∷ ys) (length xs) v ≡ xs ++ v ∷ ys
set-append [] ys y v = refl
set-append (x ∷ xs) ys y v = ap (λ (t : List ℕ). x ∷ t) (set-append xs ys y v)

-- d_path's text for an unlinked file: the path with " (deleted)" behind it.
abbrev pub GivesDeleted : Kernel → ℕ → List ℕ → List ℕ → Type 0
GivesDeleted k exe text rest =
    k.d_path exe
    ≡ record { length = length text + 11; bytes = text ++ (deleted_suffix ++ 0 ∷ rest) }

tail_at_end :
    (text rest : List ℕ)
    → tail_is (text ++ (deleted_suffix ++ 0 ∷ rest)) (length text) deleted_suffix ≡ true
unfolding tail_is
tail_at_end text rest =
    let start : length text ≡ length text + 0 = omega arith in
    rw start (tail_is-append text (deleted_suffix ++ 0 ∷ rest) deleted_suffix 0)

strip_deleted-suffix :
    (text rest : List ℕ)
    → 0 < length text
    → length text + 11 ≤ path_bytes
    → strip_deleted (text ++ (deleted_suffix ++ 0 ∷ rest)) (length text + 11)
      ≡ Resolved.path (text ++ 0 ∷ (codes "(deleted)" ++ 0 ∷ rest)) (length text + 1)
unfolding strip_deleted
strip_deleted-suffix text rest proper fits =
    let cut : length text + 11 - 11 ≡ length text = omega arith in
    ground
      (arith, cut, tail_at_end text rest, set-append text (codes "(deleted)" ++ 0 ∷ rest) b' ' 0)

-- An image that was replaced while it runs: refused if its path is enrolled, direct if not.
-- Condition: as for a live image, and the file is a named one that is no longer linked.
pub resolve_policy-replaced :
    (k : Kernel) (s : PolicyMaps) (exe : ℕ) (text rest : List ℕ)
    → CopiesText k
    → IsPath text
    → length text + 11 ≤ path_bytes
    → k.scratch ≡ true
    → linked_file k exe ≡ false
    → synthetic_file k exe ≡ false
    → GivesDeleted k exe text rest
    → resolve_policy k s exe ≡ verdict (enrolled s text) false
unfolding resolve_policy resolve_path
resolve_policy-replaced k s exe text rest copies path fits scratch unlinked named gives = ground (
  arith,
  path.absolute,
  path.proper,
  get_or-append text (deleted_suffix ++ 0 ∷ rest) 0 path.proper,
  strip_deleted-suffix text rest path.proper fits,
  lookup_path-enrolled k s false text (codes "(deleted)" ++ 0 ∷ rest) copies path.clean
      (omega arith),
)
