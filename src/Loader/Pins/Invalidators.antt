-- ===== src/Loader/Pins/Invalidators.antt =====
-- No program that caches stands in a pin directory without those that invalidate what it caches.
use wireguard_dns_program_sp.Base.{
  ℕ, ◌≡◌, refl, ◌∙◌, Bool, true, false, not, ◌&&◌, ◌||◌, List, [], ◌∷◌, ◌++◌, if◌then◌else◌,
  Bool-cases, inl, inr, arith, codes, bytes_eq_sound,
}
use mathlib.Core.Path.{subst}
use wireguard_dns_program_sp.Base.Lists.{bytes_eq}
use wireguard_dns_program_sp.Dns.Table.{Table, lookup}
use wireguard_dns_program_sp.Loader.Pins.{
  LinkSpec, LinkKind, map_specs, link_specs, map_names, link_names, exists, pin_all, unpin_all,
  pin_order, removal_order, reverse_onto,
}
use wireguard_dns_program_sp.Loader.Pins.Prefix.{
  AllPresent, AllAbsent, IsSuffix, suffix-pinned, suffix-gone, among, all_distinct,
  pin_all-IsPrefix, unpin_all-IsSuffix, reverse-IsSuffix,
}

abbrev is_classifier : LinkKind → Bool
is_classifier LinkKind.cgroup = true
is_classifier _ = false

-- The programs behind a bind, a rename and a change of attributes.
abbrev pub invalidates : LinkSpec → Bool
invalidates spec =
    bytes_eq spec.program (codes "guard_bound")
    || bytes_eq spec.program (codes "guard_renamed")
    || bytes_eq spec.program (codes "guard_attr")

-- Every other program of the guard.
abbrev pub caches : LinkSpec → Bool
caches spec = not (is_classifier spec.kind) && not (invalidates spec)

abbrev pub select : (LinkSpec → Bool) → List LinkSpec → List LinkSpec
select test [] = []
select test (spec ∷ specs) = if test spec then spec ∷ select test specs else select test specs

among-reverse_onto :
    (n : List ℕ) (names done : List (List ℕ))
    → among n (reverse_onto names done) ≡ (among n names || among n done)
unfolding among
among-reverse_onto n [] done = refl
among-reverse_onto n (m ∷ names) done = among-reverse_onto n names (m ∷ done) ∙ ground arith

empty-AllAbsent : (Entry : Type 0) (names : List (List ℕ)) → AllAbsent {Entry = Entry} names []
unfolding lookup
empty-AllAbsent Entry [] = tt
empty-AllAbsent Entry (n ∷ names) = (refl, empty-AllAbsent Entry names)

module _ {Entry : Type 0} where
  -- What loads and removals, each of which may stop anywhere, leave of an empty directory.
  pub data Pinned : Table Entry → Type 0 where
    pinned-load : (done : ℕ) (object : List ℕ → Entry) → Pinned (pin_all done object pin_order [])
    pinned-removal :
        {dir : Table Entry} → Pinned dir → (done : ℕ) → Pinned (unpin_all done removal_order dir)

  Pinned-IsSuffix : {dir : Table Entry} → Pinned dir → IsSuffix dir removal_order
  unfolding all_distinct among bytes_eq
  Pinned-IsSuffix (pinned-load done object) =
      reverse-IsSuffix (pin_all done object pin_order []) []
        (pin_all-IsPrefix done object pin_order [] refl (empty-AllAbsent Entry pin_order)) tt
  Pinned-IsSuffix (pinned-removal {dir} p done) =
      unpin_all-IsSuffix done removal_order dir refl (Pinned-IsSuffix p)

  append-AllPresent :
      (dir : Table Entry) (before after : List (List ℕ))
      → AllPresent (before ++ after) dir
      → AllPresent after dir
  append-AllPresent dir [] after all = all
  append-AllPresent dir (m ∷ before) after all = append-AllPresent dir before after all.1

  -- Where one of the first names of the removal is still there, all behind them are.
  suffix-AllPresent :
      (dir : Table Entry) (n : List ℕ) (before after : List (List ℕ))
      → IsSuffix dir (before ++ after)
      → among n before ≡ true
      → exists n dir ≡ true
      → AllPresent after dir
  unfolding among
  suffix-AllPresent dir n [] after s h here = absurd (cc)
  suffix-AllPresent dir n (m ∷ before) after (suffix-pinned all) h here =
      append-AllPresent dir (m ∷ before) after all
  suffix-AllPresent dir n (m ∷ before) after (suffix-gone gone s) h here =
      elim (Bool-cases (bytes_eq n m)) [
        | inl same ↦
            let it : exists m dir ≡ true =
              subst (λ (x : List ℕ). exists x dir ≡ true) (bytes_eq_sound n m same) here in
            absurd (cc)
        | inr other ↦ suffix-AllPresent dir n before after s (ground (arith, h, other)) here
      ]

  reverse-AllPresent :
      (dir : Table Entry) (names done : List (List ℕ))
      → AllPresent (reverse_onto names done) dir
      → AllPresent names dir × AllPresent done dir
  reverse-AllPresent dir [] done all = (tt, all)
  reverse-AllPresent dir (n ∷ names) done all =
      let rest = reverse-AllPresent dir names (n ∷ done) all in ((rest.1.0, rest.0), rest.1.1)

  prefix-AllPresent :
      (dir : Table Entry) (before after : List (List ℕ))
      → AllPresent (before ++ after) dir
      → AllPresent before dir
  prefix-AllPresent dir [] after all = tt
  prefix-AllPresent dir (m ∷ before) after all = (all.0, prefix-AllPresent dir before after all.1)

  -- Whatever loads and removals were stopped, and where: while a program of the guard that caches is
  -- pinned, so are all the maps, the classifier and the three programs that invalidate the caches.
  pub Pinned-guarded :
      {dir : Table Entry} (n : List ℕ)
      → Pinned dir
      → among n (link_names (select caches link_specs)) ≡ true
      → exists n dir ≡ true
      → AllPresent (map_names map_specs) dir
        × AllPresent (link_names (select (λ spec. not (caches spec)) link_specs)) dir
  unfolding bytes_eq
  Pinned-guarded {dir} n p h here =
      let maps = map_names map_specs in
      let guards = link_names (select (λ spec. not (caches spec)) link_specs) in
      let caching = link_names (select caches link_specs) in
      let found : among n (reverse_onto caching []) ≡ true =
        among-reverse_onto n caching [] ∙ ground (arith, h) in
      let all =
        suffix-AllPresent dir n (reverse_onto caching []) (reverse_onto (maps ++ guards) [])
          (Pinned-IsSuffix p) found here in
      let kept = (reverse-AllPresent dir (maps ++ guards) [] all).0 in
      (prefix-AllPresent dir maps guards kept, append-AllPresent dir maps guards kept)
