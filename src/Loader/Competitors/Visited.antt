-- ===== src/Loader/Competitors/Visited.antt =====
-- No program but those of an interrupted load is in effect on any cgroup that the walk reads.
use wireguard_dns_program_sp.Base.{
  ℕ, ◌≡◌, ◌⊎◌, refl, true, Option, none, some, List, ◌==◌, Bool-cases, inl, inr, arith, ap,
}
use wireguard_dns_program_sp.Loader.Entries.{all_members}
use wireguard_dns_program_sp.Loader.Competitors.{
  Listing, Attached, Group, Children, tolerates, is_tolerated, listed_or, reject_competitors,
  reject_children,
}

mutual
  -- The cgroups that the walk reads.
  pub data Visited : Group → Attached → Type 0 where
    visited-here :
        {level : Attached} {children : Children} → Visited (Group.opened level children) level
    visited-below :
        {level below : Attached} {children : Children}
        → level.listing ≡ Listing.listed
        → VisitedIn children below
        → Visited (Group.opened level children) below

  pub data VisitedIn : Children → Attached → Type 0 where
    visited-first :
        {group : Group} {children : Children} {level : Attached}
        → Visited group level
        → VisitedIn (Children.child group children) level
    visited-later :
        {group : Group} {children : Children} {level : Attached}
        → VisitedIn children level
        → VisitedIn (Children.child group children) level

-- No program is in effect, or each is one of the interrupted load's.
abbrev pub OnlyInterrupted : List ℕ → Attached → Type 0
OnlyInterrupted interrupted level =
    (level.count ≡ some 0)
    ⊎ ((ids : List ℕ) × ((level.ids ≡ some ids) × (all_members ids interrupted ≡ true)))

tolerates-OnlyInterrupted :
    (interrupted : List ℕ) (count : ℕ) (ids : Option (List ℕ))
    → tolerates interrupted count ids ≡ true
    → (found : List ℕ) × ((ids ≡ some found) × (all_members found interrupted ≡ true))
tolerates-OnlyInterrupted interrupted count none h = absurd (cc)
tolerates-OnlyInterrupted interrupted count (some ids) h = (ids, (refl, ground (arith, h)))

tolerated-OnlyInterrupted :
    (interrupted : List ℕ) (count : Option ℕ) (ids : Option (List ℕ))
    → is_tolerated interrupted count ids ≡ true
    → (count ≡ some 0)
      ⊎ ((found : List ℕ) × ((ids ≡ some found) × (all_members found interrupted ≡ true)))
tolerated-OnlyInterrupted interrupted none ids h = absurd (cc)
tolerated-OnlyInterrupted interrupted (some count) ids h = elim (Bool-cases (count == 0)) [
  | inl e ↦ let same : count ≡ 0 = ground (arith, e) in inl (ap (λ (n : ℕ). some n) same)
  | inr e ↦ inr (tolerates-OnlyInterrupted interrupted count ids (ground (arith, h, e)))
]

mutual
  unfolding reject_competitors reject_children

  group-OnlyInterrupted :
      (interrupted : List ℕ) (group : Group) {level : Attached}
      → reject_competitors interrupted group ≡ true
      → Visited group level
      → OnlyInterrupted interrupted level
  group-OnlyInterrupted interrupted Group.removed h v = elim v [ ]
  group-OnlyInterrupted interrupted Group.unreadable h v = elim v [ ]
  group-OnlyInterrupted interrupted (Group.opened l children) h visited-here =
      tolerated-OnlyInterrupted interrupted l.count l.ids (ground (arith, h))
  group-OnlyInterrupted interrupted (Group.opened l children) h (visited-below listed below) =
      let all : listed_or l.listing (reject_children interrupted children) ≡ true =
        ground (arith, h) in
      children-OnlyInterrupted interrupted children (rw listed at all) below

  children-OnlyInterrupted :
      (interrupted : List ℕ) (children : Children) {level : Attached}
      → reject_children interrupted children ≡ true
      → VisitedIn children level
      → OnlyInterrupted interrupted level
  children-OnlyInterrupted interrupted Children.no_more h v = elim v [ ]
  children-OnlyInterrupted interrupted (Children.child g cs) h (visited-first v) =
      group-OnlyInterrupted interrupted g (ground (arith, h)) v
  children-OnlyInterrupted interrupted (Children.child g cs) h (visited-later v) =
      children-OnlyInterrupted interrupted cs (ground (arith, h)) v

-- A load that goes on has found, on each cgroup that it read, no program, or only those of the interrupted loads.
pub reject_competitors-OnlyInterrupted :
    (interrupted : List ℕ) (group : Group) {level : Attached}
    → reject_competitors interrupted group ≡ true
    → Visited group level
    → OnlyInterrupted interrupted level
reject_competitors-OnlyInterrupted interrupted group h v =
    group-OnlyInterrupted interrupted group h v
