-- ===== src/Loader/Staging/Covers.antt =====
-- What the interrupted generations protect is protected until the generation of a new policy is published.
use wireguard_dns_program_sp.Base.{
  ℕ, zero, suc, ◌≡◌, ◌⊎◌, ◌+◌, ◌-◌, refl, sym, Bool, true, false, ◌&&◌, ◌||◌, Option, none, some,
  List, [], ◌∷◌, ◌==◌, if◌then◌else◌, ltb, leb, Bool-cases, inl, inr, arith, bytes_eq_sound,
  some_same, if_some,
}
use mathlib.Core.Path.{subst}
use wireguard_dns_program_sp.Base.Lists.{bytes_eq}
use wireguard_dns_program_sp.Loader.Pins.Prefix.{among}
use wireguard_dns_program_sp.Loader.Staging.{
  Pinned, Dirs, link_count, map_count, includes, is_covered, discard_staging, stage, calls, publish,
  with_staging, build, covered_generation, load_over, load,
}

-- Whether the program of a link is attached with a path in its policy.
abbrev pub covers_one : ℕ → List ℕ → Option Pinned → Bool
covers_one i k none = false
covers_one i k (some g) = ltb i g.links && among k g.paths

abbrev pub covers : ℕ → List ℕ → Dirs → Bool
covers i k s = covers_one i k s.published || covers_one i k s.new || covers_one i k s.next

-- All links and all maps, and the given policy.
abbrev pub whole : List (List ℕ) → Pinned
whole keys = record { links = link_count; maps = true; paths = keys }

includes-among :
    (k : List ℕ) (theirs mine : List (List ℕ))
    → includes theirs mine ≡ true
    → among k mine ≡ true
    → among k theirs ≡ true
unfolding includes among
includes-among k theirs [] h here = absurd (cc)
includes-among k theirs (key ∷ mine) h here = elim (Bool-cases (bytes_eq k key)) [
  | inl e ↦
      let found : among key theirs ≡ true = ground (arith, h) in
      subst (λ (x : List ℕ). among x theirs ≡ true) (sym (bytes_eq_sound k key e)) found
  | inr e ↦ includes-among k theirs mine (ground (arith, h)) (ground (arith, here, e))
]

-- What a covered generation protects the other protects.
is_covered-covers :
    (i : ℕ) (k : List ℕ) (a b : Pinned)
    → is_covered a b ≡ true
    → covers_one i k (some a) ≡ true
    → covers_one i k (some b) ≡ true
unfolding is_covered
is_covered-covers i k a b h here = elim (Bool-cases (a.links == 0)) [
  | inl e ↦ absurd (ground (arith, e, here))
  | inr e ↦
      let found : among k b.paths ≡ true =
        includes-among k b.paths a.paths (ground (arith, h, e)) (ground (arith, here)) in
      ground (arith, found, h, e, here)
]

stage-whole : (keys : List (List ℕ)) → stage calls keys ≡ some (whole keys)
unfolding stage
stage-whole keys = refl

-- Protected still, or by the whole generation of the new policy, which is published.
abbrev pub Kept : ℕ → List ℕ → List (List ℕ) → Dirs → Type 0
Kept i k keys s = (covers i k s ≡ true) ⊎ (s.published ≡ some (whole keys))

with_staging-Kept :
    (i : ℕ) (k : List ℕ) (staged new next : Option Pinned)
    → (new ≡ none) ⊎ (next ≡ none)
    → covers i k (record { published = none; new = new; next = next }) ≡ true
    → covers i k (with_staging new staged (record { published = none; new = new; next = next }))
      ≡ true
with_staging-Kept i k staged none next free h = ground (arith, h)
with_staging-Kept i k staged (some g) none free h = ground (arith, h)
with_staging-Kept i k staged (some g) (some g') (inl e) h = absurd (cc)
with_staging-Kept i k staged (some g) (some g') (inr e) h = absurd (cc)

publish-whole :
    (n : ℕ) (keys : List (List ℕ)) (s : Dirs)
    → (n == 0) ≡ false
    → (publish n (stage calls keys) s).published ≡ some (whole keys)
unfolding publish
publish-whole zero keys s h = absurd (cc)
publish-whole (suc n) keys s h = stage-whole keys

build-Kept :
    (done : ℕ) (keys : List (List ℕ)) (i : ℕ) (k : List ℕ) (new next : Option Pinned)
    → (new ≡ none) ⊎ (next ≡ none)
    → covers i k (record { published = none; new = new; next = next }) ≡ true
    → Kept i k keys (build done keys (record { published = none; new = new; next = next }))
unfolding build
build-Kept done keys i k new next free h = elim (Bool-cases (leb done calls)) [
  | inl e ↦ rw e (inl (with_staging-Kept i k (stage done keys) new next free h))
  | inr e ↦
      let more : (done - calls == 0) ≡ false = ground (arith, e) in
      rw e (
        inr (
          publish-whole (done - calls) keys (record { published = none; new = new; next = next })
            more))
]

discarded : (done : ℕ) (g : Pinned) → ltb done calls ≡ false → discard_staging done (some g) ≡ none
unfolding discard_staging
discarded done g h =
    let all : ltb (link_count + map_count) done ≡ true = ground (arith, h) in rw all refl

-- The generation that is not covered has it.
other_covers :
    (i : ℕ) (k : List ℕ) (a b : Pinned)
    → is_covered a b ≡ true
    → (covers_one i k (some a) || covers_one i k (some b)) ≡ true
    → covers_one i k (some b) ≡ true
other_covers i k a b c h = elim (Bool-cases (covers_one i k (some a))) [
  | inl e ↦ is_covered-covers i k a b c e
  | inr e ↦ ground (arith, h, e)
]

removed_new-Kept :
    (done : ℕ) (keys : List (List ℕ)) (i : ℕ) (k : List ℕ) (a b : Pinned)
    → covers_one i k (some b) ≡ true
    → Kept i k keys (
        if ltb done calls
        then record { published = none; new = discard_staging done (some a); next = some b }
        else build
            (done - calls)
            keys
            (record { published = none; new = discard_staging done (some a); next = some b }))
removed_new-Kept done keys i k a b h = elim (Bool-cases (ltb done calls)) [
  | inl e ↦ rw e (inl (ground (arith, h)))
  | inr e ↦ rw e (
      build-Kept (done - calls) keys i k (discard_staging done (some a)) (some b)
        (inl (discarded done a e)) (ground (arith, h)))
]

removed_next-Kept :
    (done : ℕ) (keys : List (List ℕ)) (i : ℕ) (k : List ℕ) (a b : Pinned)
    → covers_one i k (some a) ≡ true
    → Kept i k keys (
        if ltb done calls
        then record { published = none; new = some a; next = discard_staging done (some b) }
        else build
            (done - calls)
            keys
            (record { published = none; new = some a; next = discard_staging done (some b) }))
removed_next-Kept done keys i k a b h = elim (Bool-cases (ltb done calls)) [
  | inl e ↦ rw e (inl (ground (arith, h)))
  | inr e ↦ rw e (
      build-Kept (done - calls) keys i k (some a) (discard_staging done (some b))
        (inr (discarded done b e)) (ground (arith, h)))
]

covered_generation-Kept :
    (done : ℕ) (keys : List (List ℕ)) (i : ℕ) (k : List ℕ) (a b : Pinned) {s' : Dirs}
    → covered_generation done keys a b (record { published = none; new = some a; next = some b })
      ≡ some s'
    → (covers_one i k (some a) || covers_one i k (some b)) ≡ true
    → Kept i k keys s'
unfolding covered_generation
covered_generation-Kept done keys i k a b {s'} h here = elim (if_some (is_covered a b) h) [
  | inl (c, e) ↦
      subst (λ (x : Dirs). Kept i k keys x) (some_same e)
        (removed_new-Kept done keys i k a b (other_covers i k a b c here))
  | inr (c, e) ↦ elim (if_some (is_covered b a) e) [
    | inl (d, f) ↦
        subst (λ (x : Dirs). Kept i k keys x) (some_same f)
          (removed_next-Kept done keys i k a b (other_covers i k b a d (ground (arith, here))))
    | inr (d, f) ↦ absurd (cc)
  ]
]

load_over-Kept :
    (done : ℕ) (keys : List (List ℕ)) (i : ℕ) (k : List ℕ) (published new next : Option Pinned)
    {s' : Dirs}
    → load_over done keys
        (record { published = published; new = new; next = next })
        published
        new
        next
      ≡ some s'
    → covers i k (record { published = published; new = new; next = next }) ≡ true
    → Kept i k keys s'
load_over-Kept done keys i k (some g) new next h here = absurd (cc)
load_over-Kept done keys i k none (some a) (some b) h here =
    covered_generation-Kept done keys i k a b h here
load_over-Kept done keys i k none (some a) none h here =
    subst (λ (x : Dirs). Kept i k keys x) (some_same h)
      (build-Kept done keys i k (some a) none (inr refl) here)
load_over-Kept done keys i k none none next h here =
    subst (λ (x : Dirs). Kept i k keys x) (some_same h)
      (build-Kept done keys i k none next (inl refl) here)

-- Wherever a load is killed: a path that the program of a link had in its policy is in the policy of some
-- generation whose program of that link is attached, or the whole generation of the new policy is published.
pub load-covers :
    (done : ℕ) (keys : List (List ℕ)) (i : ℕ) (k : List ℕ) (s : Dirs) {s' : Dirs}
    → load done keys s ≡ some s'
    → covers i k s ≡ true
    → (covers i k s' ≡ true) ⊎ (s'.published ≡ some (whole keys))
unfolding load
load-covers done keys i k s h here = load_over-Kept done keys i k s.published s.new s.next h here
