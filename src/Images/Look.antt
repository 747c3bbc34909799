-- ===== src/Images/Look.antt =====
-- A look at the cache of dns-image-resolver.h.
use wireguard_dns_program_sp.Base.{
  ℕ, ◌≡◌, ◌⊎◌, ◌+◌, refl, ap, ◌∙◌, Option, none, some, List, [], ◌∷◌, Bool-cases, Option-cases, inl,
  inr,
}
use mathlib.Core.Path.{subst}
use wireguard_dns_program_sp.Images.Lru.{
  Key, Status, Result, Cached, Cache, find, is_over, forget, touch, keep,
}
use wireguard_dns_program_sp.Images.{Job, is_done, cached, harvest}
use wireguard_dns_program_sp.Images.Mirror.{
  IsMirrored, keep-IsMirrored, touch-IsMirrored, forget-IsMirrored,
}
use wireguard_dns_program_sp.Images.Slots.{}
use wireguard_dns_program_sp.Images.Sound.{Genuine, AllGenuine, drop_entry-AllGenuine, find-Genuine}

pub harvest-IsMirrored :
    (ticks : ℕ → ℕ) (i : ℕ) (jobs : List Job) (c : Cache)
    → IsMirrored c
    → IsMirrored (harvest ticks i jobs c).1
unfolding harvest
harvest-IsMirrored ticks i [] c w = w
harvest-IsMirrored ticks i (job ∷ jobs) c w = elim (Bool-cases (is_done job.phase)) [
  | inl e ↦ rw e (
      harvest-IsMirrored ticks (i + 1) jobs (keep (ticks i) job.key job.path c)
        (keep-IsMirrored (ticks i) job.key job.path c w))
  | inr e ↦ rw e (harvest-IsMirrored ticks (i + 1) jobs c w)
]

-- The three ends of a look at the cache.
cached_cases :
    (key : Key) (now : ℕ) (c : Cache)
    → (cached key now c ≡ (none, c))
      ⊎ ((found : Cached) × ((find key c.entries ≡ some found)
            × ((cached key now c ≡ (none, forget key c))
                ⊎ (cached key now c ≡ (some found.result, touch key c)))))
unfolding cached
cached_cases key now c = elim (Option-cases (find key c.entries)) [
  | inl e ↦ inl (rw e refl)
  | inr (found, e) ↦ inr (
    found,
    (
      e,
      elim (Bool-cases (is_over found now)) [
        | inl o ↦ inl (rw (e, o) refl)
        | inr o ↦ inr (rw (e, o) refl)
      ],
    ),
  )
]

module _ (owner : ℕ → Key) (gives : ℕ → List ℕ → Type 0) where
  -- A look at the cache leaves it in order, and gives what it holds.
  abbrev pub LookGood : Key → Option Result × Cache → Type 0
  LookGood key (hit, c) =
      (AllGenuine owner gives c.entries × IsMirrored c)
      × ((r : Result) → hit ≡ some r → r.status ≡ Status.known → Genuine owner gives key r.path)

  pub cached-LookGood :
      (key : Key) (now : ℕ) (c : Cache)
      → AllGenuine owner gives c.entries
      → IsMirrored c
      → LookGood key (cached key now c)
  unfolding forget touch
  cached-LookGood key now c all w = elim (cached_cases key now c) [
    | inl e ↦ rw e ((all, w), λ r h known. absurd (cc))
    | inr (found, (at, inl e)) ↦ rw e (
      (drop_entry-AllGenuine owner gives key c.entries all, forget-IsMirrored key c w),
      λ r h known. absurd (cc),
    )
    | inr (found, (at, inr e)) ↦ rw e (
      (all, touch-IsMirrored key c w at),
      λ r h known.
          let same : found.result ≡ r = cc in
          subst (λ (x : Result). Genuine owner gives key x.path) same
            (find-Genuine owner gives key c.entries all at
              (ap (λ (x : Result). x.status) same ∙ known)),
    )
  ]
