-- ===== src/Examples/Loads.antt =====
-- Instances for the loads and commands of bpf-loader.cpp: a load over an interrupted one is killed, an update of the
-- guard is cut off, and a cgroup has the program of an interrupted load.
use wireguard_dns_program_sp.Base.{ℕ, ◌+◌, ◌≡◌, ◌⊎◌, refl, true, false, none, some, [], ◌∷◌, codes}
use wireguard_dns_program_sp.Base.Lists.{bytes_eq}
use wireguard_dns_program_sp.Loader.Pins.Prefix.{among}
use wireguard_dns_program_sp.Loader.Staging.{Dirs, stage, build, load}
use wireguard_dns_program_sp.Loader.Staging.Covers.{covers, whole, load-covers}
use wireguard_dns_program_sp.Loader.Commands.{
  Guarded, begin_update, guard_slot, guard_slot_killed, set_state,
}
use wireguard_dns_program_sp.Loader.Commands.Ready.{
  after-nothing, after-state, guard_slot_killed-blocked,
}
use wireguard_dns_program_sp.Loader.Entries.{member, all_members}
use wireguard_dns_program_sp.Loader.Competitors.{
  Listing, Attached, Group, Children, reject_competitors,
}
use wireguard_dns_program_sp.Loader.Competitors.Visited.{
  visited-here, visited-below, visited-first, OnlyInterrupted, reject_competitors-OnlyInterrupted,
}

abbrev left_behind : Dirs
left_behind = record {
  published = none;
  new = some (record { links = 3; maps = true; paths = codes "/opt/app" ∷ [] });
  next = none;
}

abbrev killed_again : Dirs
killed_again = record left_behind {
  next = some (record { links = 4; maps = true; paths = codes "/usr/bin/curl" ∷ [] });
}

load-covers_example :
    (covers 1 (codes "/opt/app") killed_again ≡ true)
    ⊎ (killed_again.published ≡ some (whole (codes "/usr/bin/curl" ∷ [])))
unfolding load build stage among bytes_eq
load-covers_example =
    load-covers 20 (codes "/usr/bin/curl" ∷ []) 1 (codes "/opt/app") left_behind refl refl

abbrev one_more : ℕ → ℕ
one_more n = n + 1

abbrev loaded : Guarded ℕ
loaded = record { ready = false; epoch = 0; roles = 0 }

abbrev half_done : Guarded ℕ
half_done = record { ready = false; epoch = 1; roles = 1 }

guard_slot_killed-blocked_example :
    ((half_done.ready ≡ false) × (half_done.roles ≡ 1))
    × (guard_slot one_more half_done ≡ none)
    × (set_state true true half_done ≡ none)
unfolding guard_slot_killed begin_update set_state
guard_slot_killed-blocked_example =
    guard_slot_killed-blocked loaded {s' = half_done} {t = half_done} one_more one_more true refl
      (after-state {t = half_done} false true after-nothing refl)

abbrev ours : Attached
ours = record { count = some 1; ids = some (9 ∷ []); listing = Listing.listed }

abbrev tree : Group
tree =
    Group.opened (record { count = some 0; ids = none; listing = Listing.listed })
      (Children.child (Group.opened ours Children.no_more)
        (Children.child Group.removed Children.no_more))

reject_competitors-OnlyInterrupted_example : OnlyInterrupted (9 ∷ []) ours
unfolding reject_competitors all_members member
reject_competitors-OnlyInterrupted_example =
    reject_competitors-OnlyInterrupted (9 ∷ []) tree refl
      (visited-below refl (visited-first visited-here))
