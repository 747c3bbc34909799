-- ===== src/Loader/Staging.antt =====
-- `load` of bpf-loader.cpp as far as the pin directories go: its two staging names, which generation an interrupted
-- load left behind, and what a load that is killed anywhere leaves.
pub mod Covers
use wireguard_dns_program_sp.Base.{
  ℕ, zero, suc, ◌+◌, ◌-◌, min, Bool, true, false, not, ◌&&◌, ◌||◌, Option, none, some, List, [],
  ◌∷◌, ◌==◌, if◌then◌else◌, ltb, leb, length,
}
use wireguard_dns_program_sp.Loader.Pins.{map_specs, link_specs}
use wireguard_dns_program_sp.Loader.Pins.Prefix.{among}

-- A pinned generation: how many links of the pin order are attached, whether all maps are there, and its policy.
pub record Pinned : Type 0 where
  pub links : ℕ
  pub maps : Bool
  pub paths : List (List ℕ)

-- The published directory and the names with `_new` and `_next` behind it.
pub record Dirs : Type 0 where
  pub published : Option Pinned
  pub new : Option Pinned
  pub next : Option Pinned

abbrev pub link_count : ℕ
link_count = length link_specs

abbrev pub map_count : ℕ
map_count = length map_specs

-- `std::includes` on the two policies.
unfoldable pub includes : List (List ℕ) → List (List ℕ) → Bool
unfolding among
includes theirs [] = true
includes theirs (key ∷ mine) = let rest = includes theirs mine in among key theirs && rest

-- The test of `covered_generation` on one of the two.
unfoldable pub is_covered : Pinned → Pinned → Bool
unfolding includes
is_covered a b = a.links == 0 || leb a.links b.links && b.maps && includes b.paths a.paths

-- `discard_staging`, with so many of its calls done.
unfoldable pub discard_staging : ℕ → Option Pinned → Option Pinned
discard_staging done none = none
discard_staging done (some g) =
    if ltb (link_count + map_count) done
    then none
    else some (record {
      links = min g.links (link_count - done);
      maps = g.maps && leb done link_count;
      paths = g.paths;
    })

-- The staging directory, with so many of the calls that make it done: the directory, the maps, the links.
unfoldable pub stage : ℕ → List (List ℕ) → Option Pinned
stage zero keys = none
stage (suc done) keys =
    some (record {
      links = min (done - map_count) link_count;
      maps = leb map_count done;
      paths = keys;
    })

abbrev pub calls : ℕ
calls = link_count + map_count + 1

-- The staging directory gets its name, and then the one generation that it replaces is removed.
unfoldable pub publish : ℕ → Option Pinned → Dirs → Dirs
unfolding discard_staging
publish zero staged s = s
publish (suc done) staged s = record {
  published = staged;
  new = discard_staging done s.new;
  next = discard_staging done s.next;
}

-- The staging name is `_new` where that is free, else `_next`.
abbrev pub with_staging : Option Pinned → Option Pinned → Dirs → Dirs
with_staging none staged s = record s { new = staged }
with_staging (some g) staged s = record s { next = staged }

unfoldable pub build : ℕ → List (List ℕ) → Dirs → Dirs
unfolding stage publish
build done keys s =
    if leb done calls
    then with_staging s.new (stage done keys) s
    else publish (done - calls) (stage calls keys) s

-- Of two generations that are left the covered one is removed first.
unfoldable pub covered_generation : ℕ → List (List ℕ) → Pinned → Pinned → Dirs → Option Dirs
unfolding is_covered discard_staging build
covered_generation done keys a b s =
    let without_new = record s { new = discard_staging done (some a) } in
    let without_next = record s { next = discard_staging done (some b) } in
    if is_covered a b
    then some (if ltb done calls then without_new else build (done - calls) keys without_new)
    else if is_covered b a
    then some (if ltb done calls then without_next else build (done - calls) keys without_next)
    else none

abbrev pub load_over :
    ℕ → List (List ℕ) → Dirs → Option Pinned → Option Pinned → Option Pinned → Option Dirs
load_over done keys s (some g) new next = none
load_over done keys s none (some a) (some b) = covered_generation done keys a b s
load_over done keys s none (some a) none = some (build done keys s)
load_over done keys s none none next = some (build done keys s)

-- `load` of a policy, with so many of its calls done before it is killed; `none` where it refuses.
unfoldable pub load : ℕ → List (List ℕ) → Dirs → Option Dirs
unfolding covered_generation build
load done keys s = load_over done keys s s.published s.new s.next
