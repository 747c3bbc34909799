-- ===== src/Loader/Paths/Tiers.antt =====
-- The two maps of paths in bpf-loader.cpp, the keys of fewer than 256 bytes in one and the others in the other.
use wireguard_dns_program_sp.Base.{
  ℕ, Bool, true, false, not, ◌&&◌, ◌||◌, Option, none, some, List, [], ◌∷◌, ◌++◌, if◌then◌else◌,
  length, ltb, leb,
}
use wireguard_dns_program_sp.Policy.{short_path_bytes}
use wireguard_dns_program_sp.Dns.Table.{Table, put, erase}
use wireguard_dns_program_sp.Loader.Pins.{exists}
use wireguard_dns_program_sp.Loader.Pins.Prefix.{among}
use wireguard_dns_program_sp.Loader.Paths.{policy_keys}

-- The maps `paths` and `paths_short`.
pub record PathMaps : Type 0 where
  pub long : Table ℕ
  pub short : Table ℕ

abbrev pub empty_maps : PathMaps
empty_maps = record { long = []; short = [] }

-- `path_map_spec`: which of them has the key.
unfoldable pub is_short : List ℕ → Bool
is_short key = ltb (length key) short_path_bytes

abbrev pub map_of : List ℕ → PathMaps → Table ℕ
map_of key p = if is_short key then p.short else p.long

abbrev pub with_map : List ℕ → Table ℕ → PathMaps → PathMaps
with_map key m p = if is_short key then record p { short = m } else record p { long = m }

abbrev pub is_stored : List ℕ → PathMaps → Bool
is_stored key p = exists key (map_of key p)

-- A hash map of 1024 entries takes no other key once it is full.
unfoldable pub update_elem : List ℕ → Table ℕ → Option (Table ℕ)
unfolding put
update_elem key m =
    if not (exists key m) && leb policy_keys (length m) then none else some (put key 1 m)

abbrev pub updated : List ℕ → PathMaps → Option (Table ℕ) → Option PathMaps
updated key p none = none
updated key p (some m) = some (with_map key m p)

-- With BPF_NOEXIST.
abbrev pub add_new : List ℕ → PathMaps → Option PathMaps
add_new key p = if is_stored key p then none else updated key p (update_elem key (map_of key p))

unfoldable pub add_all : List (List ℕ) → Option PathMaps → Option PathMaps
unfolding update_elem is_short
add_all [] maps = maps
add_all (key ∷ keys) none = none
add_all (key ∷ keys) (some p) = add_all keys (add_new key p)

unfoldable pub initialize_paths : List (List ℕ) → PathMaps → Option PathMaps
unfolding add_all
initialize_paths keys p = if ltb policy_keys (length keys) then none else add_all keys (some p)

abbrev pub in_tier : Bool → List ℕ → Bool
in_tier short key = if short then is_short key else not (is_short key)

-- The keys of one map join those read before; the source's set is a list here, in the order of the reading.
unfoldable pub collect : Bool → Table ℕ → List (List ℕ) → Option (List (List ℕ))
unfolding is_short among
collect short [] entries = some entries
collect short ((key, v) ∷ m) entries =
    let rest = collect short m (entries ++ (key ∷ [])) in
    if not (in_tier short key)
    then none
    else if among key entries || leb policy_keys (length entries)
    then none
    else rest

abbrev pub collect_more : Bool → Table ℕ → Option (List (List ℕ)) → Option (List (List ℕ))
collect_more short m none = none
collect_more short m (some entries) = collect short m entries

unfoldable pub policy_entries : PathMaps → Option (List (List ℕ))
unfolding collect
policy_entries p = collect_more true p.short (collect false p.long [])

abbrev pub has_room : Option (List (List ℕ)) → Bool
has_room none = false
has_room (some entries) = ltb (length entries) policy_keys

unfoldable pub change_path : List ℕ → Bool → PathMaps → Option PathMaps
unfolding policy_entries update_elem erase
change_path key adding p =
    let added = updated key p (update_elem key (map_of key p)) in
    if adding
    then (if not (is_stored key p) && not (has_room (policy_entries p)) then none else added)
    else if is_stored key p
    then some (with_map key (erase key (map_of key p)) p)
    else none
