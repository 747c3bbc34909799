-- ===== src/Examples/Policies.antt =====
-- Instances for the paths of the policy in bpf-loader.cpp: a policy of two paths is read and loaded, and a third
-- path is added.
use wireguard_dns_program_sp.Base.{
  ℕ, ◌≡◌, ◌↔◌, ◌⊎◌, refl, true, false, ◌&&◌, ◌||◌, none, some, List, [], ◌∷◌, ◌++◌, if◌then◌else◌,
  ltb, arith, codes,
}
use wireguard_dns_program_sp.Base.Lists.{bytes_eq}
use wireguard_dns_program_sp.Dns.Table.{lookup}
use wireguard_dns_program_sp.Loader.Pins.Prefix.{among, all_distinct}
use wireguard_dns_program_sp.Loader.Paths.{
  policy_keys, read_policy_stdin, is_stored_key, components, is_name, all_names,
}
use wireguard_dns_program_sp.Loader.Paths.Encode.{encode, no_zero, all_keys, IsPolicy}
use wireguard_dns_program_sp.Loader.Paths.Records.{read_policy_stdin-encode}
use wireguard_dns_program_sp.Loader.Paths.Tiers.{
  PathMaps, empty_maps, is_short, is_stored, initialize_paths, policy_entries, change_path,
}
use wireguard_dns_program_sp.Loader.Paths.Stored.{tier_ok, IsTiered}
use wireguard_dns_program_sp.Loader.Paths.Replace.{total}
use wireguard_dns_program_sp.Loader.Paths.Change.{
  policy_entries-initialize_paths, is_stored-change_path,
}

abbrev two_paths : List (List ℕ)
two_paths = codes "/usr/bin/curl" ∷ codes "/opt/app" ∷ []

abbrev one_stored : PathMaps
one_stored = record { long = []; short = (codes "/opt/app", 1) ∷ [] }

one_stored-IsTiered : IsTiered one_stored
unfolding tier_ok lookup is_short
one_stored-IsTiered = record { longs = refl; shorts = refl; room = omega arith }

read_policy_stdin-encode_example :
    (read_policy_stdin true (codes "/usr/bin/curl" ++ (0 ∷ [])) ≡ some (codes "/usr/bin/curl" ∷ []))
    ↔ ((true ≡ true)
        × (codes "/usr/bin/curl" ++ (0 ∷ []) ≡ encode (codes "/usr/bin/curl" ∷ []))
        × IsPolicy (codes "/usr/bin/curl" ∷ []))
read_policy_stdin-encode_example =
    read_policy_stdin-encode true (codes "/usr/bin/curl" ++ (0 ∷ [])) (codes "/usr/bin/curl" ∷ [])

policy_entries-initialize_paths_example :
    (p : PathMaps) × (entries : List (List ℕ)) × (((initialize_paths two_paths empty_maps ≡ some p)
        × (policy_entries p ≡ some entries))
      × (IsTiered p × (among (codes "/opt/app") entries ≡ among (codes "/opt/app") two_paths)))
unfolding all_keys no_zero is_stored_key components is_name all_names all_distinct among bytes_eq
policy_entries-initialize_paths_example =
    policy_entries-initialize_paths two_paths (codes "/opt/app") (refl, refl, omega arith)

is_stored-change_path_example :
    ((is_stored (codes "/usr/bin/curl") one_stored || true && ltb (total one_stored) policy_keys)
        ≡ true)
      × ((q : PathMaps) × ((change_path (codes "/usr/bin/curl") true one_stored ≡ some q)
            × (IsTiered q
                × (is_stored (codes "/opt/app") q ≡ (
                    if bytes_eq (codes "/usr/bin/curl") (codes "/opt/app")
                    then true
                    else is_stored (codes "/opt/app") one_stored)))))
    ⊎ ((is_stored (codes "/usr/bin/curl") one_stored || true && ltb (total one_stored) policy_keys)
        ≡ false)
      × (change_path (codes "/usr/bin/curl") true one_stored ≡ none)
is_stored-change_path_example =
    is_stored-change_path (codes "/usr/bin/curl") (codes "/opt/app") true one_stored
      one_stored-IsTiered
