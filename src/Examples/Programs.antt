-- ===== src/Examples/Programs.antt =====
-- Instances for the policy, the classifier and the guard's programs of src/linux/bpf.
use wireguard_dns_program_sp.Base.{
  ℕ, ◌^◌, ◌≡◌, ◌≢◌, ◌<◌, refl, true, false, Option, some, List, [], codes, arith,
}
use wireguard_dns_program_sp.Base.Lists.{bytes_eq}
use wireguard_dns_program_sp.Policy.{
  PolicyConfig, Reason, resolve_policy, resolve_path, lookup_path, linked_file, policy_select,
  select_in, verdict, passes,
}
use wireguard_dns_program_sp.Policy.Tier.{enrolled}
use wireguard_dns_program_sp.Policy.Paths.{IsPath, resolve_policy-live}
use wireguard_dns_program_sp.Classifier.{
  classify, by_selection, mark_included, finish, supported_socket,
}
use wireguard_dns_program_sp.Classifier.Verdict.{Marked, classify_marks}
use wireguard_dns_program_sp.Policy.{result}
use wireguard_dns_program_sp.Guard.Maps.{Answer}
use wireguard_dns_program_sp.Guard.Roles.{object_role, peer_role, unix_role}
use wireguard_dns_program_sp.Guard.Streams.{Version, tag_of, set_stream_role, stream_storage}
use wireguard_dns_program_sp.Guard.Hooks.{guard_connect, connect_version, connect_role, set_both}
use wireguard_dns_program_sp.Guard.Connect.{guard_connect-refused}
use wireguard_dns_program_sp.Examples.Fixture.{
  copied, a_kernel, a_kernel-CopiesText, a_config, a_policy, some_sockets, some_maps,
}

abbrev bin_a : List ℕ
bin_a = codes "/bin/a"

bin_a-IsPath : IsPath bin_a
bin_a-IsPath = record {
  clean = (
    (λ e. omega arith),
    (
      (λ e. omega arith),
      ((λ e. omega arith), ((λ e. omega arith), ((λ e. omega arith), ((λ e. omega arith), tt)))),
    ),
  );
  absolute = refl;
  proper = omega arith;
}

resolve_policy-live_example :
    resolve_policy a_kernel a_policy 7 ≡ verdict (enrolled a_policy bin_a) true
unfolding linked_file
resolve_policy-live_example =
    resolve_policy-live a_kernel a_policy 7 bin_a [] a_kernel-CopiesText bin_a-IsPath (omega arith)
      refl refl refl

selected : policy_select a_kernel a_policy ≡ Reason.included
unfolding policy_select select_in resolve_policy resolve_path lookup_path linked_file copied
    bytes_eq
selected = refl

granted : (classify a_kernel some_sockets 21 2 1 6 false).1 ≡ true
unfolding classify by_selection mark_included finish result policy_select select_in resolve_policy
    resolve_path lookup_path linked_file copied bytes_eq
granted = refl

a_config-mask : (cfg : PolicyConfig) → some a_config ≡ some cfg → cfg.mask < 2 ^ 32
a_config-mask cfg e = let same : a_config.mask ≡ cfg.mask = cc in omega (arith, same)

classify_marks_example :
    (cfg : PolicyConfig) × (some_sockets.maps.policy_cfg ≡ some cfg)
    × (cfg.ready ≢ 0)
    × (supported_socket 2 1 6 ≡ true)
    × Marked cfg
        (some_sockets.so_mark (a_kernel.socket_sk 21))
        ((classify a_kernel some_sockets 21 2 1 6 false).0.so_mark (a_kernel.socket_sk 21))
classify_marks_example =
    classify_marks a_kernel some_sockets 21 2 1 6 a_config-mask refl selected granted

refused_ipv6 : (classify a_kernel some_sockets 21 10 1 6 false).1 ≡ false
unfolding classify by_selection mark_included finish result policy_select select_in resolve_policy
    resolve_path lookup_path linked_file copied bytes_eq
refused_ipv6 = refl

abbrev cache_role : Option ℕ
cache_role = (object_role a_kernel some_maps 9 9).1

abbrev now : Version
now = record { topology = 5; configuration = 2 ^ 62 }

selected-denied : passes (policy_select a_kernel a_policy) ≡ false
selected-denied = rw selected refl

guard_connect-refused_example :
    (guard_connect a_kernel some_maps 40 30 41 Answer.okay).1 ≡ Answer.eacces
unfolding peer_role unix_role object_role
guard_connect-refused_example =
    guard_connect-refused a_kernel some_maps 40 30 41 1 now refl refl refl selected-denied

connected : (guard_connect a_kernel some_maps 40 31 41 Answer.okay).1 ≡ Answer.okay
unfolding guard_connect connect_version connect_role set_both set_stream_role stream_storage tag_of
    peer_role unix_role object_role
connected = refl
