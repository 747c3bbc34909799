-- ===== src/Examples/Labels.antt =====
-- Instances for the cache of roles and the stream labels of resolver_guard.bpf.c.
use wireguard_dns_program_sp.Base.{
  ℕ, ◌+◌, ◌^◌, ◌≡◌, refl, true, false, some, ◌==◌, arith, Bool-cases, inl, inr,
}
use mathlib.Core.Path.{subst}
use wireguard_dns_program_sp.Guard.Names.{
  dentry_role, role_by_name, cache_rules, socket_rules, name_is,
}
use wireguard_dns_program_sp.Guard.Roles.{object_role}
use wireguard_dns_program_sp.Guard.Roles.Exact.{
  OneName, Exact, resolved_role, object_role-resolved_role,
}
use wireguard_dns_program_sp.Guard.Roles.Kept.{Past, object_role-Exact, invalidate_streams-Exact}
use wireguard_dns_program_sp.Guard.Hooks.{invalidate_streams}
use wireguard_dns_program_sp.Guard.Streams.{Version, StreamRole, label_word, tag_of}
use wireguard_dns_program_sp.Guard.Race.{
  Phase, World, Reach, initial, move, begin, resolve, publish, change, invalidate, here, next,
}
use wireguard_dns_program_sp.Guard.Race.Safety.{admits, no_stale_safe}
use wireguard_dns_program_sp.Examples.Fixture.{a_kernel, some_maps}

abbrev same_number : ℕ → ℕ
same_number i = i

a_kernel-OneName : OneName a_kernel same_number
a_kernel-OneName d one = refl

no_role_of_12 : (dentry_role a_kernel some_maps 12).role ≡ 0
unfolding dentry_role role_by_name cache_rules socket_rules name_is
no_role_of_12 = refl

some_maps-Exact : Exact a_kernel same_number some_maps
some_maps-Exact = record {
  hit = λ i c g ec eg stable found. elim (Bool-cases (i == 12)) [
    | inl it ↦
        subst (λ (j : ℕ). (dentry_role a_kernel some_maps j).role ≡ 0) (ground arith) no_role_of_12
    | inr other ↦ let no = rw other at found in absurd (cc)
  ];
}

object_role-resolved_role_example :
    (object_role a_kernel some_maps 12 12).1 ≡ resolved_role a_kernel some_maps 12 12
object_role-resolved_role_example =
    object_role-resolved_role a_kernel same_number some_maps 12 a_kernel-OneName some_maps-Exact

object_role-Exact_example : Exact a_kernel same_number (object_role a_kernel some_maps 13 13).0
object_role-Exact_example =
    object_role-Exact a_kernel same_number some_maps 13 a_kernel-OneName some_maps-Exact

some_maps-Past : Past some_maps (2 ^ 62 + 5)
some_maps-Past key e found = elim (Bool-cases (key.inode == 12)) [
  | inl it ↦ let made = rw it at found in ground arith
  | inr other ↦ let no = rw other at found in absurd (cc)
]

invalidate_streams-Exact_example : Exact a_kernel same_number (invalidate_streams some_maps)
invalidate_streams-Exact_example =
    invalidate_streams-Exact a_kernel same_number some_maps (2 ^ 62) 5 refl refl (omega arith)
      some_maps-Past

abbrev before : Version
before = record { topology = 5; configuration = 2 ^ 62 }

abbrev later : Version
later = record { topology = 6; configuration = 2 ^ 62 }

-- A relabel publishes SAFE, then the endpoint becomes protected and the generation advances.
abbrev w0 : World
w0 = initial before false

abbrev w1 : World
w1 = record w0 { phase = move w0.phase 0 (Phase.snapshot before) }

abbrev w2 : World
w2 = record w1 { phase = move w1.phase 0 (Phase.resolved before StreamRole.safe) }

abbrev w3 : World
w3 = record w2 {
  phase = move w2.phase 0 Phase.idle;
  label = some (label_word before StreamRole.safe);
}

abbrev w4 : World
w4 = record w3 { now = record { version = before; protected = true; pending = 1 } }

abbrev w5 : World
w5 = record w4 { now = record { version = later; protected = true; pending = 0 } }

raced : Reach w0 w5
unfolding tag_of label_word
raced =
    let a : Reach w0 w1 = next here (begin 0 refl) in
    let b : Reach w0 w2 = next a (resolve 0 0 refl refl) in
    let c : Reach w0 w3 = next b (publish 0 refl refl) in
    let d : Reach w0 w4 = next c (change true) in next d (invalidate refl)

no_stale_safe_example : admits (some (label_word before StreamRole.safe)) later ≡ false
no_stale_safe_example = no_stale_safe raced (omega arith) refl refl
