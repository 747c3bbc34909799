-- ===== src/Policy/Tier.antt =====
-- The tier in which a path is enrolled (policy.bpf.h, and `path_map_spec` of bpf-loader.cpp), and
-- what the copying helper is relied on for.
use wireguard_dns_program_sp.Base.{
  ℕ, ◌+◌, ◌<◌, ◌≡◌, ◌≢◌, true, List, [], ◌∷◌, ◌++◌, Option, ltb, if◌then◌else◌, length, arith, Bool,
}
use wireguard_dns_program_sp.Kernel.{Kernel}
use wireguard_dns_program_sp.Policy.{
  PolicyMaps, Reason, resolve_policy, resolve_path, lookup_path, linked_file, strip_deleted,
  verdict, short_path_bytes, path_bytes,
}

-- No byte of a path is NUL.
abbrev pub NoNul : List ℕ → Type 0
NoNul [] = Unit {0}
NoNul (c ∷ cs) = (c ≢ 0) × NoNul cs

-- Documented of bpf_probe_read_kernel_str: a text that fits the size with its NUL is copied
-- whole, and its length with the NUL is returned.
abbrev pub CopiesText : Kernel → Type 0
CopiesText k =
    (size : ℕ) (text rest : List ℕ)
    → NoNul text
    → length text < size
    → k.copy_str size (text ++ 0 ∷ rest) ≡ record { length = length text + 1; bytes = text }

-- `path_map_spec`: keys below 256 bytes live in paths_short, the others in paths.
unfoldable pub enrolled : PolicyMaps → List ℕ → Option ℕ
enrolled s text = if ltb (length text) short_path_bytes then s.paths_short text else s.paths text

pub lookup_path-enrolled :
    (k : Kernel) (s : PolicyMaps) (linked : Bool) (text rest : List ℕ)
    → CopiesText k
    → NoNul text
    → length text < path_bytes
    → lookup_path k s linked (text ++ 0 ∷ rest) (length text + 1) ≡ verdict (enrolled s text) linked
unfolding lookup_path enrolled
lookup_path-enrolled k s linked text rest copies clean fits =
    ground (arith, copies short_path_bytes text rest clean, copies path_bytes text rest clean fits)

-- Only an image that is still linked is classified as included.
pub resolve_policy-included :
    (k : Kernel) (s : PolicyMaps) (exe : ℕ)
    → resolve_policy k s exe ≡ Reason.included
    → linked_file k exe ≡ true
unfolding resolve_policy resolve_path lookup_path strip_deleted
resolve_policy-included k s exe h = ground arith
