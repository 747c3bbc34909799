-- ===== src/Loader/Paths.antt =====
-- The paths of the policy in bpf-loader.cpp: how a policy comes in and where its paths are stored.
pub mod Records
pub mod Tiers
pub mod Stored
pub mod Replace
pub mod Change
pub mod Encode
use wireguard_dns_program_sp.Base.{
  ℕ, zero, suc, ◌+◌, ◌-◌, ◌*◌, Bool, true, false, not, ◌&&◌, ◌||◌, Option, none, some, List, [],
  ◌∷◌, ◌++◌, ◌==◌, if◌then◌else◌, codes, length, ltb, leb,
}
use wireguard_dns_program_sp.Policy.{path_bytes}
use wireguard_dns_program_sp.Base.Lists.{bytes_eq}
use wireguard_dns_program_sp.Loader.Pins.Prefix.{among}

abbrev pub policy_keys : ℕ
policy_keys = 1024

abbrev pub slash : ℕ
slash = 47

-- What stands between the slashes; `part` is what was read of the component so far.
unfoldable pub components : List ℕ → List ℕ → List (List ℕ)
components part [] = part ∷ []
components part (c ∷ text) =
    let ended = components [] text in
    let longer = components (part ++ (c ∷ [])) text in if c == slash then part ∷ ended else longer

-- `lexically_normal` leaves an absolute path without a trailing slash as it is where each of its components
-- is one of these.
unfoldable pub is_name : List ℕ → Bool
unfolding bytes_eq
is_name text = not (bytes_eq text [] || bytes_eq text (codes ".") || bytes_eq text (codes ".."))

unfoldable pub all_names : List (List ℕ) → Bool
unfolding is_name
all_names [] = true
all_names (c ∷ cs) = let rest = all_names cs in is_name c && rest

-- The checks of `path_key` on a path that names a stored key.
unfoldable pub is_stored_key : List ℕ → Bool
unfolding all_names components
is_stored_key [] = false
is_stored_key (c ∷ text) =
    c == slash && all_names (components [] text) && ltb (length (c ∷ text)) path_bytes

unfoldable pub ends_in_slash : List ℕ → Bool
ends_in_slash [] = false
ends_in_slash (c ∷ []) = c == slash
ends_in_slash (c ∷ d ∷ text) = ends_in_slash (d ∷ text)

abbrev pub is_blank : List ℕ → Bool
is_blank [] = true
is_blank (c ∷ text) = false

-- The end of a record: its key joins those before.
abbrev pub refused : List (List ℕ) → List ℕ → Bool
refused keys current =
    leb policy_keys (length keys)
    || is_blank current
    || ends_in_slash current
    || among current keys
    || not (is_stored_key current)

-- The loop of `read_policy_stdin`; `eof` tells whether the stream came to its end.
unfoldable pub read_records : Bool → List ℕ → ℕ → List (List ℕ) → List ℕ → Option (List (List ℕ))
unfolding is_stored_key ends_in_slash among
read_records eof [] total keys current = if eof && is_blank current then some keys else none
read_records eof (byte ∷ input) total keys current =
    let ended = read_records eof input (total + 1) (keys ++ (current ∷ [])) [] in
    let longer = read_records eof input (total + 1) keys (current ++ (byte ∷ [])) in
    if ltb (policy_keys * path_bytes) (total + 1)
    then none
    else if not (byte == 0)
    then (if leb (path_bytes - 1) (length current) then none else longer)
    else if refused keys current
    then none
    else ended

unfoldable pub read_policy_stdin : Bool → List ℕ → Option (List (List ℕ))
unfolding read_records
read_policy_stdin eof input = read_records eof input 0 [] []
