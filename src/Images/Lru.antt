-- ===== src/Images/Lru.antt =====
-- The cache of src/native/dns-image-resolver.h: what is known of each process, and the order in which it
-- was last asked for.
use wireguard_dns_program_sp.Base.{
  ℕ, ◌+◌, Bool, ◌&&◌, Option, none, some, List, [], ◌∷◌, ◌==◌, ◌!=◌, if◌then◌else◌, leb, length,
}

pub record Key : Type 0 where
  pub pid : ℕ
  pub created : ℕ

unfoldable pub same_key : Key → Key → Bool
same_key a b = a.pid == b.pid && a.created == b.created

pub data Status : Type 0 where
  known pending unavailable : Status

pub record Result : Type 0 where
  pub path : List ℕ
  pub status : Status

-- `expires` is 0 where the entry stays until it is displaced.
pub record Cached : Type 0 where
  pub result : Result
  pub expires : ℕ

-- `recent` has the key that was asked for last at its front.
pub record Cache : Type 0 where
  pub recent : List Key
  pub entries : List (Key × Cached)

abbrev pub cache_entries : ℕ
cache_entries = 2048

unfoldable pub find : Key → List (Key × Cached) → Option Cached
unfolding same_key
find key [] = none
find key ((k, c) ∷ entries) = let rest = find key entries in if same_key k key then some c else rest

-- A key leaves the list and the map.
unfoldable pub without : Key → List Key → List Key
unfolding same_key
without key [] = []
without key (k ∷ keys) = let rest = without key keys in if same_key k key then rest else k ∷ rest

unfoldable pub drop_entry : Key → List (Key × Cached) → List (Key × Cached)
unfolding same_key
drop_entry key [] = []
drop_entry key ((k, c) ∷ entries) =
    let rest = drop_entry key entries in if same_key k key then rest else (k, c) ∷ rest

abbrev pub is_over : Cached → ℕ → Bool
is_over found now = found.expires != 0 && leb found.expires now

unfoldable pub forget : Key → Cache → Cache
unfolding without drop_entry
forget key c = record { recent = without key c.recent; entries = drop_entry key c.entries }

unfoldable pub touch : Key → Cache → Cache
unfolding without
touch key c = record c { recent = key ∷ without key c.recent }

-- The key at the back of the list, and the list without it.
unfoldable pub back : Key → List Key → Key
back k [] = k
back k (k' ∷ keys) = back k' keys

unfoldable pub pop_back : Key → List Key → List Key
pop_back k [] = []
pop_back k (k' ∷ keys) = k ∷ pop_back k' keys

abbrev pub displaced : List Key → List (Key × Cached) → Cache
displaced [] entries = record { recent = []; entries = entries }
displaced (k ∷ keys) entries = record {
  recent = pop_back k keys;
  entries = drop_entry (back k keys) entries;
}

-- The list is not empty where the map is full: Images/Mirror has that.
unfoldable pub displace : Cache → Cache
unfolding drop_entry pop_back back
displace c = if leb cache_entries (length c.entries) then displaced c.recent c.entries else c

abbrev pub entry_of : ℕ → List ℕ → Cached
entry_of tick [] = record {
  result = record { path = []; status = Status.unavailable };
  expires = tick + 1000;
}
entry_of tick path = record { result = record { path = path; status = Status.known }; expires = 0 }

-- One job's result enters the cache.
unfoldable pub keep : ℕ → Key → List ℕ → Cache → Cache
unfolding displace forget
keep tick key path c =
    let rest = forget key (displace c) in
    record { recent = key ∷ rest.recent; entries = (key, entry_of tick path) ∷ rest.entries }
