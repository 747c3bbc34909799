-- ===== src/Images/Mirror.antt =====
-- The list and the map of the cache have the same keys, each once, and at most 2048.
use wireguard_dns_program_sp.Base.{
  ℕ, ◌≡◌, ◌<◌, ◌≤◌, ◌+◌, refl, ◌∙◌, some, List, [], ◌∷◌, leb, length, Bool-cases, inl, inr, arith,
}
use wireguard_dns_program_sp.Images.Lru.{
  Key, same_key, Cached, Cache, cache_entries, find, without, forget, touch, back, pop_back,
  displaced, displace, entry_of, keep,
}
use wireguard_dns_program_sp.Images.Counts.{
  keys, one_if, count, length-keys, keys-drop_entry, count-without, length-without, count-pop_back,
  popped, stays, length-pop_back, same_key_count, forget_gone, same_key_refl,
}

pub record IsMirrored (c : Cache) : Type 0 where
  pub mirrors : (key : Key) → count key c.recent ≡ count key (keys c.entries)
  pub once : (key : Key) → count key c.recent ≤ 1
  pub lengths : length c.recent ≡ length (keys c.entries)
  pub bounded : length (keys c.entries) ≤ cache_entries

-- The key leaves both.
pub forget-IsMirrored : (key : Key) (c : Cache) → IsMirrored c → IsMirrored (forget key c)
unfolding forget
forget-IsMirrored key c w =
    let gone = keys-drop_entry key c.entries in
    let shorter = length-without key (keys c.entries) in
    record {
      mirrors = λ j.
          count-without j key c.recent
          ∙ rw (gone, count-without j key (keys c.entries), w.mirrors j) refl;
      once = λ j. rw (count-without j key c.recent) (elim (Bool-cases (same_key key j)) [
        | inl e ↦ rw e (omega arith)
        | inr e ↦ rw e (w.once j)
      ]);
      lengths =
          rw gone (omega (arith, length-without key c.recent, shorter, w.mirrors key, w.lengths));
      bounded = rw gone (omega (arith, shorter, w.bounded));
    }

displaced-IsMirrored :
    (recent : List Key) (entries : List (Key × Cached))
    → IsMirrored (record { recent = recent; entries = entries })
    → length entries ≡ cache_entries
    → IsMirrored (displaced recent entries)
      × (length (keys (displaced recent entries).entries) < cache_entries)
displaced-IsMirrored [] entries w full =
    absurd (omega (arith, w.lengths, full, length-keys entries))
displaced-IsMirrored (k ∷ ks) entries w full =
    let b = back k ks in
    let gone = keys-drop_entry b entries in
    let shorter = length-without b (keys entries) in
    let self : count b (pop_back k ks) + 1 ≡ count b (k ∷ ks) = popped b k ks (same_key_refl b) in
    (
      record {
        mirrors = λ j.
            rw (gone, count-without j b (keys entries))
              (elim (Bool-cases (same_key b j)) [
                | inl e ↦ rw e (omega (arith, popped j k ks e, w.once j))
                | inr e ↦ rw e (omega (arith, stays j k ks e, w.mirrors j))
              ]);
        once = λ j. omega (arith, w.once j, count-pop_back j k ks);
        lengths =
            rw gone (
              omega (arith, length-pop_back k ks, shorter, self, w.mirrors b, w.once b, w.lengths));
        bounded = rw gone (omega (arith, shorter, w.bounded));
      },
      rw gone (omega (arith, shorter, self, w.mirrors b, full, length-keys entries)),
    )

displace-IsMirrored :
    (c : Cache)
    → IsMirrored c
    → IsMirrored (displace c) × (length (keys (displace c).entries) < cache_entries)
unfolding displace
displace-IsMirrored c w = elim (Bool-cases (leb cache_entries (length c.entries))) [
  | inl e ↦ rw e (
      displaced-IsMirrored c.recent c.entries w
        (ground (arith, e, w.bounded, length-keys c.entries)))
  | inr e ↦ rw e (w, ground (arith, e, length-keys c.entries))
]

length-forget :
    (key : Key) (c : Cache) → length (keys (forget key c).entries) ≤ length (keys c.entries)
unfolding forget
length-forget key c =
    rw (keys-drop_entry key c.entries) (omega (arith, length-without key (keys c.entries)))

-- A key that is in neither can come to the front of both.
pushed-IsMirrored :
    (key : Key) (entry : Cached) (c : Cache)
    → IsMirrored c
    → count key c.recent ≡ 0
    → length (keys c.entries) < cache_entries
    → IsMirrored (record { recent = key ∷ c.recent; entries = (key, entry) ∷ c.entries })
unfolding count
pushed-IsMirrored key entry c w fresh room = record {
  mirrors = λ j. omega (arith, w.mirrors j);
  once = λ j. elim (Bool-cases (same_key key j)) [
    | inl e ↦ rw e (omega (arith, fresh, same_key_count key j c.recent e))
    | inr e ↦ rw e (omega (arith, w.once j))
  ];
  lengths = omega (arith, w.lengths);
  bounded = omega (arith, room);
}

-- A result that enters leaves the cache in order, and within its bound.
pub keep-IsMirrored :
    (tick : ℕ) (key : Key) (path : List ℕ) (c : Cache)
    → IsMirrored c
    → IsMirrored (keep tick key path c)
unfolding keep
keep-IsMirrored tick key path c w =
    let (displaced_one, room) = displace-IsMirrored c w in
    pushed-IsMirrored key (entry_of tick path) (forget key (displace c))
      (forget-IsMirrored key (displace c) displaced_one) (forget_gone key (displace c))
      (omega (arith, room, length-forget key (displace c)))

find-count :
    (key : Key) (entries : List (Key × Cached)) {c : Cached}
    → find key entries ≡ some c
    → 1 ≤ count key (keys entries)
unfolding find count
find-count key [] h = absurd (cc)
find-count key ((k, c) ∷ entries) h = elim (Bool-cases (same_key k key)) [
  | inl e ↦ rw e (omega arith)
  | inr e ↦ rw e (omega (arith, find-count key entries (rw e at h)))
]

-- What is found comes to the front.
pub touch-IsMirrored :
    (key : Key) (c : Cache) {found : Cached}
    → IsMirrored c
    → find key c.entries ≡ some found
    → IsMirrored (touch key c)
unfolding touch count
touch-IsMirrored key c w h =
    let one : count key c.recent ≡ 1 =
      omega (arith, find-count key c.entries h, w.mirrors key, w.once key) in
    let same : (j : Key)
        → one_if (same_key key j) + count j (without key c.recent) ≡ count j c.recent =
      λ j. elim (Bool-cases (same_key key j)) [
        | inl e ↦
            rw (count-without j key c.recent, e)
              (omega (arith, one, same_key_count key j c.recent e))
        | inr e ↦ rw (count-without j key c.recent, e) (omega arith)
      ] in
    record {
      mirrors = λ j. same j ∙ w.mirrors j;
      once = λ j. omega (arith, same j, w.once j);
      lengths = omega (arith, length-without key c.recent, one, w.lengths);
      bounded = w.bounded;
    }

pub empty-IsMirrored : IsMirrored (record { recent = []; entries = [] })
unfolding count
empty-IsMirrored = record {
  mirrors = λ j. refl;
  once = λ j. omega arith;
  lengths = refl;
  bounded = omega arith;
}
