-- ===== src/Images/Counts.antt =====
-- How often a key stands in the list and in the map of the cache of dns-image-resolver.h.
use wireguard_dns_program_sp.Base.{
  ℕ, ◌≡◌, ◌+◌, refl, ap, Bool, true, false, List, [], ◌∷◌, if◌then◌else◌, length, Bool-cases, inl,
  inr, arith,
}
use mathlib.Core.Path.{subst}
use wireguard_dns_program_sp.Images.Lru.{
  Key, same_key, Cached, Cache, without, drop_entry, forget, back, pop_back,
}

abbrev pub keys : List (Key × Cached) → List Key
keys [] = []
keys ((k, c) ∷ entries) = k ∷ keys entries

abbrev pub one_if : Bool → ℕ
one_if true = 1
one_if false = 0

-- How often a key stands in a list.
unfoldable pub count : Key → List Key → ℕ
unfolding same_key
count key [] = 0
count key (k ∷ ks) = let rest = count key ks in one_if (same_key k key) + rest

same_key_apart : (a b c : Key) → same_key a b ≡ true → same_key b c ≡ same_key a c
unfolding same_key
same_key_apart a b c h = ground (arith, h)

same_key_meet : (a b c : Key) → same_key a b ≡ false → same_key b c ≡ true → same_key a c ≡ false
unfolding same_key
same_key_meet a b c h e = ground (arith, h, e)

pub same_key_right : (k a b : Key) → same_key a b ≡ true → same_key k a ≡ same_key k b
unfolding same_key
same_key_right k a b h = ground (arith, h)

pub same_key_refl : (a : Key) → same_key a a ≡ true
unfolding same_key
same_key_refl a = ground arith

pub length-keys : (entries : List (Key × Cached)) → length (keys entries) ≡ length entries
length-keys [] = refl
length-keys ((k, c) ∷ entries) = ground (arith, length-keys entries)

pub keys-drop_entry :
    (key : Key) (entries : List (Key × Cached))
    → keys (drop_entry key entries) ≡ without key (keys entries)
unfolding drop_entry without
keys-drop_entry key [] = refl
keys-drop_entry key ((k, c) ∷ entries) = elim (Bool-cases (same_key k key)) [
  | inl e ↦ rw e (keys-drop_entry key entries)
  | inr e ↦ rw e (ap (λ (ks : List Key). k ∷ ks) (keys-drop_entry key entries))
]

pub count-without :
    (j key : Key) (ks : List Key)
    → count j (without key ks) ≡ (if same_key key j then 0 else count j ks)
unfolding count without
count-without j key [] = ground arith
count-without j key (k ∷ ks) = elim (Bool-cases (same_key k key)) [
  | inl e ↦ rw e (ground (arith, count-without j key ks, same_key_apart k key j e))
  | inr e ↦ rw e (elim (Bool-cases (same_key key j)) [
    | inl f ↦ rw f (ground (arith, count-without j key ks, f, same_key_meet k key j e f))
    | inr f ↦ rw f (ground (arith, count-without j key ks, f))
  ])
]

pub length-without :
    (key : Key) (ks : List Key) → length (without key ks) + count key ks ≡ length ks
unfolding count without
length-without key [] = refl
length-without key (k ∷ ks) = elim (Bool-cases (same_key k key)) [
  | inl e ↦ rw e (ground (arith, length-without key ks))
  | inr e ↦ rw e (ground (arith, length-without key ks))
]

pub count-pop_back :
    (j k : Key) (ks : List Key)
    → count j (pop_back k ks) + one_if (same_key (back k ks) j) ≡ count j (k ∷ ks)
unfolding count pop_back back
count-pop_back j k [] = ground arith
count-pop_back j k (k' ∷ ks) = ground (arith, count-pop_back j k' ks)

pub popped :
    (j k : Key) (ks : List Key)
    → same_key (back k ks) j ≡ true
    → count j (pop_back k ks) + 1 ≡ count j (k ∷ ks)
popped j k ks e =
    subst (λ (x : Bool). count j (pop_back k ks) + one_if x ≡ count j (k ∷ ks)) e
      (count-pop_back j k ks)

pub stays :
    (j k : Key) (ks : List Key)
    → same_key (back k ks) j ≡ false
    → count j (pop_back k ks) + 0 ≡ count j (k ∷ ks)
stays j k ks e =
    subst (λ (x : Bool). count j (pop_back k ks) + one_if x ≡ count j (k ∷ ks)) e
      (count-pop_back j k ks)

pub length-pop_back : (k : Key) (ks : List Key) → length (pop_back k ks) ≡ length ks
unfolding pop_back
length-pop_back k [] = refl
length-pop_back k (k' ∷ ks) = ground (arith, length-pop_back k' ks)

-- Keys that are the same are counted the same.
pub same_key_count : (a b : Key) (ks : List Key) → same_key a b ≡ true → count a ks ≡ count b ks
unfolding count
same_key_count a b [] h = refl
same_key_count a b (k ∷ ks) h =
    rw (same_key_right k a b h)
      (ap (λ (n : ℕ). one_if (same_key k b) + n) (same_key_count a b ks h))

pub forget_gone : (key : Key) (c : Cache) → count key (forget key c).recent ≡ 0
unfolding forget
forget_gone key c = rw (count-without key key c.recent, same_key_refl key) refl
