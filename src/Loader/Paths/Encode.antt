-- ===== src/Loader/Paths/Encode.antt =====
-- The records that `read_policy_stdin` of bpf-loader.cpp is given.
use wireguard_dns_program_sp.Base.{
  ℕ, ◌≡◌, ◌≤◌, refl, sym, ap, ◌∙◌, Bool, true, false, not, ◌&&◌, ◌||◌, List, [], ◌∷◌, ◌++◌, ◌==◌,
  length, arith,
}
use mathlib.Core.List.{append_assoc}
use wireguard_dns_program_sp.Base.Lists.{bytes_eq}
use wireguard_dns_program_sp.Loader.Pins.Prefix.{among, all_distinct}
use wireguard_dns_program_sp.Loader.Paths.{policy_keys, is_stored_key, is_blank}

-- Each key with a zero byte behind it.
abbrev pub encode : List (List ℕ) → List ℕ
encode [] = []
encode (key ∷ keys) = key ++ (0 ∷ encode keys)

unfoldable pub no_zero : List ℕ → Bool
no_zero [] = true
no_zero (c ∷ text) = let rest = no_zero text in not (c == 0) && rest

unfoldable pub all_keys : List (List ℕ) → Bool
unfolding no_zero is_stored_key
all_keys [] = true
all_keys (key ∷ keys) = let rest = all_keys keys in (no_zero key && is_stored_key key) && rest

pub bytes_eq_sym : (a b : List ℕ) → bytes_eq a b ≡ bytes_eq b a
unfolding bytes_eq
bytes_eq_sym [] [] = refl
bytes_eq_sym [] (y ∷ b) = refl
bytes_eq_sym (x ∷ a) [] = refl
bytes_eq_sym (x ∷ a) (y ∷ b) = ground (arith, bytes_eq_sym a b)

pub among-append :
    (n : List ℕ) (xs ys : List (List ℕ)) → among n (xs ++ ys) ≡ (among n xs || among n ys)
unfolding among
among-append n [] ys = refl
among-append n (x ∷ xs) ys = ground (arith, among-append n xs ys)

pub distinct_snoc :
    (xs : List (List ℕ)) (n : List ℕ)
    → all_distinct xs ≡ true
    → among n xs ≡ false
    → all_distinct (xs ++ (n ∷ [])) ≡ true
unfolding all_distinct among
distinct_snoc [] n h fresh = refl
distinct_snoc (m ∷ xs) n h fresh =
    let rest = distinct_snoc xs n (ground (arith, h)) (ground (arith, fresh)) in
    ground (arith, rest, among-append m xs (n ∷ []), bytes_eq_sym n m, h, fresh)

pub distinct_middle :
    (xs : List (List ℕ)) (n : List ℕ) (ys : List (List ℕ))
    → all_distinct (xs ++ (n ∷ ys)) ≡ true
    → among n xs ≡ false
unfolding all_distinct among
distinct_middle [] n ys h = refl
distinct_middle (m ∷ xs) n ys h =
    let rest = distinct_middle xs n ys (ground (arith, h)) in
    ground (arith, rest, among-append m xs (n ∷ ys), bytes_eq_sym n m, h)

pub all_keys_snoc :
    (keys : List (List ℕ)) (key : List ℕ)
    → all_keys keys ≡ true
    → (no_zero key && is_stored_key key) ≡ true
    → all_keys (keys ++ (key ∷ [])) ≡ true
unfolding all_keys
all_keys_snoc [] key h k = ground (arith, k)
all_keys_snoc (k' ∷ keys) key h k = ground (arith, h, all_keys_snoc keys key (ground (arith, h)) k)

pub no_zero_snoc :
    (text : List ℕ) (c : ℕ)
    → no_zero text ≡ true
    → (c == 0) ≡ false
    → no_zero (text ++ (c ∷ [])) ≡ true
unfolding no_zero
no_zero_snoc [] c h k = ground (arith, k)
no_zero_snoc (d ∷ text) c h k = ground (arith, h, no_zero_snoc text c (ground (arith, h)) k)

pub encode_snoc :
    (keys : List (List ℕ)) (key input : List ℕ)
    → encode (keys ++ (key ∷ [])) ++ input ≡ encode keys ++ (key ++ (0 ∷ input))
encode_snoc [] key input = append_assoc key (0 ∷ []) input
encode_snoc (k ∷ keys) key input =
    append_assoc k (0 ∷ encode (keys ++ (key ∷ []))) input
    ∙ ap (λ (x : List ℕ). k ++ (0 ∷ x)) (encode_snoc keys key input)
    ∙ sym (append_assoc k (0 ∷ encode keys) (key ++ (0 ∷ input)))

pub blank : (text : List ℕ) → is_blank text ≡ true → text ≡ []
blank [] h = refl
blank (c ∷ text) h = absurd (cc)

-- What is accepted: the records of keys that are stored keys, none of them twice, and at most 1024.
abbrev pub IsPolicy : List (List ℕ) → Type 0
IsPolicy keys = (all_keys keys ≡ true) × (all_distinct keys ≡ true) × (length keys ≤ policy_keys)
