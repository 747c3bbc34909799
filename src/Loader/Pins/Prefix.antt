-- ===== src/Loader/Pins/Prefix.antt =====
-- What interrupted loads and removals leave of the pin order.
use wireguard_dns_program_sp.Base.{
  ℕ, zero, suc, ◌≡◌, refl, sym, ap, ◌∙◌, Bool, true, false, not, ◌&&◌, ◌||◌, some, List, [], ◌∷◌,
  ◌++◌, Bool-cases, inl, inr, arith, bytes_eq_refl, bytes_eq_sound,
}
use wireguard_dns_program_sp.Base.Lists.{bytes_eq}
use wireguard_dns_program_sp.Dns.Table.{Table, lookup, erase}
use wireguard_dns_program_sp.Loader.Pins.{is_found, exists, pin_all, unpin_all, reverse_onto}

-- No name stands twice in a list.
unfoldable pub among : List ℕ → List (List ℕ) → Bool
among name [] = false
among name (n ∷ names) = let rest = among name names in bytes_eq name n || rest

unfoldable pub all_distinct : List (List ℕ) → Bool
unfolding among
all_distinct [] = true
all_distinct (n ∷ names) = let rest = all_distinct names in not (among n names) && rest

-- A name is equal to at most one of two that differ.
bytes_eq_apart : (k m n : List ℕ) → bytes_eq k m ≡ false → (bytes_eq k n && bytes_eq m n) ≡ false
bytes_eq_apart k m n h = elim (Bool-cases (bytes_eq k n)) [
  | inl e ↦ elim (Bool-cases (bytes_eq m n)) [
    | inl f ↦
        let same : k ≡ m = bytes_eq_sound k n e ∙ sym (bytes_eq_sound m n f) in
        let equal : bytes_eq k m ≡ true =
          ap (λ (x : List ℕ). bytes_eq k x) (sym same) ∙ bytes_eq_refl k in
        absurd (cc)
    | inr f ↦ rw (e, f) refl
  ]
  | inr e ↦ rw e refl
]

module _ {Entry : Type 0} where
  -- All of the names are pinned, or none is.
  abbrev pub AllPresent : List (List ℕ) → Table Entry → Type 0
  AllPresent [] dir = Unit {0}
  AllPresent (n ∷ names) dir = (exists n dir ≡ true) × AllPresent names dir

  abbrev pub AllAbsent : List (List ℕ) → Table Entry → Type 0
  AllAbsent [] dir = Unit {0}
  AllAbsent (n ∷ names) dir = (exists n dir ≡ false) × AllAbsent names dir

  -- In pin order: some that are pinned, and behind them none.
  pub data IsPrefix (dir : Table Entry) : List (List ℕ) → Type 0 where
    prefix-end : {names : List (List ℕ)} → AllAbsent names dir → IsPrefix dir names
    prefix-pinned :
        {n : List ℕ} {names : List (List ℕ)}
        → exists n dir ≡ true
        → IsPrefix dir names
        → IsPrefix dir (n ∷ names)

  -- In removal order: some that are gone, and behind them all that are pinned.
  pub data IsSuffix (dir : Table Entry) : List (List ℕ) → Type 0 where
    suffix-pinned : {names : List (List ℕ)} → AllPresent names dir → IsSuffix dir names
    suffix-gone :
        {n : List ℕ} {names : List (List ℕ)}
        → exists n dir ≡ false
        → IsSuffix dir names
        → IsSuffix dir (n ∷ names)

  reverse-AllAbsent :
      (dir : Table Entry) (names done : List (List ℕ))
      → AllAbsent names dir
      → IsSuffix dir done
      → IsSuffix dir (reverse_onto names done)
  reverse-AllAbsent dir [] done absent s = s
  reverse-AllAbsent dir (n ∷ names) done absent s =
      reverse-AllAbsent dir names (n ∷ done) absent.1 (suffix-gone absent.0 s)

  -- Read backwards, the one is the other.
  pub reverse-IsSuffix :
      (dir : Table Entry) {names : List (List ℕ)} (done : List (List ℕ))
      → IsPrefix dir names
      → AllPresent done dir
      → IsSuffix dir (reverse_onto names done)
  reverse-IsSuffix dir done (prefix-end {names} absent) present =
      reverse-AllAbsent dir names done absent (suffix-pinned present)
  reverse-IsSuffix dir done (prefix-pinned {n} {names} here p) present =
      reverse-IsSuffix dir (n ∷ done) p (here, present)

  found_here :
      (n k : List ℕ) (v : Entry) (dir : Table Entry)
      → bytes_eq k n ≡ true
      → lookup n ((k, v) ∷ dir) ≡ some v
  unfolding lookup
  found_here n k v dir h = rw h refl

  found_behind :
      (n k : List ℕ) (v : Entry) (dir : Table Entry)
      → bytes_eq k n ≡ false
      → lookup n ((k, v) ∷ dir) ≡ lookup n dir
  unfolding lookup
  found_behind n k v dir h = rw h refl

  pub exists_head :
      (n k : List ℕ) (v : Entry) (dir : Table Entry)
      → exists n ((k, v) ∷ dir) ≡ (bytes_eq k n || exists n dir)
  exists_head n k v dir = elim (Bool-cases (bytes_eq k n)) [
    | inl h ↦ rw h (ap is_found (found_here n k v dir h))
    | inr h ↦ rw h (ap is_found (found_behind n k v dir h))
  ]

  exists-append :
      (n m : List ℕ) (e : Entry) (dir : Table Entry)
      → exists n (dir ++ ((m, e) ∷ [])) ≡ (exists n dir || bytes_eq m n)
  exists-append n m e [] = exists_head n m e [] ∙ ground arith
  exists-append n m e ((k, v) ∷ dir) =
      exists_head n k v (dir ++ ((m, e) ∷ []))
      ∙ ground (arith, exists-append n m e dir, exists_head n k v dir)

  pub exists-erase :
      (n m : List ℕ) (dir : Table Entry)
      → exists n (erase m dir) ≡ (exists n dir && not (bytes_eq m n))
  unfolding erase lookup
  exists-erase n m [] = refl
  exists-erase n m ((k, v) ∷ dir) = elim (Bool-cases (bytes_eq k m)) [
    | inl h ↦
        let same : bytes_eq k n ≡ bytes_eq m n =
          ap (λ (x : List ℕ). bytes_eq x n) (bytes_eq_sound k m h) in
        rw h (ground (arith, exists-erase n m dir, exists_head n k v dir, same))
    | inr h ↦
        let other : (bytes_eq k n && bytes_eq m n) ≡ false = bytes_eq_apart k m n h in
        rw h (
          ground (
            arith,
            exists-erase n m dir,
            exists_head n k v dir,
            exists_head n k v (erase m dir),
            other,
          ))
  ]

  pin_all_kept :
      (done : ℕ) (object : List ℕ → Entry) (names : List (List ℕ)) (dir : Table Entry) (n : List ℕ)
      → exists n dir ≡ true
      → exists n (pin_all done object names dir) ≡ true
  unfolding pin_all
  pin_all_kept done object [] dir n h = h
  pin_all_kept zero object (m ∷ names) dir n h = h
  pin_all_kept (suc done) object (m ∷ names) dir n h =
      pin_all_kept done object names (dir ++ ((m, object m) ∷ [])) n
        (ground (arith, exists-append n m (object m) dir, h))

  append-AllAbsent :
      (m : List ℕ) (e : Entry) (names : List (List ℕ)) (dir : Table Entry)
      → among m names ≡ false
      → AllAbsent names dir
      → AllAbsent names (dir ++ ((m, e) ∷ []))
  unfolding among
  append-AllAbsent m e [] dir fresh absent = tt
  append-AllAbsent m e (n ∷ names) dir fresh absent = (
    ground (arith, exists-append n m e dir, absent.0, fresh),
    append-AllAbsent m e names dir (ground arith) absent.1,
  )

  -- A load that stops anywhere has pinned the first names of the order.
  pub pin_all-IsPrefix :
      (done : ℕ) (object : List ℕ → Entry) (names : List (List ℕ)) (dir : Table Entry)
      → all_distinct names ≡ true
      → AllAbsent names dir
      → IsPrefix (pin_all done object names dir) names
  unfolding pin_all all_distinct
  pin_all-IsPrefix done object [] dir distinct absent = prefix-end tt
  pin_all-IsPrefix zero object (n ∷ names) dir distinct absent = prefix-end absent
  pin_all-IsPrefix (suc done) object (n ∷ names) dir distinct absent =
      let grown = dir ++ ((n, object n) ∷ []) in
      prefix-pinned
        (pin_all_kept done object names grown n
          (ground (arith, exists-append n n (object n) dir, bytes_eq_refl n)))
        (pin_all-IsPrefix done object names grown (ground arith)
          (append-AllAbsent n (object n) names dir (ground arith) absent.1))

  unpin_all_gone :
      (done : ℕ) (names : List (List ℕ)) (dir : Table Entry) (n : List ℕ)
      → exists n dir ≡ false
      → exists n (unpin_all done names dir) ≡ false
  unfolding unpin_all
  unpin_all_gone done [] dir n h = h
  unpin_all_gone zero (m ∷ names) dir n h = h
  unpin_all_gone (suc done) (m ∷ names) dir n h = elim (Bool-cases (exists m dir)) [
    | inl e ↦
        rw e (unpin_all_gone done names (erase m dir) n (ground (arith, exists-erase n m dir, h)))
    | inr e ↦ rw e (unpin_all_gone (suc done) names dir n h)
  ]

  erase-AllPresent :
      (m : List ℕ) (names : List (List ℕ)) (dir : Table Entry)
      → among m names ≡ false
      → AllPresent names dir
      → AllPresent names (erase m dir)
  unfolding among
  erase-AllPresent m [] dir fresh present = tt
  erase-AllPresent m (n ∷ names) dir fresh present = (
    ground (arith, exists-erase n m dir, present.0, fresh),
    erase-AllPresent m names dir (ground arith) present.1,
  )

  -- A removal that stops anywhere leaves the last names of its order, where it found such.
  pub unpin_all-IsSuffix :
      (done : ℕ) (names : List (List ℕ)) (dir : Table Entry)
      → all_distinct names ≡ true
      → IsSuffix dir names
      → IsSuffix (unpin_all done names dir) names
  unfolding unpin_all all_distinct
  unpin_all-IsSuffix done [] dir distinct s = suffix-pinned tt
  unpin_all-IsSuffix zero (n ∷ names) dir distinct s = s
  unpin_all-IsSuffix (suc done) (n ∷ names) dir distinct (suffix-pinned present) =
      let here = present.0 in
      rw here (
        suffix-gone
          (unpin_all_gone done names (erase n dir) n
            (ground (arith, exists-erase n n dir, bytes_eq_refl n)))
          (unpin_all-IsSuffix done names (erase n dir) (ground arith)
            (suffix-pinned (erase-AllPresent n names dir (ground arith) present.1))))
  unpin_all-IsSuffix (suc done) (n ∷ names) dir distinct (suffix-gone gone s) = rw gone (
      suffix-gone (unpin_all_gone (suc done) names dir n gone)
        (unpin_all-IsSuffix (suc done) names dir (ground arith) s))
