-- ===== src/Loader/Paths/Stored.antt =====
-- The two maps of paths of bpf-loader.cpp when each is in order, and how they read back.
use wireguard_dns_program_sp.Base.{
  ℕ, suc, ◌≡◌, ◌≤◌, ◌+◌, refl, sym, ap, ◌∙◌, Bool, true, false, not, ◌&&◌, ◌||◌, some, List, [],
  ◌∷◌, ◌++◌, leb, length, Bool-cases, inl, inr, arith, bytes_eq_refl, bytes_eq_sound, length-append,
}
use mathlib.Core.List.{append_assoc, append-nil}
use wireguard_dns_program_sp.Base.Lists.{bytes_eq}
use wireguard_dns_program_sp.Dns.Table.{Table, lookup, put, erase}
use wireguard_dns_program_sp.Loader.Pins.{exists}
use wireguard_dns_program_sp.Loader.Pins.Prefix.{among, exists-erase, exists_head}
use wireguard_dns_program_sp.Loader.Paths.{policy_keys}
use wireguard_dns_program_sp.Loader.Paths.Encode.{bytes_eq_sym, among-append}
use wireguard_dns_program_sp.Loader.Paths.Tiers.{
  PathMaps, is_short, is_stored, in_tier, collect, policy_entries,
}

-- Each key once, and of the right length.
unfoldable pub tier_ok : Bool → Table ℕ → Bool
tier_ok short [] = true
tier_ok short ((k, v) ∷ m) =
    let rest = tier_ok short m in in_tier short k && not (exists k m) && rest

abbrev pub names : Table ℕ → List (List ℕ)
names [] = []
names ((k, v) ∷ m) = k ∷ names m

pub record IsTiered (p : PathMaps) : Type 0 where
  pub longs : tier_ok false p.long ≡ true
  pub shorts : tier_ok true p.short ≡ true
  pub room : length p.long + length p.short ≤ policy_keys

pub among-names : (n : List ℕ) (m : Table ℕ) → among n (names m) ≡ exists n m
unfolding among lookup
among-names n [] = refl
among-names n ((k, v) ∷ m) = ground (arith, among-names n m, exists_head n k v m, bytes_eq_sym n k)

pub length-names : (m : Table ℕ) → length (names m) ≡ length m
length-names [] = refl
length-names ((k, v) ∷ m) = ap suc (length-names m)

pub exists-put :
    (n k : List ℕ) (v : ℕ) (m : Table ℕ) → exists n (put k v m) ≡ (exists n m || bytes_eq k n)
unfolding put
exists-put n k v [] = exists_head n k v [] ∙ ground arith
exists-put n k v ((j, w) ∷ m) = elim (Bool-cases (bytes_eq j k)) [
  | inl e ↦
      let same : bytes_eq j n ≡ bytes_eq k n =
        ap (λ (x : List ℕ). bytes_eq x n) (bytes_eq_sound j k e) in
      rw e (ground (arith, exists_head n k v m, exists_head n j w m, same))
  | inr e ↦
      rw e (ground (arith, exists_head n j w (put k v m), exists_head n j w m, exists-put n k v m))
]

pub tier_ok-put :
    (short : Bool) (k : List ℕ) (v : ℕ) (m : Table ℕ)
    → tier_ok short m ≡ true
    → in_tier short k ≡ true
    → tier_ok short (put k v m) ≡ true
unfolding tier_ok put lookup
tier_ok-put short k v [] h t = ground (arith, t)
tier_ok-put short k v ((j, w) ∷ m) h t = elim (Bool-cases (bytes_eq j k)) [
  | inl e ↦
      let same : exists j m ≡ exists k m = ap (λ (x : List ℕ). exists x m) (bytes_eq_sound j k e) in
      rw e (ground (arith, h, t, same))
  | inr e ↦
      let rest = tier_ok-put short k v m (ground (arith, h)) t in
      rw e (ground (arith, h, rest, exists-put j k v m, bytes_eq_sym j k, e))
]

pub tier_ok-erase :
    (short : Bool) (k : List ℕ) (m : Table ℕ)
    → tier_ok short m ≡ true
    → tier_ok short (erase k m) ≡ true
unfolding tier_ok erase
tier_ok-erase short k [] h = refl
tier_ok-erase short k ((j, w) ∷ m) h =
    let rest = tier_ok-erase short k m (ground (arith, h)) in
    elim (Bool-cases (bytes_eq j k)) [
      | inl e ↦ rw e rest
      | inr e ↦ rw e (ground (arith, h, rest, exists-erase j k m))
    ]

-- A key that is found is of the length of its map.
pub exists-in_tier :
    (short : Bool) (k : List ℕ) (m : Table ℕ)
    → tier_ok short m ≡ true
    → exists k m ≡ true
    → in_tier short k ≡ true
unfolding tier_ok lookup
exists-in_tier short k [] h here = absurd (cc)
exists-in_tier short k ((j, w) ∷ m) h here = elim (Bool-cases (bytes_eq j k)) [
  | inl e ↦
      let same : in_tier short j ≡ in_tier short k =
        ap (λ (x : List ℕ). in_tier short x) (bytes_eq_sound j k e) in
      ground (arith, h, same)
  | inr e ↦
      exists-in_tier short k m (ground (arith, h)) (ground (arith, here, exists_head k j w m, e))
]

collect_whole :
    (short : Bool) (m : Table ℕ) (entries : List (List ℕ))
    → tier_ok short m ≡ true
    → length entries + length m ≤ policy_keys
    → ((k : List ℕ) → (among k entries && exists k m) ≡ false)
    → collect short m entries ≡ some (entries ++ names m)
unfolding collect tier_ok among
collect_whole short [] entries h room apart =
    ap (λ (x : List (List ℕ)). some x) (sym (append-nil entries))
collect_whole short ((k, v) ∷ m) entries h room apart =
    let right : in_tier short k ≡ true = ground (arith, h) in
    let fresh : among k entries ≡ false =
      ground (arith, apart k, exists_head k k v m, bytes_eq_refl k) in
    let fits : leb policy_keys (length entries) ≡ false = ground (arith, room) in
    let once : exists k m ≡ false = ground (arith, h) in
    let longer = length-append entries (k ∷ []) in
    let later : (n : List ℕ) → (among n (entries ++ (k ∷ [])) && exists n m) ≡ false = λ n.
      elim (Bool-cases (bytes_eq n k)) [
        | inl e ↦
            let gone : exists n m ≡ false =
              ap (λ (x : List ℕ). exists x m) (bytes_eq_sound n k e) ∙ once in
            ground (arith, gone)
        | inr e ↦ ground (arith, among-append n entries (k ∷ []), e, apart n, exists_head n k v m)
      ] in
    rw (right, fresh, fits)
      (collect_whole short m (entries ++ (k ∷ [])) (ground (arith, h)) (omega (arith, longer, room))
          later
        ∙ ap (λ (x : List (List ℕ)). some x) (append_assoc entries (k ∷ []) (names m)))

pub stored_cases :
    (k : List ℕ) (p : PathMaps) → IsTiered p → is_stored k p ≡ (exists k p.long || exists k p.short)
stored_cases k p t = elim (Bool-cases (is_short k)) [
  | inl e ↦ rw e (elim (Bool-cases (exists k p.long)) [
    | inl f ↦ absurd (ground (arith, exists-in_tier false k p.long t.longs f, e))
    | inr f ↦ rw f refl
  ])
  | inr e ↦ rw e (elim (Bool-cases (exists k p.short)) [
    | inl f ↦ absurd (ground (arith, exists-in_tier true k p.short t.shorts f, e))
    | inr f ↦ rw f (ground arith)
  ])
]

-- Two maps that are in order read back, and what is read are the keys that are stored.
pub policy_entries_whole :
    (p : PathMaps) → IsTiered p → policy_entries p ≡ some (names p.long ++ names p.short)
unfolding policy_entries among
policy_entries_whole p t =
    let first = collect_whole false p.long [] t.longs (omega (arith, t.room)) (λ k. refl) in
    let apart : (k : List ℕ) → (among k (names p.long) && exists k p.short) ≡ false = λ k.
      elim (Bool-cases (exists k p.long)) [
        | inl e ↦ elim (Bool-cases (exists k p.short)) [
          | inl f ↦ absurd (
              ground (
                arith,
                exists-in_tier false k p.long t.longs e,
                exists-in_tier true k p.short t.shorts f,
              ))
          | inr f ↦ ground (arith, f)
        ]
        | inr e ↦ ground (arith, among-names k p.long, e)
      ] in
    rw first (
      collect_whole true p.short (names p.long) t.shorts
        (omega (arith, length-names p.long, t.room)) apart)
