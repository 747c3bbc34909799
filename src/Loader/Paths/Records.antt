-- ===== src/Loader/Paths/Records.antt =====
-- What `read_policy_stdin` accepts, and what it makes of it.
use wireguard_dns_program_sp.Base.{
  some_same, if_some, ℕ, ◌≡◌, ◌↔◌, ◌<◌, ◌≤◌, ◌+◌, ◌-◌, ◌*◌, refl, sym, ap, ◌∙◌, Bool, true, false,
  not, ◌&&◌, some, List, [], ◌∷◌, ◌++◌, ◌==◌, leb, ltb, length, Bool-cases, inl, inr, arith,
  length-append,
}
use mathlib.Core.Path.{subst}
use mathlib.Core.List.{append_assoc, append-nil}
use wireguard_dns_program_sp.Base.Lists.{bytes_eq}
use wireguard_dns_program_sp.Loader.Pins.Prefix.{all_distinct}
use wireguard_dns_program_sp.Policy.{path_bytes}
use wireguard_dns_program_sp.Loader.Paths.{
  policy_keys, slash, components, is_name, all_names, is_stored_key, ends_in_slash, is_blank,
  refused, read_records, read_policy_stdin,
}
use wireguard_dns_program_sp.Loader.Paths.Encode.{
  encode, no_zero, all_keys, distinct_snoc, distinct_middle, all_keys_snoc, no_zero_snoc,
  encode_snoc, blank, IsPolicy,
}

abbrev Accepted : Bool → List (List ℕ) → List ℕ → List (List ℕ) → Type 0
Accepted eof keys input out = ((eof ≡ true) × (encode keys ++ input ≡ encode out)) × IsPolicy out

read_records_sound :
    (eof : Bool) (input : List ℕ) (total : ℕ) (keys : List (List ℕ)) (current : List ℕ)
    {out : List (List ℕ)}
    → no_zero current ≡ true
    → IsPolicy keys
    → read_records eof input total keys current ≡ some out
    → Accepted eof keys (current ++ input) out
unfolding read_records no_zero
read_records_sound eof [] total keys current {out} clean policy h =
    elim (if_some (eof && is_blank current) h) [
      | inr (c, e) ↦ absurd (cc)
      | inl (c, e) ↦
          let same : keys ≡ out = some_same e in
          let empty : current ≡ [] = blank current (ground (arith, c)) in
          (
            (ground (arith, c), rw empty (append-nil (encode keys) ∙ ap encode same)),
            subst (λ (x : List (List ℕ)). IsPolicy x) same policy,
          )
    ]
read_records_sound eof (byte ∷ input) total keys current {out} clean policy h =
    elim (if_some (ltb (policy_keys * path_bytes) (total + 1)) h) [
      | inl (c, e) ↦ absurd (cc)
      | inr (c, e) ↦ elim (if_some (not (byte == 0)) e) [
        | inl (d, f) ↦ elim (if_some (leb (path_bytes - 1) (length current)) f) [
          | inl (l, g) ↦ absurd (cc)
          | inr (l, g) ↦
              let rest =
                read_records_sound eof input (total + 1) keys (current ++ (byte ∷ []))
                  (no_zero_snoc current byte clean (ground (arith, d))) policy g in
              let joined = append_assoc current (byte ∷ []) input in
              subst (λ (x : List ℕ). Accepted eof keys x out) joined rest
        ]
        | inr (d, f) ↦ elim (if_some (refused keys current) f) [
          | inl (l, g) ↦ absurd (cc)
          | inr (l, g) ↦
              let (good, apart, room) = policy in
              let zero_byte : byte ≡ 0 = ground (arith, d) in
              let longer : IsPolicy (keys ++ (current ∷ [])) = (
                all_keys_snoc keys current good (ground (arith, clean, l)),
                distinct_snoc keys current apart (ground (arith, l)),
                ground (arith, length-append keys (current ∷ []), l),
              ) in
              let (ends, kept) =
                read_records_sound eof input (total + 1) (keys ++ (current ∷ [])) [] refl longer
                  g in
              ((ends.0, rw zero_byte (sym (encode_snoc keys current input) ∙ ends.1)), kept)
        ]
      ]
    ]

-- A stored key is not empty and has no slash at its end.
all_names_ends :
    (part text : List ℕ) → all_names (components part text) ≡ true → ends_in_slash text ≡ false
unfolding all_names components ends_in_slash is_name bytes_eq
all_names_ends part [] h = refl
all_names_ends part (c ∷ []) h = elim (Bool-cases (c == slash)) [
  | inl e ↦ absurd (ground (arith, (rw e at h)))
  | inr e ↦ e
]
all_names_ends part (c ∷ d ∷ text) h = elim (Bool-cases (c == slash)) [
  | inl e ↦ all_names_ends [] (d ∷ text) (ground (arith, (rw e at h)))
  | inr e ↦ all_names_ends (part ++ (c ∷ [])) (d ∷ text) (rw e at h)
]

is_stored_key_open :
    (key : List ℕ)
    → is_stored_key key ≡ true
    → ((is_blank key ≡ false) × (ends_in_slash key ≡ false)) × (length key < path_bytes)
unfolding is_stored_key all_names components ends_in_slash is_name bytes_eq
is_stored_key_open [] h = absurd (cc)
is_stored_key_open (c ∷ []) h = absurd (ground (arith, h))
is_stored_key_open (c ∷ d ∷ text) h =
    ((refl, all_names_ends [] (d ∷ text) (ground (arith, h))), ground (arith, h))

-- The bytes of a key are read one after the other.
read_records_text :
    (eof : Bool) (text input : List ℕ) (total : ℕ) (keys : List (List ℕ)) (current : List ℕ)
    → no_zero text ≡ true
    → length current + length text < path_bytes
    → total + length text ≤ policy_keys * path_bytes
    → read_records eof (text ++ input) total keys current
      ≡ read_records eof input (total + length text) keys (current ++ text)
unfolding read_records no_zero
read_records_text eof [] input total keys current clean short room =
    let same : total + 0 ≡ total = omega arith in rw (same, append-nil current) refl
read_records_text eof (c ∷ text) input total keys current clean short room =
    let fits : ltb (policy_keys * path_bytes) (total + 1) ≡ false = ground (arith, room) in
    let here : (c == 0) ≡ false = ground (arith, clean) in
    let open_yet : leb (path_bytes - 1) (length current) ≡ false = ground (arith, short) in
    let grown = length-append current (c ∷ []) in
    let rest =
      read_records_text eof text input (total + 1) keys (current ++ (c ∷ []))
        (ground (arith, clean)) (omega (arith, grown, short)) (omega (arith, room)) in
    let at : total + 1 + length text ≡ total + length (c ∷ text) = omega arith in
    rw (fits, here, open_yet) (rest ∙ rw (at, append_assoc current (c ∷ []) text) refl)

read_records_complete :
    (more : List (List ℕ)) (total : ℕ) (seen : List (List ℕ))
    → all_keys more ≡ true
    → all_distinct (seen ++ more) ≡ true
    → length (seen ++ more) ≤ policy_keys
    → total ≤ length seen * path_bytes
    → read_records true (encode more) total seen [] ≡ some (seen ++ more)
unfolding read_records all_keys
read_records_complete [] total seen good apart room used = rw (append-nil seen) refl
read_records_complete (key ∷ more) total seen good apart room used =
    let ((full, whole), short) = is_stored_key_open key (ground (arith, good)) in
    let count = length-append seen (key ∷ more) in
    let snoc = length-append seen (key ∷ []) in
    let joined = append_assoc seen (key ∷ []) more in
    let fits : ltb (policy_keys * path_bytes) (total + length key + 1) ≡ false =
      ground (arith, short, used, count, room) in
    let taken : refused seen key ≡ false =
      ground (arith, full, whole, distinct_middle seen key more apart, count, room, good) in
    read_records_text true key (0 ∷ encode more) total seen [] (ground (arith, good))
      (omega (arith, short)) (omega (arith, short, used, count, room))
    ∙ rw (fits, taken)
        (read_records_complete more (total + length key + 1) (seen ++ (key ∷ []))
            (ground (arith, good)) (rw joined apart) (rw joined room)
            (omega (arith, short, used, snoc))
          ∙ ap (λ (x : List (List ℕ)). some x) joined)

-- An input is accepted with some keys exactly where the stream came to its end and the input is the records of
-- these keys, each a stored key without a zero byte, none of them twice, at most 1024.
pub read_policy_stdin-encode :
    (eof : Bool) (input : List ℕ) (keys : List (List ℕ))
    → (read_policy_stdin eof input ≡ some keys)
      ↔ ((eof ≡ true) × (input ≡ encode keys) × IsPolicy keys)
unfolding read_policy_stdin no_zero all_keys all_distinct
read_policy_stdin-encode eof input keys = (
  λ h.
      let ((ended, same), policy) =
        read_records_sound eof input 0 [] [] refl (refl, refl, omega arith) h in
      (ended, same, policy),
  λ (ended, same, (good, apart, room)).
      rw (ended, same) (read_records_complete keys 0 [] good apart room (omega arith)),
)
