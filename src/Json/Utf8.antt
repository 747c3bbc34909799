-- ===== src/Json/Utf8.antt =====
-- The sequences that json-string.h keeps are the well-formed ones of the Unicode standard.
use wireguard_dns_program_sp.Base.{
  ℕ, zero, suc, ◌≤◌, ◌<◌, ◌≡◌, refl, ap, ◌∙◌, Bool, true, false, not, ◌&&◌, List, [], ◌∷◌, ◌==◌,
  ◌!=◌, if◌then◌else◌, get_or, length, arith, Bool-cases, inl, inr,
}
use wireguard_dns_program_sp.Base.Tables.{holds_below, holds_below-true, same, same-true}
use wireguard_dns_program_sp.Json.Decode.{
  between, tail_byte, is_pair, is_triple, is_quadruple, pick, well_formed,
}
use wireguard_dns_program_sp.Json.{announced, continues, is_continuation, is_refused, valid_length}

continuation_table : holds_below 256 (λ x. same (is_continuation x) (tail_byte x)) ≡ true
unfolding holds_below same
continuation_table = refl

continuation-tail_byte : (x : ℕ) → x < 256 → is_continuation x ≡ tail_byte x
continuation-tail_byte x h =
    same-true (is_continuation x) (tail_byte x)
      (holds_below-true 256 (λ x. same (is_continuation x) (tail_byte x)) continuation_table x h)

-- Bytes.
abbrev pub AllBytes : List ℕ → Type 0
AllBytes [] = Unit {0}
AllBytes (c ∷ cs) = (c < 256) × AllBytes cs

get_or-byte : (text : List ℕ) (i : ℕ) → AllBytes text → get_or text i 0 < 256
get_or-byte [] i h = omega arith
get_or-byte (c ∷ cs) zero h = h.0
get_or-byte (c ∷ cs) (suc i) h = get_or-byte cs i h.1

-- What the loop of the code checks, for each announced length.
continues_one : (rest : List ℕ) → continues 1 rest ≡ is_continuation (get_or rest 0 0)
unfolding continues
continues_one [] = refl
continues_one (a ∷ rest) = ground arith

continues_two :
    (rest : List ℕ)
    → continues 2 rest ≡ (is_continuation (get_or rest 0 0) && is_continuation (get_or rest 1 0))
unfolding continues
continues_two [] = refl
continues_two (a ∷ rest) = ap (λ (b : Bool). is_continuation a && b) (continues_one rest)

continues_three :
    (rest : List ℕ)
    → continues 3 rest ≡ (
        is_continuation (get_or rest 0 0)
        && (is_continuation (get_or rest 1 0) && is_continuation (get_or rest 2 0)))
unfolding continues
continues_three [] = refl
continues_three (a ∷ rest) = ap (λ (b : Bool). is_continuation a && b) (continues_two rest)

continues_long : (n : ℕ) (rest : List ℕ) → continues n rest ≡ true → n ≤ length rest
unfolding continues
continues_long zero rest h = omega arith
continues_long (suc n) [] h = absurd (cc)
continues_long (suc n) (a ∷ rest) h = ground (arith, continues_long n rest)

-- The tests of the code against the table, over what the loop and the lengths give.
accepted : ℕ → ℕ → ℕ → ℕ → ℕ
accepted a b c d =
    let size = announced a in
    let two = is_continuation b in
    let three = two && is_continuation c in
    let four = two && (is_continuation c && is_continuation d) in
    let enough = if size == 2 then two else if size == 3 then three else four in
    if size != 0 && enough && not (is_refused a b) then size else 0

-- The two, where the tests of the last two bytes are given.
table_of : ℕ → ℕ → Bool → Bool → ℕ
table_of a b c d = pick (is_pair a b) (is_triple a b c) (is_quadruple a b c d)

code_of : ℕ → ℕ → ℕ → Bool → Bool → ℕ
code_of size a b c d =
    let enough =
      if size == 2
      then tail_byte b
      else if size == 3
      then tail_byte b && c
      else tail_byte b && (c && d) in
    if size != 0 && enough && not (is_refused a b) then size else 0

two_bytes : (a b : ℕ) (c d : Bool) → 0xc2 ≤ a → a ≤ 0xdf → code_of 2 a b c d ≡ table_of a b c d
unfolding code_of table_of
two_bytes a b c d low high = ground arith

three_bytes : (a b : ℕ) (c d : Bool) → 0xe0 ≤ a → a ≤ 0xef → code_of 3 a b c d ≡ table_of a b c d
unfolding code_of table_of
three_bytes a b true d low high = ground arith
three_bytes a b false d low high = ground arith

four_bytes : (a b : ℕ) (c d : Bool) → 0xf0 ≤ a → a ≤ 0xf4 → code_of 4 a b c d ≡ table_of a b c d
unfolding code_of table_of
four_bytes a b true true low high = ground arith
four_bytes a b true false low high = ground arith
four_bytes a b false true low high = ground arith
four_bytes a b false false low high = ground arith

other_bytes :
    (a b : ℕ) (c d : Bool)
    → between 0xc2 0xdf a ≡ false
    → between 0xe0 0xef a ≡ false
    → between 0xf0 0xf4 a ≡ false
    → code_of 0 a b c d ≡ table_of a b c d
unfolding code_of table_of
other_bytes a b c d h2 h3 h4 = ground arith

long_sequence :
    (a b : ℕ) (c d : Bool)
    → between 0xc2 0xdf a ≡ false
    → code_of (if between 0xe0 0xef a then 3 else if between 0xf0 0xf4 a then 4 else 0) a b c d
      ≡ table_of a b c d
long_sequence a b c d h2 = elim (Bool-cases (between 0xe0 0xef a)) [
  | inl e ↦ rw e (three_bytes a b c d (ground arith) (ground arith))
  | inr e ↦ rw e (elim (Bool-cases (between 0xf0 0xf4 a)) [
    | inl f ↦ rw f (four_bytes a b c d (ground arith) (ground arith))
    | inr f ↦ rw f (other_bytes a b c d h2 e f)
  ])
]

code_of-table_of : (a b : ℕ) (c d : Bool) → code_of (announced a) a b c d ≡ table_of a b c d
unfolding announced
code_of-table_of a b c d = elim (Bool-cases (between 0xc2 0xdf a)) [
  | inl e ↦ rw e (two_bytes a b c d (ground arith) (ground arith))
  | inr e ↦ rw e (long_sequence a b c d e)
]

accepted-well_formed :
    (a b c d : ℕ) → b < 256 → c < 256 → d < 256 → accepted a b c d ≡ well_formed a b c d
unfolding accepted well_formed code_of table_of
accepted-well_formed a b c d hb hc hd =
    rw (continuation-tail_byte b hb, continuation-tail_byte c hc, continuation-tail_byte d hd)
      (code_of-table_of a b (tail_byte c) (tail_byte d))

valid_length-accepted :
    (ch : ℕ) (rest : List ℕ)
    → valid_length ch rest ≡ accepted ch (get_or rest 0 0) (get_or rest 1 0) (get_or rest 2 0)
unfolding valid_length accepted announced
valid_length-accepted ch rest = ground (
  arith,
  continues_one rest,
  continues_two rest,
  continues_three rest,
  continues_long 1 rest,
  continues_long 2 rest,
  continues_long 3 rest,
)

-- A sequence is kept as it is just when the table has it, and all of it.
pub valid_length-well_formed :
    (ch : ℕ) (rest : List ℕ)
    → AllBytes rest
    → valid_length ch rest ≡ well_formed ch (get_or rest 0 0) (get_or rest 1 0) (get_or rest 2 0)
valid_length-well_formed ch rest bytes =
    valid_length-accepted ch rest
    ∙ accepted-well_formed ch (get_or rest 0 0) (get_or rest 1 0) (get_or rest 2 0)
        (get_or-byte rest 0 bytes) (get_or-byte rest 1 bytes) (get_or-byte rest 2 bytes)
