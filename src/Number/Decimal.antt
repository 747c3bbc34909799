-- ===== src/Number/Decimal.antt =====
-- `parseDecimal` of src/native/parse-number.h against the value that decimal digits have.
use wireguard_dns_program_sp.Base.{
  ℕ, ◌+◌, ◌-◌, ◌*◌, ◌/◌, ◌%◌, ◌^◌, ◌≤◌, ◌<◌, ◌≡◌, ◌≢◌, ◌↔◌, refl, ap, ◌∙◌, false, ◌||◌, List, [],
  ◌∷◌, some, ltb, arith,
}
use wireguard_dns_program_sp.Number.{parse_digits, parse_decimal}

pub data AllDigits : List ℕ → Type 0 where
  digits-nil : AllDigits []
  digits-cons : {c : ℕ} {text : List ℕ} → 48 ≤ c → c ≤ 57 → AllDigits text → AllDigits (c ∷ text)

-- The number that digits denote behind a number.
unfoldable pub denotes : ℕ → List ℕ → ℕ
denotes value [] = value
denotes value (c ∷ text) = denotes (value * 10 + (c - 48)) text

denotes-above : (value : ℕ) (text : List ℕ) → value ≤ denotes value text
unfolding denotes
denotes-above value [] = omega arith
denotes-above value (c ∷ text) = omega (arith, denotes-above (value * 10 + (c - 48)) text)

parse_digits-accepts :
    (value : ℕ) (text : List ℕ) (maximum : ℕ)
    → maximum < 2 ^ 64
    → AllDigits text
    → denotes value text ≤ maximum
    → parse_digits value text maximum ≡ some (denotes value text)
unfolding parse_digits denotes
parse_digits-accepts value [] maximum m d fits = refl
parse_digits-accepts value (c ∷ text) maximum m (digits-cons low high d) fits =
    let next = value * 10 + (c - 48) in
    let grows = denotes-above next text in
    let same : next % 2 ^ 64 ≡ next = omega arith in
    let ok : (ltb c 48 || ltb 57 c) ≡ false = ground arith in
    let room : (ltb maximum (c - 48) || ltb ((maximum - (c - 48)) / 10) value) ≡ false =
      ground arith in
    rw (ok, room, same) (parse_digits-accepts next text maximum m d fits)

parse_digits-result :
    (value : ℕ) (text : List ℕ) (maximum : ℕ) {result : ℕ}
    → maximum < 2 ^ 64
    → value ≤ maximum
    → parse_digits value text maximum ≡ some result
    → AllDigits text × (denotes value text ≡ result) × (result ≤ maximum)
unfolding parse_digits denotes
parse_digits-result value [] maximum m small e = (digits-nil, ground arith, ground arith)
parse_digits-result value (c ∷ text) maximum {result} m small e =
    let next = value * 10 + (c - 48) in
    let low : 48 ≤ c = ground arith in
    let high : c ≤ 57 = ground arith in
    let fits : next ≤ maximum = ground arith in
    let same : next % 2 ^ 64 ≡ next = omega arith in
    let rest : parse_digits (next % 2 ^ 64) text maximum ≡ some result = ground arith in
    let (d, value_e, bound) = parse_digits-result next text maximum m fits (rw same at rest) in
    (digits-cons low high d, value_e, bound)

-- `parseDecimal`, for a maximum of 64 bits: it gives a number just when the text has a character,
-- all are digits, and the number they denote, of any size, is the result and at most the maximum.
pub parse_decimal_iff :
    (text : List ℕ) (maximum result : ℕ)
    → maximum < 2 ^ 64
    → (parse_decimal text maximum ≡ some result)
      ↔ ((text ≢ []) × AllDigits text × (denotes 0 text ≡ result) × (result ≤ maximum))
unfolding parse_decimal
parse_decimal_iff [] maximum result m = (λ e. absurd (cc), λ h. absurd (h.0 refl))
parse_decimal_iff (c ∷ text) maximum result m = (
  λ e.
      let (digits, value, fits) = parse_digits-result 0 (c ∷ text) maximum m (omega arith) e in
      ((λ bad. absurd (cc)), digits, value, fits),
  λ h.
      let (_, digits, value, fits) = h in
      parse_digits-accepts 0 (c ∷ text) maximum m digits (omega arith) ∙ ap some value,
)
