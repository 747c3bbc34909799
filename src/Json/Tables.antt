-- ===== src/Json/Tables.antt =====
-- Facts on bytes and digits that evaluation decides, value by value.
use wireguard_dns_program_sp.Base.{
  ℕ, ◌%◌, ◌<◌, ◌≡◌, refl, ap, Bool, true, false, ◌==◌, ==_iff, Option, none, some, bit_and,
}
use wireguard_dns_program_sp.Base.Tables.{holds_below, holds_below-true}
use wireguard_dns_program_sp.Json.{hex_char}
use wireguard_dns_program_sp.Json.Decode.{hex_value}

low_table : holds_below 256 (λ n. bit_and n 15 == n % 16) ≡ true
unfolding holds_below
low_table = refl

pub low_digit : (n : ℕ) → n < 256 → bit_and n 15 ≡ n % 16
low_digit n h =
    (==_iff (bit_and n 15) (n % 16)).0
      (holds_below-true 256 (λ n. bit_and n 15 == n % 16) low_table n h)

is_value : Option ℕ → ℕ → Bool
is_value none n = false
is_value (some m) n = m == n

is_value-some : (x : Option ℕ) (n : ℕ) → is_value x n ≡ true → x ≡ some n
unfolding is_value
is_value-some none n h = absurd (cc)
is_value-some (some m) n h = ap (λ (k : ℕ). some k) ((==_iff m n).0 h)

hex_table : holds_below 16 (λ n. is_value (hex_value (hex_char n)) n) ≡ true
unfolding holds_below is_value hex_value
hex_table = refl

pub hex_value-hex_char : (n : ℕ) → n < 16 → hex_value (hex_char n) ≡ some n
hex_value-hex_char n h =
    is_value-some (hex_value (hex_char n)) n
      (holds_below-true 16 (λ n. is_value (hex_value (hex_char n)) n) hex_table n h)
