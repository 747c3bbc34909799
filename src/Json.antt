-- ===== src/Json.antt =====
-- src/linux/native/json-string.h: raw bytes of a path as a JSON string.
pub mod Utf8
pub mod Decode
pub mod Tables
pub mod Roundtrip
use wireguard_dns_program_sp.Base.{
  ℕ, zero, suc, ◌+◌, ◌-◌, ◌/◌, Bool, true, false, not, ◌&&◌, ◌||◌, List, [], ◌∷◌, ◌++◌, ltb, leb,
  ◌==◌, ◌!=◌, if◌then◌else◌, codes, get_or, length, bit_and,
}

abbrev pub hex_char : ℕ → ℕ
hex_char n = get_or (codes "0123456789abcdef") n 0

-- The length that a first byte announces, or 0.
unfoldable pub announced : ℕ → ℕ
announced ch =
    if leb 0xc2 ch && leb ch 0xdf
    then 2
    else if leb 0xe0 ch && leb ch 0xef
    then 3
    else if leb 0xf0 ch && leb ch 0xf4
    then 4
    else 0

abbrev pub is_continuation : ℕ → Bool
is_continuation byte = bit_and byte 0xc0 == 0x80

-- The loop over the bytes behind the first; so many are there.
unfoldable pub continues : ℕ → List ℕ → Bool
continues zero rest = true
continues (suc n) [] = false
continues (suc n) (byte ∷ rest) = let more = continues n rest in is_continuation byte && more

-- A second byte that makes the sequence overlong, a surrogate or too large.
abbrev pub is_refused : ℕ → ℕ → Bool
is_refused ch second =
    ch == 0xe0 && ltb second 0xa0
    || ch == 0xed && leb 0xa0 second
    || ch == 0xf0 && ltb second 0x90
    || ch == 0xf4 && leb 0x90 second

-- The length of the valid sequence that starts with `ch`, or 0.
unfoldable pub valid_length : ℕ → List ℕ → ℕ
unfolding announced continues
valid_length ch rest =
    let size = announced ch in
    if size != 0
      && leb size (length rest + 1)
      && continues (size - 1) rest
      && not (is_refused ch (get_or rest 0 0))
    then size
    else 0

-- The loop. So many bytes of a valid sequence are still to be appended as they are.
unfoldable pub escape : ℕ → List ℕ → List ℕ
unfolding valid_length
escape copying [] = []
escape (suc copying) (ch ∷ text) = ch ∷ escape copying text
escape zero (ch ∷ text) =
    let size = valid_length ch text in
    let rest = escape (size - 1) text in
    let plain = escape zero text in
    if ch == 34 || ch == 92
    then 92 ∷ ch ∷ plain
    else if ltb ch 32
    then 92 ∷ 117 ∷ 48 ∷ 48 ∷ hex_char (ch / 16) ∷ hex_char (bit_and ch 15) ∷ plain
    else if ltb ch 128
    then ch ∷ plain
    else if size != 0
    then ch ∷ rest
    else 92 ∷ 117 ∷ 100 ∷ 99 ∷ hex_char (ch / 16) ∷ hex_char (bit_and ch 15) ∷ plain

unfoldable pub json_string : List ℕ → List ℕ
unfolding escape
json_string text = 34 ∷ escape 0 text ++ (34 ∷ [])
