-- ===== src/Json/Decode.antt =====
-- A reader of JSON strings that gives the bytes back: an independent description of what
-- json-string.h writes. `\u00XY` is the ASCII character, `\udcXY` the byte of an invalid sequence.
use wireguard_dns_program_sp.Base.{
  ℕ, zero, suc, ◌+◌, ◌-◌, ◌*◌, Bool, ◌&&◌, ◌||◌, List, [], ◌∷◌, ltb, leb, ◌==◌, if◌then◌else◌,
  get_or, Option, none, some,
}

abbrev pub between : ℕ → ℕ → ℕ → Bool
between low high byte = leb low byte && leb byte high

-- A byte of 80..BF.
abbrev pub tail_byte : ℕ → Bool
tail_byte byte = between 0x80 0xbf byte

-- The rows of the table of well-formed byte sequences, by their length.
abbrev pub is_pair : ℕ → ℕ → Bool
is_pair a b = between 0xc2 0xdf a && tail_byte b

abbrev pub is_triple : ℕ → ℕ → Bool → Bool
is_triple a b c =
    (a == 0xe0 && between 0xa0 0xbf b
      || between 0xe1 0xec a && tail_byte b
      || a == 0xed && between 0x80 0x9f b
      || between 0xee 0xef a && tail_byte b)
    && c

abbrev pub is_quadruple : ℕ → ℕ → Bool → Bool → Bool
is_quadruple a b c d =
    (a == 0xf0 && between 0x90 0xbf b
      || between 0xf1 0xf3 a && tail_byte b
      || a == 0xf4 && between 0x80 0x8f b)
    && c
    && d

abbrev pub pick : Bool → Bool → Bool → ℕ
pick two three four = if two then 2 else if three then 3 else if four then 4 else 0

-- The length of the sequence that these bytes begin with, or 0.
unfoldable pub well_formed : ℕ → ℕ → ℕ → ℕ → ℕ
well_formed a b c d =
    pick (is_pair a b) (is_triple a b (tail_byte c)) (is_quadruple a b (tail_byte c) (tail_byte d))

-- So many bytes of a sequence to come; behind a backslash; so many hex digits to come, with the value so far.
pub data Mode : Type 0 where
  copying : ℕ → Mode
  slashed : Mode
  hex : ℕ → ℕ → Mode

unfoldable pub hex_value : ℕ → Option ℕ
hex_value c =
    if leb 48 c && leb c 57
    then some (c - 48)
    else if leb 97 c && leb c 102
    then some (c - 87)
    else none

abbrev pub push : ℕ → Option (List ℕ) → Option (List ℕ)
push c none = none
push c (some text) = some (c ∷ text)

abbrev pub with_digit : Option ℕ → (ℕ → Option (List ℕ)) → Option (List ℕ)
with_digit none next = none
with_digit (some digit) next = next digit

-- The byte that the code unit stands for.
unfoldable pub unit_byte : ℕ → Option (List ℕ) → Option (List ℕ)
unit_byte unit rest =
    if ltb unit 0x80
    then push unit rest
    else if leb 0xdc80 unit && leb unit 0xdcff
    then push (unit - 0xdc00) rest
    else none

abbrev pub sequence_length : ℕ → List ℕ → ℕ
sequence_length c text = well_formed c (get_or text 0 0) (get_or text 1 0) (get_or text 2 0)

-- `none` for a control character, a quote, an unknown escape, a malformed sequence or an end inside one.
unfoldable pub unescape : Mode → List ℕ → Option (List ℕ)
unfolding unit_byte hex_value
unescape (Mode.copying zero) [] = some []
unescape (Mode.copying (suc n)) [] = none
unescape Mode.slashed [] = none
unescape (Mode.hex n value) [] = none
unescape (Mode.copying (suc n)) (c ∷ text) = push c (unescape (copying n) text)
unescape (Mode.copying zero) (c ∷ text) =
    let size = sequence_length c text in
    let escaped = unescape slashed text in
    let plain = push c (unescape (copying 0) text) in
    let kept = push c (unescape (copying (size - 1)) text) in
    if c == 92
    then escaped
    else if c == 34 || ltb c 32
    then none
    else if ltb c 128
    then plain
    else if size == 0
    then none
    else kept
unescape Mode.slashed (c ∷ text) =
    let digits = unescape (hex 3 0) text in
    let plain = push c (unescape (copying 0) text) in
    if c == 117 then digits else if c == 34 || c == 92 then plain else none
unescape (Mode.hex zero value) (c ∷ text) =
    with_digit (hex_value c) (λ digit. unit_byte (value * 16 + digit) (unescape (copying 0) text))
unescape (Mode.hex (suc n) value) (c ∷ text) =
    with_digit (hex_value c) (λ digit. unescape (hex n (value * 16 + digit)) text)

-- The text before a closing quote that ends it.
unfoldable pub drop_quote : List ℕ → Option (List ℕ)
drop_quote [] = none
drop_quote (c ∷ []) = if c == 34 then some [] else none
drop_quote (c ∷ d ∷ text) = push c (drop_quote (d ∷ text))

abbrev pub unescape_all : Option (List ℕ) → Option (List ℕ)
unescape_all none = none
unescape_all (some text) = unescape (copying 0) text

-- A whole string: a quote, the escaped text, a quote at the end.
unfoldable pub read_string : List ℕ → Option (List ℕ)
unfolding unescape drop_quote
read_string [] = none
read_string (c ∷ text) = if c == 34 then unescape_all (drop_quote text) else none
