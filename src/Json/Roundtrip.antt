-- ===== src/Json/Roundtrip.antt =====
-- What json-string.h writes is read back as the bytes it was given.
use wireguard_dns_program_sp.Base.{
  ℕ, zero, suc, ◌+◌, ◌-◌, ◌*◌, ◌/◌, ◌%◌, ◌≤◌, ◌<◌, ◌≡◌, ◌≢◌, refl, sym, ap, ◌∙◌, Bool, true, false,
  ◌||◌, List, [], ◌∷◌, ltb, ◌==◌, ◌!=◌, get_or, length, bit_and, arith, Option, some, Bool-cases,
  inl, inr, ◌++◌,
}
use wireguard_dns_program_sp.Json.{escape, valid_length, announced, hex_char, json_string}
use wireguard_dns_program_sp.Json.Tables.{hex_value-hex_char, low_digit}
use wireguard_dns_program_sp.Json.Utf8.{AllBytes, valid_length-well_formed}
use wireguard_dns_program_sp.Json.Decode.{
  copying, tail_byte, is_pair, is_triple, is_quadruple, pick, well_formed, unescape, drop_quote,
  read_string, unit_byte, push, sequence_length,
}

escape_copied :
    (n i : ℕ) (text : List ℕ)
    → i < n
    → n ≤ length text
    → get_or (escape n text) i 0 ≡ get_or text i 0
unfolding escape
escape_copied zero i text lt le = absurd (omega arith)
escape_copied (suc n) i [] lt le = absurd (omega arith)
escape_copied (suc n) zero (c ∷ text) lt le = refl
escape_copied (suc n) (suc i) (c ∷ text) lt le = escape_copied n i text (omega arith) (omega arith)

-- The length of a sequence depends on its own bytes only.
pick_cut :
    (two three four three2 four2 : Bool)
    → (2 < pick two three four → three2 ≡ three)
    → (3 < pick two three four → four2 ≡ four)
    → pick two three four ≢ 0
    → pick two three2 four2 ≡ pick two three four
pick_cut true three four three2 four2 h3 h4 ne = refl
pick_cut false true four three2 four2 h3 h4 ne = rw (h3 (omega arith)) refl
pick_cut false false true three2 four2 h3 h4 ne = rw (h3 (omega arith), h4 (omega arith)) refl
pick_cut false false false three2 four2 h3 h4 ne = absurd (ne refl)

well_formed_cut :
    (a b c d c2 d2 : ℕ)
    → (2 < well_formed a b c d → c2 ≡ c)
    → (3 < well_formed a b c d → d2 ≡ d)
    → well_formed a b c d ≢ 0
    → well_formed a b c2 d2 ≡ well_formed a b c d
unfolding well_formed
well_formed_cut a b c d c2 d2 hc hd ne =
    pick_cut (is_pair a b) (is_triple a b (tail_byte c))
      (is_quadruple a b (tail_byte c) (tail_byte d)) (is_triple a b (tail_byte c2))
      (is_quadruple a b (tail_byte c2) (tail_byte d2))
      (λ lt. ap (λ (x : ℕ). is_triple a b (tail_byte x)) (hc lt))
      (λ lt. rw (hc (omega arith), hd lt) refl) ne

valid_length_inside : (ch : ℕ) (rest : List ℕ) → valid_length ch rest - 1 ≤ length rest
unfolding valid_length announced
valid_length_inside ch rest = ground arith

-- The code units of the two escapes.
ascii_unit :
    (ch : ℕ) (text : Option (List ℕ))
    → ch < 128
    → unit_byte ((0 + ch / 16) * 16 + ch % 16) text ≡ push ch text
unfolding unit_byte
ascii_unit ch text lt =
    let e : (0 + ch / 16) * 16 + ch % 16 ≡ ch = omega arith in rw e (ground arith)

byte_unit :
    (ch : ℕ) (text : Option (List ℕ))
    → 128 ≤ ch
    → ch < 256
    → unit_byte ((3520 + ch / 16) * 16 + ch % 16) text ≡ push ch text
unfolding unit_byte
byte_unit ch text le lt =
    let e : (3520 + ch / 16) * 16 + ch % 16 ≡ 56320 + ch = omega arith in
    let f : 56320 + ch - 56320 ≡ ch = omega arith in rw e (rw f (ground arith))

ascii_escaped :
    (ch : ℕ) (text : List ℕ)
    → ch < 128
    → unescape
        (copying 0)
        (92 ∷ 117 ∷ 48 ∷ 48 ∷ hex_char (ch / 16) ∷ hex_char (bit_and ch 15) ∷ text)
      ≡ push ch (unescape (copying 0) text)
unfolding unescape unit_byte
ascii_escaped ch text lt =
    rw
      (
        low_digit ch (omega arith),
        hex_value-hex_char (ch / 16) (omega arith),
        hex_value-hex_char (ch % 16) (omega arith),
      )
      (ascii_unit ch (unescape (copying 0) text) lt)

byte_escaped :
    (ch : ℕ) (text : List ℕ)
    → 128 ≤ ch
    → ch < 256
    → unescape
        (copying 0)
        (92 ∷ 117 ∷ 100 ∷ 99 ∷ hex_char (ch / 16) ∷ hex_char (bit_and ch 15) ∷ text)
      ≡ push ch (unescape (copying 0) text)
unfolding unescape unit_byte
byte_escaped ch text le lt =
    rw
      (
        low_digit ch lt,
        hex_value-hex_char (ch / 16) (omega arith),
        hex_value-hex_char (ch % 16) (omega arith),
      )
      (byte_unit ch (unescape (copying 0) text) le lt)

pick_long : (two three four : Bool) → pick two three four ≢ 0 → 1 < pick two three four
pick_long two three four ne = ground arith

well_formed_long : (a b c d : ℕ) → well_formed a b c d ≢ 0 → 1 < well_formed a b c d
unfolding well_formed
well_formed_long a b c d ne =
    pick_long (is_pair a b) (is_triple a b (tail_byte c))
      (is_quadruple a b (tail_byte c) (tail_byte d)) ne

-- Behind the first byte of a sequence that is kept, the reader sees the same sequence.
kept_length :
    (ch : ℕ) (text : List ℕ)
    → AllBytes text
    → valid_length ch text ≢ 0
    → sequence_length ch (escape (valid_length ch text - 1) text) ≡ valid_length ch text
kept_length ch text bytes ne =
    let inside = valid_length_inside ch text in
    let e = valid_length-well_formed ch text bytes in
    let nonzero : sequence_length ch text ≢ 0 = λ z. ne (e ∙ z) in
    let long = well_formed_long ch (get_or text 0 0) (get_or text 1 0) (get_or text 2 0) nonzero in
    let copied : (i : ℕ)
        → i + 1 < valid_length ch text
        → get_or (escape (valid_length ch text - 1) text) i 0 ≡ get_or text i 0 =
      λ i lt. escape_copied (valid_length ch text - 1) i text (omega arith) inside in
    rw (copied 0 (omega arith)) (
      well_formed_cut ch (get_or text 0 0) (get_or text 1 0) (get_or text 2 0)
        (get_or (escape (valid_length ch text - 1) text) 1 0)
        (get_or (escape (valid_length ch text - 1) text) 2 0) (λ lt. copied 1 (omega arith))
        (λ lt. copied 2 (omega arith)) nonzero
      ∙ sym e)

-- What the reader does behind a quote, a plain character and the first byte of a sequence.
slashed_read :
    (c : ℕ) (text : List ℕ)
    → (c == 34 || c == 92) ≡ true
    → unescape (copying 0) (92 ∷ c ∷ text) ≡ push c (unescape (copying 0) text)
unfolding unescape
slashed_read c text e = let f : (c == 117) ≡ false = ground arith in rw (f, e) refl

plain_read :
    (c : ℕ) (text : List ℕ)
    → (c == 34 || c == 92) ≡ false
    → ltb c 32 ≡ false
    → ltb c 128 ≡ true
    → unescape (copying 0) (c ∷ text) ≡ push c (unescape (copying 0) text)
unfolding unescape
plain_read c text e control ascii =
    let f : (c == 92) ≡ false = ground arith in
    let g : (c == 34) ≡ false = ground arith in rw (f, g, control, ascii) refl

sequence_read :
    (c : ℕ) (text : List ℕ)
    → ltb c 128 ≡ false
    → sequence_length c text ≢ 0
    → unescape (copying 0) (c ∷ text)
      ≡ push c (unescape (copying (sequence_length c text - 1)) text)
unfolding unescape
sequence_read c text ascii ne =
    let f : (c == 92) ≡ false = ground arith in
    let g : (c == 34 || ltb c 32) ≡ false = ground arith in
    let h : (sequence_length c text == 0) ≡ false = ground arith in rw (f, g, ascii, h) refl

sequence_kept :
    (c : ℕ) (text : List ℕ)
    → AllBytes text
    → ltb c 128 ≡ false
    → (valid_length c text != 0) ≡ true
    → unescape (copying 0) (c ∷ escape (valid_length c text - 1) text)
      ≡ push c
          (unescape (copying (valid_length c text - 1)) (escape (valid_length c text - 1) text))
sequence_kept c text bytes ascii h =
    let ne : valid_length c text ≢ 0 = λ z. ground arith in
    let kept = kept_length c text bytes ne in
    sequence_read c (escape (valid_length c text - 1) text) ascii (λ z. ne (sym kept ∙ z))
    ∙ rw kept refl

escape-unescape :
    (n : ℕ) (text : List ℕ)
    → AllBytes text
    → n ≤ length text
    → unescape (copying n) (escape n text) ≡ some text
unfolding escape unescape
escape-unescape zero [] bytes le = refl
escape-unescape (suc n) [] bytes le = absurd (omega arith)
escape-unescape (suc n) (c ∷ text) bytes le = rw (escape-unescape n text bytes.1 (omega arith)) refl
escape-unescape zero (c ∷ text) bytes le =
    let plain : push c (unescape (copying 0) (escape 0 text)) ≡ some (c ∷ text) =
      rw (escape-unescape 0 text bytes.1 (omega arith)) refl in
    elim (Bool-cases (c == 34 || c == 92)) [
      | inl e ↦ rw e (slashed_read c (escape 0 text) e ∙ plain)
      | inr e ↦ rw e (elim (Bool-cases (ltb c 32)) [
        | inl f ↦ rw f (ascii_escaped c (escape 0 text) (ground arith) ∙ plain)
        | inr f ↦ rw f (elim (Bool-cases (ltb c 128)) [
          | inl g ↦ rw g (plain_read c (escape 0 text) e f g ∙ plain)
          | inr g ↦ rw g (elim (Bool-cases (valid_length c text != 0)) [
            | inl h ↦
                rw
                  (
                    h,
                    sequence_kept c text bytes.1 g h,
                    escape-unescape (valid_length c text - 1) text bytes.1
                        (valid_length_inside c text),
                  )
                  refl
            | inr h ↦ rw h (byte_escaped c (escape 0 text) (ground arith) bytes.0 ∙ plain)
          ])
        ])
      ])
    ]

drop_quote_append : (text : List ℕ) → drop_quote (text ++ (34 ∷ [])) ≡ some text
unfolding drop_quote
drop_quote_append [] = refl
drop_quote_append (c ∷ []) = refl
drop_quote_append (c ∷ d ∷ text) = rw (drop_quote_append (d ∷ text)) refl

-- The JSON string of a text of bytes is read back as that text.
pub read_string-json_string :
    (text : List ℕ) → AllBytes text → read_string (json_string text) ≡ some text
unfolding json_string read_string
read_string-json_string text bytes =
    rw (drop_quote_append (escape 0 text)) (escape-unescape 0 text bytes (omega arith))
