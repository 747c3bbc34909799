-- ===== src/Examples/Texts.antt =====
-- Instances for the question, the resolver list and the identity record of src/native/dns-dispatcher.cpp,
-- and for src/linux/native/json-string.h.
use wireguard_dns_program_sp.Base.{
  ℕ, ◌+◌, ◌*◌, ◌≡◌, refl, Bool, ◌&&◌, ◌||◌, Option, some, List, [], ◌∷◌, ◌++◌, arith, codes, length,
  leb, if◌then◌else◌,
}
use wireguard_dns_program_sp.Dispatcher.Names.{parse_question, normalize_name}
use wireguard_dns_program_sp.Dispatcher.Names.Labels.{encoded, dotted, parse_question-encoded}
use wireguard_dns_program_sp.Dispatcher.Inputs.{
  all_of, contains, parse_included_text, identity_header,
}
use wireguard_dns_program_sp.Dispatcher.Inputs.Rows.{Identity}
use wireguard_dns_program_sp.Dispatcher.Inputs.Identities.{
  printed_rows, listed, parse_included_text-printed_rows,
}
use wireguard_dns_program_sp.Json.{json_string}
use wireguard_dns_program_sp.Json.Decode.{read_string}
use wireguard_dns_program_sp.Json.Roundtrip.{read_string-json_string}

-- Capital ASCII letters in lower case.
abbrev to_lower : ℕ → ℕ
to_lower c = if leb 65 c && leb c 90 then c + 32 else c

parse_question-encoded_example :
    parse_question to_lower (
      9
      ∷ 9
      ∷ 1
      ∷ 0
      ∷ 0
      ∷ 1
      ∷ 0
      ∷ 0
      ∷ 0
      ∷ 0
      ∷ 0
      ∷ 1
      ∷ (encoded (codes "Www" ∷ codes "Example" ∷ []) ++ (0 ∷ 28 ∷ 0 ∷ 1 ∷ 0 ∷ 41 ∷ [])))
    ≡ some (record {
      name = normalize_name to_lower (dotted (codes "Www" ∷ codes "Example" ∷ []));
      type = 0 * 256 + 28;
    })
parse_question-encoded_example =
    parse_question-encoded to_lower 9 9 1 0 0 0 0 0 0 1 (codes "Www") (codes "Example" ∷ []) 0 28 0
      1 (0 ∷ 41 ∷ []) (omega arith, omega arith, (omega arith, omega arith, tt)) (omega arith)

-- The number of characters stands for the address.
abbrev an_address : List ℕ → Option ℕ
an_address text = some (length text)

abbrev two : List ℕ
two = 7 ∷ 8 ∷ []

-- Digits and small letters up to f.
abbrev is_hex : ℕ → Bool
is_hex c = leb 48 c && leb c 57 || leb 97 c && leb c 102

abbrev rows : List Identity
rows =
    record {
      key = codes "a";
      path = codes "C:\\App.exe";
      first_id = codes "0a1f";
      other_ids = codes "22" ∷ [];
    }
    ∷ record { key = codes "b"; path = codes "D:\\B.exe"; first_id = codes "00"; other_ids = [] }
    ∷ []

parse_included_text-printed_rows_example :
    (paths : List (List ℕ)) × (parse_included_text to_lower is_hex
        (λ path. path)
        (identity_header ++ printed_rows rows)
      ≡ some paths)
    × ((text : List ℕ) → contains text paths ≡ listed to_lower text rows)
unfolding all_of
parse_included_text-printed_rows_example =
    parse_included_text-printed_rows to_lower is_hex (λ path. path) rows
      (
        (
          omega arith,
          omega arith,
          refl,
          refl,
          (omega arith, refl, refl),
          ((omega arith, refl, refl), tt),
        ),
        ((omega arith, omega arith, refl, refl, (omega arith, refl, refl), tt), tt),
      )

-- A quote, a line feed, an accented letter, a lone byte and a cut sequence.
abbrev raw : List ℕ
raw = 34 ∷ 10 ∷ 0xc3 ∷ 0xa9 ∷ 0xff ∷ 97 ∷ 0xe2 ∷ 0x82 ∷ []

read_string-json_string_example : read_string (json_string raw) ≡ some raw
read_string-json_string_example = read_string-json_string raw (
  omega arith,
  (
    omega arith,
    (omega arith, (omega arith, (omega arith, (omega arith, (omega arith, (omega arith, tt)))))),
  ),
)
