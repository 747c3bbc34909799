-- ===== src/Dispatcher/Names.antt =====
-- src/native/dns-dispatcher.cpp and dns-wire.h: names as lists of characters, and the question of a
-- query. `towlower` is the C library's: a function on characters.
pub mod Labels
use wireguard_dns_program_sp.Base.{
  ℕ, zero, suc, ◌+◌, Bool, true, false, not, ◌&&◌, ◌||◌, Option, none, some, List, [], ◌∷◌, ◌++◌,
  ltb, leb, ◌==◌, ◌!=◌, if◌then◌else◌, get_or, set, length, drop, bit_and, codes,
}
use wireguard_dns_program_sp.Dns.Wire.{byte_at, read16, make_servfail}

abbrev pub is_empty : List ℕ → Bool
is_empty [] = true
is_empty (c ∷ cs) = false

abbrev pub lower : (ℕ → ℕ) → List ℕ → List ℕ
lower to_lower [] = []
lower to_lower (c ∷ text) = to_lower c ∷ lower to_lower text

abbrev pub is_blank : ℕ → Bool
is_blank c = c == 32 || c == 9 || c == 13

unfoldable pub drop_first : (ℕ → Bool) → List ℕ → List ℕ
drop_first test [] = []
drop_first test (c ∷ text) = let rest = drop_first test text in if test c then rest else c ∷ text

unfoldable pub drop_last : (ℕ → Bool) → List ℕ → List ℕ
drop_last test [] = []
drop_last test (c ∷ text) =
    let rest = drop_last test text in if is_empty rest && test c then [] else c ∷ rest

unfoldable pub trim : List ℕ → List ℕ
unfolding drop_first drop_last
trim text = drop_last is_blank (drop_first is_blank text)

unfoldable pub normalize_name : (ℕ → ℕ) → List ℕ → List ℕ
unfolding trim
normalize_name to_lower name = drop_last (λ c. c == 46) (lower to_lower (trim name))

pub record Question : Type 0 where
  pub name : List ℕ
  pub type : ℕ

abbrev pub separator : List ℕ → List ℕ
separator [] = []
separator (c ∷ name) = 46 ∷ []

-- The loops over the labels and over the bytes of one, so many of which are left, on the bytes from the
-- offset on. The name, and the bytes behind it.
unfoldable pub parse_labels : ℕ → List ℕ → List ℕ → Option (List ℕ × List ℕ)
parse_labels left [] name = some (name, [])
parse_labels (suc left) (c ∷ rest) name = parse_labels left rest (name ++ (c ∷ []))
parse_labels zero (size ∷ rest) name =
    let label = parse_labels size rest (name ++ separator name) in
    if size == 0
    then some (name, rest)
    else if bit_and size 0xc0 != 0 || ltb (length rest) size
    then none
    else label

abbrev pub question_of : (ℕ → ℕ) → Option (List ℕ × List ℕ) → Option Question
question_of to_lower none = none
question_of to_lower (some (name, rest)) =
    if is_empty name || ltb 253 (length name) || ltb (length rest) 4
    then none
    else some (record { name = normalize_name to_lower name; type = read16 rest 0 })

unfoldable pub parse_question : (ℕ → ℕ) → List ℕ → Option Question
unfolding parse_labels normalize_name
parse_question to_lower packet =
    if ltb (length packet) 17 || byte_at packet 4 != 0 || byte_at packet 5 != 1
    then none
    else question_of to_lower (parse_labels 0 (drop 12 packet) [])

abbrev pub same_text : List ℕ → List ℕ → Bool
same_text [] [] = true
same_text [] (d ∷ ds) = false
same_text (c ∷ cs) [] = false
same_text (c ∷ cs) (d ∷ ds) = let rest = same_text cs ds in c == d && rest

abbrev pub liveness_name : List ℕ
liveness_name = codes "liveness.wireguard-program-split.invalid"

-- The reply to the supervisor's probe, or none where the packet is not one.
unfoldable pub answer_liveness : (ℕ → ℕ) → List ℕ → Option (List ℕ)
unfolding parse_question make_servfail normalize_name
answer_liveness to_lower packet =
    let reply = make_servfail packet in
    let answer = set reply 3 (bit_and (byte_at reply 3) 0xf0) in
    elim (parse_question to_lower packet) [
      | none ↦ none
      | some question ↦
          if ltb (length packet) 17
          then none
          else if same_text (normalize_name to_lower question.name) liveness_name
          then some answer
          else none
    ]
