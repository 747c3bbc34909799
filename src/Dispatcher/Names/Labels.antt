-- ===== src/Dispatcher/Names/Labels.antt =====
-- The question that a resolver encodes is the one that the dispatcher reads.
use mathlib.Core.List.{append_assoc, append-nil}
use wireguard_dns_program_sp.Base.{
  ℕ, ◌+◌, ◌*◌, ◌≤◌, ◌<◌, ◌≡◌, refl, sym, ap, ◌∙◌, true, false, Option, some, List, [], ◌∷◌, ◌++◌,
  ltb, ◌==◌, ◌!=◌, length, length-append, bit_and, arith, ==_iff,
}
use wireguard_dns_program_sp.Base.Tables.{holds_below, holds_below-true}
use wireguard_dns_program_sp.Dns.Wire.{read16}
use wireguard_dns_program_sp.Dispatcher.Names.{
  is_empty, separator, parse_labels, parse_question, normalize_name,
}

-- The labels of a name with dots between them.
abbrev pub dotted : List (List ℕ) → List ℕ
dotted [] = []
dotted (label ∷ []) = label
dotted (label ∷ next ∷ labels) = label ++ 46 ∷ dotted (next ∷ labels)

-- A name in a message: each label behind its length, and a zero.
abbrev pub encoded : List (List ℕ) → List ℕ
encoded [] = 0 ∷ []
encoded (label ∷ labels) = length label ∷ (label ++ encoded labels)

-- Labels of 1 to 63 characters.
abbrev pub AllLabels : List (List ℕ) → Type 0
AllLabels [] = Unit {0}
AllLabels (label ∷ labels) = (0 < length label) × (length label < 64) × AllLabels labels

short_table : holds_below 64 (λ n. bit_and n 0xc0 == 0) ≡ true
unfolding holds_below
short_table = refl

short_length : (n : ℕ) → n < 64 → bit_and n 0xc0 ≡ 0
short_length n h =
    (==_iff (bit_and n 0xc0) 0).0 (holds_below-true 64 (λ n. bit_and n 0xc0 == 0) short_table n h)

parse_labels_copied :
    (label rest name : List ℕ)
    → parse_labels (length label) (label ++ rest) name ≡ parse_labels 0 rest (name ++ label)
unfolding parse_labels
parse_labels_copied [] rest name =
    ap (λ (n : List ℕ). parse_labels 0 rest n) (sym (append-nil name))
parse_labels_copied (c ∷ label) rest name =
    parse_labels_copied label rest (name ++ (c ∷ []))
    ∙ ap (λ (n : List ℕ). parse_labels 0 rest n) (append_assoc name (c ∷ []) label)

parse_labels_label :
    (label rest name : List ℕ)
    → 0 < length label
    → length label < 64
    → parse_labels 0 (length label ∷ (label ++ rest)) name
      ≡ parse_labels 0 rest (name ++ separator name ++ label)
unfolding parse_labels
parse_labels_label label rest name some_left short =
    let e : (length label == 0) ≡ false = ground arith in
    let f : (bit_and (length label) 0xc0 != 0) ≡ false =
      ground (arith, short_length (length label) short) in
    let g : ltb (length (label ++ rest)) (length label) ≡ false =
      ground (arith, length-append label rest) in
    rw (e, f, g) (parse_labels_copied label rest (name ++ separator name))

is_empty_append : (first second : List ℕ) → 0 < length second → is_empty (first ++ second) ≡ false
is_empty_append [] [] h = absurd (omega arith)
is_empty_append [] (c ∷ second) h = refl
is_empty_append (c ∷ first) second h = refl

separator-dot : (name : List ℕ) → is_empty name ≡ false → separator name ≡ 46 ∷ []
separator-dot [] h = absurd (cc)
separator-dot (c ∷ name) h = refl

abbrev dotted_rest : List (List ℕ) → List ℕ
dotted_rest [] = []
dotted_rest (label ∷ labels) = 46 ∷ (label ++ dotted_rest labels)

dotted-dotted_rest :
    (label : List ℕ) (labels : List (List ℕ))
    → label ++ dotted_rest labels ≡ dotted (label ∷ labels)
dotted-dotted_rest label [] = append-nil label
dotted-dotted_rest label (next ∷ labels) =
    ap (λ (rest : List ℕ). label ++ 46 ∷ rest) (dotted-dotted_rest next labels)

joined :
    (name label rest : List ℕ)
    → is_empty name ≡ false
    → name ++ separator name ++ label ++ rest ≡ name ++ 46 ∷ (label ++ rest)
joined name label rest h =
    append_assoc (name ++ separator name) label rest
    ∙ append_assoc name (separator name) (label ++ rest)
    ∙ ap (λ (dot : List ℕ). name ++ (dot ++ (label ++ rest))) (separator-dot name h)

-- Behind a part of the name, each label comes with a dot.
parse_labels_behind :
    (labels : List (List ℕ)) (name tail : List ℕ)
    → is_empty name ≡ false
    → AllLabels labels
    → parse_labels 0 (encoded labels ++ tail) name ≡ some (name ++ dotted_rest labels, tail)
unfolding parse_labels
parse_labels_behind [] name tail h all =
    ap (λ (n : List ℕ). Option.some (n, tail)) (sym (append-nil name))
parse_labels_behind (label ∷ labels) name tail h all =
    ap (λ (bytes : List ℕ). parse_labels 0 (length label ∷ bytes) name)
      (append_assoc label (encoded labels) tail)
    ∙ parse_labels_label label (encoded labels ++ tail) name all.0 all.1
    ∙ parse_labels_behind labels (name ++ separator name ++ label) tail
        (is_empty_append (name ++ separator name) label all.0) all.2
    ∙ ap (λ (n : List ℕ). Option.some (n, tail)) (joined name label (dotted_rest labels) h)

-- A name that was encoded is read.
parse_labels-encoded :
    (label : List ℕ) (labels : List (List ℕ)) (tail : List ℕ)
    → AllLabels (label ∷ labels)
    → parse_labels 0 (encoded (label ∷ labels) ++ tail) [] ≡ some (dotted (label ∷ labels), tail)
parse_labels-encoded label labels tail all =
    ap (λ (bytes : List ℕ). parse_labels 0 (length label ∷ bytes) [])
      (append_assoc label (encoded labels) tail)
    ∙ parse_labels_label label (encoded labels ++ tail) [] all.0 all.1
    ∙ parse_labels_behind labels label tail (is_empty_append [] label all.0) all.2
    ∙ ap (λ (n : List ℕ). Option.some (n, tail)) (dotted-dotted_rest label labels)

is_empty-dotted :
    (label : List ℕ) (labels : List (List ℕ))
    → 0 < length label
    → is_empty (dotted (label ∷ labels)) ≡ false
is_empty-dotted [] labels h = absurd (omega arith)
is_empty-dotted (c ∷ label) [] h = refl
is_empty-dotted (c ∷ label) (next ∷ labels) h = refl

encoded_long :
    (label : List ℕ) (labels : List (List ℕ))
    → 0 < length label
    → 3 ≤ length (encoded (label ∷ labels))
encoded_long label [] h = omega (arith, length-append label (0 ∷ []))
encoded_long label (next ∷ labels) h = omega (arith, length-append label (encoded (next ∷ labels)))

-- A query of one question whose name has one label or more, each of 1 to 63 characters, and at most 253
-- characters with the dots, is read as that name, normalized, and that type, whatever the ten other bytes
-- of its header are and whatever comes behind the question's class.
pub parse_question-encoded :
    (to_lower : ℕ → ℕ) (a b c d e f g h i j : ℕ) (label : List ℕ) (labels : List (List ℕ))
    (high low class_high class_low : ℕ) (tail : List ℕ)
    → AllLabels (label ∷ labels)
    → length (dotted (label ∷ labels)) ≤ 253
    → let question = encoded (label ∷ labels) ++ (high ∷ low ∷ class_high ∷ class_low ∷ tail) in
      parse_question to_lower (a ∷ b ∷ c ∷ d ∷ 0 ∷ 1 ∷ e ∷ f ∷ g ∷ h ∷ i ∷ j ∷ question)
      ≡ some (record {
        name = normalize_name to_lower (dotted (label ∷ labels));
        type = high * 256 + low;
      })
unfolding parse_question read16
parse_question-encoded to_lower a b c d e f g h i j label labels high low class_high class_low tail
      all short =
    let rest = high ∷ low ∷ class_high ∷ class_low ∷ tail in
    let question = encoded (label ∷ labels) ++ rest in
    let packet = a ∷ b ∷ c ∷ d ∷ 0 ∷ 1 ∷ e ∷ f ∷ g ∷ h ∷ i ∷ j ∷ question in
    let long : ltb (length packet) 17 ≡ false =
      ground
        (arith, length-append (encoded (label ∷ labels)) rest, encoded_long label labels all.0) in
    let nonempty = is_empty-dotted label labels all.0 in
    let fits : ltb 253 (length (dotted (label ∷ labels))) ≡ false = ground arith in
    let enough : ltb (length rest) 4 ≡ false = ground arith in
    rw (parse_question, long, parse_labels-encoded label labels rest all, nonempty, fits, enough)
      refl
