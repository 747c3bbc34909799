-- ===== src/Dns/Wire/Ttls/Walk.antt =====
-- The loop of `zeroResponseTtls` of src/native/dns-wire.h over the records of a response.
use wireguard_dns_program_sp.Base.{
  ℕ, zero, suc, ◌+◌, ◌<◌, ◌≤◌, ◌≡◌, ◌≢◌, refl, ap, sym, ◌∙◌, Bool, true, false, List, Option, none,
  some, ltb, length, arith, Bool-cases, Option-cases, inl, inr,
}
use wireguard_dns_program_sp.Dns.Wire.{
  byte_at, read16, skip_dns_name, skip_questions, zero_record, zero_records, zero_response_ttls,
}
use wireguard_dns_program_sp.Dns.Wire.Names.{Agree, skip_dns_name-inside, skip_dns_name-Agree}
use wireguard_dns_program_sp.Dns.Wire.Ttls.{
  Erased, Erased-refl, Erased-trans, RecordZeroed, zero_record-RecordZeroed, zero_record-Erased,
  read16-kept,
}

Erased-from : (p q : List ℕ) (a b : ℕ) → a ≤ b → Erased p q b → Erased p q a
Erased-from p q a b le e = record {
  size = e.size;
  kept = λ i h. e.kept i (omega arith);
  zeroed = e.zeroed;
}

-- A message from an offset on: so many records whose names are well formed, that lie inside the
-- message, and whose TTLs are zero unless they are OPT records.
pub data Zeroed (q : List ℕ) : ℕ → ℕ → Type 0 where
  zeroed-none : {o : ℕ} → Zeroed q 0 o
  zeroed-one :
      {left o n behind : ℕ}
      → skip_dns_name q o ≡ some n
      → behind ≡ n + 10 + read16 q (n + 8)
      → behind ≤ length q
      → (read16 q n ≢ 41 → (i : ℕ) → n + 4 ≤ i → i < n + 8 → byte_at q i ≡ 0)
      → Zeroed q left behind
      → Zeroed q (suc left) o

-- How the loop goes on behind a record.
walk_on : ℕ → List ℕ × Option ℕ → List ℕ × Bool
walk_on left (packet, none) = (packet, false)
walk_on left (packet, some behind) = zero_records left packet behind

zero_records-round :
    (left : ℕ) (p : List ℕ) (o : ℕ)
    → zero_records (suc left) p o ≡ walk_on left (zero_record p (skip_dns_name p o))
unfolding zero_records walk_on
zero_records-round left p o = elim (Option-cases (zero_record p (skip_dns_name p o)).1) [
  | inl e ↦ ground arith
  | inr (_, e) ↦ ground arith
]

-- One round of the loop, by what the record turned out to be.
zero_records-none :
    (left : ℕ) (p : List ℕ) (o : ℕ)
    → skip_dns_name p o ≡ none
    → zero_records (suc left) p o ≡ (p, false)
unfolding walk_on zero_record
zero_records-none left p o e =
    zero_records-round left p o ∙ ap (λ x. walk_on left (zero_record p x)) e

zero_records-cut :
    (left : ℕ) (p : List ℕ) (o : ℕ) {n : ℕ}
    → skip_dns_name p o ≡ some n
    → (zero_record p (some n)).1 ≡ none
    → zero_records (suc left) p o ≡ ((zero_record p (some n)).0, false)
unfolding walk_on
zero_records-cut left p o {n} e cut =
    zero_records-round left p o
    ∙ ap (λ x. walk_on left (zero_record p x)) e
    ∙ ap (λ x. walk_on left ((zero_record p (some n)).0, x)) cut

zero_records-next :
    (left : ℕ) (p : List ℕ) (o : ℕ) {n behind : ℕ}
    → skip_dns_name p o ≡ some n
    → (zero_record p (some n)).1 ≡ some behind
    → zero_records (suc left) p o ≡ zero_records left (zero_record p (some n)).0 behind
unfolding walk_on
zero_records-next left p o {n} e next =
    zero_records-round left p o
    ∙ ap (λ x. walk_on left (zero_record p x)) e
    ∙ ap (λ x. walk_on left ((zero_record p (some n)).0, x)) next

-- A record that was passed, as the pair that the loop goes on with.
zero_record-passed :
    (p : List ℕ) (n : ℕ) {behind : ℕ}
    → (zero_record p (some n)).1 ≡ some behind
    → RecordZeroed p ((zero_record p (some n)).0) n behind
zero_record-passed p n next = zero_record-RecordZeroed p n (cc)

zero_records-Erased : (left : ℕ) (p : List ℕ) (o : ℕ) → Erased p (zero_records left p o).0 o
unfolding zero_records
zero_records-Erased zero p o = Erased-refl p o
zero_records-Erased (suc left) p o = elim (Option-cases (skip_dns_name p o)) [
  | inl e ↦ rw (zero_records-none left p o e) (Erased-refl p o)
  | inr (n, e) ↦
      let (before, _) = skip_dns_name-inside p o e in
      let one =
        Erased-from p ((zero_record p (some n)).0) o (n + 4) (omega arith)
          (zero_record-Erased p n) in
      elim (Option-cases ((zero_record p (some n)).1)) [
        | inl cut ↦ rw (zero_records-cut left p o e cut) one
        | inr (behind, next) ↦
            let passed = zero_record-passed p n next in
            let q = (zero_record p (some n)).0 in
            let after = zero_records-Erased left q behind in
            let behind_o : o ≤ behind = omega (arith, passed.body) in
            rw (zero_records-next left p o e next)
              (Erased-trans p q ((zero_records left q behind).0) o behind behind_o one after)
      ]
]

-- Bytes that a later erasure starts behind are as they were.
Erased-Agree : (p q : List ℕ) (from n : ℕ) → n ≤ from → Erased p q from → Agree p q n
Erased-Agree p q from n le e = record { size = e.size; bytes = λ i h. e.kept i (omega arith) }

-- A record that was passed looks the same in what the rest of the loop made of the message.
Zeroed-passed :
    (p q out : List ℕ) (o n behind left : ℕ)
    → skip_dns_name p o ≡ some n
    → RecordZeroed p q n behind
    → Erased q out behind
    → Zeroed out left behind
    → Zeroed out (suc left) o
Zeroed-passed p q out o n behind left e one after rest =
    let within : n + 10 ≤ behind = one.body in
    let same : Agree p out n =
      Erased-Agree p out (n + 4) n (omega arith)
        (Erased-trans p q out (n + 4) behind (omega arith) one.erased after) in
    let kind = read16-kept q out behind n after.kept (omega arith) in
    let length_field = read16-kept q out behind (n + 8) after.kept (omega arith) in
    zeroed-one (skip_dns_name-Agree p out o same e) (rw length_field one.end)
      (rw (after.size, one.erased.size) one.fits)
      (λ plain i a b. after.kept i (omega arith) ∙ one.ttl (λ is. plain (kind ∙ is)) i a b) rest

zero_records-Zeroed :
    (left : ℕ) (p : List ℕ) (o : ℕ)
    → (zero_records left p o).1 ≡ true
    → Zeroed (zero_records left p o).0 left o
unfolding zero_records
zero_records-Zeroed zero p o e = zeroed-none
zero_records-Zeroed (suc left) p o e = elim (Option-cases (skip_dns_name p o)) [
  | inl none_e ↦
      let bad : false ≡ true = ap (λ x. x.1) (sym (zero_records-none left p o none_e)) ∙ e in
      absurd (cc)
  | inr (n, name) ↦ elim (Option-cases ((zero_record p (some n)).1)) [
    | inl cut ↦
        let bad : false ≡ true = ap (λ x. x.1) (sym (zero_records-cut left p o name cut)) ∙ e in
        absurd (cc)
    | inr (behind, next) ↦
        let q = (zero_record p (some n)).0 in
        let round = zero_records-next left p o name next in
        let done : (zero_records left q behind).1 ≡ true = ap (λ x. x.1) (sym round) ∙ e in
        rw round (
          Zeroed-passed p q ((zero_records left q behind).0) o n behind left name
            (zero_record-passed p n next) (zero_records-Erased left q behind)
            (zero_records-Zeroed left q behind done))
  ]
]

skip_questions-forward :
    (left : ℕ) (p : List ℕ) (o : ℕ) {n : ℕ} → skip_questions left p o ≡ some n → o ≤ n
unfolding skip_questions
skip_questions-forward zero p o e = ground arith
skip_questions-forward (suc left) p o {n} e = elim (Option-cases (skip_dns_name p o)) [
  | inl none_e ↦ let bad = rw (skip_questions, none_e) at e in absurd (cc)
  | inr (m, name) ↦
      let (before, _) = skip_dns_name-inside p o name in
      let round = rw (skip_questions, name) at e in
      ground (arith, skip_questions-forward left p (m + 4) {n = n})
]

-- `zeroResponseTtls`, on every message, successful or not: the length and the first 12 bytes stay,
-- and every other byte is as it was or zero.
pub zero_response_ttls-Erased : (p : List ℕ) → Erased p (zero_response_ttls p).0 12
unfolding zero_response_ttls
zero_response_ttls-Erased p = elim (Bool-cases (ltb (length p) 12)) [
  | inl short ↦ rw short (Erased-refl p 12)
  | inr long ↦ elim (Option-cases (skip_questions (read16 p 4) p 12)) [
    | inl none_e ↦ rw (long, none_e) (Erased-refl p 12)
    | inr (o, some_e) ↦
        rw (long, some_e)
          (Erased-from p (zero_records (read16 p 6 + read16 p 8 + read16 p 10) p o).0 12 o
            (skip_questions-forward (read16 p 4) p 12 some_e)
            (zero_records-Erased (read16 p 6 + read16 p 8 + read16 p 10) p o))
  ]
]

-- Where `zeroResponseTtls` answers true, the questions could be skipped, and behind them stand as
-- many records as the header's three counts say, each inside the message, with a TTL of zero
-- unless it is an OPT record.
pub zero_response_ttls-Zeroed :
    (p : List ℕ)
    → (zero_response_ttls p).1 ≡ true
    → (o : ℕ) × (skip_questions (read16 p 4) p 12 ≡ some o)
      × Zeroed (zero_response_ttls p).0 (read16 p 6 + read16 p 8 + read16 p 10) o
unfolding zero_response_ttls
zero_response_ttls-Zeroed p done = elim (Bool-cases (ltb (length p) 12)) [
  | inl short ↦ let bad = rw short at done in absurd (cc)
  | inr long ↦ elim (Option-cases (skip_questions (read16 p 4) p 12)) [
    | inl none_e ↦ let bad = rw (long, none_e) at done in absurd (cc)
    | inr (o, some_e) ↦
        let ok = rw (long, some_e) at done in
        rw (long, some_e)
          (o, refl, zero_records-Zeroed (read16 p 6 + read16 p 8 + read16 p 10) p o ok)
  ]
]
