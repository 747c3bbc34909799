-- ===== src/Dns/Wire/Ttls.antt =====
-- One record of `zeroResponseTtls` of src/native/dns-wire.h: what it erases, and what it leaves.
pub mod Walk
use wireguard_dns_program_sp.Base.{
  ℕ, zero, suc, ◌+◌, ◌<◌, ◌≤◌, ◌≡◌, ◌≢◌, ◌⊎◌, refl, ap, sym, ◌∙◌, Bool, true, false, not, List,
  Option, none, some, ltb, leb, ◌==◌, ◌!=◌, length, get_or, arith, if◌then◌else◌, Bool-cases,
  Option-cases, inl, inr,
}
use wireguard_dns_program_sp.Dns.Wire.{
  byte_at, fill_zero, read16, skip_dns_name, skip_questions, zero_record, zero_records,
  zero_response_ttls,
}
use wireguard_dns_program_sp.Dns.Wire.Names.{Agree, skip_dns_name-inside, skip_dns_name-Agree}
use wireguard_dns_program_sp.Dns.Wire.Servfail.{
  length-fill_zero, fill_zero-before, fill_zero-behind, fill_zero-inside,
}

-- From p to q bytes at offsets from `from` on were erased, and nothing else happened.
pub record Erased (p q : List ℕ) (from : ℕ) : Type 0 where
  pub size : length q ≡ length p
  pub kept : (i : ℕ) → i < from → byte_at q i ≡ byte_at p i
  pub zeroed : (i : ℕ) → (byte_at q i ≡ byte_at p i) ⊎ (byte_at q i ≡ 0)

Erased-refl : (p : List ℕ) (from : ℕ) → Erased p p from
Erased-refl p from = record { size = refl; kept = λ i h. refl; zeroed = λ i. inl refl }

Erased-trans : (p q r : List ℕ) (a b : ℕ) → a ≤ b → Erased p q a → Erased q r b → Erased p r a
Erased-trans p q r a b le e f = record {
  size = f.size ∙ e.size;
  kept = λ i h. f.kept i (omega arith) ∙ e.kept i h;
  zeroed = λ i. ground (arith, e.zeroed i, f.zeroed i);
}

-- One record: its body was in the message, and its TTL is zero unless it is the OPT record.
pub record RecordZeroed (p q : List ℕ) (o behind : ℕ) : Type 0 where
  pub fits : behind ≤ length p
  pub body : o + 10 ≤ behind
  pub end : behind ≡ o + 10 + read16 q (o + 8)
  pub ttl : read16 q o ≢ 41 → (i : ℕ) → o + 4 ≤ i → i < o + 8 → byte_at q i ≡ 0
  pub erased : Erased p q (o + 4)

fill_zero-Erased :
    (p : List ℕ) (from n : ℕ) → from + n ≤ length p → Erased p (fill_zero p from n) from
fill_zero-Erased p from n fits = record {
  size = length-fill_zero p from n;
  kept = λ i h. fill_zero-before p from n i h;
  zeroed = λ i. ground (
    arith,
    fill_zero-before p from n i,
    fill_zero-inside p from n i,
    fill_zero-behind p from n i,
  );
}

-- `read16` reads two bytes.
read16-kept :
    (p q : List ℕ) (limit o : ℕ)
    → ((i : ℕ) → i < limit → byte_at q i ≡ byte_at p i)
    → o + 1 < limit
    → read16 q o ≡ read16 p o
unfolding read16
read16-kept p q limit o kept h = rw (kept o (omega arith), kept (o + 1) h)

cleared-Erased :
    (p : List ℕ) (o : ℕ)
    → o + 10 ≤ length p
    → Erased p (if read16 p o != 41 then fill_zero p (o + 4) 4 else p) (o + 4)
cleared-Erased p o fits = elim (Bool-cases (read16 p o != 41)) [
  | inl plain ↦ rw plain (fill_zero-Erased p (o + 4) 4 (omega arith))
  | inr opt ↦ rw opt (Erased-refl p (o + 4))
]

cleared-ttl :
    (p : List ℕ) (o i : ℕ)
    → o + 10 ≤ length p
    → read16 p o ≢ 41
    → o + 4 ≤ i
    → i < o + 8
    → byte_at (if read16 p o != 41 then fill_zero p (o + 4) 4 else p) i ≡ 0
cleared-ttl p o i fits plain a b =
    let test : (read16 p o != 41) ≡ true = ground arith in
    rw test (fill_zero-inside p (o + 4) 4 i a (omega arith) (omega arith))

zero_record-RecordZeroed :
    (p : List ℕ) (o : ℕ) {q : List ℕ} {behind : ℕ}
    → zero_record p (some o) ≡ (q, some behind)
    → RecordZeroed p q o behind
unfolding zero_record
zero_record-RecordZeroed p o {q} {behind} e =
    let cleared = if read16 p o != 41 then fill_zero p (o + 4) 4 else p in
    let fits : o + 10 ≤ length p = ground arith in
    let same : q ≡ cleared = ground arith in
    let end : behind ≡ o + 10 + read16 q (o + 8) = ground arith in
    let inside : behind ≤ length p = ground arith in
    let erased : Erased p q (o + 4) = rw same (cleared-Erased p o fits) in
    let kept : read16 q o ≡ read16 p o = read16-kept p q (o + 4) o erased.kept (omega arith) in
    record {
      fits = inside;
      body = omega arith;
      end = end;
      ttl = λ plain i a b. rw same (cleared-ttl p o i fits (λ is. plain (kept ∙ is)) a b);
      erased = erased;
    }

zero_record-Erased : (p : List ℕ) (o : ℕ) → Erased p (zero_record p (some o)).0 (o + 4)
unfolding zero_record
zero_record-Erased p o = elim (Bool-cases (ltb (length p) (o + 10))) [
  | inl short ↦ rw short (Erased-refl p (o + 4))
  | inr long ↦ rw long (cleared-Erased p o (ground arith))
]
