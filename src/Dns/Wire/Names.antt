-- ===== src/Dns/Wire/Names.antt =====
-- `skipDnsName` of dns-wire.h: it ends inside the message, and reads only the bytes it skips.
use wireguard_dns_program_sp.Base.{
  ℕ, zero, suc, ◌+◌, ◌<◌, ◌≤◌, ◌≡◌, refl, List, some, length, arith,
}
use wireguard_dns_program_sp.Dns.Wire.{byte_at, skip_name, skip_dns_name}

skip_name-inside :
    (fuel : ℕ) (p : List ℕ) (o : ℕ) {n : ℕ} → skip_name fuel p o ≡ some n → (o < n) × (n ≤ length p)
unfolding skip_name
skip_name-inside zero p o e = absurd (cc)
skip_name-inside (suc fuel) p o {n} e =
    ground (arith, skip_name-inside fuel p (o + 1 + byte_at p o) {n = n})

-- A name that was skipped lies inside the message.
pub skip_dns_name-inside :
    (p : List ℕ) (o : ℕ) {n : ℕ} → skip_dns_name p o ≡ some n → (o < n) × (n ≤ length p)
unfolding skip_dns_name
skip_dns_name-inside p o e = skip_name-inside (length p + 1) p o e

-- Messages of one length that agree up to a limit.
pub record Agree (p q : List ℕ) (limit : ℕ) : Type 0 where
  pub size : length q ≡ length p
  pub bytes : (i : ℕ) → i < limit → byte_at q i ≡ byte_at p i

skip_name-Agree :
    (fuel : ℕ) (p q : List ℕ) (o : ℕ) {n : ℕ}
    → Agree p q n
    → skip_name fuel p o ≡ some n
    → skip_name fuel q o ≡ some n
unfolding skip_name
skip_name-Agree zero p q o a e = absurd (cc)
skip_name-Agree (suc fuel) p q o {n} a e =
    let (before, _) = skip_name-inside (suc fuel) p o e in
    let same : byte_at q o ≡ byte_at p o = a.bytes o before in
    ground (arith, same, a.size, skip_name-Agree fuel p q (o + 1 + byte_at p o) {n = n} a)

pub skip_dns_name-Agree :
    (p q : List ℕ) (o : ℕ) {n : ℕ}
    → Agree p q n
    → skip_dns_name p o ≡ some n
    → skip_dns_name q o ≡ some n
unfolding skip_dns_name
skip_dns_name-Agree p q o a e = rw a.size (skip_name-Agree (length p + 1) p q o a e)

-- The fuel is enough: more of it, from any offset, changes nothing.
skip_name-fuel :
    (f g : ℕ) (p : List ℕ) (o : ℕ)
    → length p < o + f
    → length p < o + g
    → skip_name f p o ≡ skip_name g p o
unfolding skip_name
skip_name-fuel zero zero p o a b = refl
skip_name-fuel zero (suc g) p o a b = ground arith
skip_name-fuel (suc f) zero p o a b = ground arith
skip_name-fuel (suc f) (suc g) p o a b = ground (arith, skip_name-fuel f g p (o + 1 + byte_at p o))

-- The fuel that the loop is run with is enough: any other number above the bytes left, also one
-- without bound, gives the same result.
pub skip_dns_name-fuel :
    (f : ℕ) (p : List ℕ) (o : ℕ) → length p < o + f → skip_name f p o ≡ skip_dns_name p o
unfolding skip_dns_name
skip_dns_name-fuel f p o a = skip_name-fuel f (length p + 1) p o a (omega arith)
