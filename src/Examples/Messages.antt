-- ===== src/Examples/Messages.antt =====
-- Instances for src/native/dns-wire.h.
use wireguard_dns_program_sp.Base.{ℕ, ◌+◌, ◌≡◌, refl, some, List, [], ◌∷◌}
use wireguard_dns_program_sp.Dns.Wire.{
  fill_zero, read16, skip_name, skip_dns_name, skip_questions, zero_record, zero_records,
  zero_response_ttls,
}
use wireguard_dns_program_sp.Dns.Wire.Ttls.Walk.{Zeroed, zero_response_ttls-Zeroed}

-- A query for the addresses of "a".
abbrev query : List ℕ
query = 18 ∷ 52 ∷ 1 ∷ 0 ∷ 0 ∷ 1 ∷ 0 ∷ 0 ∷ 0 ∷ 0 ∷ 0 ∷ 0 ∷ 1 ∷ 97 ∷ 0 ∷ 0 ∷ 1 ∷ 0 ∷ 1 ∷ []

-- Its answer: one record with a compressed name, a TTL of 300 and an address.
abbrev response : List ℕ
response =
    18 ∷ 52 ∷ 129 ∷ 128 ∷ 0 ∷ 1 ∷ 0 ∷ 1 ∷ 0 ∷ 0 ∷ 0 ∷ 0 ∷ 1 ∷ 97 ∷ 0 ∷ 0 ∷ 1 ∷ 0 ∷ 1 ∷ 192 ∷ 12 ∷ 0
    ∷ 1 ∷ 0 ∷ 1 ∷ 0 ∷ 0 ∷ 1 ∷ 44 ∷ 0 ∷ 4 ∷ 10 ∷ 0 ∷ 0 ∷ 1 ∷ []

zero_response_ttls-Zeroed_example :
    (o : ℕ) × (skip_questions (read16 response 4) response 12 ≡ some o)
    × Zeroed
        (zero_response_ttls response).0
        (read16 response 6 + read16 response 8 + read16 response 10)
        o
unfolding zero_response_ttls zero_records zero_record fill_zero skip_questions skip_dns_name
    skip_name read16
zero_response_ttls-Zeroed_example = zero_response_ttls-Zeroed response refl
