-- ===== src/Classifier/Bits.antt =====
-- The bits of the mark that classifier.bpf.c puts on a socket.
use wireguard_dns_program_sp.Base.{ℕ, ◌<◌, ◌^◌, ◌≡◌, arith, bit_and}
use wireguard_dns_program_sp.Base.Bits.{
  bit, bit_not, bit-bit_and, bit-bit_or, bit-bit_not, bit-le-one,
}
use wireguard_dns_program_sp.Policy.{PolicyConfig}
use wireguard_dns_program_sp.Classifier.{policy_mark}

module _ (cfg : PolicyConfig) (mark j : ℕ) (word : j < 32) (small : cfg.mask < 2 ^ 32) where
  pub policy_mark_bits :
      (bit cfg.mask j ≡ 1 → bit (policy_mark cfg mark) j ≡ bit cfg.mark j)
      × (bit cfg.mask j ≡ 0 → bit cfg.mark j ≡ 0 → bit (policy_mark cfg mark) j ≡ bit mark j)
  unfolding policy_mark
  policy_mark_bits = grind (
    arith,
    bit-bit_or (bit_and mark (bit_not 32 cfg.mask)) cfg.mark j,
    bit-bit_and mark (bit_not 32 cfg.mask) j,
    bit-bit_not 32 cfg.mask j word small,
    bit-le-one mark j,
    bit-le-one cfg.mark j,
  )
