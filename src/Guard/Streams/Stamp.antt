-- ===== src/Guard/Streams/Stamp.antt =====
-- The word of a stream label (set_stream_role, stream_label_read and the test of stream_guard):
-- its role reads back, and it is current under one stamp only.
use wireguard_dns_program_sp.Base.{
  ℕ, ◌+◌, ◌-◌, ◌*◌, ◌/◌, ◌%◌, ◌^◌, ◌<◌, ◌≡◌, false, some, ◌==◌, bit_and, arith,
}
use wireguard_dns_program_sp.Base.Bits.{bit_or_step, bit_or-zero, bit_and_step, bit_and_mask}
use wireguard_dns_program_sp.Guard.Streams.{
  Version, StreamRole, stream_stamp, label_word, is_safe, word_is_current, word_is_safe,
  stream_stale,
}

-- The counters whose sum a stamp holds are far from wrapping.
abbrev pub sum : Version → ℕ
sum v = v.topology + v.configuration

abbrev pub InRange : Version → Type 0
InRange v = sum v < 2 ^ 63 - 1

stamp-double : (v : Version) → InRange v → stream_stamp v ≡ sum v * 2
unfolding stream_stamp
stamp-double v h = omega arith

word-double :
    (v : Version) (role : StreamRole) → InRange v → label_word v role ≡ sum v * 2 + is_safe role
unfolding label_word stream_stamp
word-double v StreamRole.safe h = omega (
  arith,
  bit_or_step ((v.topology + v.configuration) % 2 ^ 64 * 2 % 2 ^ 64) 1,
  bit_or-zero (((v.topology + v.configuration) % 2 ^ 64 * 2 % 2 ^ 64) / 2),
)
word-double v StreamRole.protected h =
    omega (arith, bit_or-zero ((v.topology + v.configuration) % 2 ^ 64 * 2 % 2 ^ 64))

clear_low : (x : ℕ) → x < 2 ^ 64 → bit_and x (2 ^ 64 - 2) ≡ x / 2 * 2
clear_low x h = ground (arith, bit_and_step x (2 ^ 64 - 2), bit_and_mask 63 (x / 2))

-- A word that is published under a version is current under exactly the versions of that sum.
-- Condition: the sums of both versions are below the wrap.
pub word_is_current_iff :
    (v w : Version) (role : StreamRole)
    → InRange v
    → InRange w
    → word_is_current (some (label_word v role)) w ≡ (sum v == sum w)
word_is_current_iff v w StreamRole.safe hv hw = ground (
  arith,
  word-double v StreamRole.safe hv,
  stamp-double w hw,
  clear_low (sum v * 2 + 1) (omega arith),
)
word_is_current_iff v w StreamRole.protected hv hw = ground (
  arith,
  word-double v StreamRole.protected hv,
  stamp-double w hw,
  clear_low (sum v * 2 + 0) (omega arith),
)

pub word_is_safe-label :
    (v : Version) (role : StreamRole)
    → InRange v
    → word_is_safe (some (label_word v role)) ≡ (is_safe role == 1)
word_is_safe-label v StreamRole.safe hv =
    ground (arith, word-double v StreamRole.safe hv, bit_and_mask 1 (sum v * 2 + 1))
word_is_safe-label v StreamRole.protected hv =
    ground (arith, word-double v StreamRole.protected hv, bit_and_mask 1 (sum v * 2 + 0))

-- STREAM_STALE is current under no version in range.
pub stream_stale-never : (v : Version) → InRange v → word_is_current (some stream_stale) v ≡ false
stream_stale-never v h = ground (arith, stamp-double v h)
