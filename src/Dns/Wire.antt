-- ===== src/Dns/Wire.antt =====
-- src/native/dns-wire.h: DNS messages as lists of bytes. An offset is a size_t; messages are
-- below 2 ^ 16 bytes, so no sum of an offset and a length wraps.
pub mod Servfail
pub mod Names
pub mod Ttls
use wireguard_dns_program_sp.Base.{
  ℕ, zero, suc, ◌+◌, ◌*◌, ◌%◌, ◌^◌, Bool, true, false, not, ◌&&◌, ◌||◌, Option, none, some, List,
  [], ◌∷◌, ◌++◌, ltb, leb, ◌==◌, ◌!=◌, if◌then◌else◌, get_or, set, length, bit_and, bit_or,
}

abbrev pub byte_at : List ℕ → ℕ → ℕ
byte_at packet i = get_or packet i 0

-- `std::fill(begin + from, begin + from + count, 0)`.
unfoldable pub fill_zero : List ℕ → ℕ → ℕ → List ℕ
fill_zero packet from zero = packet
fill_zero packet from (suc count) = fill_zero (set packet from 0) (from + 1) count

unfoldable pub make_servfail : List ℕ → List ℕ
unfolding fill_zero
make_servfail query =
    let flags = set query 2 (bit_or (byte_at query 2) 0x80) in
    let code = set flags 3 (bit_or (bit_and (byte_at flags 3) 0xf0) 0x02) in
    if ltb (length query) 12 then [] else fill_zero code 6 6

unfoldable pub matching_response : List ℕ → List ℕ → Bool
matching_response query response =
    leb 2 (length query)
    && leb 12 (length response)
    && byte_at response 0 == byte_at query 0
    && byte_at response 1 == byte_at query 1
    && bit_and (byte_at response 2) 0x80 != 0

unfoldable pub read16 : List ℕ → ℕ → ℕ
read16 packet offset = byte_at packet offset * 256 + byte_at packet (offset + 1)

-- `skipDnsName`: the offset behind the name, or none where it returns false. Each round moves on
-- by a byte at least, so a fuel above the bytes left is enough.
unfoldable pub skip_name : ℕ → List ℕ → ℕ → Option ℕ
skip_name zero packet offset = none
skip_name (suc fuel) packet offset =
    let size = byte_at packet offset in
    let next = offset + 1 in
    let rest = skip_name fuel packet (next + size) in
    if not (ltb offset (length packet))
    then none
    else if size == 0
    then some next
    else if bit_and size 0xc0 == 0xc0
    then (if leb (length packet) next then none else some (next + 1))
    else if bit_and size 0xc0 != 0 || ltb (length packet) (next + size)
    then none
    else rest

unfoldable pub skip_dns_name : List ℕ → ℕ → Option ℕ
unfolding skip_name
skip_dns_name packet offset = skip_name (length packet + 1) packet offset

abbrev skip_question : List ℕ → Option ℕ → Option ℕ
skip_question packet none = none
skip_question packet (some offset) =
    if ltb (length packet) (offset + 4) then none else some (offset + 4)

-- The loop over the questions.
unfoldable pub skip_questions : ℕ → List ℕ → ℕ → Option ℕ
skip_questions zero packet offset = some offset
skip_questions (suc left) packet offset =
    elim (skip_question packet (skip_dns_name packet offset)) [
      | none ↦ none
      | some next ↦ skip_questions left packet next
    ]

-- The packet after one record, with the offset behind it or none. The OPT pseudo-record's TTL
-- holds flags and is kept.
unfoldable pub zero_record : List ℕ → Option ℕ → List ℕ × Option ℕ
unfolding fill_zero read16
zero_record packet none = (packet, none)
zero_record packet (some offset) =
    let cleared = if read16 packet offset != 41 then fill_zero packet (offset + 4) 4 else packet in
    let behind = offset + 10 + read16 cleared (offset + 8) in
    if ltb (length packet) (offset + 10)
    then (packet, none)
    else (cleared, if ltb (length packet) behind then none else some behind)

-- The loop over the records.
unfoldable pub zero_records : ℕ → List ℕ → ℕ → List ℕ × Bool
zero_records zero packet offset = (packet, true)
zero_records (suc left) packet offset =
    let (cleared, next) = zero_record packet (skip_dns_name packet offset) in
    elim next [ none ↦ (cleared, false) | some behind ↦ zero_records left cleared behind ]

abbrev zero_from : List ℕ → Option ℕ → List ℕ × Bool
zero_from packet none = (packet, false)
zero_from packet (some offset) =
    zero_records (read16 packet 6 + read16 packet 8 + read16 packet 10) packet offset

-- `zeroResponseTtls`: the packet is changed in place, also where false is returned.
unfoldable pub zero_response_ttls : List ℕ → List ℕ × Bool
zero_response_ttls packet =
    if ltb (length packet) 12
    then (packet, false)
    else zero_from packet (skip_questions (read16 packet 4) packet 12)
