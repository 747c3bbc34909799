-- ===== src/Log/Fifo/Write.antt =====
-- `AsyncLog::write` of src/native/async-log.h.
use wireguard_dns_program_sp.Base.{
  ℕ, ◌+◌, ◌-◌, ◌%◌, ◌^◌, ◌≤◌, ◌<◌, ◌≡◌, ◌↔◌, refl, ap, ◌⊎◌, inl, inr, Bool, true, false, not, ◌||◌,
  List, [], ◌∷◌, ◌++◌, ltb, ◌==◌, length, arith, Bool-cases,
}
use wireguard_dns_program_sp.Log.Queue.{Queue, put_last, drop_one, write}
use wireguard_dns_program_sp.Log.Fifo.{
  contents, IsQueue, put_last-contents, put_last-IsQueue, drop_one-IsQueue, drop_one-contents,
}

-- When `write` takes a message.
pub record Admits (q : Queue) (copied : Bool) (bytes : List ℕ) : Type 0 where
  pub taking : q.accepting ≡ true
  pub copy : copied ≡ true
  pub short : length bytes ≤ 65536
  pub room : q.count < 256
  pub space : q.bytes + length bytes ≤ 262144

write-admitted :
    (q : Queue) (copied : Bool) (bytes : List ℕ)
    → IsQueue q
    → Admits q copied bytes
    → write q copied bytes ≡ (put_last q bytes, true)
unfolding write
write-admitted q copied bytes w a =
    let first : (not q.accepting || ltb 65536 (length bytes) || not copied) ≡ false =
      ground (arith, a.taking, a.copy, a.short) in
    let second : (not q.accepting || q.count == 256 || ltb (262144 - q.bytes) (length bytes))
        ≡ false =
      ground (arith, a.taking, a.room, a.space, w.bounded) in
    rw (first, second) refl

write-taken :
    (q : Queue) (copied : Bool) (bytes : List ℕ)
    → IsQueue q
    → (write q copied bytes).1 ≡ true
    → Admits q copied bytes
unfolding write
write-taken q copied bytes w e = record {
  taking = ground arith;
  copy = ground arith;
  short = ground arith;
  room = ground (arith, w.few);
  space = ground (arith, w.bounded);
}

write-refused :
    (q : Queue) (copied : Bool) (bytes : List ℕ)
    → (write q copied bytes).1 ≡ false
    → write q copied bytes ≡ drop_one q
unfolding write
write-refused q copied bytes e = ground arith

-- `write` on a well-formed queue. It answers true just when the log is accepting, the copy could be
-- allocated, the message is no longer than 65536 bytes, and the queue has a slot and the bytes
-- free (256 messages, 262144 bytes): then the message is the last of the queue. Otherwise the
-- messages stay and one more is counted as dropped. The queue stays well formed.
pub write-Fifo :
    (q : Queue) (copied : Bool) (bytes : List ℕ)
    → IsQueue q
    → IsQueue (write q copied bytes).0
      × (((write q copied bytes).1 ≡ true) ↔ Admits q copied bytes)
      × ((((write q copied bytes).1 ≡ true)
            × (contents (write q copied bytes).0 ≡ contents q ++ (bytes ∷ []))
            × ((write q copied bytes).0.dropped ≡ q.dropped))
          ⊎ (((write q copied bytes).1 ≡ false)
              × (contents (write q copied bytes).0 ≡ contents q)
              × ((write q copied bytes).0.dropped ≡ (q.dropped + 1) % 2 ^ 64)))
write-Fifo q copied bytes w = elim (Bool-cases (write q copied bytes).1) [
  | inl ok ↦
      let a = write-taken q copied bytes w ok in
      rw (write-admitted q copied bytes w a) (
        put_last-IsQueue q bytes w a.room a.space,
        (λ _. a, λ _. refl),
        inl (refl, put_last-contents q bytes w a.room, refl),
      )
  | inr refused ↦
      let same = write-refused q copied bytes refused in
      let never : ((write q copied bytes).1 ≡ true) ↔ Admits q copied bytes =
        (λ ok. absurd (cc), λ a. ap (λ x. x.1) (write-admitted q copied bytes w a)) in
      (
        rw same (drop_one-IsQueue q w),
        never,
        inr (refused, rw same (drop_one-contents q), rw same refl),
      )
]
