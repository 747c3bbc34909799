-- ===== src/Log/Fifo/Writer.antt =====
-- The writer of src/native/async-log.h, which takes the messages in their order.
use wireguard_dns_program_sp.Base.{
  ℕ, zero, suc, ◌+◌, ◌-◌, ◌%◌, ◌≡◌, refl, ap, sym, ◌∙◌, inl, inr, Bool, true, false, ◌&&◌, List, [],
  ◌∷◌, ◌++◌, none, some, ◌==◌, ◌!=◌, get_or, set, length, length-set, arith, Bool-cases,
}
use wireguard_dns_program_sp.Log.Queue.{
  Queue, Line, Then, message, queue_dropped, report, round_on, take_first, run_round,
}
use wireguard_dns_program_sp.Log.Fifo.{queued, contents, total, IsQueue, queued-outside}

taken : Queue → Queue
taken q = record q {
  slots = set q.slots q.head [];
  head = (q.head + 1) % 256;
  count = q.count - 1;
  bytes = q.bytes - length (get_or q.slots q.head []);
}

-- The first message goes, and the others stay in their order.
taken-contents :
    (q : Queue) (n : ℕ)
    → IsQueue q
    → q.count ≡ suc n
    → contents q ≡ get_or q.slots q.head [] ∷ contents (taken q)
unfolding contents queued taken
taken-contents q n w e =
    let less : q.count - 1 ≡ n = omega arith in
    let out =
      queued-outside q.slots ((q.head + 1) % 256) n q.head [] (λ k h same. omega (arith, w.few))
        (omega arith) in
    rw (less, out) (ap (λ c. queued q.slots q.head c) e)

taken-IsQueue : (q : Queue) (n : ℕ) → IsQueue q → q.count ≡ suc n → IsQueue (taken q)
unfolding taken total
taken-IsQueue q n w e =
    let parts = w.sum ∙ ap total (taken-contents q n w e) in
    record {
      size = length-set q.slots q.head [] ∙ w.size;
      head_in = omega arith;
      few = omega (arith, w.few);
      tail_at = omega (arith, w.tail_at, w.head_in, w.few);
      sum = omega (arith, parts);
      bounded = omega (arith, w.bounded);
    }

take_first-taken :
    (q : Queue) (n : ℕ)
    → q.count ≡ suc n
    → take_first q ≡ (taken q, some (get_or q.slots q.head []))
unfolding take_first taken
take_first-taken q n e = let test : (q.count == 0) ≡ false = ground arith in rw test refl

take_first-empty : (q : Queue) → q.count ≡ 0 → take_first q ≡ (q, none)
unfolding take_first
take_first-empty q e = let test : (q.count == 0) ≡ true = ground arith in rw test refl

-- The messages among what the sink is given.
unfoldable pub messages : List Line → List (List ℕ)
messages [] = []
messages (message m ∷ lines) = m ∷ messages lines
messages (queue_dropped n ∷ lines) = messages lines

messages-report :
    (lost reported : ℕ) (rest : List Line) → messages (report lost reported ++ rest) ≡ messages rest
unfolding messages report
messages-report lost reported rest = elim (Bool-cases (lost != reported)) [
  | inl e ↦ rw e refl
  | inr e ↦ rw e refl
]

-- What a round does, seen through the list of messages.
pub record Passed (q : Queue) (after : (Queue × ℕ) × (List Line × Then)) : Type 0 where
  pub well : IsQueue after.0.0
  pub given : contents q ≡ messages after.1.0 ++ contents after.0.0
  pub waits : after.1.1 ≡ Then.wait → contents q ≡ []

empty-contents : (q : Queue) → q.count ≡ 0 → contents q ≡ []
unfolding contents queued
empty-contents q e = ap (λ n. queued q.slots q.head n) e

messages-notice : (lost reported : ℕ) → messages (report lost reported) ≡ []
unfolding messages report
messages-notice lost reported = elim (Bool-cases (lost != reported)) [
  | inl e ↦ rw e refl
  | inr e ↦ rw e refl
]

round_on-empty :
    (q : Queue) (reported : ℕ) → IsQueue q → q.count ≡ 0 → Passed q (round_on reported (q, none))
unfolding round_on
round_on-empty q reported w e = record {
  well = w;
  given = sym (ap (λ m. m ++ contents q) (messages-notice q.dropped reported));
  waits = λ _. empty-contents q e;
}

round_on-taken :
    (q : Queue) (reported n : ℕ)
    → IsQueue q
    → q.count ≡ suc n
    → Passed q (round_on reported (taken q, some (get_or q.slots q.head [])))
unfolding round_on messages
round_on-taken q reported n w e = record {
  well = taken-IsQueue q n w e;
  given =
      taken-contents q n w e
      ∙ sym (
          ap (λ m. m ++ contents (taken q))
            (messages-report (taken q).dropped reported (message (get_or q.slots q.head []) ∷ [])));
  waits = λ bad. absurd (cc);
}

round_on-Passed :
    (q : Queue) (reported n : ℕ)
    → IsQueue q
    → q.count ≡ n
    → Passed q (round_on reported (take_first q))
round_on-Passed q reported zero w e = rw (take_first-empty q e) (round_on-empty q reported w e)
round_on-Passed q reported (suc n) w e =
    rw (take_first-taken q n e) (round_on-taken q reported n w e)

pub run_round-Passed :
    (late : Bool) (q : Queue) (reported : ℕ) → IsQueue q → Passed q (run_round late q reported)
unfolding run_round messages
run_round-Passed late q reported w = elim (Bool-cases (q.stopping && late)) [
  | inl e ↦ rw e (record { well = w; given = refl; waits = λ bad. absurd (cc) })
  | inr e ↦ rw e (round_on-Passed q reported q.count w refl)
]
