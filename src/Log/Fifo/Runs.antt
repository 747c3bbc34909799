-- ===== src/Log/Fifo/Runs.antt =====
-- Callers and writer of src/native/async-log.h in any interleaving of their steps.
use wireguard_dns_program_sp.Base.{
  ℕ, ◌≡◌, refl, ap, sym, ◌∙◌, inl, inr, Bool, List, [], ◌∷◌, ◌++◌, if◌then◌else◌, arith, ◌≤◌,
}
use wireguard_dns_program_sp.Log.Queue.{Queue, Line, new_queue, write, run_round, stop}
use wireguard_dns_program_sp.Log.Fifo.{queued, contents, total, IsQueue}
use wireguard_dns_program_sp.Log.Fifo.Write.{write-Fifo}
use wireguard_dns_program_sp.Log.Fifo.Writer.{messages, run_round-Passed}

-- Steps from a queue, with the count that was reported last, to a queue: the messages for which
-- `write` answered true and what the sink was given, each in their order.
pub data Runs : Queue → ℕ → List (List ℕ) → List Line → Queue → Type 0 where
  runs-end : {q : Queue} {reported : ℕ} → Runs q reported [] [] q
  runs-write :
      {q z : Queue} {reported : ℕ} {taken : List (List ℕ)} {given : List Line} (copied : Bool)
      (bytes : List ℕ)
      → Runs (write q copied bytes).0 reported taken given z
      → Runs q reported (if (write q copied bytes).1 then bytes ∷ taken else taken) given z
  runs-round :
      {q z : Queue} {reported : ℕ} {taken : List (List ℕ)} {given : List Line} (late : Bool)
      → Runs (run_round late q reported).0.0 (run_round late q reported).0.1 taken given z
      → Runs q reported taken ((run_round late q reported).1.0 ++ given) z
  runs-stop :
      {q z : Queue} {reported : ℕ} {taken : List (List ℕ)} {given : List Line}
      → Runs (stop q) reported taken given z
      → Runs q reported taken given z

append_assoc : (xs ys zs : List (List ℕ)) → (xs ++ ys) ++ zs ≡ xs ++ (ys ++ zs)
append_assoc [] ys zs = refl
append_assoc (x ∷ xs) ys zs = ap (λ r. x ∷ r) (append_assoc xs ys zs)

messages-append : (xs ys : List Line) → messages (xs ++ ys) ≡ messages xs ++ messages ys
unfolding messages
messages-append [] ys = refl
messages-append (Line.message m ∷ xs) ys = ap (λ r. m ∷ r) (messages-append xs ys)
messages-append (Line.queue_dropped n ∷ xs) ys = messages-append xs ys

write-order :
    (q z : Queue) (copied : Bool) (bytes : List ℕ) (taken : List (List ℕ)) (given : List Line)
    → IsQueue q
    → contents (write q copied bytes).0 ++ taken ≡ messages given ++ contents z
    → contents q ++ (if (write q copied bytes).1 then bytes ∷ taken else taken)
      ≡ messages given ++ contents z
write-order q z copied bytes taken given w rest =
    let (_, _, outcome) = write-Fifo q copied bytes w in
    elim outcome [
      | inl (e, grown, _) ↦ rw e (
          sym (append_assoc (contents q) (bytes ∷ []) taken)
          ∙ ap (λ c. c ++ taken) (sym grown)
          ∙ rest)
      | inr (e, same, _) ↦ rw e (ap (λ c. c ++ taken) (sym same) ∙ rest)
    ]

stop-IsQueue : (q : Queue) → IsQueue q → IsQueue (stop q)
unfolding stop contents
stop-IsQueue q w = record {
  size = w.size;
  head_in = w.head_in;
  few = w.few;
  tail_at = w.tail_at;
  sum = w.sum;
  bounded = w.bounded;
}

append_nil : (xs : List (List ℕ)) → xs ++ [] ≡ xs
append_nil [] = refl
append_nil (x ∷ xs) = ap (λ r. x ∷ r) (append_nil xs)

round-order :
    (q r z : Queue) (lines given : List Line) (taken : List (List ℕ))
    → contents q ≡ messages lines ++ contents r
    → contents r ++ taken ≡ messages given ++ contents z
    → contents q ++ taken ≡ messages (lines ++ given) ++ contents z
round-order q r z lines given taken first rest =
    ap (λ c. c ++ taken) first
    ∙ append_assoc (messages lines) (contents r) taken
    ∙ ap (λ c. messages lines ++ c) rest
    ∙ sym (append_assoc (messages lines) (messages given) (contents z))
    ∙ ap (λ c. c ++ contents z) (sym (messages-append lines given))

stop-contents : (q : Queue) → contents (stop q) ≡ contents q
unfolding stop contents
stop-contents q = refl

Runs-order :
    {q z : Queue} {reported : ℕ} {taken : List (List ℕ)} {given : List Line}
    → Runs q reported taken given z
    → IsQueue q
    → IsQueue z × (contents q ++ taken ≡ messages given ++ contents z)
unfolding messages
Runs-order {q} runs-end w = (w, append_nil (contents q))
Runs-order {q} {z} {reported} (runs-write {taken = taken} {given = given} copied bytes steps) w =
    let (well, _, _) = write-Fifo q copied bytes w in
    let (end, rest) = Runs-order steps well in
    (end, write-order q z copied bytes taken given w rest)
Runs-order {q} {z} {reported} (runs-round {taken = taken} {given = given} late steps) w =
    let passed = run_round-Passed late q reported w in
    let (end, rest) = Runs-order steps passed.well in
    (
      end,
      round-order q (run_round late q reported).0.0 z (run_round late q reported).1.0 given taken
          passed.given rest,
    )
Runs-order {q} {z} (runs-stop {taken = taken} steps) w =
    let (end, rest) = Runs-order steps (stop-IsQueue q w) in
    (end, ap (λ c. c ++ taken) (sym (stop-contents q)) ∙ rest)

new_queue-IsQueue : (ready : Bool) → IsQueue (new_queue ready)
unfolding new_queue contents queued total
new_queue-IsQueue ready = record {
  size = refl;
  head_in = omega arith;
  few = omega arith;
  tail_at = omega arith;
  sum = refl;
  bounded = omega arith;
}

new_queue-contents : (ready : Bool) → contents (new_queue ready) ≡ []
unfolding new_queue contents queued
new_queue-contents ready = refl

-- Whatever callers, the writer and the destructor do from a new log on, in any order: the messages
-- for which `write` answered true are, in their order, those that the sink was given and then those
-- that the queue still holds. No message is lost, doubled or moved. The queue holds at most
-- 256 messages and 262144 bytes.
pub log_order :
    (ready : Bool) {z : Queue} {reported : ℕ} {taken : List (List ℕ)} {given : List Line}
    → Runs (new_queue ready) reported taken given z
    → (taken ≡ messages given ++ contents z) × (z.count ≤ 256) × (total (contents z) ≤ 262144)
log_order ready {z} {taken = taken} steps =
    let (well, order) = Runs-order steps (new_queue-IsQueue ready) in
    (
      ap (λ c. c ++ taken) (sym (new_queue-contents ready)) ∙ order,
      well.few,
      omega (arith, well.sum, well.bounded),
    )
