-- ===== src/Log/Queue.antt =====
-- `AsyncLog` of src/native/async-log.h: the state that caller and writer share, and their steps.
use wireguard_dns_program_sp.Base.{
  ℕ, ◌+◌, ◌-◌, ◌%◌, ◌^◌, Bool, true, false, not, ◌&&◌, ◌||◌, List, [], ◌∷◌, ◌++◌, Option, none,
  some, ltb, ◌==◌, ◌!=◌, if◌then◌else◌, get_or, set, length, replicate,
}

abbrev pub k_max_messages : ℕ
k_max_messages = 256

abbrev pub k_max_bytes : ℕ
k_max_bytes = 262144

abbrev pub k_max_message_bytes : ℕ
k_max_message_bytes = 65536

-- What the sink is given: a message, or the notice of so many lost ones.
pub data Line : Type 0 where
  message : List ℕ → Line
  queue_dropped : ℕ → Line

-- `dropped` is a 64-bit counter.
pub record Queue : Type 0 where
  pub slots : List (List ℕ)
  pub head : ℕ
  pub tail : ℕ
  pub count : ℕ
  pub bytes : ℕ
  pub accepting : Bool
  pub stopping : Bool
  pub dropped : ℕ

unfoldable pub new_queue : Bool → Queue
new_queue ready = record {
  slots = replicate 256 [];
  head = 0;
  tail = 0;
  count = 0;
  bytes = 0;
  accepting = ready;
  stopping = false;
  dropped = 0;
}

abbrev pub drop_one : Queue → Queue × Bool
drop_one q = (record q { dropped = (q.dropped + 1) % 2 ^ 64 }, false)

abbrev pub put_last : Queue → List ℕ → Queue
put_last q bytes = record q {
  slots = set q.slots q.tail bytes;
  tail = (q.tail + 1) % k_max_messages;
  count = q.count + 1;
  bytes = q.bytes + length bytes;
}

-- `write`; `copied` is whether the message's copy could be allocated. The difference is taken
-- on size_t; the bytes never exceed the maximum, so it does not wrap.
unfoldable pub write : Queue → Bool → List ℕ → Queue × Bool
write q copied bytes =
    if not q.accepting || ltb k_max_message_bytes (length bytes) || not copied
    then drop_one q
    else if not q.accepting
        || q.count == k_max_messages
        || ltb (k_max_bytes - q.bytes) (length bytes)
    then drop_one q
    else (put_last q bytes, true)

-- The writer's critical section: the first message, or none when the queue is empty.
unfoldable pub take_first : Queue → Queue × Option (List ℕ)
take_first q =
    let bytes = get_or q.slots q.head [] in
    if q.count == 0 then (q, none) else (
      record q {
        slots = set q.slots q.head [];
        head = (q.head + 1) % k_max_messages;
        count = q.count - 1;
        bytes = q.bytes - length bytes;
      },
      some bytes,
    )

pub data Then : Type 0 where
  again : Then
  wait : Then
  ended : Then

-- The notice of the messages lost since the last one; the difference is unsigned.
unfoldable pub report : ℕ → ℕ → List Line
report lost reported =
    if lost != reported then queue_dropped ((lost + 2 ^ 64 - reported) % 2 ^ 64) ∷ [] else []

-- A round behind the critical section: the queue and the count reported, what the sink is given,
-- and how `run` goes on.
unfoldable pub round_on : ℕ → Queue × Option (List ℕ) → (Queue × ℕ) × (List Line × Then)
unfolding report
round_on reported (rest, none) =
    ((rest, rest.dropped), (report rest.dropped reported, if rest.stopping then ended else wait))
round_on reported (rest, some bytes) =
    ((rest, rest.dropped), (report rest.dropped reported ++ (message bytes ∷ []), again))

-- One round of `run`'s inner loop; `late` is whether the time to stop has come.
unfoldable pub run_round : Bool → Queue → ℕ → (Queue × ℕ) × (List Line × Then)
unfolding take_first round_on
run_round late q reported =
    let stopped = q.stopping && late in
    let done = round_on reported (take_first q) in
    if stopped then ((q, reported), ([], ended)) else done

-- The destructor's part on the shared state.
unfoldable pub stop : Queue → Queue
stop q = record q { accepting = false; stopping = true }
