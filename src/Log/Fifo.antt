-- ===== src/Log/Fifo.antt =====
-- The log's queue of src/native/async-log.h, seen as the list of its messages.
pub mod Write
pub mod Writer
pub mod Runs
use wireguard_dns_program_sp.Base.{
  ℕ, zero, suc, ◌+◌, ◌-◌, ◌%◌, ◌^◌, ◌≤◌, ◌<◌, ◌≡◌, ◌≢◌, refl, ap, sym, ◌∙◌, ◌⊎◌, inl, inr, Bool,
  true, false, not, ◌&&◌, ◌||◌, List, [], ◌∷◌, ◌++◌, Option, none, some, ltb, leb, ◌==◌, ◌!=◌,
  if◌then◌else◌, get_or, set, length, replicate, length-append, length-set, get_or-set_self,
  get_or-set_ne, arith, Bool-cases,
}
use wireguard_dns_program_sp.Log.Queue.{
  Queue, put_last, drop_one, new_queue, write, take_first, run_round, stop,
}

-- The messages in their order: so many slots from an index on.
unfoldable pub queued : List (List ℕ) → ℕ → ℕ → List (List ℕ)
queued slots head zero = []
queued slots head (suc count) = get_or slots head [] ∷ queued slots ((head + 1) % 256) count

unfoldable pub contents : Queue → List (List ℕ)
unfolding queued
contents q = queued q.slots q.head q.count

unfoldable pub total : List (List ℕ) → ℕ
total [] = 0
total (x ∷ xs) = length x + total xs

pub record IsQueue (q : Queue) : Type 0 where
  pub size : length q.slots ≡ 256
  pub head_in : q.head < 256
  pub few : q.count ≤ 256
  pub tail_at : q.tail ≡ (q.head + q.count) % 256
  pub sum : q.bytes ≡ total (contents q)
  pub bounded : q.bytes ≤ 262144

total-append : (xs ys : List (List ℕ)) → total (xs ++ ys) ≡ total xs + total ys
unfolding total
total-append [] ys = omega arith
total-append (x ∷ xs) ys = omega (arith, total-append xs ys)

-- A write to a slot outside the range changes nothing in it.
pub queued-outside :
    (slots : List (List ℕ)) (head count i : ℕ) (v : List ℕ)
    → ((k : ℕ) → k < count → i ≢ (head + k) % 256)
    → head < 256
    → queued (set slots i v) head count ≡ queued slots head count
unfolding queued
queued-outside slots head zero i v out small = refl
queued-outside slots head (suc count) i v out small =
    let first : i ≢ head = λ e. out 0 (omega arith) (omega arith) in
    let rest =
      queued-outside slots ((head + 1) % 256) count i v
        (λ k h e. out (k + 1) (omega arith) (omega arith)) (omega arith) in
    rw (get_or-set_ne slots i head v [] first, rest) refl

queued-append :
    (slots : List (List ℕ)) (head count : ℕ) (v : List ℕ)
    → length slots ≡ 256
    → head < 256
    → count < 256
    → queued (set slots ((head + count) % 256) v) head (suc count)
      ≡ queued slots head count ++ (v ∷ [])
unfolding queued
queued-append slots head zero v size small few =
    let here : (head + 0) % 256 ≡ head = omega arith in
    rw (here, get_or-set_self slots head v [] (omega arith)) refl
queued-append slots head (suc count) v size small few =
    let at : (head + suc count) % 256 ≡ ((head + 1) % 256 + count) % 256 = omega arith in
    let first : (head + suc count) % 256 ≢ head = λ e. omega arith in
    let rest = queued-append slots ((head + 1) % 256) count v size (omega arith) (omega arith) in
    ap (λ x. x ∷ queued (set slots ((head + suc count) % 256) v) ((head + 1) % 256) (suc count))
      (get_or-set_ne slots ((head + suc count) % 256) head v [] first)
    ∙ ap (λ i. get_or slots head [] ∷ queued (set slots i v) ((head + 1) % 256) (suc count)) at
    ∙ ap (λ xs. get_or slots head [] ∷ xs) rest

pub put_last-contents :
    (q : Queue) (bytes : List ℕ)
    → IsQueue q
    → q.count < 256
    → contents (put_last q bytes) ≡ contents q ++ (bytes ∷ [])
unfolding contents
put_last-contents q bytes w few =
    let more : q.count + 1 ≡ suc q.count = omega arith in
    ap (λ n. queued (set q.slots q.tail bytes) q.head n) more
    ∙ ap (λ i. queued (set q.slots i bytes) q.head (suc q.count)) w.tail_at
    ∙ queued-append q.slots q.head q.count bytes w.size w.head_in few

pub put_last-IsQueue :
    (q : Queue) (bytes : List ℕ)
    → IsQueue q
    → q.count < 256
    → q.bytes + length bytes ≤ 262144
    → IsQueue (put_last q bytes)
unfolding total
put_last-IsQueue q bytes w few fits = record {
  size = length-set q.slots q.tail bytes ∙ w.size;
  head_in = w.head_in;
  few = omega arith;
  tail_at = omega (arith, w.tail_at);
  sum = omega (
    arith,
    w.sum,
    ap total (put_last-contents q bytes w few),
    total-append (contents q) (bytes ∷ []),
  );
  bounded = fits;
}

pub drop_one-IsQueue : (q : Queue) → IsQueue q → IsQueue (drop_one q).0
unfolding contents
drop_one-IsQueue q w = record {
  size = w.size;
  head_in = w.head_in;
  few = w.few;
  tail_at = w.tail_at;
  sum = w.sum;
  bounded = w.bounded;
}

pub drop_one-contents : (q : Queue) → contents (drop_one q).0 ≡ contents q
unfolding contents
drop_one-contents q = refl
