-- ===== src/Classifier/Verdict.antt =====
-- What a verdict of the classifier means for the socket, and how it is counted.
use wireguard_dns_program_sp.Base.{
  ℕ, ◌<◌, ◌^◌, ◌≡◌, ◌≢◌, ◌↔◌, ◌⊎◌, refl, Bool, true, false, not, ◌||◌, Option, none, some, ◌==◌,
  arith, Bool-cases, inl, inr, if◌then◌else◌,
}
use wireguard_dns_program_sp.Base.Bits.{bit}
use wireguard_dns_program_sp.Kernel.{Kernel}
use wireguard_dns_program_sp.Policy.{
  PolicyConfig, Reason, policy_select, index, count_at, result, passes,
}
use wireguard_dns_program_sp.Classifier.{
  SocketState, classify, by_selection, mark_included, finish, policy_mark, guarded_family,
  supported_socket, set_mark,
}
use wireguard_dns_program_sp.Classifier.Bits.{policy_mark_bits}

-- The socket carries the policy's mark: inside the mask the mark's bits, outside it its own.
pub record Marked (cfg : PolicyConfig) (old new : ℕ) : Type 0 where
  pub inside : (j : ℕ) → j < 32 → bit cfg.mask j ≡ 1 → bit new j ≡ bit cfg.mark j
  pub outside : (j : ℕ) → j < 32 → bit cfg.mask j ≡ 0 → bit cfg.mark j ≡ 0 → bit new j ≡ bit old j

Marked-policy_mark :
    (cfg : PolicyConfig) (old : ℕ) → cfg.mask < 2 ^ 32 → Marked cfg old (policy_mark cfg old)
Marked-policy_mark cfg old small = record {
  inside = λ j w h. (policy_mark_bits cfg old j w small).0 h;
  outside = λ j w h n. (policy_mark_bits cfg old j w small).1 h n;
}

mark_included-allows :
    (k : Kernel) (st : SocketState) (cfg : PolicyConfig) (sock family kind protocol : ℕ)
    → (mark_included k st (some cfg) sock family kind protocol).1 ≡ true
    → (mark_included k st (some cfg) sock family kind protocol).0.so_mark (k.socket_sk sock)
        ≡ policy_mark cfg (st.so_mark (k.socket_sk sock))
      × (supported_socket family kind protocol ≡ true)
      × (cfg.ready ≢ 0)
unfolding mark_included result
mark_included-allows k st cfg sock family kind protocol h = ground arith

by_selection-included :
    (k : Kernel) (st : SocketState) (sock family kind protocol : ℕ) (o : Option PolicyConfig)
    → ((cfg : PolicyConfig) → o ≡ some cfg → cfg.mask < 2 ^ 32)
    → (mark_included k st o sock family kind protocol).1 ≡ true
    → (cfg : PolicyConfig) × (o ≡ some cfg)
      × (cfg.ready ≢ 0)
      × (supported_socket family kind protocol ≡ true)
      × Marked cfg
          (st.so_mark (k.socket_sk sock))
          ((mark_included k st o sock family kind protocol).0.so_mark (k.socket_sk sock))
by_selection-included k st sock family kind protocol none small h =
    absurd (unfold mark_included finish result in cc h)
by_selection-included k st sock family kind protocol (some cfg) small h =
    let (marked, supported, ready) = mark_included-allows k st cfg sock family kind protocol h in
    (cfg, refl, ready, supported, rw marked (Marked-policy_mark cfg _ (small cfg refl)))

-- No included process gets an unmarked socket: whenever the classifier grants a socket of a
-- guarded family to a process that the policy selects, the policy is ready, the socket is an
-- IPv4 stream or datagram socket over TCP, UDP or the default protocol, and it carries the
-- policy's mark. Condition: the configured mask is a 32-bit word.
pub classify_marks :
    (k : Kernel) (st : SocketState) (sock family kind protocol : ℕ)
    → ((cfg : PolicyConfig) → st.maps.policy_cfg ≡ some cfg → cfg.mask < 2 ^ 32)
    → guarded_family family ≡ true
    → policy_select k st.maps ≡ Reason.included
    → (classify k st sock family kind protocol false).1 ≡ true
    → (cfg : PolicyConfig) × (st.maps.policy_cfg ≡ some cfg)
      × (cfg.ready ≢ 0)
      × (supported_socket family kind protocol ≡ true)
      × Marked cfg
          (st.so_mark (k.socket_sk sock))
          ((classify k st sock family kind protocol false).0.so_mark (k.socket_sk sock))
unfolding classify by_selection
classify_marks k st sock family kind protocol small guarded selected =
    rw (guarded, selected)
      (by_selection-included k st sock family kind protocol st.maps.policy_cfg small)

mark_included-denied :
    (k : Kernel) (st : SocketState) (o : Option PolicyConfig) (sock family kind protocol : ℕ)
    → (mark_included k st o sock family kind protocol).1 ≡ false
    → (mark_included k st o sock family kind protocol).0.so_mark ≡ st.so_mark
unfolding mark_included result
mark_included-denied k st none sock family kind protocol h = refl
mark_included-denied k st (some cfg) sock family kind protocol h = ground arith

-- One reason is counted, once, and the verdict is the one that goes with it.
pub record Counted (st : SocketState) (after : SocketState × Bool) : Type 0 where
  pub why : Reason
  pub counted : after.0.maps.stats ≡ count_at st.maps.stats (index why)
  pub grants : (after.1 ≡ true) ↔ ((why ≡ Reason.included) ⊎ (passes why ≡ true))

if-Counted :
    (st : SocketState) (b : Bool) (x y : SocketState × Bool)
    → Counted st x
    → Counted st y
    → Counted st (if b then x else y)
if-Counted st true x y p q = p
if-Counted st false x y p q = q

-- A refusal is counted under a reason that is neither a pass nor an inclusion.
refusal :
    (st : SocketState) (why : Reason)
    → passes why ≡ false
    → why ≢ Reason.included
    → Counted st (finish st why false)
unfolding finish result
refusal st why p q = record { why = why; counted = refl; grants = ground arith }

granted :
    (st : SocketState) (m : ℕ → ℕ)
    → Counted st (finish (record st { so_mark = m }) Reason.included true)
unfolding finish result
granted st m = record { why = Reason.included; counted = refl; grants = ground arith }

mark_included-counts :
    (k : Kernel) (st : SocketState) (o : Option PolicyConfig) (sock family kind protocol : ℕ)
    → Counted st (mark_included k st o sock family kind protocol)
unfolding mark_included
mark_included-counts k st none sock family kind protocol = refusal st Reason.blocked refl (λ e. cc)
mark_included-counts k st (some cfg) sock family kind protocol =
    if-Counted st (not (supported_socket family kind protocol)) _ _
      (refusal st Reason.unsupported_socket refl (λ e. cc))
      (if-Counted st (cfg.ready == 0) _ _ (refusal st Reason.blocked refl (λ e. cc)) (
        if-Counted st (k.socket_sk sock == 0) _ _ no_option (
          if-Counted st k.getsockopt_fails _ _ no_option
            (if-Counted st k.setsockopt_fails _ _ no_option (granted st marks)))))
  where
    no_option : Counted st (finish st Reason.sockopt_error false)
    no_option = refusal st Reason.sockopt_error refl (λ e. cc)

    marks : ℕ → ℕ
    marks = set_mark st.so_mark (k.socket_sk sock) (policy_mark cfg (st.so_mark (k.socket_sk sock)))

by_selection-counts :
    (k : Kernel) (st : SocketState) (r : Reason) (sock family kind protocol : ℕ)
    → Counted st (by_selection k st r sock family kind protocol)
unfolding by_selection result
by_selection-counts k st Reason.included sock family kind protocol =
    mark_included-counts k st st.maps.policy_cfg sock family kind protocol
by_selection-counts k st r sock family kind protocol = record {
  why = r;
  counted = refl;
  grants = ground arith;
}

-- Every guarded call counts exactly one reason, and grants the socket exactly when that reason
-- is an inclusion, a direct process or an unsupported context.
pub classify_counts :
    (k : Kernel) (st : SocketState) (sock family kind protocol : ℕ)
    → guarded_family family ≡ true
    → Counted st (classify k st sock family kind protocol false)
unfolding classify
classify_counts k st sock family kind protocol guarded =
    rw guarded (by_selection-counts k st (policy_select k st.maps) sock family kind protocol)

by_selection-denied :
    (k : Kernel) (st : SocketState) (r : Reason) (sock family kind protocol : ℕ)
    → (by_selection k st r sock family kind protocol).1 ≡ false
    → (by_selection k st r sock family kind protocol).0.so_mark ≡ st.so_mark
unfolding by_selection result
by_selection-denied k st Reason.included sock family kind protocol h =
    mark_included-denied k st st.maps.policy_cfg sock family kind protocol h
by_selection-denied k st r sock family kind protocol h = refl

-- A refused call leaves the mark of every socket as it was.
pub classify-denied :
    (k : Kernel) (st : SocketState) (sock family kind protocol : ℕ) (kern : Bool)
    → (classify k st sock family kind protocol kern).1 ≡ false
    → (classify k st sock family kind protocol kern).0.so_mark ≡ st.so_mark
unfolding classify
classify-denied k st sock family kind protocol kern h =
    elim (Bool-cases (kern || not (guarded_family family))) [
      | inl skipped ↦ rw skipped
      | inr guarded ↦ rw guarded (
          by_selection-denied k st (policy_select k st.maps) sock family kind protocol
            (rw guarded at h))
    ]
