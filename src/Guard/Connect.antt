-- ===== src/Guard/Connect.antt =====
-- Connections and socket pairs (guard_connect, guard_pair and set_stream_role of
-- resolver_guard.bpf.c): the answer, and the labels that are left.
use wireguard_dns_program_sp.Base.{
  ℕ, ◌≡◌, ◌∙◌, ap, true, false, Option, some, arith, Bool-cases, inl, inr,
}
use wireguard_dns_program_sp.Kernel.{Kernel}
use wireguard_dns_program_sp.Policy.{policy_select, passes}
use wireguard_dns_program_sp.Guard.Maps.{GuardMaps, Answer, has, role_socket, guard_settled, store}
use wireguard_dns_program_sp.Guard.Roles.{peer_role}
use wireguard_dns_program_sp.Guard.Roles.Frame.{peer_role-Frame}
use wireguard_dns_program_sp.Guard.Streams.{
  Version, StreamRole, role_version, tag_of, set_stream_role, label_word,
}
use wireguard_dns_program_sp.Guard.Hooks.{guard_connect, connect_version, connect_role, set_both}
use wireguard_dns_program_sp.Guard.Verdicts.{refuse_selected-answer}

module _ (k : Kernel) (s : GuardMaps) (sock : ℕ) (role : StreamRole) (v : Version) where
  set_stream_role-policy : (set_stream_role k s sock role v).0.policy ≡ s.policy
  unfolding set_stream_role
  set_stream_role-policy = ground arith

  -- A label that is stored by a settled guard is the word of this role and version, and no other
  -- socket's label changes.
  set_stream_role-label :
      has v.configuration guard_settled ≡ true
      → (set_stream_role k s sock role v).1 ≡ true
      → (set_stream_role k s sock role v).0.stream_roles
        ≡ store s.stream_roles sock (label_word v role)
  unfolding set_stream_role
  set_stream_role-label settled stored = ground arith

set_both-policy :
    (k : Kernel) (s : GuardMaps) (a b : ℕ) (role : StreamRole) (v : Version)
    → (set_both k s a b role v).0.policy ≡ s.policy
unfolding set_both
set_both-policy k s a b role v =
    let t = (set_stream_role k s a role v).0 in
    ground (arith, set_stream_role-policy k s a role v, set_stream_role-policy k t b role v)

set_both-labels :
    (k : Kernel) (s : GuardMaps) (a b : ℕ) (role : StreamRole) (v : Version)
    → has v.configuration guard_settled ≡ true
    → (set_both k s a b role v).1 ≡ true
    → (set_both k s a b role v).0.stream_roles
      ≡ store (store s.stream_roles a (label_word v role)) b (label_word v role)
unfolding set_both
set_both-labels k s a b role v settled stored = elim (Bool-cases (set_stream_role k s a role v).1) [
  | inl first ↦
      let t = (set_stream_role k s a role v).0 in
      rw first (
        set_stream_role-label k t b role v settled (rw first at stored)
        ∙ ap (λ (m : ℕ → Option ℕ). store m b (label_word v role))
            (set_stream_role-label k s a role v settled first))
  | inr failed ↦ absurd (let no = rw failed at stored in cc)
]

connect_role-protected :
    (k : Kernel) (s t : GuardMaps) (sock newsk : ℕ) (v : Version) (role : ℕ)
    → t.policy ≡ s.policy
    → tag_of role v ≡ StreamRole.protected
    → passes (policy_select k s.policy) ≡ false
    → (connect_role k t sock newsk v (some role)).1 ≡ Answer.eacces
unfolding connect_role
connect_role-protected k s t sock newsk v role e tag selected =
    let both = set_both k t sock newsk StreamRole.protected v in
    let answer =
      refuse_selected-answer k s both.0
        (set_both-policy k t sock newsk StreamRole.protected v ∙ e) in
    rw tag (ground (arith, answer, selected))

tag_of-socket :
    (role : ℕ) (v : Version) → has role role_socket ≡ true → tag_of role v ≡ StreamRole.protected
unfolding tag_of
tag_of-socket role v h = rw h

-- A connection to a resolver's socket is refused to every process that the policy selects or
-- cannot judge, whether or not a label can be stored. Conditions: no earlier program refused, the
-- counters are there, and the peer's role is told.
pub guard_connect-refused :
    (k : Kernel) (s : GuardMaps) (sock other newsk role : ℕ) (v : Version)
    → role_version s ≡ some v
    → (peer_role k s other).1 ≡ some role
    → has role role_socket ≡ true
    → passes (policy_select k s.policy) ≡ false
    → (guard_connect k s sock other newsk Answer.okay).1 ≡ Answer.eacces
unfolding guard_connect connect_version
guard_connect-refused k s sock other newsk role v ev er socket selected =
    let t = (peer_role k s other).0 in
    rw (ev, er)
      (connect_role-protected k s t sock newsk v role (peer_role-Frame k s other).policy
        (tag_of-socket role v socket) selected)

connect_role-safe :
    (k : Kernel) (t : GuardMaps) (sock newsk : ℕ) (v : Version) (role : ℕ)
    → tag_of role v ≡ StreamRole.safe
    → has v.configuration guard_settled ≡ true
    → (connect_role k t sock newsk v (some role)).1 ≡ Answer.okay
    → (connect_role k t sock newsk v (some role)).0.stream_roles
      ≡ store
          (store t.stream_roles sock (label_word v StreamRole.safe))
          newsk
          (label_word v StreamRole.safe)
unfolding connect_role
connect_role-safe k t sock newsk v role tag settled granted =
    let labels = set_both-labels k t sock newsk StreamRole.safe v settled in
    rw tag (ground (arith, labels, granted))

-- A connection that a settled guard grants to an unprotected peer leaves the label SAFE on both
-- ends, stamped with the version that was read before the peer was resolved, and no other label
-- changes. Conditions: no earlier program refused, and the tag of the peer's role is SAFE.
pub guard_connect-labels :
    (k : Kernel) (s : GuardMaps) (sock other newsk role : ℕ) (v : Version)
    → role_version s ≡ some v
    → (peer_role k s other).1 ≡ some role
    → tag_of role v ≡ StreamRole.safe
    → has v.configuration guard_settled ≡ true
    → (guard_connect k s sock other newsk Answer.okay).1 ≡ Answer.okay
    → (guard_connect k s sock other newsk Answer.okay).0.stream_roles
      ≡ store
          (store s.stream_roles sock (label_word v StreamRole.safe))
          newsk
          (label_word v StreamRole.safe)
unfolding guard_connect connect_version
guard_connect-labels k s sock other newsk role v ev er tag settled =
    let t = (peer_role k s other).0 in
    let same = (peer_role-Frame k s other).streams in
    rw (ev, er)
      (λ granted.
        connect_role-safe k t sock newsk v role tag settled granted
        ∙ ap
            (λ (m : ℕ → Option ℕ).
              store (store m sock (label_word v StreamRole.safe)) newsk
                (label_word v StreamRole.safe))
            same)
