-- ===== src/Guard/Race/Invariant.antt =====
-- The invariant of the interleaving: a decision SAFE that is still current was made for an
-- endpoint that is not protected, or some operation has yet to advance the generation.
use wireguard_dns_program_sp.Base.{
  ℕ, ◌<◌, ◌≤◌, ◌≡◌, ◌⊎◌, inl, inr, refl, Bool, true, false, Option, none, some, ◌==◌, arith,
  Bool-cases, ap,
}
use mathlib.Core.Path.{subst}
use wireguard_dns_program_sp.Guard.Maps.{has, role_socket}
use wireguard_dns_program_sp.Guard.Streams.{Version, StreamRole, label_word, tag_of, stream_stale}
use wireguard_dns_program_sp.Guard.Race.{
  Phase, Now, World, Step, begin, resolve, publish, abandon, create, change, invalidate, configure,
  enroll, move, with_now, changed, invalidated, configured, enrolled, initial, Reach, here, next,
}

abbrev pub Before : Version → Version → Type 0
Before v w = (v.topology ≤ w.topology) × (v.configuration ≤ w.configuration)

abbrev pub Same : Version → Version → Type 0
Same v w = (v.topology ≡ w.topology) × (v.configuration ≡ w.configuration)

-- A decision made under a version.
pub record Honest (n : Now) (v : Version) (tag : StreamRole) : Type 0 where
  pub before : Before v n.version
  pub even : tag ≡ StreamRole.safe → has v.configuration 1 ≡ false
  pub current : tag ≡ StreamRole.safe → Same v n.version → n.protected ≡ true → 0 < n.pending

abbrev pub HonestPhase : Now → Phase → Type 0
HonestPhase n Phase.idle = Unit {0}
HonestPhase n (Phase.snapshot v) = Before v n.version
HonestPhase n (Phase.resolved v tag) = Honest n v tag

pub data HonestLabel (n : Now) : Option ℕ → Type 0 where
  unlabelled : HonestLabel n none
  stale : HonestLabel n (some stream_stale)
  labelled :
      (v : Version) (tag : StreamRole) {word : ℕ}
      → word ≡ label_word v tag
      → Honest n v tag
      → HonestLabel n (some word)

pub record Inv (w : World) : Type 0 where
  pub phases : (i : ℕ) → HonestPhase w.now (w.phase i)
  pub label : HonestLabel w.now w.label

-- What a step does to the decisions made before it.
pub record Keeps (n n' : Now) : Type 0 where
  pub grows : Before n.version n'.version
  pub honest : (v : Version) (tag : StreamRole) → Honest n v tag → Honest n' v tag

Honest-phase : {n n' : Now} → Keeps n n' → (p : Phase) → HonestPhase n p → HonestPhase n' p
Honest-phase keep Phase.idle h = tt
Honest-phase keep (Phase.snapshot v) h = omega (arith, keep.grows)
Honest-phase keep (Phase.resolved v tag) h = keep.honest v tag h

Honest-label : {n n' : Now} → Keeps n n' → {l : Option ℕ} → HonestLabel n l → HonestLabel n' l
Honest-label keep unlabelled = unlabelled
Honest-label keep stale = stale
Honest-label keep (labelled v tag e h) = labelled v tag e (keep.honest v tag h)

move-Honest :
    (w : World) (i : ℕ) (p : Phase)
    → ((j : ℕ) → HonestPhase w.now (w.phase j))
    → HonestPhase w.now p
    → (j : ℕ) → HonestPhase w.now (move w.phase i p j)
move-Honest w i p all h j = elim (Bool-cases (i == j)) [
  | inl same ↦ rw same h
  | inr other ↦ rw other (all j)
]

-- A tag SAFE means that the role is unprotected and the configuration even.
tag_of-safe :
    (role : ℕ) (v : Version)
    → tag_of role v ≡ StreamRole.safe
    → (has role role_socket ≡ false) × (has v.configuration 1 ≡ false)
unfolding tag_of
tag_of-safe role v h = ground arith

change-Keeps : (n : Now) (b : Bool) → Keeps n (changed n b)
change-Keeps n b = record {
  grows = omega arith;
  honest = λ v tag h. record { before = h.before; even = h.even; current = λ _ _ _. omega arith };
}

-- No version from before is the one after.
newer-Keeps :
    (n n' : Now)
    → Before n.version n'.version
    → ((n.version.topology < n'.version.topology)
        ⊎ (n.version.configuration < n'.version.configuration))
    → Keeps n n'
newer-Keeps n n' b newer = record {
  grows = b;
  honest = λ v tag h. record {
    before = (let old = h.before in omega arith);
    even = h.even;
    current = λ _ s _. absurd (let old = h.before in omega arith);
  };
}

enroll-Keeps : (n : Now) (b : Bool) → has n.version.configuration 1 ≡ true → Keeps n (enrolled n b)
enroll-Keeps n b odd = record {
  grows = omega arith;
  honest = λ v tag h. record {
    before = h.before;
    even = h.even;
    current = λ safe s _. absurd (clash v (h.even safe) s.1);
  };
}
  where
    clash :
        (v : Version)
        → has v.configuration 1 ≡ false
        → v.configuration ≡ n.version.configuration
        → ⊥
    clash v even same = cc (ap (λ (c : ℕ). has c 1) same)

resolve-Honest :
    (n : Now) (v : Version) (role : ℕ)
    → Before v n.version
    → has role role_socket ≡ n.protected
    → Honest n v (tag_of role v)
resolve-Honest n v role b same = record {
  before = b;
  even = λ safe. (tag_of-safe role v safe).1;
  current = λ safe _ p. absurd (let off = (tag_of-safe role v safe).0 in cc);
}

Keeps-Inv : (w : World) {n : Now} → Keeps w.now n → Inv w → Inv (with_now w n)
Keeps-Inv w keep inv = record {
  phases = λ i. Honest-phase keep (w.phase i) (inv.phases i);
  label = Honest-label keep inv.label;
}

-- What the invariant says of a thread whose phase is known.
phase-Honest : {w : World} → Inv w → (i : ℕ) {p : Phase} → w.phase i ≡ p → HonestPhase w.now p
phase-Honest {w} inv i e = subst (HonestPhase w.now) e (inv.phases i)

pub Step-Inv : {w w' : World} → Step w w' → Inv w → Inv w'
Step-Inv {w} (begin i at) inv = record {
  phases = move-Honest w i (Phase.snapshot w.now.version) inv.phases (omega arith);
  label = inv.label;
}
Step-Inv {w} (resolve i {v} role at same) inv = record {
  phases =
      move-Honest w i (Phase.resolved v (tag_of role v)) inv.phases
        (resolve-Honest w.now v role (phase-Honest inv i at) same);
  label = inv.label;
}
Step-Inv {w} (publish i {v} {tag} at settled) inv = record {
  phases = move-Honest w i Phase.idle inv.phases tt;
  label = labelled v tag refl (phase-Honest inv i at);
}
Step-Inv {w} (abandon i) inv = record {
  phases = move-Honest w i Phase.idle inv.phases tt;
  label = inv.label;
}
Step-Inv (create at) inv = record { phases = inv.phases; label = stale }
Step-Inv {w} (change b) inv = Keeps-Inv w (change-Keeps w.now b) inv
Step-Inv {w} (invalidate {n} at) inv =
    Keeps-Inv w (newer-Keeps w.now (invalidated w.now n) (omega arith) (inl (omega arith))) inv
Step-Inv {w} (configure c lt) inv =
    Keeps-Inv w (newer-Keeps w.now (configured w.now c) (omega arith) (inr lt)) inv
Step-Inv {w} (enroll b odd) inv = Keeps-Inv w (enroll-Keeps w.now b odd) inv

Inv-initial : (v : Version) (b : Bool) → Inv (initial v b)
Inv-initial v b = record { phases = λ i. tt; label = unlabelled }

pub Reach-Inv : {v : Version} {b : Bool} {w : World} → Reach (initial v b) w → Inv w
Reach-Inv {v} {b} here = Inv-initial v b
Reach-Inv (next r st) = Step-Inv st (Reach-Inv r)
