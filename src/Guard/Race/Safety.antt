-- ===== src/Guard/Race/Safety.antt =====
-- What the interleaving guarantees to `stream_guard`.
use wireguard_dns_program_sp.Base.{
  ℕ, ◌≡◌, ◌&&◌, refl, Bool, true, false, Option, none, some, arith, not,
}
use wireguard_dns_program_sp.Guard.Maps.{has}
use wireguard_dns_program_sp.Guard.Streams.{Version, StreamRole, word_is_current, word_is_safe}
use wireguard_dns_program_sp.Guard.Streams.Stamp.{
  InRange, word_is_current_iff, word_is_safe-label, stream_stale-never,
}
use wireguard_dns_program_sp.Guard.Race.{Now, World, Reach, initial}
use wireguard_dns_program_sp.Guard.Race.Invariant.{
  HonestLabel, unlabelled, stale, labelled, Reach-Inv,
}

-- `stream_guard` lets a message pass without looking up the executable.
abbrev pub admits : Option ℕ → Version → Bool
admits word v = word_is_current word v && (not (has v.configuration 1) && word_is_safe word)

label_sound :
    (n : Now) (l : Option ℕ)
    → InRange n.version
    → HonestLabel n l
    → n.pending ≡ 0
    → n.protected ≡ true
    → admits l n.version ≡ false
label_sound n none r unlabelled idle prot = refl
label_sound n (some w) r stale idle prot = rw (stream_stale-never n.version r)
label_sound n (some w) r (labelled v StreamRole.safe e h) idle prot =
    let old : InRange v = (let b = h.before in omega arith) in
    rw (e, word_is_current_iff v n.version StreamRole.safe old r)
      (ground (arith, h.current refl, h.before))
label_sound n (some w) r (labelled v StreamRole.protected e h) idle prot =
    let old : InRange v = (let b = h.before in omega arith) in
    rw e (ground (arith, word_is_safe-label v StreamRole.protected old))

-- No stale decision admits a message: in every interleaving of relabels, binds, renames and
-- enrollments, once each operation that took effect has advanced the generation, a socket with a
-- protected endpoint is not let pass by its label. Condition: the two counters stay far below
-- the wrap of a 64-bit sum.
pub no_stale_safe :
    {v : Version} {b : Bool} {w : World}
    → Reach (initial v b) w
    → InRange w.now.version
    → w.now.pending ≡ 0
    → w.now.protected ≡ true
    → admits w.label w.now.version ≡ false
no_stale_safe {w = w} r range idle prot =
    label_sound w.now w.label range (Reach-Inv r).label idle prot
