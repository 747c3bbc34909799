-- ===== src/Guard/Race.antt =====
-- Relabels of one stream socket interleaved with the operations that can make its endpoints
-- protected (the comments over `set_stream_role`, `guard_rename` and `invalidate_streams` of
-- resolver_guard.bpf.c). A relabel reads the version, resolves the endpoints and publishes, in
-- three steps; a bind or rename takes effect in one step, and its fexit program advances the
-- generation in a later one.
mod Invariant
pub mod Safety
use wireguard_dns_program_sp.Base.{
  ℕ, zero, suc, ◌+◌, ◌<◌, ◌≤◌, ◌≡◌, Bool, true, false, Option, none, some, ◌==◌, if◌then◌else◌,
}
use wireguard_dns_program_sp.Guard.Maps.{has, role_socket, guard_settled}
use wireguard_dns_program_sp.Guard.Streams.{Version, StreamRole, label_word, tag_of, stream_stale}

-- Where a thread stands in `guard_connect`, or in the relabel of `stream_guard`.
pub data Phase : Type 0 where
  idle : Phase
  snapshot : Version → Phase
  resolved : Version → StreamRole → Phase

-- `protected` says that the resolved identity of an endpoint carries ROLE_SOCKET; `pending` counts
-- the operations that took effect and have not advanced the generation yet.
pub record Now : Type 0 where
  pub version : Version
  pub protected : Bool
  pub pending : ℕ

-- The label is the word in the socket's storage, if it has one.
pub record World : Type 0 where
  pub now : Now
  pub label : Option ℕ
  pub phase : ℕ → Phase

abbrev pub move : (ℕ → Phase) → ℕ → Phase → ℕ → Phase
move f i p j = if i == j then p else f j

abbrev pub with_now : World → Now → World
with_now w n = record w { now = n }

abbrev pub changed : Now → Bool → Now
changed n b = record n { protected = b; pending = n.pending + 1 }

-- The generation advances by one; it is far from wrapping.
abbrev pub advance : Version → Version
advance v = record v { topology = v.topology + 1 }

abbrev pub invalidated : Now → ℕ → Now
invalidated n left = record n { version = advance n.version; pending = left }

abbrev pub configure_version : Version → ℕ → Version
configure_version v c = record v { configuration = c }

abbrev pub configured : Now → ℕ → Now
configured n c = record n { version = configure_version n.version c }

abbrev pub enrolled : Now → Bool → Now
enrolled n b = record n { protected = b }

pub data Step (w : World) : World → Type 0 where
  -- `role_version`, before the peer is resolved
  begin :
      (i : ℕ)
      → w.phase i ≡ Phase.idle
      → Step w (record w { phase = move w.phase i (Phase.snapshot w.now.version) })
  -- `peer_role` or `unix_role`, and the tag
  resolve :
      (i : ℕ) {v : Version} (role : ℕ)
      → w.phase i ≡ Phase.snapshot v
      → has role role_socket ≡ w.now.protected
      → Step w (record w { phase = move w.phase i (Phase.resolved v (tag_of role v)) })
  -- `set_stream_role` of a settled guard: one store
  publish :
      (i : ℕ) {v : Version} {tag : StreamRole}
      → w.phase i ≡ Phase.resolved v tag
      → has v.configuration guard_settled ≡ true
      → Step w (record w { phase = move w.phase i Phase.idle; label = some (label_word v tag) })
  -- no storage, an unsettled guard, or a safe socket with no peer: nothing is published
  abandon : (i : ℕ) → Step w (record w { phase = move w.phase i Phase.idle })
  -- storage is created with a stamp that is never current
  create : w.label ≡ none → Step w (record w { label = some stream_stale })
  -- a bind or rename takes effect
  change : (b : Bool) → Step w (with_now w (changed w.now b))
  -- its fexit program runs `invalidate_streams`, before the system call returns
  invalidate : {n : ℕ} → w.now.pending ≡ suc n → Step w (with_now w (invalidated w.now n))
  -- the configuration word grows: an enrollment begins or ends, or the guard settles
  configure : (c : ℕ) → w.now.version.configuration < c → Step w (with_now w (configured w.now c))
  -- the loader changes the slot maps while the configuration is odd
  enroll :
      (b : Bool) → has w.now.version.configuration 1 ≡ true → Step w (with_now w (enrolled w.now b))

-- No label, no thread at work.
abbrev pub initial : Version → Bool → World
initial v b = record {
  now = record { version = v; protected = b; pending = 0 };
  label = none;
  phase = λ _. Phase.idle;
}

pub data Reach (w : World) : World → Type 0 where
  here : Reach w w
  next : {u t : World} → Reach w u → Step u t → Reach w t
