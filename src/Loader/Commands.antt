-- ===== src/Loader/Commands.antt =====
-- The commands guard-slot and state of bpf-loader.cpp: how the configuration of the guard changes, and when it is
-- ready.
pub mod Ready
use wireguard_dns_program_sp.Base.{
  ℕ, ◌+◌, ◌-◌, ◌^◌, ◌%◌, ◌/◌, Bool, true, false, not, ◌&&◌, ◌||◌, Option, none, some, ◌==◌,
  if◌then◌else◌, ltb,
}

-- `ready` of the configuration, the word of `guard_config`, and what is enrolled.
pub record Guarded (Roles : Type 0) : Type 0 where
  pub ready : Bool
  pub epoch : ℕ
  pub roles : Roles

abbrev pub is_odd : ℕ → Bool
is_odd epoch = epoch % 2 == 1

module _ {Roles : Type 0} where
  -- guard-slot up to the first change of what is enrolled, and behind the last one.
  unfoldable pub begin_update : Guarded Roles → Option (Guarded Roles)
  begin_update s =
      if s.ready || is_odd s.epoch || ltb (2 ^ 64 - 1 - 2) s.epoch
      then none
      else some (record s { epoch = (s.epoch + 1) % 2 ^ 64 })

  unfoldable pub finish_update : Guarded Roles → Guarded Roles
  finish_update s = record s { epoch = (s.epoch + 1) % 2 ^ 64 }

  abbrev pub enrolled_by : (Roles → Roles) → Option (Guarded Roles) → Option (Guarded Roles)
  enrolled_by add none = none
  enrolled_by add (some s) = some (finish_update (record s { roles = add s.roles }))

  -- The whole command; `add` is what `guard_slot_add` does, also where it fails midway.
  unfoldable pub guard_slot : (Roles → Roles) → Guarded Roles → Option (Guarded Roles)
  unfolding begin_update finish_update
  guard_slot add s = enrolled_by add (begin_update s)

  -- The command is killed before it ends.
  abbrev pub cut_off : (Roles → Roles) → Option (Guarded Roles) → Option (Guarded Roles)
  cut_off add none = none
  cut_off add (some s) = some (record s { roles = add s.roles })

  unfoldable pub guard_slot_killed : (Roles → Roles) → Guarded Roles → Option (Guarded Roles)
  unfolding begin_update
  guard_slot_killed add s = cut_off add (begin_update s)

  -- The state command; `preflight` is whether `ready_preflight` accepts the host.
  unfoldable pub set_state : Bool → Bool → Guarded Roles → Option (Guarded Roles)
  set_state ready preflight s =
      if ready && (is_odd s.epoch || not preflight) then none else some (record s { ready = ready })

  -- What a drain that settled does with the word.
  unfoldable pub set_settled : Guarded Roles → Guarded Roles
  set_settled s = record s {
    epoch = if s.epoch / 2 ^ 62 % 2 == 1 then s.epoch else s.epoch + 2 ^ 62;
  }
