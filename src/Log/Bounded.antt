-- ===== src/Log/Bounded.antt =====
-- src/native/bounded-log.h: a log file of bounded size, and the three archives before it.
pub mod Writes
pub mod Sizes
use wireguard_dns_program_sp.Base.{
  ℕ, ◌+◌, ◌-◌, min, Bool, true, false, not, ◌&&◌, Option, none, some, List, [], ◌++◌, ◌==◌,
  if◌then◌else◌, ltb, length, take,
}

-- The archives with 3, 2 and 1 behind the name, and the file itself.
pub record Files : Type 0 where
  pub third : Option (List ℕ)
  pub second : Option (List ℕ)
  pub first : Option (List ℕ)
  pub current : Option (List ℕ)

pub record BoundedLog : Type 0 where
  pub files : Files
  pub is_open : Bool
  pub size : ℕ

-- What the calls of one write give: whether the file is opened and its size read, before and after a rotation, whether
-- each of the moves succeeds, and how much is written.
pub record Calls : Type 0 where
  pub opened : Bool
  pub sized : Bool
  pub moved_second : Bool
  pub moved_first : Bool
  pub moved_current : Bool
  pub opened_again : Bool
  pub sized_again : Bool
  pub written : ℕ
  pub succeeded : Bool

abbrev pub content : Option (List ℕ) → List ℕ
content none = []
content (some bytes) = bytes

-- A move, which a file that is not there does not make fail.
abbrev pub target_after : Bool → Option (List ℕ) → Option (List ℕ) → Option (List ℕ)
target_after true (some bytes) target = some bytes
target_after true none target = target
target_after false source target = target

abbrev pub source_after : Bool → Option (List ℕ) → Option (List ℕ)
source_after true source = none
source_after false source = source

-- The loop of the moves stops at the first that fails.
unfoldable pub rotate : Calls → Files → Bool × Files
rotate c f =
    let one = record f {
      third = target_after c.moved_second f.second f.third;
      second = source_after c.moved_second f.second;
    } in
    let two = record one {
      second = target_after c.moved_first one.first one.second;
      first = source_after c.moved_first one.first;
    } in
    let three = record two {
      first = target_after c.moved_current two.current two.first;
      current = source_after c.moved_current two.current;
    } in
    if not c.moved_second
    then (false, one)
    else if not c.moved_first
    then (false, two)
    else (c.moved_current, three)

-- `open`, which makes the file where it is not there.
unfoldable pub open_log : Bool → Bool → BoundedLog → Bool × BoundedLog
open_log opened sized s =
    let made = record s {
      files = record (s.files) { current = some (content (s.files.current)) };
    } in
    if s.is_open
    then (true, s)
    else if not opened
    then (false, s)
    else if not sized
    then (false, made)
    else (true, record made { is_open = true; size = length (content (s.files.current)) })

abbrev pub append : Calls → ℕ → List ℕ → BoundedLog → Bool × BoundedLog
append c count bytes s =
    let written = take (min c.written count) bytes in
    (
      c.succeeded && length written == count,
      record s {
        files = record (s.files) { current = some (content (s.files.current) ++ written) };
        size = s.size + length written;
      },
    )

abbrev pub append_if : Calls → ℕ → List ℕ → Bool × BoundedLog → Bool × BoundedLog
append_if c count bytes (false, s) = (false, s)
append_if c count bytes (true, s) = append c count bytes s

abbrev pub reopen_if : Calls → Bool × Files → BoundedLog → Bool × BoundedLog
reopen_if c (false, f) s = (false, record s { files = f; is_open = false })
reopen_if c (true, f) s =
    open_log c.opened_again c.sized_again (record s { files = f; is_open = false })

abbrev pub write_open : Calls → ℕ → ℕ → List ℕ → Bool × BoundedLog → Bool × BoundedLog
write_open c limit count bytes (false, s) = (false, s)
write_open c limit count bytes (true, s) =
    let rotated = append_if c count bytes (reopen_if c (rotate c s.files) s) in
    if ltb (limit - count) s.size then rotated else append c count bytes s

unfoldable pub write : Calls → ℕ → List ℕ → BoundedLog → Bool × BoundedLog
unfolding rotate open_log
write c limit bytes s =
    write_open c limit (min (min (length bytes) limit) 65536) bytes (open_log c.opened c.sized s)
