-- ===== src/Examples/Logs.antt =====
-- Instances for src/native/bounded-log.h: a file of eight bytes is full and is rotated.
use wireguard_dns_program_sp.Base.{
  ℕ, ◌≡◌, ◌≤◌, max, refl, true, some, List, [], ◌∷◌, ◌++◌, length, take,
}
use wireguard_dns_program_sp.Log.Bounded.{BoundedLog, Calls, content, write}
use wireguard_dns_program_sp.Log.Bounded.Writes.{chronicle, write-chronicle}
use wireguard_dns_program_sp.Log.Bounded.Sizes.{IsTracked, write_bound}

abbrev calls : Calls
calls = record {
  opened = true;
  sized = true;
  moved_second = true;
  moved_first = true;
  moved_current = true;
  opened_again = true;
  sized_again = true;
  written = 3;
  succeeded = true;
}

abbrev full : BoundedLog
full = record {
  files = record {
    third = some (1 ∷ []);
    second = some (2 ∷ []);
    first = some (3 ∷ []);
    current = some (4 ∷ 5 ∷ 6 ∷ 7 ∷ 8 ∷ 9 ∷ []);
  };
  is_open = true;
  size = 6;
}

write-chronicle_example :
    (n : ℕ) × (dropped : List ℕ) × (chronicle full.files ++ take n (10 ∷ 11 ∷ 12 ∷ [])
      ≡ dropped ++ chronicle (write calls 8 (10 ∷ 11 ∷ 12 ∷ []) full).1.files)
write-chronicle_example = write-chronicle calls 8 (10 ∷ 11 ∷ 12 ∷ []) full

write_bound_example :
    (length (content ((write calls 8 (10 ∷ 11 ∷ 12 ∷ []) full).1.files.current))
      ≤ max 8 (length (content (full.files.current))))
    × IsTracked (write calls 8 (10 ∷ 11 ∷ 12 ∷ []) full).1
write_bound_example = write_bound calls 8 (10 ∷ 11 ∷ 12 ∷ []) full (λ h. refl)
