-- ===== src/Loader/Competitors.antt =====
-- `reject_competitors` of bpf-loader.cpp: the walk over the cgroups below the one that is loaded onto.
pub mod Visited
use wireguard_dns_program_sp.Base.{
  ℕ, Bool, true, false, not, ◌&&◌, Option, none, some, List, [], ◌∷◌, ◌==◌, if◌then◌else◌, leb,
  length,
}
use wireguard_dns_program_sp.Loader.Entries.{all_members}

pub data Listing : Type 0 where
  listed vanished failed : Listing

-- What the calls on a cgroup give: how many programs are in effect, `none` for an error; their ids, asked for
-- afterwards; and whether its children can be listed.
pub record Attached : Type 0 where
  pub count : Option ℕ
  pub ids : Option (List ℕ)
  pub listing : Listing

mutual
  -- A cgroup that is gone when it is opened, one that cannot be opened, and one that is read.
  pub data Group : Type 0 where
    removed unreadable : Group
    opened : Attached → Children → Group

  pub data Children : Type 0 where
    no_more : Children
    child : Group → Children → Children

abbrev pub is_none_interrupted : List ℕ → Bool
is_none_interrupted [] = true
is_none_interrupted (id ∷ ids) = false

abbrev pub tolerates : List ℕ → ℕ → Option (List ℕ) → Bool
tolerates interrupted count none = false
tolerates interrupted count (some ids) = leb (length ids) count && all_members ids interrupted

-- Only programs of an interrupted load are in effect there.
abbrev pub is_tolerated : List ℕ → Option ℕ → Option (List ℕ) → Bool
is_tolerated interrupted none ids = false
is_tolerated interrupted (some count) ids =
    if count == 0
    then true
    else not (is_none_interrupted interrupted) && tolerates interrupted count ids

abbrev pub listed_or : Listing → Bool → Bool
listed_or Listing.listed rest = rest
listed_or Listing.vanished rest = true
listed_or Listing.failed rest = false

-- Whether the load goes on.
unfoldable mutual
  pub reject_competitors : List ℕ → Group → Bool
  reject_competitors interrupted removed = true
  reject_competitors interrupted unreadable = false
  reject_competitors interrupted (opened level children) =
      let rest = reject_children interrupted children in
      is_tolerated interrupted level.count level.ids && listed_or level.listing rest

  pub reject_children : List ℕ → Children → Bool
  reject_children interrupted no_more = true
  reject_children interrupted (child group children) =
      let first = reject_competitors interrupted group in
      let rest = reject_children interrupted children in first && rest
