-- ===== src/Fs/PathName.antt =====
-- assign2/pathname.h and pathname.c, for paths that fit in the buffer of 1024 bytes.
pub mod Compose
use cs.Base.{
  ℕ, zero, suc, List, [], ◌∷◌, Option, none, some, Bool, true, false, ◌==◌, if◌then◌else◌, is_empty,
}
use cs.Base.Text.{Text}
use cs.Base.Int.{pos}
use cs.Fs.Disk.{FileSystem}
use cs.Fs.Inode.{iget}
use cs.Fs.Directory.{DirEntry, find_name}

-- An inode number, -1, or a failed assertion.
pub data Resolved : Type 0 where
  found : ℕ → Resolved
  not_found : Resolved
  aborted : Resolved

-- The fields that strsep cuts at the slashes: one more than there are slashes.
unfoldable pub put_first : ℕ → List Text → List Text
put_first c [] = (c ∷ []) ∷ []
put_first c (w ∷ ws) = (c ∷ w) ∷ ws

unfoldable pub components : Text → List Text
unfolding put_first
components [] = [] ∷ []
components (c ∷ s) = let rest = components s in if c == b'/' then [] ∷ rest else put_first c rest

abbrev pub root_inumber : ℕ
root_inumber = 1

module _ (behind : ℕ → DirEntry) where
  -- One step of pathname_lookup_helper: the entry of that name, if its inode can be fetched.
  unfoldable pub step_into : FileSystem → Text → ℕ → Option ℕ
  step_into fs name inumber = elim (find_name behind fs name inumber) [
    | none ↦ none
    | some e ↦ elim (iget fs (pos e.d_inumber)) [ none ↦ none | some i ↦ some e.d_inumber ]
  ]

  -- pathname_lookup_helper
  unfoldable pub walk : FileSystem → List Text → ℕ → Resolved
  unfolding step_into
  walk fs [] inumber = aborted
  walk fs (name ∷ []) inumber = elim (step_into fs name inumber) [
    | none ↦ not_found
    | some n ↦ found n
  ]
  walk fs (name ∷ next ∷ rest) inumber = elim (step_into fs name inumber) [
    | none ↦ not_found
    | some n ↦ walk fs (next ∷ rest) n
  ]

  unfoldable pub walk_relative : FileSystem → Text → Resolved
  unfolding walk components
  walk_relative fs [] = found root_inumber
  walk_relative fs (c ∷ s) = walk fs (components (c ∷ s)) root_inumber

  -- pathname_lookup
  unfoldable pub path_lookup : FileSystem → Text → Resolved
  unfolding walk_relative
  path_lookup fs [] = aborted
  path_lookup fs (c ∷ s) = if c == b'/' then walk_relative fs s else aborted
