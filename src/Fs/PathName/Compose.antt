-- ===== src/Fs/PathName/Compose.antt =====
-- Walking a path is walking its parts one after the other.
use cs.Base.{ℕ, ◌≡◌, List, [], ◌∷◌, ◌++◌, arith, Option-cases, inl, inr}
use cs.Base.Text.{Text}
use cs.Fs.Disk.{FileSystem}
use cs.Fs.Directory.{DirEntry}
use cs.Fs.PathName.{Resolved, found, not_found, aborted, step_into, walk}

-- Go on from what a first walk resolved to.
unfoldable pub walk_on : (ℕ → DirEntry) → FileSystem → List Text → Resolved → Resolved
walk_on behind fs names (found n) = walk behind fs names n
walk_on behind fs names not_found = not_found
walk_on behind fs names aborted = aborted

-- A path of two non-empty parts resolves to what the second resolves to from the first.
pub walk-append :
    (behind : ℕ → DirEntry) (fs : FileSystem) (x : Text) (xs : List Text) (y : Text)
    (ys : List Text) (inumber : ℕ)
    → walk behind fs ((x ∷ xs) ++ (y ∷ ys)) inumber
      ≡ walk_on behind fs (y ∷ ys) (walk behind fs (x ∷ xs) inumber)
unfolding walk walk_on
walk-append behind fs x [] y ys inumber = elim (Option-cases (step_into behind fs x inumber)) [
  | inl e ↦ ground arith
  | inr (n, e) ↦ ground arith
]
walk-append behind fs x (z ∷ zs) y ys inumber =
    elim (Option-cases (step_into behind fs x inumber)) [
      | inl e ↦ ground arith
      | inr (n, e) ↦ ground (arith, walk-append behind fs z zs y ys n)
    ]
