-- ===== src/Fs/Directory/Scan.antt =====
-- What the scan of a directory's block finds, inside the buffer and past its end.
use cs.Base.{ℕ, zero, suc, ◌+◌, ◌≤◌, ◌<◌, ◌≡◌, List, some, true, false, arith, Bool-cases, inl, inr}
use native.Mathlib.Decide.{ℕ_discrete}
use cs.Base.Text.{Text}
use cs.Fs.Directory.{DirEntry, same_name, entry_at, find_in_block}

module _ (behind : ℕ → DirEntry) where
  -- What is found has the name, and is one of the entries that were looked at.
  pub find_in_block_sound :
      (name : Text) (buf : List ℕ) (i left : ℕ) {e : DirEntry}
      → find_in_block behind name buf i left ≡ some e
      → (same_name e.d_name name ≡ true)
        × ((k : ℕ) × (i ≤ k) × (k < i + left) × (e ≡ entry_at behind buf k))
  unfolding find_in_block
  find_in_block_sound name buf i zero {e} f = cc
  find_in_block_sound name buf i (suc left) {e} f =
      elim (Bool-cases (same_name (entry_at behind buf i).d_name name)) [
        | inl same ↦ (ground arith, (i, omega arith, omega arith, ground arith))
        | inr other ↦
            let later = find_in_block_sound name buf (suc i) left {e = e} (ground arith) in
            (later.0, (later.1.0, omega (arith, later.1.1), omega (arith, later.1.2), later.1.3))
      ]

  -- Where none of the entries before m has the name and the m-th does, the m-th is found.
  pub find_in_block-first :
      (name : Text) (buf : List ℕ) (i m left : ℕ)
      → i ≤ m
      → m < i + left
      → ((j : ℕ) → i ≤ j → j < m → same_name (entry_at behind buf j).d_name name ≡ false)
      → same_name (entry_at behind buf m).d_name name ≡ true
      → find_in_block behind name buf i left ≡ some (entry_at behind buf m)
  unfolding find_in_block
  find_in_block-first name buf i m zero low high before here = absurd (omega arith)
  find_in_block-first name buf i m (suc left) low high before here = elim (ℕ_discrete i m) [
    | yes same ↦ ground arith
    | no differ ↦
        let skip = before i (omega arith) (omega arith) in
        let later =
          find_in_block-first name buf (suc i) m left (omega arith) (omega arith)
            (λ j a b. before j (omega arith) b) here in
        ground (arith, skip, later)
  ]
