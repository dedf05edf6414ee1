-- ===== src/Fs/Directory.antt =====
-- assign2/direntv6.h, directory.h and directory.c. What lies in memory behind the buffer of the
-- entries is a parameter, since the loop over the entries runs past the buffer's end.
pub mod Scan
use cs.Base.{
  ℕ, zero, suc, ◌+◌, ◌*◌, ◌/◌, List, [], ◌∷◌, Option, none, some, Bool, true, false, ◌==◌, ltb,
  take, drop, if◌then◌else◌,
}
use cs.Base.Text.{Text, eq_text}
use cs.Base.Int.{pos}
use cs.Fs.Disk.{FileSystem, word_at}
use cs.Fs.Inode.{Inode, iget, is_dir, get_size}
use cs.Fs.File.{get_block}

pub record DirEntry : Type 0 where
  pub d_inumber : ℕ
  pub d_name : Text

-- The string of at most n bytes that strncmp reads: up to a NUL.
unfoldable pub c_string : ℕ → Text → Text
c_string zero s = []
c_string (suc n) [] = []
c_string (suc n) (c ∷ s) = let rest = c_string n s in if c == 0 then [] else c ∷ rest

-- strncmp (…, D_NAME_MAX_SIZE) == 0
unfoldable pub same_name : Text → Text → Bool
unfolding c_string
same_name a b = eq_text (c_string 14 a) (c_string 14 b)

module _ (behind : ℕ → DirEntry) where
  -- buf[i]: 16 bytes each, 32 of them in the buffer
  unfoldable pub entry_at : List ℕ → ℕ → DirEntry
  unfolding word_at
  entry_at buf i =
      if ltb i 32
      then record { d_inumber = word_at buf (16 * i); d_name = take 14 (drop (16 * i + 2) buf) }
      else behind i

  -- The loop over the entries of a block, from i with `left` to go.
  unfoldable pub find_in_block : Text → List ℕ → ℕ → ℕ → Option DirEntry
  unfolding entry_at same_name
  find_in_block name buf i zero = none
  find_in_block name buf i (suc left) = elim (same_name (entry_at buf i).d_name name) [
    | true ↦ some (entry_at buf i)
    | false ↦ find_in_block name buf (suc i) left
  ]

  -- The loop over the blocks, one for each started sector of the size.
  unfoldable pub find_in_blocks : FileSystem → Text → ℕ → ℕ → ℕ → Option DirEntry
  unfolding find_in_block
  find_in_blocks fs name inumber index zero = none
  find_in_blocks fs name inumber index (suc left) = elim (get_block fs inumber index) [
    | none ↦ none
    | some (n, buf) ↦ elim (find_in_block name buf 0 512) [
      | some e ↦ some e
      | none ↦ find_in_blocks fs name inumber (suc index) left
    ]
  ]

  unfoldable pub find_in_directory : FileSystem → Text → ℕ → Inode → Option DirEntry
  unfolding find_in_blocks
  find_in_directory fs name inumber i =
      if is_dir i then find_in_blocks fs name inumber 0 ((get_size i + 511) / 512) else none

  -- directory_findname
  unfoldable pub find_name : FileSystem → Text → ℕ → Option DirEntry
  unfolding find_in_directory
  find_name fs name inumber = elim (iget fs (pos inumber)) [
    | none ↦ none
    | some i ↦ find_in_directory fs name inumber i
  ]
