-- ===== src/Fs/File/Sizes.antt =====
-- The sizes that file_getblock returns, block by block.
use cs.Base.{ℕ, ◌-◌, ◌*◌, ◌≤◌, ◌<◌, ◌≡◌, List, none, some, arith, min, Option-cases, inl, inr}
use native.Mathlib.Decide.{dec_lt}
use cs.Base.Int.{pos}
use cs.Fs.Disk.{FileSystem}
use cs.Fs.Inode.{Inode, iget, get_size, index_lookup}
use cs.Fs.File.{valid_bytes, get_block, block_of, read_block, with_size}

-- A block of the file counts a whole sector, the last one what is left; others are refused.
pub valid_bytes-within :
    (size index : ℕ)
    → index * 512 < size
    → valid_bytes size index ≡ some (min 512 (size - index * 512))
unfolding valid_bytes
valid_bytes-within size index h = ground arith

pub valid_bytes-past : (size index : ℕ) → size ≤ index * 512 → valid_bytes size index ≡ none
unfolding valid_bytes
valid_bytes-past size index h = ground arith

-- What file_getblock returns is a size of the block and the sector that was read for it.
pub get_block-size :
    (fs : FileSystem) (inumber index : ℕ) (i : Inode) {n : ℕ} {buf : List ℕ}
    → iget fs (pos inumber) ≡ some i
    → get_block fs inumber index ≡ some (n, buf)
    → (index * 512 < get_size i)
      × (n ≡ min 512 (get_size i - index * 512))
      × ((sector : ℕ) × (index_lookup fs i index ≡ some sector) × (buf ≡ fs.disk.bytes sector))
unfolding get_block block_of read_block with_size
get_block-size fs inumber index i {n} {buf} e f = elim (Option-cases (index_lookup fs i index)) [
  | inl none_there ↦ absurd (ground arith)
  | inr (sector, there) ↦ elim (dec_lt (index * 512) (get_size i)) [
    | yes within ↦
        let size = valid_bytes-within (get_size i) index within in
        (within, ground arith, (sector, there, ground arith))
    | no past ↦
        let size = valid_bytes-past (get_size i) index (omega arith) in absurd (ground arith)
  ]
]
