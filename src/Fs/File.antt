-- ===== src/Fs/File.antt =====
-- assign2/file.h and file.c.
pub mod Sizes
use cs.Base.{
  ℕ, suc, ◌+◌, ◌-◌, ◌/◌, ◌%◌, List, [], ◌∷◌, Option, none, some, Bool, true, false, ◌==◌, leb,
  if◌then◌else◌,
}
use cs.Base.Int.{pos}
use cs.Fs.Disk.{Disk, FileSystem, sector_size}
use cs.Fs.Inode.{Inode, iget, index_lookup, get_size}

-- The end of file_getblock: how many bytes of a block belong to a file of this size.
unfoldable pub valid_bytes : ℕ → ℕ → Option ℕ
valid_bytes size index =
    let blocks = size / sector_size in
    if size % sector_size == 0
    then (if leb blocks index then none else some sector_size)
    else (if leb (blocks + 1) index
        then none
        else (if index == blocks then some (size % sector_size) else some sector_size))

-- The sector read, unless reading it fails.
unfoldable pub read_block : FileSystem → ℕ → Option (List ℕ)
read_block fs sector = if fs.disk.fails sector then none else some (fs.disk.bytes sector)

unfoldable pub with_size : Option ℕ → List ℕ → Option (ℕ × List ℕ)
with_size none buf = none
with_size (some n) buf = some (n, buf)

unfoldable pub block_of : FileSystem → Inode → ℕ → Option (ℕ × List ℕ)
unfolding valid_bytes read_block with_size
block_of fs i index = elim (index_lookup fs i index) [
  | none ↦ none
  | some sector ↦ elim (read_block fs sector) [
    | none ↦ none
    | some buf ↦ with_size (valid_bytes (get_size i) index) buf
  ]
]

-- file_getblock: the number of bytes and the buffer
unfoldable pub get_block : FileSystem → ℕ → ℕ → Option (ℕ × List ℕ)
unfolding block_of
get_block fs inumber index = elim (iget fs (pos inumber)) [
  | none ↦ none
  | some i ↦ block_of fs i index
]
