-- ===== src/Fs/Tests.antt =====
-- A small file system, and the theorems applied to it.
use cs.Base.{
  ℕ, ◌*◌, ◌/◌, ◌%◌, ◌-◌, ◌<◌, ◌≡◌, inl, inr, refl, List, [], ◌∷◌, ◌++◌, Option, some, Bool, true,
  false, ◌==◌, arith, replicate, length, min, if◌then◌else◌, length-append, length-replicate,
}
use cs.Base.Text.{Text, codes}
use cs.Base.Int.{ℤ, pos}
use cs.Fs.Disk.{FileSystem}
use cs.Fs.Inode.{Inode, iget, decode_inode, index_lookup, get_size, is_alloc, is_dir}
use cs.Fs.Dump.{listed, get_dir_entries, entries_of, entry_blocks, block_entries, prepend}
use cs.Fs.File.{get_block}
use cs.Fs.File.Sizes.{get_block-size}
use cs.Fs.Directory.{DirEntry, entry_at}
use cs.Fs.Checksum.{bytes_of_inode}

-- An allocated file of 600 bytes in blocks 10 and 11.
abbrev inode_bytes : List ℕ
inode_bytes = 0 ∷ 128 ∷ 1 ∷ 0 ∷ 0 ∷ 0 ∷ 88 ∷ 2 ∷ 10 ∷ 0 ∷ 11 ∷ 0 ∷ []

abbrev sector : ℕ → List ℕ
sector n = if n == 2 then inode_bytes ++ replicate 500 0 else replicate 512 65

abbrev small : FileSystem
small = record {
  disk = record { bytes = sector; fails = λ n. false; stray = λ k. [] };
  superblock = record { s_isize = 1; s_fsize = 20 };
}

abbrev file_inode : Inode
file_inode = decode_inode (sector 2) 0

length-sector : (n : ℕ) → length (sector n) ≡ 512
length-sector n = by_cases (n == 2)
  where
    by_cases :
        (b : Bool) → length (if b then inode_bytes ++ replicate 500 0 else replicate 512 65) ≡ 512
    by_cases true = refl
    by_cases false = refl

abbrev inode_one : ℤ
inode_one = pos 1

found_inode : iget small (pos 1) ≡ some file_inode
unfolding iget
found_inode = refl

file_size : get_size file_inode ≡ 600
unfolding get_size decode_inode
file_size = refl

last_block : get_block small 1 1 ≡ some (88, sector 11)
unfolding get_block iget index_lookup
last_block = refl

get_block-size_example :
    (1 * 512 < get_size file_inode)
    × (88 ≡ min 512 (get_size file_inode - 1 * 512))
    × ((s : ℕ) × (index_lookup small file_inode 1 ≡ some s) × (sector 11 ≡ small.disk.bytes s))
get_block-size_example = get_block-size small 1 1 file_inode found_inode last_block

abbrev file_bytes : List ℕ
file_bytes = replicate 512 65 ++ (replicate 88 65 ++ [])

hashed : bytes_of_inode small 1 file_inode ≡ some file_bytes
unfolding bytes_of_inode is_alloc decode_inode get_size get_block iget index_lookup
hashed = refl

-- A directory block of empty names, with a file's name behind it in memory.
abbrev leftover : DirEntry
leftover = record { d_inumber = 7; d_name = codes "secret" }

abbrev behind : ℕ → DirEntry
behind i = leftover

-- A file system whose inode 1 is a directory of one entry, 7 under the name a.
abbrev directory_bytes : List ℕ
directory_bytes = 0 ∷ 192 ∷ 1 ∷ 0 ∷ 0 ∷ 0 ∷ 16 ∷ 0 ∷ 10 ∷ 0 ∷ []

abbrev directory_sector : ℕ → List ℕ
directory_sector n =
    if n == 2 then directory_bytes ++ replicate 502 0 else 7 ∷ 0 ∷ 97 ∷ replicate 509 0

abbrev one_directory : FileSystem
one_directory = record {
  disk = record { bytes = directory_sector; fails = λ n. false; stray = λ k. [] };
  superblock = record { s_isize = 1; s_fsize = 20 };
}

abbrev directory_inode : Inode
directory_inode = decode_inode (directory_sector 2) 0

found_directory : iget one_directory (pos 1) ≡ some directory_inode
unfolding iget
found_directory = refl

abbrev one_entry : DirEntry
one_entry = record { d_inumber = 7; d_name = 97 ∷ replicate 13 0 }

listed_directory : get_dir_entries behind one_directory 1 100 ≡ listed (one_entry ∷ [])
unfolding get_dir_entries entries_of entry_blocks block_entries prepend entry_at iget is_alloc
    is_dir decode_inode get_size get_block index_lookup
listed_directory = refl
