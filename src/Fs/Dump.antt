-- ===== src/Fs/Dump.antt =====
-- assign2/diskimageaccess.c: what the driver prints of an image. SHA-1 is a parameter; so is what
-- stands in memory behind the entries that were read, since a name of 14 bytes is printed on past
-- its end. For paths that fit in the buffer of 1024 bytes.
pub mod Paths
pub mod Listing
use cs.Base.{
  ℕ, zero, suc, ◌+◌, ◌-◌, ◌*◌, ◌/◌, ◌%◌, List, [], ◌∷◌, ◌++◌, Option, none, some, Bool, true, false,
  not, ◌==◌, ◌&&◌, ◌||◌, ltb, leb, take, length, if◌then◌else◌,
}
use cs.Base.Text.{Text, codes, eq_text}
use cs.Base.Number.{show_nat}
use cs.Base.Int.{pos}
use cs.Fs.Disk.{FileSystem}
use cs.Fs.Inode.{Inode, iget, is_alloc, is_dir, get_size}
use cs.Fs.File.{get_block}
use cs.Fs.Directory.{DirEntry, c_string, entry_at}
use cs.Fs.PathName.{Resolved, found, not_found, aborted, path_lookup, root_inumber}
use cs.Fs.Checksum.{checksum_by_inumber, compare_checksums, checksum_of}

-- The texts of stdout and of stderr.
pub record Output : Type 0 where
  pub out : Text
  pub err : Text

abbrev pub say : Text → Output → Output
say s o = record o { out = o.out ++ s }

abbrev pub warn : Text → Output → Output
warn s o = record o { err = o.err ++ s }

unfoldable pub hex_digit : ℕ → ℕ
hex_digit d = if ltb d 10 then 48 + d else 87 + d

-- printf's %x, the digits behind those given; a round divides the number, so it is fuel enough.
unfoldable pub hex_loop : ℕ → ℕ → Text → Text
unfolding hex_digit
hex_loop zero n digits = hex_digit n ∷ digits
hex_loop (suc fuel) n digits = elim (ltb n 16) [
  | true ↦ hex_digit n ∷ digits
  | false ↦ hex_loop fuel (n / 16) (hex_digit (n % 16) ∷ digits)
]

unfoldable pub show_hex : ℕ → Text
unfolding hex_loop
show_hex n = hex_loop n n []

-- chksumfile_cvt2string: two digits for each byte of the digest
unfoldable pub show_checksum : List ℕ → Text
unfolding hex_digit
show_checksum [] = []
show_checksum (c ∷ cs) = hex_digit (c / 16 % 16) ∷ hex_digit (c % 16) ∷ show_checksum cs

-- The end of the line for an inode, from its mode on.
unfoldable pub show_inode : Inode → List ℕ → Text
unfolding show_hex show_checksum show_nat
show_inode i chksum =
    codes " mode 0x"
    ++ show_hex i.i_mode
    ++ codes " size "
    ++ show_nat (get_size i)
    ++ codes " checksum "
    ++ show_checksum chksum
    ++ codes "\n"

-- What GetDirEntries comes to: the entries; a negative number, with what is printed; a failed
-- assertion.
pub data Listed : Type 0 where
  listed : List DirEntry → Listed
  unreadable : Text → Listed
  misaligned : Listed

unfoldable pub prepend : List DirEntry → Listed → Listed
prepend here (listed rest) = listed (here ++ rest)
prepend here (unreadable s) = unreadable s
prepend here misaligned = misaligned

-- A dump that returns, that fails an assertion, or that has run out of fuel.
pub data Dumped : Type 0 where
  dumped : Output → Dumped
  failed : Dumped
  unfinished : Dumped

module _ (behind : ℕ → DirEntry) where
  unfoldable pub block_entries : List ℕ → ℕ → ℕ → List DirEntry
  unfolding entry_at
  block_entries buf i zero = []
  block_entries buf i (suc left) = entry_at behind buf i ∷ block_entries buf (suc i) left

  -- The loop over the blocks of a directory, with room for `room` entries.
  unfoldable pub entry_blocks : FileSystem → ℕ → ℕ → ℕ → ℕ → Listed
  unfolding block_entries prepend
  entry_blocks fs inumber bno room zero = listed []
  entry_blocks fs inumber bno room (suc left) = elim (get_block fs inumber bno) [
    | none ↦ unreadable (codes "Error reading directory\n")
    | some (n, buf) ↦
        let here = block_entries buf 0 (n / 16) in
        elim (leb room (length here)) [
          | true ↦ listed (take room here)
          | false ↦ prepend here (entry_blocks fs inumber (suc bno) (room - length here) left)
        ]
  ]

  unfoldable pub entries_of : FileSystem → ℕ → ℕ → Inode → Listed
  unfolding entry_blocks
  entries_of fs inumber max i =
      if not (is_alloc i) || not (is_dir i) || ltb max 1
      then unreadable []
      else (if get_size i % 16 == 0
          then entry_blocks fs inumber 0 max ((get_size i + 511) / 512)
          else misaligned)

  -- GetDirEntries
  unfoldable pub get_dir_entries : FileSystem → ℕ → ℕ → Listed
  unfolding entries_of
  get_dir_entries fs inumber max = elim (iget fs (pos inumber)) [
    | none ↦ unreadable []
    | some i ↦ entries_of fs inumber max i
  ]

-- The bytes of entries, one behind the other.
unfoldable pub flat : List DirEntry → Text
flat [] = []
flat (e ∷ es) = (e.d_inumber % 256 ∷ e.d_inumber / 256 ∷ e.d_name) ++ flat es

module _ (sha1 : List ℕ → List ℕ) (behind : ℕ → DirEntry) (unset : Text) where
  -- %s of the name of an entry, with the entries and the memory behind it
  unfoldable pub name_text : DirEntry → List DirEntry → Text
  unfolding flat c_string
  name_text e es = let s = e.d_name ++ flat es ++ unset in c_string (length s) s

  -- The round of DumpInodeChecksum for an inode that has been fetched.
  unfoldable pub dump_inode : FileSystem → ℕ → Inode → Output → Output
  unfolding show_inode show_nat
  dump_inode fs inumber i o =
      if not (is_alloc i) then o else (elim (checksum_by_inumber sha1 fs inumber) [
        | none ↦ warn (codes "Inode " ++ show_nat inumber ++ codes " can't compute chksum\n") o
        | some chksum ↦ say (codes "Inode " ++ show_nat inumber ++ show_inode i chksum) o
      ])

  unfoldable pub dump_inodes : FileSystem → ℕ → ℕ → Output → Output
  unfolding dump_inode
  dump_inodes fs inumber zero o = o
  dump_inodes fs inumber (suc left) o = elim (iget fs (pos inumber)) [
    | none ↦ warn (codes "Can't read inode " ++ show_nat inumber ++ codes " \n") o
    | some i ↦ dump_inodes fs (suc inumber) left (dump_inode fs inumber i o)
  ]

  -- DumpInodeChecksum
  unfoldable pub dump_inode_checksum : FileSystem → Output → Output
  unfolding dump_inodes
  dump_inode_checksum fs o = dump_inodes fs 1 (fs.superblock.s_isize * 16 - 1) o
