-- ===== src/Fs/Inode.antt =====
-- assign2/ino.h, inode.h and inode.c.
pub mod Lookup
use cs.Base.{
  ℕ, suc, ◌+◌, ◌-◌, ◌*◌, ◌/◌, ◌%◌, List, [], ◌∷◌, Option, none, some, Bool, true, false, not, ◌==◌,
  ◌&&◌, ltb, leb, get_or, drop, if◌then◌else◌,
}
use cs.Base.Int.{ℤ, pos, negsuc}
use cs.Fs.Disk.{Disk, FileSystem, sector_size, word_at}

pub record Inode : Type 0 where
  pub i_mode : ℕ
  pub i_size0 : ℕ
  pub i_size1 : ℕ
  pub i_addr : ℕ → ℕ

-- struct inode at a byte offset of a sector: 32 bytes, the addresses from byte 8
unfoldable pub decode_inode : List ℕ → ℕ → Inode
unfolding word_at
decode_inode b at = record {
  i_mode = word_at b at;
  i_size0 = get_or b (at + 5) 0;
  i_size1 = word_at b (at + 6);
  i_addr = λ i. word_at b (at + 8 + 2 * i);
}

abbrev pub addresses_per_block : ℕ
addresses_per_block = 256

abbrev pub inodes_per_sector : ℕ
inodes_per_sector = 16

abbrev pub inode_start_sector : ℕ
inode_start_sector = 2

abbrev pub max_file_size : ℕ
max_file_size =
    7 * addresses_per_block * sector_size + addresses_per_block * addresses_per_block * sector_size

-- What is read for the number -(n + 1), which passes both tests: k = n + 2 inodes before the first.
-- The division and the remainder of a negative int are those of its magnitude, negated, so all but
-- each sixteenth are looked for in front of the buffer.
unfoldable pub iget_before : FileSystem → ℕ → Inode
unfolding decode_inode
iget_before fs k =
    if (k % inodes_per_sector == 0) && leb (k / inodes_per_sector) inode_start_sector
    then decode_inode (fs.disk.bytes (inode_start_sector - k / inodes_per_sector)) 0
    else decode_inode (fs.disk.stray k) 0

-- inode_iget: -1 for number 0 and past the last; a failing read is not noticed
unfoldable pub iget : FileSystem → ℤ → Option Inode
unfolding decode_inode iget_before
iget fs (pos inumber) =
    let n = inumber - 1 in
    if inumber == 0
    then none
    else (if leb (fs.superblock.s_isize * inodes_per_sector) n
        then none
        else some (
            decode_inode (fs.disk.bytes (n / inodes_per_sector + inode_start_sector))
              (n % inodes_per_sector * 32)))
iget fs (negsuc n) = some (iget_before fs (n + 2))

unfoldable pub get_size : Inode → ℕ
get_size i = i.i_size0 * 65536 + i.i_size1

-- i_mode & ILARG, (i_mode & IFMT) == IFDIR, i_mode & IALLOC
unfoldable pub is_large : Inode → Bool
is_large i = i.i_mode / 4096 % 2 == 1

unfoldable pub is_dir : Inode → Bool
is_dir i = i.i_mode / 8192 % 4 == 2

unfoldable pub is_alloc : Inode → Bool
is_alloc i = i.i_mode / 32768 % 2 == 1

unfoldable pub lookup_address_block : FileSystem → ℕ → ℕ → ℕ
unfolding word_at
lookup_address_block fs block index = word_at (fs.disk.bytes block) (2 * index)

-- inode_indexlookup
unfoldable pub index_lookup : FileSystem → Inode → ℕ → Option ℕ
unfolding is_large get_size lookup_address_block
index_lookup fs i index =
    let past = index - 7 * addresses_per_block in
    if not (is_large i)
    then (if leb 8 index then none else some (i.i_addr index))
    else (if leb (get_size i) max_file_size
        then (if ltb index (7 * addresses_per_block)
            then some (
                lookup_address_block fs (i.i_addr (index / addresses_per_block))
                  (index % addresses_per_block))
            else (if leb (7 * addresses_per_block + addresses_per_block * addresses_per_block) index
                then none
                else some (
                    lookup_address_block fs
                      (lookup_address_block fs (i.i_addr 7) (past / addresses_per_block))
                      (past % addresses_per_block))))
        else none)
