-- ===== src/Fs/Disk.antt =====
-- assign2/diskimg.h, diskimg.c, filsys.h, unixfilesystem.h and unixfilesystem.c. The image is a
-- parameter: `fails n` says that reading sector n returns -1, and `bytes n` is what the buffer
-- holds afterwards, whether the call failed or not; `stray k` is what is found k inodes in front of a
-- buffer, where the code reads outside of it.
use cs.Base.{
  ℕ, suc, ◌+◌, ◌*◌, List, Option, none, some, Bool, not, ◌==◌, ◌||◌, get_or, if◌then◌else◌,
}

pub record Disk : Type 0 where
  pub bytes : ℕ → List ℕ
  pub fails : ℕ → Bool
  pub stray : ℕ → List ℕ

abbrev pub sector_size : ℕ
sector_size = 512

-- The 16-bit little-endian word at a byte offset of a sector.
unfoldable pub word_at : List ℕ → ℕ → ℕ
word_at b i = get_or b i 0 + 256 * get_or b (suc i) 0

-- struct filsys: the fields that the code reads
pub record Superblock : Type 0 where
  pub s_isize : ℕ
  pub s_fsize : ℕ

pub record FileSystem : Type 0 where
  pub disk : Disk
  pub superblock : Superblock

unfoldable pub decode_superblock : List ℕ → Superblock
unfolding word_at
decode_superblock b = record { s_isize = word_at b 0; s_fsize = word_at b 2 }

-- unixfilesystem_init: the boot block must be readable and start with 0407, the superblock readable
unfoldable pub init : Disk → Option FileSystem
unfolding decode_superblock word_at
init d =
    if d.fails 0 || not (word_at (d.bytes 0) 0 == 0o407) || d.fails 1
    then none
    else some (record { disk = d; superblock = decode_superblock (d.bytes 1) })
