-- ===== src/Fs/Inode/Lookup.antt =====
-- Which inodes and blocks can be looked up, and where the reads fall.
use cs.Base.{
  ℕ, Bool, false, ltb, ◌||◌, ◌*◌, ◌≤◌, ◌<◌, ◌≡◌, ◌⊎◌, inl, inr, some, true, arith, Option-cases,
  ◌==◌,
}
use cs.Base.Int.{ℤ, pos, negsuc}
use cs.Fs.Disk.{FileSystem, sector_size}
use cs.Fs.Inode.{Inode, get_size, is_large, index_lookup}

abbrev pub is_refused : FileSystem → ℤ → Bool
is_refused fs (pos n) = (n == 0) || ltb (fs.superblock.s_isize * 16) n
is_refused fs (negsuc n) = false

-- Every block of a file has an address: for a small file of up to eight blocks, and for a large
-- one of any size that the three size bytes can state.
pub index_lookup-within :
    (fs : FileSystem) (i : Inode) (index : ℕ)
    → i.i_size0 < 256
    → i.i_size1 < 65536
    → (is_large i ≡ true) ⊎ (get_size i ≤ 8 * sector_size)
    → index * sector_size < get_size i
    → (sector : ℕ) × (index_lookup fs i index ≡ some sector)
unfolding index_lookup get_size
index_lookup-within fs i index a b c d = elim (Option-cases (index_lookup fs i index)) [
  | inl refused ↦ absurd (ground arith)
  | inr (sector, e) ↦ (sector, e)
]
