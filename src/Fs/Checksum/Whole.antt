-- ===== src/Fs/Checksum/Whole.antt =====
-- The checksum covers the file: as many bytes are hashed as the inode says it has.
use cs.Base.{
  ℕ, zero, suc, ◌+◌, ◌-◌, ◌*◌, ◌/◌, ◌≤◌, ◌<◌, ◌≡◌, List, some, true, arith, length, take,
  length-append, length-take, Option-cases, Bool-cases, inl, inr, ap,
}
use cs.Base.Int.{pos}
use cs.Fs.Disk.{FileSystem}
use cs.Fs.Inode.{Inode, iget, is_alloc, get_size}
use cs.Fs.File.{get_block}
use cs.Fs.File.Sizes.{get_block-size}
use cs.Fs.Checksum.{hashed_bytes, bytes_of_inode}

hashed_bytes-length :
    (fs : FileSystem) (inumber index left : ℕ) (i : Inode) {bs : List ℕ}
    → ((sector : ℕ) → length (fs.disk.bytes sector) ≡ 512)
    → iget fs (pos inumber) ≡ some i
    → (index + left) * 512 < get_size i + 512
    → get_size i ≤ (index + left) * 512
    → hashed_bytes fs inumber index left ≡ some bs
    → length bs ≡ get_size i - index * 512
unfolding hashed_bytes
hashed_bytes-length fs inumber index zero i {bs} full e a b f = ground arith
hashed_bytes-length fs inumber index (suc left) i {bs} full e a b f =
    elim (Option-cases (get_block fs inumber index)) [
      | inl none_read ↦ absurd (ground arith)
      | inr ((n, buf), here) ↦ elim (Option-cases (hashed_bytes fs inumber (suc index) left)) [
        | inl none_left ↦ absurd (ground arith)
        | inr (rest, there) ↦
            let size = get_block-size fs inumber index i e here in
            let later =
              hashed_bytes-length fs inumber (suc index) left i {bs = rest} full e (omega arith)
                (omega arith) there in
            ground (
              arith,
              size.0,
              size.1,
              later,
              ap length size.2.2,
              full size.2.0,
              length-take n buf,
              length-append (take n buf) rest,
            )
      ]
    ]

-- With sectors of 512 bytes, the bytes hashed for an inode are as many as its size says.
pub bytes_of_inode-length :
    (fs : FileSystem) (inumber : ℕ) (i : Inode) {bs : List ℕ}
    → ((sector : ℕ) → length (fs.disk.bytes sector) ≡ 512)
    → iget fs (pos inumber) ≡ some i
    → bytes_of_inode fs inumber i ≡ some bs
    → (is_alloc i ≡ true) × (length bs ≡ get_size i)
unfolding bytes_of_inode
bytes_of_inode-length fs inumber i {bs} full e f = elim (Bool-cases (is_alloc i)) [
  | inr free ↦ absurd (ground arith)
  | inl used ↦ (
    used,
    omega (
      arith,
      hashed_bytes-length fs inumber 0 ((get_size i + 511) / 512) i {bs = bs} full e (omega arith)
          (omega arith) (ground arith),
    ),
  )
]
