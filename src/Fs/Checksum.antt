-- ===== src/Fs/Checksum.antt =====
-- assign2/chksumfile.h and chksumfile.c. SHA-1 is a parameter, the digest of the bytes fed to it;
-- its calls succeed.
pub mod Whole
use cs.Base.{
  ℕ, zero, suc, ◌+◌, ◌/◌, ◌++◌, List, [], ◌∷◌, Option, none, some, Bool, true, false, ◌==◌, ◌&&◌,
  take, if◌then◌else◌,
}
use cs.Base.Text.{Text, eq_text}
use cs.Base.Int.{pos}
use cs.Fs.Disk.{FileSystem}
use cs.Fs.Inode.{Inode, iget, is_alloc, get_size}
use cs.Fs.File.{get_block}
use cs.Fs.Directory.{DirEntry}
use cs.Fs.PathName.{Resolved, found, not_found, aborted, path_lookup}

-- The loop over the blocks: the bytes that are hashed.
unfoldable pub hashed_bytes : FileSystem → ℕ → ℕ → ℕ → Option (List ℕ)
hashed_bytes fs inumber index zero = some []
hashed_bytes fs inumber index (suc left) = elim (get_block fs inumber index) [
  | none ↦ none
  | some (n, buf) ↦ elim (hashed_bytes fs inumber (suc index) left) [
    | none ↦ none
    | some rest ↦ some (take n buf ++ rest)
  ]
]

unfoldable pub bytes_of_inode : FileSystem → ℕ → Inode → Option (List ℕ)
unfolding hashed_bytes
bytes_of_inode fs inumber i =
    if is_alloc i then hashed_bytes fs inumber 0 ((get_size i + 511) / 512) else none

module _ (sha1 : List ℕ → List ℕ) where
  unfoldable pub digest : Option (List ℕ) → Option (List ℕ)
  digest none = none
  digest (some bytes) = some (sha1 bytes)

  -- chksumfile_byinumber
  unfoldable pub checksum_by_inumber : FileSystem → ℕ → Option (List ℕ)
  unfolding bytes_of_inode digest
  checksum_by_inumber fs inumber = elim (iget fs (pos inumber)) [
    | none ↦ none
    | some i ↦ digest (bytes_of_inode fs inumber i)
  ]

  unfoldable pub checksum_of : FileSystem → Resolved → Option (List ℕ)
  unfolding checksum_by_inumber
  checksum_of fs (found n) = checksum_by_inumber fs n
  checksum_of fs not_found = none
  checksum_of fs aborted = none

  -- chksumfile_bypathname
  unfoldable pub checksum_by_pathname : (ℕ → DirEntry) → FileSystem → Text → Option (List ℕ)
  unfolding checksum_of
  checksum_by_pathname behind fs path = checksum_of fs (path_lookup behind fs path)

-- chksumfile_compare over the digest's 20 bytes
unfoldable pub compare_checksums : List ℕ → List ℕ → Bool
compare_checksums a b = eq_text (take 20 a) (take 20 b)
