-- ===== src/Fs/Dump/Paths.antt =====
-- assign2/diskimageaccess.c: the dump of the paths, PrintDirectory, and main.
use cs.Base.{
  ℕ, zero, suc, ◌/◌, List, [], ◌∷◌, ◌++◌, none, some, Bool, true, false, ◌||◌, ltb, length,
  if◌then◌else◌,
}
use cs.Base.Text.{Text, codes, eq_text}
use cs.Base.Number.{show_nat}
use cs.Base.Int.{pos}
use cs.Fs.Disk.{FileSystem, word_at}
use cs.Fs.Inode.{Inode, iget, is_alloc, is_dir}
use cs.Fs.Directory.{DirEntry}
use cs.Fs.PathName.{Resolved, found, not_found, aborted, path_lookup, root_inumber}
use cs.Fs.Checksum.{checksum_by_inumber, compare_checksums}
use cs.Fs.Dump.{
  Output, say, warn, show_inode, Listed, listed, unreadable, misaligned, Dumped, dumped, failed,
  unfinished, get_dir_entries, name_text, dump_inode_checksum,
}

-- The name of the directory itself or of its parent.
unfoldable pub is_dots : Text → Bool
is_dots s = eq_text s (codes ".") || eq_text s (codes "..")

-- pathname++ for "/": a second character of NUL
unfoldable pub path_prefix : Text → Text
path_prefix [] = []
path_prefix (c ∷ []) = []
path_prefix (c ∷ d ∷ s) = c ∷ d ∷ s

module _ (sha1 : List ℕ → List ℕ) (behind : ℕ → DirEntry) (unset : Text) where
  -- The rounds of the loop over the entries; `visit` is the recursive call.
  unfoldable pub dump_children :
      (Text → ℕ → Output → Dumped) → Text → List DirEntry → Output → Dumped
  unfolding is_dots name_text
  dump_children visit path [] o = dumped o
  dump_children visit path (e ∷ es) o =
      let name = name_text sha1 behind unset e es in
      elim (is_dots name) [
        | true ↦ dump_children visit path es o
        | false ↦ elim (visit (path ++ (b'/' ∷ name)) e.d_inumber o) [
          | dumped p ↦ dump_children visit path es p
          | failed ↦ failed
          | unfinished ↦ unfinished
        ]
      ]

  unfoldable pub dump_listed : (Text → ℕ → Output → Dumped) → Text → Listed → Output → Dumped
  unfolding dump_children
  dump_listed visit path (listed es) o = dump_children visit path es o
  dump_listed visit path (unreadable s) o = dumped (warn s o)
  dump_listed visit path misaligned o = failed

  unfoldable pub warn_depth : Text → Output → Output
  warn_depth path o =
      if ltb 1008 (length path)
      then warn (codes "Too deep of directories " ++ path ++ codes "\n") o
      else o

  -- From the test for a directory on.
  unfoldable pub descend :
      (Text → ℕ → Output → Dumped) → FileSystem → Text → ℕ → Inode → Output → Dumped
  unfolding dump_listed warn_depth path_prefix get_dir_entries
  descend visit fs path inumber i o =
      if is_dir i
      then dump_listed visit (path_prefix path) (get_dir_entries behind fs inumber 10000)
          (warn_depth (path_prefix path) o)
      else dumped o

  unfoldable pub cannot_checksum : Text → ℕ → Output → Dumped
  cannot_checksum path inumber o = dumped (
      warn
        (codes "Can't checksum inode " ++ show_nat inumber ++ codes " path " ++ path ++ codes "\n")
        o)

  -- From the comparison of the two checksums on, the second of them by the path.
  unfoldable pub dump_compared :
      (Text → ℕ → Output → Dumped)
      → FileSystem
      → Text
      → ℕ
      → Inode
      → List ℕ
      → Resolved
      → Output
      → Dumped
  unfolding descend cannot_checksum show_nat show_inode
  dump_compared visit fs path inumber i chksum aborted o = failed
  dump_compared visit fs path inumber i chksum not_found o = cannot_checksum path inumber o
  dump_compared visit fs path inumber i chksum (found n) o = elim (checksum_by_inumber sha1 fs n) [
    | none ↦ cannot_checksum path inumber o
    | some other ↦ elim (compare_checksums chksum other) [
      | false ↦ dumped (
          warn
            (codes "Pathname checksum of "
              ++ path
              ++ codes " differs from inode "
              ++ show_nat inumber
              ++ codes "\n")
            o)
      | true ↦
          descend visit fs path inumber i
            (say (codes "Path " ++ path ++ (32 ∷ show_nat inumber) ++ show_inode i other) o)
    ]
  ]

  -- DumpPathAndChildren. The fuel bounds the depth: a directory that is its own descendant under
  -- another name is entered without end.
  unfoldable pub dump_path : ℕ → FileSystem → Text → ℕ → Output → Dumped
  unfolding dump_compared cannot_checksum show_nat path_lookup
  dump_path zero fs path inumber o = unfinished
  dump_path (suc fuel) fs path inumber o = elim (iget fs (pos inumber)) [
    | none ↦ dumped (warn (codes "Can't read inode " ++ show_nat inumber ++ codes " \n") o)
    | some i ↦ elim (is_alloc i) [
      | false ↦ failed
      | true ↦ elim (checksum_by_inumber sha1 fs inumber) [
        | none ↦ cannot_checksum path inumber o
        | some chksum ↦
            dump_compared (dump_path fuel fs) fs path inumber i chksum (path_lookup behind fs path)
              o
      ]
    ]
  ]

  -- DumpPathnameChecksum
  unfoldable pub dump_pathname_checksum : ℕ → FileSystem → Output → Dumped
  unfolding dump_path
  dump_pathname_checksum fuel fs o = dump_path fuel fs (codes "/") root_inumber o

  -- The loop of PrintDirectory.
  unfoldable pub print_entries : Text → List DirEntry → Output → Output
  unfolding name_text show_nat
  print_entries path [] o = o
  print_entries path (e ∷ es) o = print_entries path es (
      say
        (codes "Direntry "
          ++ path
          ++ codes " Name "
          ++ name_text sha1 behind unset e es
          ++ codes " Inumber "
          ++ show_nat e.d_inumber
          ++ codes "\n")
        o)

  unfoldable pub print_listed : Text → Listed → Output → Dumped
  unfolding print_entries
  print_listed path (listed es) o = dumped (print_entries path es o)
  print_listed path (unreadable s) o =
      dumped (warn (s ++ codes "Can't read entries from " ++ path ++ codes "\n") o)
  print_listed path misaligned o = failed

  -- PrintDirectory
  unfoldable pub print_directory : FileSystem → Text → Output → Dumped
  unfolding print_listed get_dir_entries path_lookup
  print_directory fs path o = elim (path_lookup behind fs path) [
    | found n ↦ print_listed path (get_dir_entries behind fs n 10000) o
    | not_found ↦ dumped (warn (codes "Can't find " ++ path ++ codes "\n") o)
    | aborted ↦ failed
  ]

  -- The two dumps at the end of main, by iflag and pflag.
  unfoldable pub run_dumps : ℕ → FileSystem → Bool → Bool → Output → Dumped
  unfolding dump_inode_checksum dump_pathname_checksum
  run_dumps fuel fs by_inode by_path o =
      let p = if by_inode then dump_inode_checksum sha1 behind unset fs o else o in
      if by_path then dump_pathname_checksum fuel fs p else dumped p

-- What main prints of the image unless it is to be quiet.
unfoldable pub show_image : Text → ℕ → FileSystem → Text
unfolding show_nat word_at
show_image path size fs =
    codes "Disk "
    ++ path
    ++ codes " is "
    ++ show_nat size
    ++ codes " bytes ("
    ++ show_nat (size / 1024)
    ++ codes " KB)\nSuperblock s_isize "
    ++ show_nat fs.superblock.s_isize
    ++ codes "\nSuperblock s_fsize "
    ++ show_nat fs.superblock.s_fsize
    ++ codes "\nSuperblock s_nfree "
    ++ show_nat (word_at (fs.disk.bytes 1) 4)
    ++ codes "\nSuperblock s_ninode "
    ++ show_nat (word_at (fs.disk.bytes 1) 206)
    ++ codes "\n"

-- PrintUsageAndExit
unfoldable pub show_usage : Text → Text
show_usage name =
    codes "Usage: "
    ++ name
    ++ codes " <options> diskimagePath\nwhere <options> can be:\n"
    ++ codes "-q     don't print extra info\n"
    ++ codes "-i     print all inode checksums\n"
    ++ codes "-p     print all pathname checksums\n"
