-- ===== src/Fs/Dump/Listing.antt =====
-- How many entries of a directory are read.
use cs.Base.{
  ℕ, zero, suc, ◌+◌, ◌-◌, ◌*◌, ◌/◌, ◌%◌, ◌≤◌, ◌<◌, ◌≡◌, refl, List, [], ◌++◌, none, some, true,
  false, leb, arith, length, take, min, length-append, length-take, Option-cases, Bool-cases, inl,
  inr, ap, ◌∙◌, sym,
}
use cs.Base.Int.{pos}
use cs.Fs.Disk.{FileSystem}
use cs.Fs.Inode.{Inode, iget, is_alloc, is_dir, get_size}
use cs.Fs.File.{get_block}
use cs.Fs.File.Sizes.{get_block-size}
use cs.Fs.Directory.{DirEntry}
use cs.Fs.Dump.{
  Listed, listed, unreadable, misaligned, prepend, block_entries, entry_blocks, entries_of,
  get_dir_entries,
}

prepend_listed :
    (here : List DirEntry) (l : Listed) {es : List DirEntry}
    → prepend here l ≡ listed es
    → (rest : List DirEntry) × (l ≡ listed rest) × (es ≡ here ++ rest)
unfolding prepend
prepend_listed here (listed rest) e = (rest, refl, ground (arith, e))
prepend_listed here (unreadable s) e = absurd (ground (arith, e))
prepend_listed here misaligned e = absurd (ground (arith, e))

module _ (behind : ℕ → DirEntry) where
  block_entries-length : (buf : List ℕ) (i n : ℕ) → length (block_entries behind buf i n) ≡ n
  unfolding block_entries
  block_entries-length buf i zero = refl
  block_entries-length buf i (suc n) = ap suc (block_entries-length buf (suc i) n)

  entry_blocks_full :
      (fs : FileSystem) (inumber bno room left n : ℕ) (buf : List ℕ)
      → get_block fs inumber bno ≡ some (n, buf)
      → leb room (length (block_entries behind buf 0 (n / 16))) ≡ true
      → entry_blocks behind fs inumber bno room (suc left)
        ≡ listed (take room (block_entries behind buf 0 (n / 16)))
  unfolding entry_blocks
  entry_blocks_full fs inumber bno room left n buf e h = rw (entry_blocks, e, h) refl

  entry_blocks_more :
      (fs : FileSystem) (inumber bno room left n : ℕ) (buf : List ℕ)
      → get_block fs inumber bno ≡ some (n, buf)
      → leb room (length (block_entries behind buf 0 (n / 16))) ≡ false
      → entry_blocks behind fs inumber bno room (suc left)
        ≡ prepend (block_entries behind buf 0 (n / 16)) (
            entry_blocks behind fs inumber
              (suc bno)
              (room - length (block_entries behind buf 0 (n / 16)))
              left)
  unfolding entry_blocks
  entry_blocks_more fs inumber bno room left n buf e h = rw (entry_blocks, e, h) refl

  entry_blocks_unreadable :
      (fs : FileSystem) (inumber bno room left : ℕ) {es : List DirEntry}
      → get_block fs inumber bno ≡ none
      → entry_blocks behind fs inumber bno room (suc left) ≡ listed es
      → ⊥
  unfolding entry_blocks
  entry_blocks_unreadable fs inumber bno room left e f = ground (arith, e, f)

  entry_blocks-length :
      (fs : FileSystem) (inumber bno room left : ℕ) (i : Inode) {es : List DirEntry}
      → iget fs (pos inumber) ≡ some i
      → 0 < room
      → get_size i % 16 ≡ 0
      → (bno + left) * 512 < get_size i + 512
      → get_size i ≤ (bno + left) * 512
      → entry_blocks behind fs inumber bno room left ≡ listed es
      → length es ≡ min ((get_size i - bno * 512) / 16) room
  unfolding entry_blocks
  entry_blocks-length fs inumber bno room zero i {es} e r m a b f =
      let empty : [] ≡ es = ground (arith, f) in omega (arith, ap length empty)
  entry_blocks-length fs inumber bno room (suc left) i {es} e r m a b f =
      elim (Option-cases (get_block fs inumber bno)) [
        | inl none_read ↦ absurd (entry_blocks_unreadable fs inumber bno room left none_read f)
        | inr ((n, buf), here) ↦
            let size = get_block-size fs inumber bno i e here in
            let count = block_entries-length buf 0 (n / 16) in
            elim (Bool-cases (leb room (length (block_entries behind buf 0 (n / 16))))) [
              | inl full ↦
                  let same : take room (block_entries behind buf 0 (n / 16)) ≡ es =
                    ground (
                      arith,
                      sym (entry_blocks_full fs inumber bno room left n buf here full) ∙ f,
                    ) in
                  ground (
                    arith,
                    ap length same,
                    length-take room (block_entries behind buf 0 (n / 16)),
                    count,
                    full,
                    size.1,
                  )
              | inr more ↦
                  let (rest, later, same) =
                    prepend_listed _ _
                      (sym (entry_blocks_more fs inumber bno room left n buf here more) ∙ f) in
                  let counted =
                    entry_blocks-length fs inumber (suc bno)
                      (room - length (block_entries behind buf 0 (n / 16))) left i e
                      (ground (arith, more, count)) m (omega arith) (omega arith) later in
                  ground (
                    arith,
                    counted,
                    ap length same,
                    length-append (block_entries behind buf 0 (n / 16)) rest,
                    count,
                    more,
                    size.1,
                  )
            ]
      ]

  entries_of_listed :
      (fs : FileSystem) (inumber max : ℕ) (i : Inode) {es : List DirEntry}
      → entries_of behind fs inumber max i ≡ listed es
      → (is_alloc i ≡ true)
        × (is_dir i ≡ true)
        × (0 < max)
        × (get_size i % 16 ≡ 0)
        × (entry_blocks behind fs inumber 0 max ((get_size i + 511) / 512) ≡ listed es)
  unfolding entries_of
  entries_of_listed fs inumber max i {es} f = (
    ground (arith, f),
    ground (arith, f),
    ground (arith, f),
    ground (arith, f),
    ground (arith, f),
  )

  get_dir_entries_of :
      (fs : FileSystem) (inumber max : ℕ) (i : Inode)
      → iget fs (pos inumber) ≡ some i
      → get_dir_entries behind fs inumber max ≡ entries_of behind fs inumber max i
  unfolding get_dir_entries
  get_dir_entries_of fs inumber max i e = rw (get_dir_entries, e) refl

  -- If GetDirEntries, with room for at least one entry, returns the entries of an inode, the inode
  -- is an allocated directory whose size is a multiple of 16, and the entries are one for each 16
  -- bytes of it, as far as there is room.
  pub get_dir_entries-length :
      (fs : FileSystem) (inumber max : ℕ) (i : Inode) {es : List DirEntry}
      → iget fs (pos inumber) ≡ some i
      → get_dir_entries behind fs inumber max ≡ listed es
      → (is_alloc i ≡ true)
        × (is_dir i ≡ true)
        × (get_size i % 16 ≡ 0)
        × (length es ≡ min (get_size i / 16) max)
  get_dir_entries-length fs inumber max i {es} e f =
      let (used, dir, room, aligned, g) =
        entries_of_listed fs inumber max i (sym (get_dir_entries_of fs inumber max i e) ∙ f) in
      let count =
        entry_blocks-length fs inumber 0 max ((get_size i + 511) / 512) i e room aligned
          (omega arith) (omega arith) g in
      (used, dir, aligned, ground (arith, count))
