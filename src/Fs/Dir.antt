-- ===== src/Fs/Dir.antt =====
-- Directories: entries of 18 bytes, 227 to a block.
use damn_os_damn_fs.Prelude.{
  ℕ, zero, suc, ◌+◌, ◌*◌, ◌/◌, ◌%◌, Bool, true, false, Option, none, some, List, [], ◌∷◌, ◌++◌,
  ◌==◌, if◌then◌else◌,
}
use damn_os_damn_fs.Prelude.Int.{ℤ, pos, negsuc}
use damn_os_damn_fs.CString.{strcmp}
use damn_os_damn_fs.Fs.State.{
  M, pure, fail, ◌>>=◌, ◌>>◌, get, put_inode, put_block, inode_of, diresize, blkfiles, maxnamelen,
  e_not_found, u16,
}
use damn_os_damn_fs.Fs.Block.{EntryPtr, in_block, file_get_block}

-- the `n` bytes of a block from `o` on
unfoldable pub bytes_at : (ℕ → ℕ) → ℕ → ℕ → List ℕ
bytes_at f o zero = []
bytes_at f o (suc n) = f o ∷ bytes_at f (o + 1) n

-- a block with the bytes `l` written from `o` on
unfoldable pub write_bytes : (ℕ → ℕ) → ℕ → List ℕ → ℕ → ℕ
write_bytes f o [] x = f x
write_bytes f o (c ∷ l) x = if x == o then c else write_bytes f (o + 1) l x

-- `f[j].f_name`, as a string. (It is compared with names of fewer than 16 characters, so that the
-- comparison never leaves the field.)
unfoldable pub f_name : (ℕ → ℕ) → ℕ → List ℕ
unfolding bytes_at
f_name f j = bytes_at f (diresize * j) maxnamelen

unfoldable pub is_zero : ℤ → Bool
is_zero (pos n) = n == 0
is_zero (negsuc n) = false

-- `strcpy (f[j].f_name, name)`, for a name that fits
unfoldable pub set_name : ℕ → ℕ → List ℕ → M (Unit {0})
unfolding write_bytes
set_name b j name s = put_block b (write_bytes (s.mem.blocks b) (diresize * j) (name ++ (0 ∷ []))) s

-- `f[j].in_ind = ino`
unfoldable pub set_in_ind : ℕ → ℕ → ℕ → M (Unit {0})
unfolding write_bytes
set_in_ind b j ino s =
    put_block b
      (write_bytes (s.mem.blocks b) (diresize * j + 16) (ino % 256 ∷ ino / 256 % 256 ∷ [])) s

-- The first entry from `j` on, of `k` left, with the name `name`.
find_entry : (ℕ → ℕ) → List ℕ → ℕ → ℕ → Option ℕ
unfolding f_name is_zero
find_entry f name zero j = none
find_entry f name (suc k) j = elim (is_zero (strcmp (f_name f j) name)) [
  | true ↦ some j
  | false ↦ find_entry f name k (j + 1)
]

-- The first entry whose name is empty.
find_empty : (ℕ → ℕ) → ℕ → ℕ → Option ℕ
find_empty f zero j = none
find_empty f (suc k) j = elim (f (diresize * j) == 0) [
  | true ↦ some j
  | false ↦ find_empty f k (j + 1)
]

-- The outer loop of `dir_lookup` from block `i` on, `k` blocks left.
lookup_blocks : ℕ → List ℕ → ℕ → ℕ → M EntryPtr
unfolding find_entry
lookup_blocks dir name zero i = fail e_not_found
lookup_blocks dir name (suc k) i = do
  b ← file_get_block dir i
  s ← get
  let rest = lookup_blocks dir name k (i + 1)
  elim (find_entry (s.mem.blocks b) name blkfiles 0) [ none ↦ rest | some j ↦ pure (in_block b j) ]

unfoldable pub dir_lookup : ℕ → List ℕ → M EntryPtr
unfolding lookup_blocks
dir_lookup dir name = do s ← get; lookup_blocks dir name ((inode_of s dir).blk_used) 0

unfoldable pub grow_size : ℕ → M (Unit {0})
grow_size dir s =
    let n = inode_of s dir in put_inode dir (record n { size = (n.size + diresize) % u16 }) s

-- The new block of a full directory: the code counts it here, and `file_get_block` counts it again.
append_block : ℕ → ℕ → M EntryPtr
unfolding grow_size
append_block dir i = do
  s ← get
  let n = inode_of s dir
  put_inode dir (record n { blk_used = (n.blk_used + 1) % u16 })
  grow_size dir
  b ← file_get_block dir i
  pure (in_block b 0)

alloc_in_blocks : ℕ → ℕ → ℕ → M EntryPtr
unfolding find_empty append_block grow_size
alloc_in_blocks dir zero i = append_block dir i
alloc_in_blocks dir (suc k) i = do
  b ← file_get_block dir i
  s ← get
  let rest = alloc_in_blocks dir k (i + 1)
  elim (find_empty (s.mem.blocks b) blkfiles 0) [
    | none ↦ rest
    | some j ↦ grow_size dir >> pure (in_block b j)
  ]

unfoldable pub dir_alloc_entry : ℕ → M EntryPtr
unfolding alloc_in_blocks
dir_alloc_entry dir = do s ← get; alloc_in_blocks dir ((inode_of s dir).blk_used) 0
