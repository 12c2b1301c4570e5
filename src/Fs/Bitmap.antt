-- ===== src/Fs/Bitmap.antt =====
-- The bitmaps of free blocks and free inodes, and the write-back of a block.
pub mod Laws
pub mod Inodes
use damn_os_damn_fs.Prelude.{
  ℕ, zero, suc, ◌+◌, ◌-◌, ◌/◌, ◌%◌, ◌^◌, bit_and, bit_or, Bool, true, false, List, ◌==◌, leb,
  if◌then◌else◌, get_or, set,
}
use damn_os_damn_fs.Bits.{complement}
use damn_os_damn_fs.Fs.State.{
  Super, Image, Fs, M, pure, fail, stop, ◌>>=◌, ◌>>◌, get, put_super, disk_blocks, e_no_disk,
  e_no_inode,
}

-- `(ocp[n / 32] & (1 << (n % 32))) == 0`
unfoldable pub is_free : List ℕ → ℕ → Bool
is_free ocp n = bit_and (get_or ocp (n / 32) 0) (2 ^ (n % 32)) == 0

-- `ocp[n / 32] |= 1 << (n % 32)`
unfoldable pub mark_used : List ℕ → ℕ → List ℕ
mark_used ocp n = set ocp (n / 32) (bit_or (get_or ocp (n / 32) 0) (2 ^ (n % 32)))

-- `ocp[n / 32] &= ~(1 << (n % 32))`
unfoldable pub mark_free : List ℕ → ℕ → List ℕ
mark_free ocp n = set ocp (n / 32) (bit_and (get_or ocp (n / 32) 0) (complement (2 ^ (n % 32))))

-- The block goes to disk. (A clean page equals its block on disk: `Cache` has the page table bits.)
unfoldable pub copy_block : Image → Image → ℕ → Image
copy_block from to n =
    if n == 0
    then record to { super = from.super }
    else if n == 1
    then record to { inodes = from.inodes }
    else record to { blocks = λ b. if b == n then from.blocks b else to.blocks b }

unfoldable pub flush_block : ℕ → M (Unit {0})
unfolding copy_block
flush_block n s =
    (if leb disk_blocks n then stop else λ t.
    pure tt (record t { disk = copy_block t.mem t.disk n }))
      s

unfoldable pub block_is_free : Fs → ℕ → Bool
unfolding is_free
block_is_free s n = if leb (s.mem.super.blk_num) n then false else is_free (s.mem.super.blk_ocp) n

unfoldable pub inode_is_free : Fs → ℕ → Bool
unfolding is_free
inode_is_free s n = if leb (s.mem.super.in_num) n then false else is_free (s.mem.super.in_ocp) n

unfoldable pub free_block : ℕ → M (Unit {0})
free_block n = if n == 0 then stop else do
  s ← get
  put_super (record (s.mem.super) { blk_ocp = mark_free (s.mem.super.blk_ocp) n })
  flush_block 0

unfoldable pub free_inode : ℕ → M (Unit {0})
free_inode n = if n == 0 then stop else do
  s ← get
  put_super (record (s.mem.super) { in_ocp = mark_free (s.mem.super.in_ocp) n })
  flush_block 0

use_block : ℕ → M ℕ
use_block n = do
  s ← get
  put_super (record (s.mem.super) { blk_ocp = mark_used (s.mem.super.blk_ocp) n })
  flush_block 0
  pure n

use_inode : ℕ → M ℕ
use_inode n = do
  s ← get
  put_super (record (s.mem.super) { in_ocp = mark_used (s.mem.super.in_ocp) n })
  flush_block 0
  pure n

-- the loop of `alloc_block` from `n` on, with `k` blocks left
alloc_block_from : ℕ → ℕ → M ℕ
alloc_block_from zero n s = fail e_no_disk s
alloc_block_from (suc k) n s = elim (block_is_free s n) [
  | true ↦ use_block n s
  | false ↦ alloc_block_from k (n + 1) s
]

unfoldable pub alloc_block : M ℕ
unfolding alloc_block_from use_block
alloc_block s = alloc_block_from (s.mem.super.blk_num) 0 s

alloc_inode_from : ℕ → ℕ → M ℕ
alloc_inode_from zero n s = fail e_no_inode s
alloc_inode_from (suc k) n s = elim (inode_is_free s n) [
  | true ↦ use_inode n s
  | false ↦ alloc_inode_from k (n + 1) s
]

unfoldable pub alloc_inode : M ℕ
unfolding alloc_inode_from use_inode
alloc_inode s = alloc_inode_from (s.mem.super.in_num) 0 s
