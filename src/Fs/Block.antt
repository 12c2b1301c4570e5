-- ===== src/Fs/Block.antt =====
-- The blocks of a file: its slots, allocation on demand, truncation and write-back.
pub mod Slots
pub mod Flush
use damn_os_damn_fs.Prelude.{
  ℕ, zero, suc, ◌+◌, ◌-◌, ◌*◌, ◌/◌, ◌%◌, ◌^◌, ◌||◌, List, ◌==◌, ltb, leb, if◌then◌else◌, get_or,
  set,
}
use damn_os_damn_fs.Fs.State.{
  Inode, Super, Image, Fs, Res, ok, err, panic, M, pure, fail, stop, ◌>>=◌, ◌>>◌, get, put_inode,
  inode_of, attempt, Outcome, good, bad, byte, e_inval, blksize, diresize, ndirect, u16,
}
use damn_os_damn_fs.Fs.Bitmap.{flush_block, free_block, alloc_block}

-- `struct DirEntry *`: an entry of a directory block, by the block and its index there, or
-- `rt_entry` of serv.c, which stands for the root directory.
pub data EntryPtr : Type 0 where
  in_block : ℕ → ℕ → EntryPtr
  rt_entry : EntryPtr

-- `f->in_ind`, two bytes behind the name
unfoldable pub in_ind : Fs → EntryPtr → ℕ
in_ind s (in_block b j) = byte s b (diresize * j + 16) + 256 * byte s b (diresize * j + 17)
in_ind s rt_entry = 0

-- `flush_block (f)`; `rt_entry` does not stand in the disk map.
unfoldable pub flush_entry : EntryPtr → M (Unit {0})
flush_entry (in_block b j) = flush_block b
flush_entry rt_entry = stop

-- `diskaddr`: the address of a block, which the model names by its number
unfoldable pub diskaddr : ℕ → M ℕ
diskaddr b s = (if leb (s.mem.super.blk_num) b then stop else pure b) s

-- the index of the slot in `blk_ind`
unfoldable pub file_block_walk : ℕ → M ℕ
file_block_walk blockind = if ltb blockind ndirect then pure blockind else fail e_inval

-- `*pointer_to_slot`
abbrev pub slot : Fs → ℕ → ℕ → ℕ
slot s ino i = get_or ((inode_of s ino).blk_ind) i 0

unfoldable pub put_slot : ℕ → ℕ → ℕ → M (Unit {0})
put_slot ino i b s =
    let n = inode_of s ino in put_inode ino (record n { blk_ind = set n.blk_ind i b }) s

unfoldable pub count_block : ℕ → M (Unit {0})
count_block ino s =
    let n = inode_of s ino in put_inode ino (record n { blk_used = (n.blk_used + 1) % u16 }) s

-- The block of slot `blockind` of inode `ino`, allocated if the slot is empty.
fill_slot : ℕ → ℕ → M (Unit {0})
unfolding put_slot count_block
fill_slot ino i = do
  s ← get
  if slot s ino i == 0
      then (do r ← alloc_block; put_slot ino i (r % u16); count_block ino)
      else pure tt

unfoldable pub file_get_block : ℕ → ℕ → M ℕ
unfolding file_block_walk fill_slot
file_get_block ino blockind = do
  i ← file_block_walk blockind
  fill_slot ino i
  s ← get
  b ← diskaddr (slot s ino i)
  flush_block 1
  pure b

-- `file_free_block (f, blockno)` with the inode of `f`
unfoldable pub file_free_block : ℕ → ℕ → M (Unit {0})
unfolding file_block_walk put_slot
file_free_block ino blockno = do
  i ← file_block_walk blockno
  s ← get
  if slot s ino i == 0 then pure tt else (do free_block (slot s ino i); put_slot ino i 0)

-- The loop of `file_truncate_blocks` from `bno` on, `k` blocks left. An error is printed, and the
-- loop goes on.
truncate_from : ℕ → ℕ → ℕ → M (Unit {0})
truncate_from zero ino bno = pure tt
truncate_from (suc k) ino bno = do
  r ← attempt (file_free_block ino bno)
  truncate_from k ino (bno + 1)

-- the number of blocks of a file of `size` bytes, as `uint16_t`
unfoldable pub nblocks : ℕ → ℕ
nblocks size = (size + blksize - 1) / blksize % u16

unfoldable pub file_truncate_blocks : ℕ → ℕ → M (Unit {0})
unfolding truncate_from nblocks
file_truncate_blocks ino newsize = do
  s ← get
  let old = nblocks ((inode_of s ino).size)
  truncate_from (old - nblocks newsize) ino (nblocks newsize)

unfoldable pub put_size : ℕ → ℕ → M (Unit {0})
put_size ino size s = let n = inode_of s ino in put_inode ino (record n { size = size % u16 }) s

unfoldable pub file_set_size : EntryPtr → ℕ → M (Unit {0})
unfolding put_size
file_set_size f newsize = do
  s ← get
  let ino = in_ind s f
  if ltb newsize ((inode_of s ino).size) then file_truncate_blocks ino newsize else pure tt
  put_size ino newsize
  flush_entry f

-- The loop of `file_flush`: slots out of range and empty slots are passed over.
unfoldable pub flush_from : ℕ → ℕ → ℕ → M (Unit {0})
flush_from zero ino i = pure tt
flush_from (suc k) ino i = do
  s ← get
  if leb ndirect i || slot s ino i == 0
      then pure tt
      else (do b ← diskaddr (slot s ino i); flush_block b)
  flush_from k ino (i + 1)

unfoldable pub file_flush : EntryPtr → M (Unit {0})
unfolding flush_from
file_flush f = do
  s ← get
  let ino = in_ind s f
  flush_from (((inode_of s ino).size + blksize - 1) / blksize) ino 0
  flush_block 1
  flush_entry f

-- The loop of `fs_sync` from block `i` on, `k` blocks left.
sync_from : ℕ → ℕ → M (Unit {0})
sync_from zero i = pure tt
sync_from (suc k) i = do b ← diskaddr i; flush_block b; sync_from k (i + 1)

unfoldable pub fs_sync : M (Unit {0})
unfolding sync_from
fs_sync s = sync_from (s.mem.super.blk_num - 1) 1 s
