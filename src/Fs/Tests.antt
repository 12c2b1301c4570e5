-- ===== src/Fs/Tests.antt =====
-- The theorems on damnfs.c at work on a small disk.
use damn_os_damn_fs.Prelude.{ℕ, ◌≡◌, [], ◌∷◌, arith, ◌==◌, if◌then◌else◌, true}
use damn_os_damn_fs.Fs.State.{Fs, ok}
use damn_os_damn_fs.Fs.Bitmap.{block_is_free, alloc_block, alloc_inode, free_block}
use damn_os_damn_fs.Fs.Bitmap.Laws.{AllocBlock, alloc_block-AllocBlock, free_block-frees}
use damn_os_damn_fs.Fs.Bitmap.Inodes.{AllocInode, alloc_inode-AllocInode}
use damn_os_damn_fs.Fs.Block.{in_block, in_ind, file_get_block}
use damn_os_damn_fs.Fs.Block.Slots.{GetBlock, file_get_block-GetBlock}
use damn_os_damn_fs.Fs.File.{file_read, file_write}
use damn_os_damn_fs.Fs.File.Read.{ReadRes, readable, file_read-ReadRes}
use damn_os_damn_fs.Fs.File.Write.Whole.{WriteFile}
use damn_os_damn_fs.Fs.File.Write.Total.{file_write-WriteFile}
use damn_os_damn_fs.Fs.File.RoundTrip.{file_read-file_write}
use damn_os_damn_fs.Fs.Sample.{
  small, small_inodes, small_blocks, small-HasBits, small-IsFile, small-HasEntry, two_bytes,
  written, written_run,
}

alloc_block-AllocBlock_example : AllocBlock small (alloc_block small)
alloc_block-AllocBlock_example = alloc_block-AllocBlock small small-HasBits

alloc_inode-AllocInode_example : AllocInode small (alloc_inode small)
alloc_inode-AllocInode_example = alloc_inode-AllocInode small small-HasBits

free_block-frees_example :
    (s' : Fs) × (free_block 3 small ≡ ok tt s')
    × ((m : ℕ) → block_is_free s' m ≡ (if 3 == m then true else block_is_free small m))
    × (s'.mem.super.in_ocp ≡ 3 ∷ [])
    × (s'.mem.inodes ≡ small_inodes)
    × (s'.mem.blocks ≡ small_blocks)
    × (s'.disk.super ≡ s'.mem.super)
free_block-frees_example = free_block-frees small 3 small-HasBits (omega arith) (omega arith)

file_get_block-GetBlock_example : GetBlock small 1 4 (file_get_block 1 4 small)
file_get_block-GetBlock_example = file_get_block-GetBlock small 1 4 small-IsFile

file_write-WriteFile_example :
    WriteFile small 2 0 1 4095 two_bytes (file_write (in_block 2 0) two_bytes 4095 small)
file_write-WriteFile_example =
    file_write-WriteFile small 2 0 1 4095 two_bytes small-IsFile small-HasEntry (omega arith)

file_read-ReadRes_example :
    ReadRes small
      (in_ind small (in_block 2 0))
      3
      (readable small (in_ind small (in_block 2 0)) 8 3)
      (file_read (in_block 2 0) 8 3 small)
unfolding small_blocks in_ind
file_read-ReadRes_example = file_read-ReadRes small (in_block 2 0) 8 3 small-IsFile

file_read-file_write_example : (u : Fs) × (file_read (in_block 2 0) 2 0 written ≡ ok two_bytes u)
file_read-file_write_example =
    file_read-file_write small written 2 0 1 0 2 two_bytes small-IsFile small-HasEntry (omega arith)
      written_run
