-- ===== src/Fs/File.antt =====
-- Reading and writing the bytes of a file.
pub mod Content
pub mod Read
pub mod Write
pub mod RoundTrip
use damn_os_damn_fs.Prelude.{
  ℕ, zero, suc, ◌+◌, ◌-◌, ◌/◌, ◌%◌, ◌^◌, Bool, true, false, List, [], ◌++◌, ◌==◌, ltb, leb,
  if◌then◌else◌, length, take, drop, min,
}
use damn_os_damn_fs.Fs.State.{
  Inode, Super, Image, Fs, Res, ok, err, panic, M, pure, fail, stop, ◌>>=◌, ◌>>◌, get, put_block,
  inode_of, blksize, u16,
}
use damn_os_damn_fs.Fs.Block.{EntryPtr, in_ind, file_get_block, file_set_size, file_flush}
use damn_os_damn_fs.Fs.Dir.{bytes_at, write_bytes}

-- The bytes of one round: from `pos` to the end of its block, or to the end of the request.
unfoldable pub chunk : ℕ → ℕ → ℕ
chunk pos left = min (blksize - pos % blksize) left

-- The loop of `file_read` at `pos`, with `left` bytes to read. A round reads at least one byte.
pub read_loop : ℕ → ℕ → ℕ → ℕ → M (List ℕ)
unfolding chunk
read_loop zero ino pos left = if left == 0 then pure [] else stop
read_loop (suc k) ino pos left = do
  let bn = chunk pos left
  let rest = read_loop k ino (pos + bn) (left - bn)
  if left == 0 then pure [] else (do
    blk ← file_get_block ino (pos / blksize)
    s ← get
    r ← rest
    pure (bytes_at (s.mem.blocks blk) (pos % blksize) bn ++ r))

unfoldable pub file_read : EntryPtr → ℕ → ℕ → M (List ℕ)
unfolding read_loop
file_read f count offset = do
  s ← get
  let ino = in_ind s f
  let size = (inode_of s ino).size
  if leb size offset
      then pure []
      else read_loop (min count (size - offset)) ino offset (min count (size - offset))

-- The loop of `file_write` at `pos`, with `buf` to write. The slot is passed as a `uint16_t`.
unfoldable pub write_loop : ℕ → ℕ → ℕ → List ℕ → M (Unit {0})
unfolding chunk
write_loop zero ino pos buf = if length buf == 0 then pure tt else stop
write_loop (suc k) ino pos buf = do
  let bn = chunk pos (length buf)
  let rest = write_loop k ino (pos + bn) (drop bn buf)
  if length buf == 0 then pure tt else (do
    blk ← file_get_block ino (pos / blksize % u16)
    s ← get
    put_block blk (write_bytes (s.mem.blocks blk) (pos % blksize) (take bn buf))
    rest)

-- `offset` is an `off_t` that is not negative; its sum with the `size_t` `count` wraps at 2 ^ 32, and
-- the loop ends at that place.
unfoldable pub file_write : EntryPtr → List ℕ → ℕ → M ℕ
unfolding write_loop
file_write f buf offset = do
  s ← get
  let ino = in_ind s f
  let count = length buf
  let last = (offset + count) % 2 ^ 32
  if ltb ((inode_of s ino).size) last then file_set_size f last else pure tt
  write_loop count ino offset (take (last - offset) buf)
  file_flush f
  pure count
