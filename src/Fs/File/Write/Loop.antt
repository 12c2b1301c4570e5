-- ===== src/Fs/File/Write/Loop.antt =====
-- The loop of file_write of damnfs.c, from its rounds.
use damn_os_damn_fs.Prelude.{
  ℕ, zero, suc, ◌+◌, ◌*◌, ◌/◌, ◌%◌, ◌≤◌, ◌<◌, ◌≡◌, refl, List, [], ◌∷◌, length, arith, inl, inr,
  take, drop,
}
use damn_os_damn_fs.Fs.State.{Fs, Res, ok, err, panic, blksize, u16}
use damn_os_damn_fs.Fs.Block.{file_get_block}
use damn_os_damn_fs.Fs.Block.Slots.{IsFile, GetBlock, file_get_block-GetBlock}
use damn_os_damn_fs.Fs.Dir.{write_bytes}
use damn_os_damn_fs.Fs.File.{chunk, write_loop}
use damn_os_damn_fs.Fs.File.Content.{Extends-trans, Extends-refl, chunk_bounds}
use damn_os_damn_fs.Fs.File.Write.{
  Wrote, WriteRes, Wrote-nil, Wrote-append, length-drop, length-take, with_block, round-Wrote,
  write_loop-round, write_loop-fails, write_loop-done,
}

-- what the later rounds do, seen from before the first
then_WriteRes :
    (s u : Fs) (ino pos n : ℕ) (buf : List ℕ) (r : Res (Unit {0}))
    → n ≤ length buf
    → Wrote s ino pos (take n buf) u
    → WriteRes u ino (pos + n) (drop n buf) r
    → WriteRes s ino pos buf r
then_WriteRes s u ino pos n buf (ok x v) fits a b = Wrote-append s u v ino pos n buf fits a b
then_WriteRes s u ino pos n buf (err e v) fits a (ext, inl (code, far)) =
    (Extends-trans a.extends ext, inl (code, omega (arith, length-drop buf n)))
then_WriteRes s u ino pos n buf (err e v) fits a (ext, inr code) =
    (Extends-trans a.extends ext, inr code)
then_WriteRes s u ino pos n buf panic fits a b = absurd b

-- one round, by what `file_get_block` has returned, and the rest of the loop
step-WriteRes :
    (k : ℕ) (s : Fs) (ino pos : ℕ) (buf : List ℕ) (r : Res ℕ)
    → IsFile s ino
    → 0 < length buf
    → length buf ≤ suc k
    → pos + length buf ≤ u16 * blksize
    → file_get_block ino (pos / blksize) s ≡ r
    → GetBlock s ino (pos / blksize) r
    → ((u : Fs) (pos' : ℕ) (rest : List ℕ)
        → IsFile u ino
        → length rest ≤ k
        → pos' + length rest ≤ u16 * blksize
        → WriteRes u ino pos' rest (write_loop k ino pos' rest u))
    → WriteRes s ino pos buf (write_loop (suc k) ino pos buf s)
step-WriteRes k s ino pos buf (ok b t) f some_left fuel low run (small, g) ih =
    let n = chunk pos (length buf) in
    let bounds = chunk_bounds pos (length buf) in
    let l = take n buf in
    let len = length-take buf n bounds.0 in
    let u = with_block t b (write_bytes (t.mem.blocks b) (pos % blksize) l) in
    let a : Wrote s ino pos l u = round-Wrote s t ino pos b l g (omega (arith, bounds.1, len)) in
    rw (write_loop-round k s t ino pos b buf some_left (omega arith) run) (
      then_WriteRes s u ino pos n buf (write_loop k ino (pos + n) (drop n buf) u) bounds.0 a (
        ih u (pos + n) (drop n buf) a.extends.file
          (omega (arith, length-drop buf n, bounds.2 some_left))
          (omega (arith, length-drop buf n, bounds.0, low))))
step-WriteRes k s ino pos buf (err e t) f some_left fuel low run (same, inl (code, far)) ih =
    rw (write_loop-fails k s t ino pos e buf some_left (omega arith) run, same)
      (Extends-refl s ino f, inl (code, omega arith))
step-WriteRes k s ino pos buf (err e t) f some_left fuel low run (same, inr (code, z, full)) ih =
    rw (write_loop-fails k s t ino pos e buf some_left (omega arith) run, same)
      (Extends-refl s ino f, inr code)
step-WriteRes k s ino pos buf panic f some_left fuel low run none_left ih = absurd none_left

-- With a round for each byte left the loop ends.
pub write_loop-WriteRes :
    (k : ℕ) (s : Fs) (ino pos : ℕ) (buf : List ℕ)
    → IsFile s ino
    → length buf ≤ k
    → pos + length buf ≤ u16 * blksize
    → WriteRes s ino pos buf (write_loop k ino pos buf s)
write_loop-WriteRes k s ino pos [] f fuel low =
    rw (write_loop-done k s ino pos) (Wrote-nil s ino pos f)
write_loop-WriteRes zero s ino pos (x ∷ buf) f fuel low = absurd (omega arith)
write_loop-WriteRes (suc k) s ino pos (x ∷ buf) f fuel low =
    step-WriteRes k s ino pos (x ∷ buf) (file_get_block ino (pos / blksize) s) f (omega arith) fuel
      low refl (file_get_block-GetBlock s ino (pos / blksize) f)
      (λ u pos' rest g h m. write_loop-WriteRes k u ino pos' rest g h m)
