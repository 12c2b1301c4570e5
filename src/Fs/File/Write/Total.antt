-- ===== src/Fs/File/Write/Total.antt =====
-- file_write of damnfs.c writes the buffer, or reports why not.
use native.Mathlib.Decide.{dec_lt}
use damn_os_damn_fs.Prelude.{
  ℕ, zero, suc, ◌+◌, ◌-◌, ◌*◌, ◌%◌, ◌^◌, ◌≤◌, ◌≡◌, refl, ◌∙◌, ap, sym, ◌≢◌, List, [], ◌∷◌, length,
  take, arith, ltb, true, false,
}
use damn_os_damn_fs.Fs.State.{
  Inode, Image, Fs, Res, ok, err, panic, pure, and_then, inode_of, u16, blksize,
}
use damn_os_damn_fs.Fs.Bitmap.{block_is_free}
use damn_os_damn_fs.Fs.Block.{slot, in_block, in_ind, file_flush, file_set_size}
use damn_os_damn_fs.Fs.Block.Slots.{IsFile, IsFile-disk, with_inode, inode_of-with_ne}
use damn_os_damn_fs.Fs.File.{write_loop, file_write}
use damn_os_damn_fs.Fs.File.Write.{WriteRes}
use damn_os_damn_fs.Fs.File.Write.Loop.{write_loop-WriteRes}
use damn_os_damn_fs.Fs.File.Write.Whole.{
  HasEntry, inode_of-resized, slot-resized, resized-IsFile, set_size-extends, flush-ok,
  written_size, WriteFile, Wrote-HasEntry, whole-FileWritten,
}

-- `t` is `s` but for the size of file `ino`.
record Sized (s t : Fs) (b j ino offset : ℕ) (buf : List ℕ) : Type 0 where
  file : IsFile t ino
  slots : (i : ℕ) → slot t ino i ≡ slot s ino i
  bytes : t.mem.blocks ≡ s.mem.blocks
  marks : (c : ℕ) → block_is_free t c ≡ block_is_free s c
  others : (k : ℕ) → ino ≢ k → inode_of t k ≡ inode_of s k
  size : (inode_of t ino).size ≡ written_size s ino offset (length buf)
  entry : HasEntry t b j ino

-- the end of `file_write`, behind its loop
finish-WriteFile :
    (s t : Fs) (b j ino offset : ℕ) (buf : List ℕ) (r : Res (Unit {0}))
    → Sized s t b j ino offset buf
    → WriteRes t ino offset buf r
    → WriteFile s b j ino offset buf
        (and_then r (λ _ u. and_then (file_flush (in_block b j) u) (λ _. pure (length buf))))
finish-WriteFile s t b j ino offset buf (ok x u) z w =
    let entry = Wrote-HasEntry t u b j ino offset buf z.entry w in
    let (d, run) = flush-ok u b j ino w.extends.file entry in
    rw run (
      refl,
      whole-FileWritten s t u b j ino offset buf d z.slots z.bytes z.marks z.others z.size z.entry
          w,
    )
finish-WriteFile s t b j ino offset buf (err e u) z (ext, why) = why
finish-WriteFile s t b j ino offset buf panic z none_left = absurd none_left

take-all : (n : ℕ) (l : List ℕ) → length l ≤ n → take n l ≡ l
take-all zero [] h = refl
take-all zero (x ∷ l) h = absurd (omega arith)
take-all (suc n) [] h = refl
take-all (suc n) (x ∷ l) h = ap (λ m. x ∷ m) (take-all n l (omega arith))

-- Where the sum of offset and count does not wrap, the loop writes the whole buffer.
module _ (offset : ℕ) (buf : List ℕ) (low : offset + length buf ≤ u16 * blksize) where
  sum-fits : (offset + length buf) % 2 ^ 32 ≡ offset + length buf
  sum-fits = omega arith

  whole-taken : take (offset + length buf - offset) buf ≡ buf
  whole-taken = take-all (offset + length buf - offset) buf (omega arith)

file_write-kept :
    (s : Fs) (b j ino offset : ℕ) (buf : List ℕ)
    → offset + length buf ≤ u16 * blksize
    → in_ind s (in_block b j) ≡ ino
    → ltb ((inode_of s ino).size) (offset + length buf) ≡ false
    → file_write (in_block b j) buf offset s
      ≡ and_then
          (write_loop (length buf) ino offset buf s)
          (λ _ u. and_then (file_flush (in_block b j) u) (λ _. pure (length buf)))
unfolding file_write
file_write-kept s b j ino offset buf low e h =
    rw (e, sum-fits offset buf low, whole-taken offset buf low, h) refl

file_write-extended :
    (s t : Fs) (b j ino offset : ℕ) (buf : List ℕ)
    → offset + length buf ≤ u16 * blksize
    → in_ind s (in_block b j) ≡ ino
    → ltb ((inode_of s ino).size) (offset + length buf) ≡ true
    → file_set_size (in_block b j) (offset + length buf) s ≡ ok tt t
    → file_write (in_block b j) buf offset s
      ≡ and_then
          (write_loop (length buf) ino offset buf t)
          (λ _ u. and_then (file_flush (in_block b j) u) (λ _. pure (length buf)))
unfolding file_write
file_write-extended s t b j ino offset buf low e h run =
    rw (e, sum-fits offset buf low, whole-taken offset buf low, h, run) refl

extended-Sized :
    (s : Fs) (b j ino offset : ℕ) (buf : List ℕ) (d : Image)
    → IsFile s ino
    → HasEntry s b j ino
    → ltb ((inode_of s ino).size) (offset + length buf) ≡ true
    → Sized s
        (record (with_inode s ino
          (record (inode_of s ino) { size = (offset + length buf) % u16 })) { disk = d })
        b
        j
        ino
        offset
        buf
unfolding block_is_free in_ind
extended-Sized s b j ino offset buf d f e h =
    let n = (offset + length buf) % u16 in
    record {
      file =
          IsFile-disk (with_inode s ino (record (inode_of s ino) { size = n })) ino d
            (resized-IsFile s ino n f);
      slots = slot-resized s ino n f;
      bytes = refl;
      marks = λ c. refl;
      others = λ k ne. inode_of-with_ne s ino k (record (inode_of s ino) { size = n }) ne;
      size = ap (λ (i : Inode). i.size) (inode_of-resized s ino n f) ∙ rw h refl;
      entry = record {
        leads = e.leads;
        used = e.used;
        apart = λ i z. e.apart i (sym (slot-resized s ino n f i) ∙ z);
        on_disk = e.on_disk;
      };
    }

-- `file_write` on a well-formed file, of a range that ends at 2 ^ 28 or before (where its slots are
-- `uint16_t`), never panics. It returns the number of bytes of the buffer,
-- the file then holds them at the offset, its size covers them (as a `uint16_t`), its bytes outside
-- are those of before wherever it had a block, no other inode changes and no block in use outside
-- the file changes, and the file is still well-formed. It fails only with -E_INVAL for a range that
-- ends behind the last slot, or with -E_NO_DISK.
pub file_write-WriteFile :
    (s : Fs) (b j ino offset : ℕ) (buf : List ℕ)
    → IsFile s ino
    → HasEntry s b j ino
    → offset + length buf ≤ u16 * blksize
    → WriteFile s b j ino offset buf (file_write (in_block b j) buf offset s)
file_write-WriteFile s b j ino offset buf f e low =
    elim (dec_lt ((inode_of s ino).size) (offset + length buf)) [
      | yes h ↦
          let test : ltb ((inode_of s ino).size) (offset + length buf) ≡ true = ground arith in
          let (d, run) = set_size-extends s b j ino (offset + length buf) e (omega arith) in
          let t =
            record (with_inode s ino
              (record (inode_of s ino) { size = (offset + length buf) % u16 })) { disk = d } in
          let z = extended-Sized s b j ino offset buf d f e test in
          rw (file_write-extended s t b j ino offset buf low e.leads test run) (
            finish-WriteFile s t b j ino offset buf (write_loop (length buf) ino offset buf t) z
              (write_loop-WriteRes (length buf) t ino offset buf z.file (omega arith) low))
      | no h ↦
          let test : ltb ((inode_of s ino).size) (offset + length buf) ≡ false = ground arith in
          let z : Sized s s b j ino offset buf = record {
            file = f;
            slots = λ i. refl;
            bytes = refl;
            marks = λ c. refl;
            others = λ k ne. refl;
            size = rw test refl;
            entry = e;
          } in
          rw (file_write-kept s b j ino offset buf low e.leads test) (
            finish-WriteFile s s b j ino offset buf (write_loop (length buf) ino offset buf s) z
              (write_loop-WriteRes (length buf) s ino offset buf f (omega arith) low))
    ]
