-- ===== src/Fs/File/Write/Whole.antt =====
-- file_write of damnfs.c as a whole: the size is set, the loop runs, and the file is flushed.
use damn_os_damn_fs.Prelude.{
  ℕ, ◌+◌, ◌-◌, ◌*◌, ◌/◌, ◌%◌, ◌≤◌, ◌<◌, ◌≡◌, ◌∙◌, ap, ap₂, sym, ◌≢◌, List, get_or, length,
  length-set, arith, ◌⊎◌, if◌then◌else◌, ltb, false,
}
use damn_os_damn_fs.Fs.State.{
  Inode, Image, Fs, Res, ok, err, panic, inode_of, blksize, ndirect, e_inval, e_no_disk, u16,
  disk_blocks, byte, diresize,
}
use damn_os_damn_fs.Fs.Bitmap.{block_is_free, flush_block, copy_block}
use damn_os_damn_fs.Fs.Block.{
  slot, in_block, in_ind, file_set_size, file_flush, flush_entry, put_size,
}
use damn_os_damn_fs.Fs.Block.Flush.{flush_from-ok}
use damn_os_damn_fs.Fs.Block.Slots.{IsFile, IsFile-disk, with_inode, inode_of-with_self}
use damn_os_damn_fs.Fs.File.Content.{content, Extends-used, Extends-apart}
use damn_os_damn_fs.Fs.File.Write.{Wrote}

-- Entry `j` of block `b` leads to inode `ino`, and `b` is a block in use that is none of the
-- file's own.
pub record HasEntry (s : Fs) (b j ino : ℕ) : Type 0 where
  pub leads : in_ind s (in_block b j) ≡ ino
  pub used : block_is_free s b ≡ false
  pub apart : (i : ℕ) → slot s ino i ≢ b
  pub on_disk : b < disk_blocks

module _ (s : Fs) (ino n : ℕ) (f : IsFile s ino) where
  abbrev pub resized : Fs
  resized = with_inode s ino (record (inode_of s ino) { size = n })

  pub inode_of-resized : inode_of resized ino ≡ record (inode_of s ino) { size = n }
  inode_of-resized = inode_of-with_self s ino (record (inode_of s ino) { size = n }) f.exists

  pub slot-resized : (i : ℕ) → slot resized ino i ≡ slot s ino i
  slot-resized i = ap (λ (d : Inode). get_or d.blk_ind i 0) inode_of-resized

  pub resized-IsFile : IsFile resized ino
  unfolding block_is_free
  resized-IsFile = record {
    exists =
        omega (arith, length-set s.mem.inodes ino (record (inode_of s ino) { size = n }), f.exists);
    slots = ap (λ (d : Inode). length d.blk_ind) inode_of-resized ∙ f.slots;
    bits = f.bits;
    small = f.small;
    super_used = f.super_used;
    inodes_used = f.inodes_used;
    used = λ i. rw slot-resized (f.used i);
    in_range = λ i. rw slot-resized (f.in_range i);
    distinct = λ i j ne e.
        f.distinct i j (λ z. ne (slot-resized i ∙ z)) (sym (slot-resized i) ∙ e ∙ slot-resized j);
  }

-- `file_set_size` that extends: the size is set, and the entry's block is written back.
pub set_size-extends :
    (s : Fs) (b j ino newsize : ℕ)
    → HasEntry s b j ino
    → (inode_of s ino).size ≤ newsize
    → (d : Image) × (file_set_size (in_block b j) newsize s
        ≡ ok tt (record (with_inode s ino (record (inode_of s ino) { size = newsize % u16 })) {
          disk = d;
        }))
unfolding file_set_size put_size flush_entry flush_block
set_size-extends s b j ino newsize e grows =
    let t = with_inode s ino (record (inode_of s ino) { size = newsize % u16 }) in
    (copy_block t.mem t.disk b, ground (arith, e.leads, e.on_disk))

pub flush-ok :
    (s : Fs) (b j ino : ℕ)
    → IsFile s ino
    → HasEntry s b j ino
    → (d : Image) × (file_flush (in_block b j) s ≡ ok tt (record s { disk = d }))
unfolding file_flush flush_entry flush_block
flush-ok s b j ino f e =
    let (d, run) = flush_from-ok (((inode_of s ino).size + blksize - 1) / blksize) s ino 0 f in
    (copy_block s.mem (copy_block s.mem d 1) b, rw (e.leads, run) (ground (arith, e.on_disk)))

-- The size that `file_write` leaves, a `uint16_t`.
abbrev pub written_size : Fs → ℕ → ℕ → ℕ → ℕ
written_size s ino offset count =
    let old = (inode_of s ino).size in
    if ltb old (offset + count) then (offset + count) % u16 else old

-- `s'` is `s` after `buf` has been written at `offset` of file `ino`, whose entry is entry `j` of
-- block `b`.
pub record FileWritten (s : Fs) (b j ino offset : ℕ) (buf : List ℕ) (s' : Fs) : Type 0 where
  pub file : IsFile s' ino
  pub entry : HasEntry s' b j ino
  pub size : (inode_of s' ino).size ≡ written_size s ino offset (length buf)
  pub filled : (i : ℕ) → i < length buf → slot s' ino ((offset + i) / blksize) ≢ 0
  pub inside : (i : ℕ) → i < length buf → content s' ino (offset + i) ≡ get_or buf i 0
  pub outside :
      (o : ℕ)
      → slot s ino (o / blksize) ≢ 0
      → (o < offset) ⊎ (offset + length buf ≤ o)
      → content s' ino o ≡ content s ino o
  pub other_inodes : (k : ℕ) → ino ≢ k → inode_of s' k ≡ inode_of s k
  pub other_blocks :
      (c o : ℕ)
      → block_is_free s c ≡ false
      → ((i : ℕ) → slot s ino i ≢ c)
      → byte s' c o ≡ byte s c o

-- what `file_write` may do in state `s`
abbrev pub WriteFile : Fs → ℕ → ℕ → ℕ → ℕ → List ℕ → Res ℕ → Type 0
WriteFile s b j ino offset buf (ok n s') = (n ≡ length buf) × FileWritten s b j ino offset buf s'
WriteFile s b j ino offset buf (err e s') =
    ((e ≡ e_inval) × (ndirect * blksize < offset + length buf)) ⊎ (e ≡ e_no_disk)
WriteFile s b j ino offset buf panic = ⊥

-- The entry is still there after a write to its file.
pub Wrote-HasEntry :
    (t u : Fs) (b j ino pos : ℕ) (buf : List ℕ)
    → HasEntry t b j ino
    → Wrote t ino pos buf u
    → HasEntry u b j ino
unfolding in_ind
Wrote-HasEntry t u b j ino pos buf e w = record {
  leads = ground (
    arith,
    e.leads,
    w.other_blocks b (diresize * j + 16) e.used e.apart,
    w.other_blocks b (diresize * j + 17) e.used e.apart,
  );
  used = Extends-used w.extends b e.used;
  apart = Extends-apart w.extends b e.used e.apart;
  on_disk = e.on_disk;
}

-- A file whose size alone was set before the loop ran.
module _ (s t u : Fs) (b j ino offset : ℕ) (buf : List ℕ) (d : Image)
    (slots : (i : ℕ) → slot t ino i ≡ slot s ino i) (bytes : t.mem.blocks ≡ s.mem.blocks)
    (marks : (c : ℕ) → block_is_free t c ≡ block_is_free s c)
    (others : (k : ℕ) → ino ≢ k → inode_of t k ≡ inode_of s k)
    (size : (inode_of t ino).size ≡ written_size s ino offset (length buf)) (e : HasEntry t b j ino)
    (w : Wrote t ino offset buf u) where
  pub whole-FileWritten : FileWritten s b j ino offset buf (record u { disk = d })
  unfolding block_is_free in_ind
  whole-FileWritten = record {
    file = IsFile-disk u ino d w.extends.file;
    entry = record {
      leads = (Wrote-HasEntry t u b j ino offset buf e w).leads;
      used = (Wrote-HasEntry t u b j ino offset buf e w).used;
      apart = (Wrote-HasEntry t u b j ino offset buf e w).apart;
      on_disk = e.on_disk;
    };
    size = w.extends.size ∙ size;
    filled = w.filled;
    inside = w.inside;
    outside = λ o ne h.
        w.outside o (λ z. ne (sym (slots (o / blksize)) ∙ z)) h
        ∙ ap₂ (λ (m : ℕ → ℕ → ℕ) c. m c (o % blksize)) bytes (slots (o / blksize));
    other_inodes = λ k ne. w.extends.other_inodes k ne ∙ others k ne;
    other_blocks = λ c o used apart.
        w.other_blocks c o (marks c ∙ used) (λ i z. apart i (sym (slots i) ∙ z))
        ∙ ap (λ (m : ℕ → ℕ → ℕ). m c o) bytes;
  }
