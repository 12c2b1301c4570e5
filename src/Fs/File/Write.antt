-- ===== src/Fs/File/Write.antt =====
-- file_write of damnfs.c: what a write changes, and one round of the loop.
pub mod Loop
pub mod Whole
pub mod Total
use native.Mathlib.Decide.{ℕ_discrete, dec_lt}
use mathlib.Core.Bool.{false≢true}
use damn_os_damn_fs.Prelude.{
  ℕ, zero, suc, ◌+◌, ◌-◌, ◌*◌, ◌/◌, ◌%◌, ◌^◌, ◌≤◌, ◌<◌, ◌≡◌, refl, ◌∙◌, ap, ◌≢◌, Bool, true, false,
  ◌&&◌, List, [], ◌∷◌, ◌++◌, ◌==◌, leb, ltb, min, if◌then◌else◌, get_or, set, length, arith, ◌⊎◌,
  inl, inr, Bool-cases, sym, take, drop, length-append, subst,
}
use damn_os_damn_fs.Fs.State.{
  Inode, Image, Fs, Res, ok, err, panic, inode_of, byte, blksize, ndirect, u16, and_then, ◌>>=◌,
  e_inval, e_no_disk,
}
use damn_os_damn_fs.Fs.Bitmap.{block_is_free}
use damn_os_damn_fs.Fs.Block.{slot, file_get_block}
use damn_os_damn_fs.Fs.Block.Slots.{IsFile, GotBlock, GetBlock, file_get_block-GetBlock}
use damn_os_damn_fs.Fs.Dir.{bytes_at, write_bytes}
use damn_os_damn_fs.Fs.File.{chunk, write_loop}
use damn_os_damn_fs.Fs.File.Content.{
  content, Extends, Extends-trans, Extends-refl, GotBlock-Extends, write_bytes-get, get_or-drop,
  get_or-take, chunk_bounds, Extends-used, Extends-apart,
}

-- `s'` is `s` with `buf` written at offset `pos` of file `ino`.
pub record Wrote (s : Fs) (ino pos : ℕ) (buf : List ℕ) (s' : Fs) : Type 0 where
  pub extends : Extends s ino s'
  pub filled : (j : ℕ) → j < length buf → slot s' ino ((pos + j) / blksize) ≢ 0
  pub inside : (j : ℕ) → j < length buf → content s' ino (pos + j) ≡ get_or buf j 0
  pub outside :
      (o : ℕ)
      → slot s ino (o / blksize) ≢ 0
      → (o < pos) ⊎ (pos + length buf ≤ o)
      → content s' ino o ≡ content s ino o
  pub other_blocks :
      (b o : ℕ)
      → block_is_free s b ≡ false
      → ((i : ℕ) → slot s ino i ≢ b)
      → byte s' b o ≡ byte s b o

-- what the loop of `file_write` may do from `s` on
abbrev pub WriteRes : Fs → ℕ → ℕ → List ℕ → Res (Unit {0}) → Type 0
WriteRes s ino pos buf (ok u s') = Wrote s ino pos buf s'
WriteRes s ino pos buf (err e s') =
    Extends s ino s' × (((e ≡ e_inval) × (ndirect * blksize < pos + length buf)) ⊎ (e ≡ e_no_disk))
WriteRes s ino pos buf panic = ⊥

pub Wrote-nil : (s : Fs) (ino pos : ℕ) → IsFile s ino → Wrote s ino pos [] s
Wrote-nil s ino pos f = record {
  extends = Extends-refl s ino f;
  filled = λ j h. absurd (omega arith);
  inside = λ j h. absurd (omega arith);
  outside = λ o ne h. refl;
  other_blocks = λ b o h d. refl;
}

pub length-drop : (l : List ℕ) (n : ℕ) → length (drop n l) ≡ length l - n
length-drop l zero = omega arith
length-drop [] (suc n) = omega arith
length-drop (x ∷ l) (suc n) = omega (arith, length-drop l n)

pub length-take : (l : List ℕ) (n : ℕ) → n ≤ length l → length (take n l) ≡ n
length-take l zero h = refl
length-take [] (suc n) h = absurd (omega arith)
length-take (x ∷ l) (suc n) h = omega (arith, length-take l n (omega arith))

-- Two writes, one behind the other.
module _ (s t u : Fs) (ino pos n : ℕ) (buf : List ℕ) (fits : n ≤ length buf)
    (a : Wrote s ino pos (take n buf) t) (b : Wrote t ino (pos + n) (drop n buf) u) where
  behind_eq : (j : ℕ) → n ≤ j → pos + n + (j - n) ≡ pos + j
  behind_eq j h = omega arith

  pub Wrote-append : Wrote s ino pos buf u
  Wrote-append = record {
    extends = Extends-trans a.extends b.extends;
    filled = λ j h. elim (dec_lt j n) [
      | yes l ↦
          let ne = a.filled j (omega (arith, length-take buf n fits)) in
          λ z. ne (sym (b.extends.kept ((pos + j) / blksize) ne) ∙ z)
      | no l ↦
          let at = b.filled (j - n) (omega (arith, length-drop buf n)) in
          subst (λ k. slot u ino (k / blksize) ≢ 0) (behind_eq j (omega arith)) at
    ];
    inside = λ j h. elim (dec_lt j n) [
      | yes l ↦
          b.outside (pos + j) (a.filled j (omega (arith, length-take buf n fits)))
            (inl (omega arith))
          ∙ a.inside j (omega (arith, length-take buf n fits))
          ∙ get_or-take buf n j l
      | no l ↦
          let at = b.inside (j - n) (omega (arith, length-drop buf n)) in
          ap (content u ino) (sym (behind_eq j (omega arith)))
          ∙ at
          ∙ get_or-drop buf n (j - n)
          ∙ ap (λ k. get_or buf k 0) (omega arith)
    ];
    outside = λ o ne h.
        b.outside o (λ z. ne (sym (a.extends.kept (o / blksize) ne) ∙ z))
          (omega (arith, length-drop buf n, h))
        ∙ a.outside o ne (omega (arith, length-take buf n fits, h));
    other_blocks = λ c o used apart.
        b.other_blocks c o (Extends-used a.extends c used) (Extends-apart a.extends c used apart)
        ∙ a.other_blocks c o used apart;
  }

abbrev pub with_block : Fs → ℕ → (ℕ → ℕ) → Fs
with_block t b f = record t {
  mem = record (t.mem) { blocks = λ n. if n == b then f else t.mem.blocks n };
}

-- Neither the bitmaps nor the inodes are looked up in a data block.
with_block-Extends :
    (s t : Fs) (ino b : ℕ) (f : ℕ → ℕ) → Extends s ino t → Extends s ino (with_block t b f)
unfolding block_is_free
with_block-Extends s t ino b f e = record {
  file = record {
    exists = e.file.exists;
    slots = e.file.slots;
    bits = e.file.bits;
    small = e.file.small;
    super_used = e.file.super_used;
    inodes_used = e.file.inodes_used;
    used = e.file.used;
    in_range = e.file.in_range;
    distinct = e.file.distinct;
  };
  kept = e.kept;
  fresh = e.fresh;
  less_free = e.less_free;
  size = e.size;
  other_inodes = e.other_inodes;
}

-- One round: the slot of `pos` holds block `b`, and `l` goes into it.
module _ (s t : Fs) (ino pos b : ℕ) (l : List ℕ) (g : GotBlock s ino (pos / blksize) b t)
    (fits : pos % blksize + length l ≤ blksize) where
  abbrev f : ℕ → ℕ
  f = write_bytes (t.mem.blocks b) (pos % blksize) l

  abbrev u : Fs
  u = with_block t b f

  ext : Extends s ino t
  ext = GotBlock-Extends g

  in_chunk : (j : ℕ) → j < length l → (pos + j) / blksize ≡ pos / blksize
  in_chunk j h = omega arith

  round-inside : (j : ℕ) → j < length l → content u ino (pos + j) ≡ get_or l j 0
  round-inside j h =
      let at : slot t ino ((pos + j) / blksize) ≡ b = ap (slot t ino) (in_chunk j h) ∙ g.in_slot in
      let off : (pos + j) % blksize ≡ pos % blksize + j = omega arith in
      let back : pos % blksize + j - pos % blksize ≡ j = omega arith in
      rw (at, off)
        (ground (
          arith,
          write_bytes-get (t.mem.blocks b) (pos % blksize) l (pos % blksize + j),
          ap (λ k. get_or l k 0) back,
        ))

  round-outside :
      (o : ℕ)
      → slot s ino (o / blksize) ≢ 0
      → (o < pos) ⊎ (pos + length l ≤ o)
      → content u ino o ≡ content s ino o
  round-outside o ne h =
      rw (ext.kept (o / blksize) ne) (elim (ℕ_discrete (slot s ino (o / blksize)) b) [
        | yes e ↦
            let full : slot t ino (o / blksize) ≢ 0 =
              λ z. ne (sym (ext.kept (o / blksize) ne) ∙ z) in
            let same : o / blksize ≡ pos / blksize =
              ext.file.distinct (o / blksize) (pos / blksize) full
                (ext.kept (o / blksize) ne ∙ e ∙ sym g.in_slot) in
            rw e (
              ground (
                arith,
                write_bytes-get (t.mem.blocks b) (pos % blksize) l (o % blksize),
                ap (λ (m : ℕ → ℕ → ℕ). m b (o % blksize)) g.bytes,
              ))
        | no d ↦
            ground
              (arith, ap (λ (m : ℕ → ℕ → ℕ). m (slot s ino (o / blksize)) (o % blksize)) g.bytes)
      ])

  round-other :
      (c o : ℕ) → block_is_free s c ≡ false → ((i : ℕ) → slot s ino i ≢ c) → byte u c o ≡ byte s c o
  round-other c o used apart = elim (ℕ_discrete c b) [
    | yes e ↦ absurd (Extends-apart ext c used apart (pos / blksize) (g.in_slot ∙ sym e))
    | no d ↦ ground (arith, ap (λ (m : ℕ → ℕ → ℕ). m c o) g.bytes)
  ]

  pub round-Wrote : Wrote s ino pos l u
  round-Wrote = record {
    extends = with_block-Extends s t ino b f ext;
    filled = λ j h z. g.block_ne_zero (sym g.in_slot ∙ ap (slot t ino) (sym (in_chunk j h)) ∙ z);
    inside = round-inside;
    outside = round-outside;
    other_blocks = round-other;
  }

-- Below 2 ^ 28 the slot of a position is a `uint16_t`.
slot-fits : (pos : ℕ) → pos < u16 * blksize → pos / blksize % u16 ≡ pos / blksize
slot-fits pos h = omega arith

pub write_loop-round :
    (k : ℕ) (s t : Fs) (ino pos b : ℕ) (buf : List ℕ)
    → 0 < length buf
    → pos < u16 * blksize
    → file_get_block ino (pos / blksize) s ≡ ok b t
    → write_loop (suc k) ino pos buf s
      ≡ write_loop k ino (pos + chunk pos (length buf)) (drop (chunk pos (length buf)) buf) (
          with_block t b
            (write_bytes (t.mem.blocks b) (pos % blksize) (take (chunk pos (length buf)) buf)))
unfolding write_loop
write_loop-round k s t ino pos b buf h low run =
    ground (arith, ap (λ i. file_get_block ino i s) (slot-fits pos low))

pub write_loop-fails :
    (k : ℕ) (s t : Fs) (ino pos e : ℕ) (buf : List ℕ)
    → 0 < length buf
    → pos < u16 * blksize
    → file_get_block ino (pos / blksize) s ≡ err e t
    → write_loop (suc k) ino pos buf s ≡ err e t
unfolding write_loop
write_loop-fails k s t ino pos e buf h low run =
    ground (arith, ap (λ i. file_get_block ino i s) (slot-fits pos low))

pub write_loop-done : (k : ℕ) (s : Fs) (ino pos : ℕ) → write_loop k ino pos [] s ≡ ok tt s
unfolding write_loop
write_loop-done zero s ino pos = refl
write_loop-done (suc k) s ino pos = refl
