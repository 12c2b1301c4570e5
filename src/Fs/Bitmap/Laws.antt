-- ===== src/Fs/Bitmap/Laws.antt =====
-- What the bitmap operations of damnfs.c change: allocation takes the lowest free block or inode,
-- and release undoes it.
use damn_os_damn_fs.Prelude.{
  ℕ, zero, suc, ◌+◌, ◌*◌, ◌/◌, ◌%◌, ◌^◌, ◌≤◌, ◌<◌, ◌≡◌, refl, Bool, true, false, List, ◌==◌, leb,
  if◌then◌else◌, get_or, length, length-set, get_or-set_self, get_or-set_ne, arith, inl, inr,
  Bool-cases, bit_and, bit_or,
}
use native.Mathlib.Decide.{ℕ_discrete, dec_lt}
use damn_os_damn_fs.Bits.{bit, test_bit, bit-set_bit, bit-clear_bit, complement}
use damn_os_damn_fs.Fs.State.{Super, Fs, Res, ok, err, panic, e_no_disk}
use damn_os_damn_fs.Fs.Bitmap.{
  is_free, mark_used, mark_free, block_is_free, free_block, use_block, alloc_block_from,
  alloc_block, flush_block, copy_block,
}

is_free-bit : (ocp : List ℕ) (n : ℕ) → is_free ocp n ≡ (bit (get_or ocp (n / 32) 0) (n % 32) == 0)
unfolding is_free
is_free-bit ocp n = test_bit (get_or ocp (n / 32) 0) (n % 32)

-- Setting bit `n` of a bitmap takes `n` and nothing else.
pub is_free-mark_used :
    (ocp : List ℕ) (n m : ℕ)
    → n < 32 * length ocp
    → is_free (mark_used ocp n) m ≡ (if n == m then false else is_free ocp m)
unfolding mark_used
is_free-mark_used ocp n m h =
    rw (is_free-bit, is_free-bit)
      (elim (ℕ_discrete (n / 32) (m / 32)) [
        | yes e ↦
            let w : ℕ = bit_or (get_or ocp (n / 32) 0) (2 ^ (n % 32)) in
            ground (
              arith,
              get_or-set_self ocp (n / 32) w 0 (omega arith),
              bit-set_bit (get_or ocp (n / 32) 0) (n % 32) (m % 32),
            )
        | no ne ↦
            let w : ℕ = bit_or (get_or ocp (n / 32) 0) (2 ^ (n % 32)) in
            ground (arith, get_or-set_ne ocp (n / 32) (m / 32) w 0 ne)
      ])

pub is_free-mark_free :
    (ocp : List ℕ) (n m : ℕ)
    → n < 32 * length ocp
    → is_free (mark_free ocp n) m ≡ (if n == m then true else is_free ocp m)
unfolding mark_free
is_free-mark_free ocp n m h =
    rw (is_free-bit, is_free-bit)
      (elim (ℕ_discrete (n / 32) (m / 32)) [
        | yes e ↦
            let w : ℕ = bit_and (get_or ocp (n / 32) 0) (complement (2 ^ (n % 32))) in
            ground (
              arith,
              get_or-set_self ocp (n / 32) w 0 (omega arith),
              bit-clear_bit (get_or ocp (n / 32) 0) (n % 32) (m % 32) (omega arith) (omega arith),
            )
        | no ne ↦
            let w : ℕ = bit_and (get_or ocp (n / 32) 0) (complement (2 ^ (n % 32))) in
            ground (arith, get_or-set_ne ocp (n / 32) (m / 32) w 0 ne)
      ])

pub length-mark_used : (ocp : List ℕ) (n : ℕ) → length (mark_used ocp n) ≡ length ocp
unfolding mark_used
length-mark_used ocp n = length-set ocp (n / 32) (bit_or (get_or ocp (n / 32) 0) (2 ^ (n % 32)))

-- The bitmaps of the super block have a bit for each block and each inode.
pub record HasBits (sp : Super) : Type 0 where
  pub blocks : sp.blk_num ≤ 32 * length sp.blk_ocp
  pub inodes : sp.in_num ≤ 32 * length sp.in_ocp

-- `n` is the lowest free block of `s`; in `s'` it is taken and all else as before, and the super
-- block has been written to disk.
pub record TookBlock (s : Fs) (n : ℕ) (s' : Fs) : Type 0 where
  pub was_free : block_is_free s n ≡ true
  pub lowest : (m : ℕ) → m < n → block_is_free s m ≡ false
  pub taken : (m : ℕ) → block_is_free s' m ≡ (if n == m then false else block_is_free s m)
  pub inode_bits : s'.mem.super.in_ocp ≡ s.mem.super.in_ocp
  pub blk_num : s'.mem.super.blk_num ≡ s.mem.super.blk_num
  pub inodes : s'.mem.inodes ≡ s.mem.inodes
  pub bytes : s'.mem.blocks ≡ s.mem.blocks
  pub bits : HasBits s'.mem.super
  pub written : s'.disk.super ≡ s'.mem.super

-- what `alloc_block` may do in state `s`
abbrev pub AllocBlock : Fs → Res ℕ → Type 0
AllocBlock s (ok n s') = TookBlock s n s'
AllocBlock s (err e s') = (e ≡ e_no_disk) × (s' ≡ s) × ((m : ℕ) → block_is_free s m ≡ false)
AllocBlock s panic = ⊥

use_block-TookBlock :
    (s : Fs) (n : ℕ)
    → HasBits s.mem.super
    → block_is_free s n ≡ true
    → ((m : ℕ) → m < n → block_is_free s m ≡ false)
    → AllocBlock s (use_block n s)
unfolding use_block flush_block block_is_free
use_block-TookBlock s n w free low = record {
  was_free = free;
  lowest = low;
  taken = λ m. taken m;
  inode_bits = refl;
  blk_num = refl;
  inodes = refl;
  bytes = refl;
  bits = bits;
  written = refl;
}
  where
    in_range : n < s.mem.super.blk_num
    in_range = ground arith

    bits : HasBits (record (s.mem.super) { blk_ocp = mark_used s.mem.super.blk_ocp n })
    bits = omega (arith, w.blocks, w.inodes, length-mark_used s.mem.super.blk_ocp n)

    taken :
        (m : ℕ)
        → (if leb s.mem.super.blk_num m then false else is_free (mark_used s.mem.super.blk_ocp n) m)
          ≡ (if n == m then false else block_is_free s m)
    taken m = ground (arith, is_free-mark_used s.mem.super.blk_ocp n m, w.blocks)

alloc_block_from-free :
    (k n : ℕ) (s : Fs) → block_is_free s n ≡ true → alloc_block_from (suc k) n s ≡ use_block n s
unfolding alloc_block_from
alloc_block_from-free k n s e = rw (e, alloc_block_from)

alloc_block_from-used :
    (k n : ℕ) (s : Fs)
    → block_is_free s n ≡ false
    → alloc_block_from (suc k) n s ≡ alloc_block_from k (n + 1) s
unfolding alloc_block_from
alloc_block_from-used k n s e = rw (e, alloc_block_from)

pub block_is_free-out : (s : Fs) (m : ℕ) → s.mem.super.blk_num ≤ m → block_is_free s m ≡ false
unfolding block_is_free
block_is_free-out s m h = ground arith

-- A bound on the used blocks moves up by one.
pub all_below_step :
    (f : ℕ → Bool) (n : ℕ)
    → f n ≡ false
    → ((m : ℕ) → m < n → f m ≡ false)
    → (m : ℕ) → m < n + 1
    → f m ≡ false
all_below_step f n here low m h = elim (ℕ_discrete m n) [
  | yes e ↦ rw e here
  | no ne ↦ low m (omega arith)
]

all_used :
    (s : Fs) (n : ℕ)
    → n ≡ s.mem.super.blk_num
    → ((m : ℕ) → m < n → block_is_free s m ≡ false)
    → (m : ℕ) → block_is_free s m ≡ false
all_used s n e low m = elim (dec_lt m n) [
  | yes h ↦ low m h
  | no h ↦ block_is_free-out s m (omega arith)
]

alloc_block_from-AllocBlock :
    (k n : ℕ) (s : Fs)
    → HasBits s.mem.super
    → n + k ≡ s.mem.super.blk_num
    → ((m : ℕ) → m < n → block_is_free s m ≡ false)
    → AllocBlock s (alloc_block_from k n s)
unfolding alloc_block_from
alloc_block_from-AllocBlock zero n s w e low = (refl, refl, all_used s n (omega arith) low)
alloc_block_from-AllocBlock (suc k) n s w e low = elim (Bool-cases (block_is_free s n)) [
  | inl free ↦ rw (alloc_block_from-free k n s free) (use_block-TookBlock s n w free low)
  | inr used ↦ rw (alloc_block_from-used k n s used) (
      alloc_block_from-AllocBlock k (n + 1) s w (omega arith)
        (all_below_step (block_is_free s) n used low))
]

-- `alloc_block` never panics. It returns the lowest free block, marks it used, changes no other
-- block's mark, no inode and no byte, and writes the super block to disk; or every block is in use,
-- it returns -E_NO_DISK, and nothing is changed.
pub alloc_block-AllocBlock : (s : Fs) → HasBits s.mem.super → AllocBlock s (alloc_block s)
unfolding alloc_block
alloc_block-AllocBlock s w =
    alloc_block_from-AllocBlock (s.mem.super.blk_num) 0 s w (omega arith)
      (λ m h. absurd (omega arith))

-- Releasing a block other than 0 marks that block free, changes no other block's mark, no inode and
-- no byte, and writes the super block to disk.
pub free_block-frees :
    (s : Fs) (n : ℕ)
    → HasBits s.mem.super
    → 0 < n
    → n < s.mem.super.blk_num
    → (s' : Fs) × (free_block n s ≡ ok tt s')
      × ((m : ℕ) → block_is_free s' m ≡ (if n == m then true else block_is_free s m))
      × (s'.mem.super.in_ocp ≡ s.mem.super.in_ocp)
      × (s'.mem.inodes ≡ s.mem.inodes)
      × (s'.mem.blocks ≡ s.mem.blocks)
      × (s'.disk.super ≡ s'.mem.super)
unfolding free_block flush_block copy_block block_is_free
free_block-frees s n w pos small = (freed, run, marks, refl, refl, refl, refl)
  where
    sp : Super
    sp = record (s.mem.super) { blk_ocp = mark_free (s.mem.super.blk_ocp) n }

    freed : Fs
    freed = record s { mem = record (s.mem) { super = sp }; disk = record (s.disk) { super = sp } }

    run : free_block n s ≡ ok tt freed
    run = ground arith

    marks : (m : ℕ) → block_is_free freed m ≡ (if n == m then true else block_is_free s m)
    marks m = ground (arith, is_free-mark_free s.mem.super.blk_ocp n m, w.blocks)
