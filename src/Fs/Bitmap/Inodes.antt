-- ===== src/Fs/Bitmap/Inodes.antt =====
-- alloc_inode of damnfs.c takes the lowest free inode.
use damn_os_damn_fs.Prelude.{
  ℕ, zero, suc, ◌+◌, ◌≤◌, ◌<◌, ◌≡◌, refl, true, false, ◌==◌, leb, if◌then◌else◌, arith, inl, inr,
  Bool-cases,
}
use native.Mathlib.Decide.{dec_lt}
use damn_os_damn_fs.Fs.State.{Fs, Res, ok, err, panic, e_no_inode}
use damn_os_damn_fs.Fs.Bitmap.{
  is_free, mark_used, inode_is_free, use_inode, alloc_inode_from, alloc_inode, flush_block,
}
use damn_os_damn_fs.Fs.Bitmap.Laws.{is_free-mark_used, length-mark_used, HasBits, all_below_step}

-- `n` is the lowest free inode of `s`; in `s'` it is taken and all else as before, and the super
-- block has been written to disk.
pub record TookInode (s : Fs) (n : ℕ) (s' : Fs) : Type 0 where
  pub was_free : inode_is_free s n ≡ true
  pub lowest : (m : ℕ) → m < n → inode_is_free s m ≡ false
  pub taken : (m : ℕ) → inode_is_free s' m ≡ (if n == m then false else inode_is_free s m)
  pub block_bits : s'.mem.super.blk_ocp ≡ s.mem.super.blk_ocp
  pub in_num : s'.mem.super.in_num ≡ s.mem.super.in_num
  pub inodes : s'.mem.inodes ≡ s.mem.inodes
  pub bytes : s'.mem.blocks ≡ s.mem.blocks
  pub bits : HasBits s'.mem.super
  pub written : s'.disk.super ≡ s'.mem.super

-- what `alloc_inode` may do in state `s`
abbrev pub AllocInode : Fs → Res ℕ → Type 0
AllocInode s (ok n s') = TookInode s n s'
AllocInode s (err e s') = (e ≡ e_no_inode) × (s' ≡ s) × ((m : ℕ) → inode_is_free s m ≡ false)
AllocInode s panic = ⊥

use_inode-TookInode :
    (s : Fs) (n : ℕ)
    → HasBits s.mem.super
    → inode_is_free s n ≡ true
    → ((m : ℕ) → m < n → inode_is_free s m ≡ false)
    → AllocInode s (use_inode n s)
unfolding use_inode flush_block inode_is_free
use_inode-TookInode s n w free low = record {
  was_free = free;
  lowest = low;
  taken = λ m. taken m;
  block_bits = refl;
  in_num = refl;
  inodes = refl;
  bytes = refl;
  bits = bits;
  written = refl;
}
  where
    in_range : n < s.mem.super.in_num
    in_range = ground arith

    bits : HasBits (record (s.mem.super) { in_ocp = mark_used s.mem.super.in_ocp n })
    bits = omega (arith, w.blocks, w.inodes, length-mark_used s.mem.super.in_ocp n)

    taken :
        (m : ℕ)
        → (if leb s.mem.super.in_num m then false else is_free (mark_used s.mem.super.in_ocp n) m)
          ≡ (if n == m then false else inode_is_free s m)
    taken m = ground (arith, is_free-mark_used s.mem.super.in_ocp n m, w.inodes)

alloc_inode_from-free :
    (k n : ℕ) (s : Fs) → inode_is_free s n ≡ true → alloc_inode_from (suc k) n s ≡ use_inode n s
unfolding alloc_inode_from
alloc_inode_from-free k n s e = rw (e, alloc_inode_from)

alloc_inode_from-used :
    (k n : ℕ) (s : Fs)
    → inode_is_free s n ≡ false
    → alloc_inode_from (suc k) n s ≡ alloc_inode_from k (n + 1) s
unfolding alloc_inode_from
alloc_inode_from-used k n s e = rw (e, alloc_inode_from)

inode_is_free-out : (s : Fs) (m : ℕ) → s.mem.super.in_num ≤ m → inode_is_free s m ≡ false
unfolding inode_is_free
inode_is_free-out s m h = ground arith

all_inodes_used :
    (s : Fs) (n : ℕ)
    → n ≡ s.mem.super.in_num
    → ((m : ℕ) → m < n → inode_is_free s m ≡ false)
    → (m : ℕ) → inode_is_free s m ≡ false
all_inodes_used s n e low m = elim (dec_lt m n) [
  | yes h ↦ low m h
  | no h ↦ inode_is_free-out s m (omega arith)
]

alloc_inode_from-AllocInode :
    (k n : ℕ) (s : Fs)
    → HasBits s.mem.super
    → n + k ≡ s.mem.super.in_num
    → ((m : ℕ) → m < n → inode_is_free s m ≡ false)
    → AllocInode s (alloc_inode_from k n s)
unfolding alloc_inode_from
alloc_inode_from-AllocInode zero n s w e low = (refl, refl, all_inodes_used s n (omega arith) low)
alloc_inode_from-AllocInode (suc k) n s w e low = elim (Bool-cases (inode_is_free s n)) [
  | inl free ↦ rw (alloc_inode_from-free k n s free) (use_inode-TookInode s n w free low)
  | inr used ↦ rw (alloc_inode_from-used k n s used) (
      alloc_inode_from-AllocInode k (n + 1) s w (omega arith)
        (all_below_step (inode_is_free s) n used low))
]

-- `alloc_inode` never panics. It returns the lowest free inode, marks it used, changes no other
-- inode's mark, no inode's content and no byte, and writes the super block to disk; or every inode is in use,
-- it returns -E_NO_INODE, and nothing is changed.
pub alloc_inode-AllocInode : (s : Fs) → HasBits s.mem.super → AllocInode s (alloc_inode s)
unfolding alloc_inode
alloc_inode-AllocInode s w =
    alloc_inode_from-AllocInode (s.mem.super.in_num) 0 s w (omega arith)
      (λ m h. absurd (omega arith))
