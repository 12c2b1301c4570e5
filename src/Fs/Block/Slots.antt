-- ===== src/Fs/Block/Slots.antt =====
-- file_get_block of damnfs.c: which block a slot gets, and what stays as it was.
use damn_os_damn_fs.Prelude.{
  ℕ, ◌+◌, ◌%◌, ◌^◌, ◌≤◌, ◌<◌, ◌≡◌, refl, ◌∙◌, ap, ◌≢◌, true, false, List, ◌==◌, if◌then◌else◌,
  get_or, set, length, length-set, get_or-set_self, get_or-set_ne, arith, ◌⊎◌, inl, inr, sym,
}
use native.Mathlib.Decide.{ℕ_discrete, dec_lt}
use mathlib.Core.Bool.{false≢true}
use native.Mathlib.Nat.{mod-eq_of_lt}
use damn_os_damn_fs.Fs.State.{
  Inode, Image, Fs, Res, ok, err, panic, e_no_disk, e_inval, inode_of, no_inode, ndirect, u16,
}
use damn_os_damn_fs.Fs.Bitmap.{block_is_free, alloc_block, flush_block, copy_block}
use damn_os_damn_fs.Fs.Bitmap.Laws.{
  HasBits, TookBlock, AllocBlock, alloc_block-AllocBlock, block_is_free-out,
}
use damn_os_damn_fs.Fs.Block.{diskaddr, slot, file_get_block}

-- Inode `ino` stands in the inode block and its slots point to blocks of its own: each is empty or
-- holds a block in use that is neither the super block nor the inode block, and no two hold the
-- same.
pub record IsFile (s : Fs) (ino : ℕ) : Type 0 where
  pub exists : ino < length s.mem.inodes
  pub slots : length ((inode_of s ino).blk_ind) ≡ ndirect
  pub bits : HasBits s.mem.super
  pub small : s.mem.super.blk_num ≤ 2 ^ 16
  pub super_used : block_is_free s 0 ≡ false
  pub inodes_used : block_is_free s 1 ≡ false
  pub used : (i : ℕ) → slot s ino i ≢ 0 → block_is_free s (slot s ino i) ≡ false
  pub in_range :
      (i : ℕ) → slot s ino i ≢ 0 → (2 ≤ slot s ino i) × (slot s ino i < s.mem.super.blk_num)
  pub distinct : (i j : ℕ) → slot s ino i ≢ 0 → slot s ino i ≡ slot s ino j → i ≡ j

-- `s'` is `s` but that slot `i` of inode `ino` holds block `b`, taken from the free blocks if the
-- slot was empty.
pub record GotBlock (s : Fs) (ino i b : ℕ) (s' : Fs) : Type 0 where
  pub file : IsFile s' ino
  pub in_slot : slot s' ino i ≡ b
  pub block_ne_zero : b ≢ 0
  pub kept : slot s ino i ≢ 0 → slot s ino i ≡ b
  pub fresh : slot s ino i ≡ 0 → block_is_free s b ≡ true
  pub less_free : (m : ℕ) → block_is_free s' m ≡ true → block_is_free s m ≡ true
  pub other_slots : (j : ℕ) → i ≢ j → slot s' ino j ≡ slot s ino j
  pub size : (inode_of s' ino).size ≡ (inode_of s ino).size
  pub other_inodes : (k : ℕ) → ino ≢ k → inode_of s' k ≡ inode_of s k
  pub bytes : s'.mem.blocks ≡ s.mem.blocks

-- what `file_get_block (ino, i)` may do in state `s`
abbrev pub GetBlock : Fs → ℕ → ℕ → Res ℕ → Type 0
GetBlock s ino i (ok b s') = (i < ndirect) × GotBlock s ino i b s'
GetBlock s ino i (err e s') =
    (s' ≡ s)
    × (((e ≡ e_inval) × (ndirect ≤ i))
        ⊎ ((e ≡ e_no_disk) × (slot s ino i ≡ 0) × ((m : ℕ) → block_is_free s m ≡ false)))
GetBlock s ino i panic = ⊥

file_get_block-out : (s : Fs) (ino i : ℕ) → ndirect ≤ i → file_get_block ino i s ≡ err e_inval s
unfolding file_get_block
file_get_block-out s ino i h = ground arith

-- the end of `file_get_block`, where the slot holds block `b`
finish : (s : Fs) (b : ℕ) → Res ℕ
finish s b = ok b (record s { disk = copy_block s.mem s.disk 1 })

file_get_block-full :
    (s : Fs) (ino i : ℕ)
    → i < ndirect
    → (slot s ino i == 0) ≡ false
    → slot s ino i < s.mem.super.blk_num
    → file_get_block ino i s ≡ finish s (slot s ino i)
unfolding file_get_block diskaddr flush_block finish
file_get_block-full s ino i h e lt = ground arith

abbrev pub with_inode : Fs → ℕ → Inode → Fs
with_inode s ino n = record s { mem = record (s.mem) { inodes = set s.mem.inodes ino n } }

-- the state once `alloc_block` has returned `n` in state `t`
filled : Fs → ℕ → ℕ → ℕ → Fs
filled t ino i n =
    let d = inode_of t ino in
    let t1 = with_inode t ino (record d { blk_ind = set d.blk_ind i (n % u16) }) in
    let d1 = inode_of t1 ino in with_inode t1 ino (record d1 { blk_used = (d1.blk_used + 1) % u16 })

file_get_block-empty :
    (s t : Fs) (ino i n : ℕ)
    → i < ndirect
    → (slot s ino i == 0) ≡ true
    → alloc_block s ≡ ok n t
    → slot (filled t ino i n) ino i < t.mem.super.blk_num
    → file_get_block ino i s ≡ finish (filled t ino i n) (slot (filled t ino i n) ino i)
unfolding file_get_block diskaddr flush_block finish filled
file_get_block-empty s t ino i n h e run ok_block = ground arith

pub inode_of-with_self :
    (s : Fs) (ino : ℕ) (n : Inode)
    → ino < length s.mem.inodes
    → inode_of (with_inode s ino n) ino ≡ n
inode_of-with_self s ino n h = get_or-set_self s.mem.inodes ino n no_inode h

pub inode_of-with_ne :
    (s : Fs) (ino k : ℕ) (n : Inode) → ino ≢ k → inode_of (with_inode s ino n) k ≡ inode_of s k
inode_of-with_ne s ino k n h = get_or-set_ne s.mem.inodes ino k n no_inode h

module _ (t : Fs) (ino i n : ℕ) (lt : ino < length t.mem.inodes) where
  -- the inode once its slot is filled
  inode_of-filled :
      let d = inode_of t ino in
      inode_of (filled t ino i n) ino
      ≡ record d { blk_used = (d.blk_used + 1) % u16; blk_ind = set d.blk_ind i (n % u16) }
  unfolding filled
  inode_of-filled =
      let d = inode_of t ino in
      let n1 : Inode = record d { blk_ind = set d.blk_ind i (n % u16) } in
      let t1 = with_inode t ino n1 in
      let e1 : inode_of t1 ino ≡ n1 = inode_of-with_self t ino n1 lt in
      let lt1 : ino < length t1.mem.inodes = omega (arith, length-set t.mem.inodes ino n1) in
      inode_of-with_self t1 ino
        (record (inode_of t1 ino) { blk_used = ((inode_of t1 ino).blk_used + 1) % u16 }) lt1
      ∙ ap (λ (m : Inode). record m { blk_used = (m.blk_used + 1) % u16 }) e1

  inode_of-filled_ne : (k : ℕ) → ino ≢ k → inode_of (filled t ino i n) k ≡ inode_of t k
  unfolding filled
  inode_of-filled_ne k ne =
      let d = inode_of t ino in
      let n1 : Inode = record d { blk_ind = set d.blk_ind i (n % u16) } in
      let t1 = with_inode t ino n1 in
      inode_of-with_ne t1 ino k
        (record (inode_of t1 ino) { blk_used = ((inode_of t1 ino).blk_used + 1) % u16 }) ne
      ∙ inode_of-with_ne t ino k n1 ne

  length-filled : length ((filled t ino i n).mem.inodes) ≡ length t.mem.inodes
  unfolding filled
  length-filled =
      let d = inode_of t ino in
      let n1 : Inode = record d { blk_ind = set d.blk_ind i (n % u16) } in
      let t1 = with_inode t ino n1 in
      length-set t1.mem.inodes ino
        (record (inode_of t1 ino) { blk_used = ((inode_of t1 ino).blk_used + 1) % u16 })
      ∙ length-set t.mem.inodes ino n1

  slot-filled_self : i < length ((inode_of t ino).blk_ind) → slot (filled t ino i n) ino i ≡ n % u16
  slot-filled_self h =
      rw inode_of-filled (get_or-set_self ((inode_of t ino).blk_ind) i (n % u16) 0 h)

  slot-filled_ne : (j : ℕ) → i ≢ j → slot (filled t ino i n) ino j ≡ slot t ino j
  slot-filled_ne j ne =
      rw inode_of-filled (get_or-set_ne ((inode_of t ino).blk_ind) i j (n % u16) 0 ne)

-- A free block is none of those that are in use.
module _ (s : Fs) (ino n : ℕ) (f : IsFile s ino) (free : block_is_free s n ≡ true) where
  free-lt : n < s.mem.super.blk_num
  free-lt = elim (dec_lt n s.mem.super.blk_num) [
    | yes h ↦ h
    | no h ↦ absurd (false≢true (sym (block_is_free-out s n (omega arith)) ∙ free))
  ]

  free-ge_two : 2 ≤ n
  free-ge_two = elim (ℕ_discrete n 0) [
    | yes e ↦ absurd (false≢true (sym f.super_used ∙ ap (block_is_free s) (sym e) ∙ free))
    | no e0 ↦ elim (ℕ_discrete n 1) [
      | yes e ↦ absurd (false≢true (sym f.inodes_used ∙ ap (block_is_free s) (sym e) ∙ free))
      | no e1 ↦ omega arith
    ]
  ]

  free-ne_slot : (j : ℕ) → slot s ino j ≢ 0 → n ≢ slot s ino j
  free-ne_slot j ne e =
      absurd (false≢true (sym (f.used j ne) ∙ ap (block_is_free s) (sym e) ∙ free))

-- The empty slot of a file is filled with the lowest free block.
module _ (s t : Fs) (ino i n : ℕ) (f : IsFile s ino) (h : i < ndirect) (empty : slot s ino i ≡ 0)
    (took : TookBlock s n t) where
  same_inode : (k : ℕ) → inode_of t k ≡ inode_of s k
  same_inode k = ap (λ (l : List Inode). get_or l k no_inode) took.inodes

  lt : ino < length t.mem.inodes
  lt = rw took.inodes f.exists

  slot-filled : (j : ℕ) → slot (filled t ino i n) ino j ≡ (if i == j then n else slot s ino j)
  slot-filled j = elim (ℕ_discrete i j) [
    | yes e ↦
        let word : n % u16 ≡ n =
          mod-eq_of_lt (omega (arith, free-lt s ino n f took.was_free, f.small)) in
        let room : i < length ((inode_of t ino).blk_ind) = rw same_inode (omega (arith, f.slots)) in
        ground (arith, slot-filled_self t ino i n lt room, word)
    | no ne ↦ ground (
      arith,
      slot-filled_ne t ino i n lt j ne,
      ap (λ (d : Inode). get_or d.blk_ind j 0) (same_inode ino),
    )
  ]

  block_is_free-filled :
      (m : ℕ) → block_is_free (filled t ino i n) m ≡ (if n == m then false else block_is_free s m)
  unfolding filled block_is_free
  block_is_free-filled m = took.taken m

  fill-used :
      (j : ℕ)
      → slot (filled t ino i n) ino j ≢ 0
      → block_is_free (filled t ino i n) (slot (filled t ino i n) ino j) ≡ false
  fill-used j ne =
      ground (arith, slot-filled j, block_is_free-filled (slot (filled t ino i n) ino j), f.used j)

  fill-in_range :
      (j : ℕ)
      → slot (filled t ino i n) ino j ≢ 0
      → (2 ≤ slot (filled t ino i n) ino j)
        × (slot (filled t ino i n) ino j < (filled t ino i n).mem.super.blk_num)
  unfolding filled
  fill-in_range j ne = ground (
    arith,
    slot-filled j,
    f.in_range j,
    took.blk_num,
    free-lt s ino n f took.was_free,
    free-ge_two s ino n f took.was_free,
  )

  fill-distinct :
      (a b : ℕ)
      → slot (filled t ino i n) ino a ≢ 0
      → slot (filled t ino i n) ino a ≡ slot (filled t ino i n) ino b
      → a ≡ b
  fill-distinct a b ne e = ground (
    arith,
    slot-filled a,
    slot-filled b,
    f.distinct a b,
    free-ne_slot s ino n f took.was_free a,
    free-ne_slot s ino n f took.was_free b,
  )

  fill-IsFile : IsFile (filled t ino i n) ino
  unfolding filled
  fill-IsFile = record {
    exists = omega (arith, length-filled t ino i n lt, lt);
    slots =
        ap (λ (d : Inode). length d.blk_ind) (inode_of-filled t ino i n lt)
        ∙ length-set ((inode_of t ino).blk_ind) i (n % u16)
        ∙ ap (λ (d : Inode). length d.blk_ind) (same_inode ino)
        ∙ f.slots;
    bits = took.bits;
    small = omega (arith, took.blk_num, f.small);
    super_used =
        ground (arith, block_is_free-filled 0, free-ge_two s ino n f took.was_free, f.super_used);
    inodes_used =
        ground (arith, block_is_free-filled 1, free-ge_two s ino n f took.was_free, f.inodes_used);
    used = fill-used;
    in_range = fill-in_range;
    distinct = fill-distinct;
  }

  fill-bytes : (filled t ino i n).mem.blocks ≡ s.mem.blocks
  unfolding filled
  fill-bytes = took.bytes

  fill-GotBlock : GotBlock s ino i n (filled t ino i n)
  fill-GotBlock = record {
    file = fill-IsFile;
    in_slot = ground (arith, slot-filled i);
    block_ne_zero = omega (arith, free-ge_two s ino n f took.was_free);
    kept = λ ne. absurd (ne empty);
    fresh = λ _. took.was_free;
    less_free = λ m h. ground (arith, block_is_free-filled m);
    other_slots = λ j ne. ground (arith, slot-filled j);
    size =
        ap (λ (d : Inode). d.size) (inode_of-filled t ino i n lt)
        ∙ ap (λ (d : Inode). d.size) (same_inode ino);
    other_inodes = λ k ne. inode_of-filled_ne t ino i n lt k ne ∙ same_inode k;
    bytes = fill-bytes;
  }

-- None of this looks at the disk.
pub IsFile-disk : (s : Fs) (ino : ℕ) (d : Image) → IsFile s ino → IsFile (record s { disk = d }) ino
unfolding block_is_free
IsFile-disk s ino d f = record {
  exists = f.exists;
  slots = f.slots;
  bits = f.bits;
  small = f.small;
  super_used = f.super_used;
  inodes_used = f.inodes_used;
  used = f.used;
  in_range = f.in_range;
  distinct = f.distinct;
}

GotBlock-disk :
    (s s' : Fs) (ino i b : ℕ) (d : Image)
    → GotBlock s ino i b s'
    → GotBlock s ino i b (record s' { disk = d })
unfolding block_is_free
GotBlock-disk s s' ino i b d g = record {
  file = IsFile-disk s' ino d g.file;
  in_slot = g.in_slot;
  block_ne_zero = g.block_ne_zero;
  kept = g.kept;
  fresh = g.fresh;
  less_free = λ m h. g.less_free m h;
  other_slots = g.other_slots;
  size = g.size;
  other_inodes = g.other_inodes;
  bytes = g.bytes;
}

full-GotBlock :
    (s : Fs) (ino i : ℕ) → IsFile s ino → slot s ino i ≢ 0 → GotBlock s ino i (slot s ino i) s
full-GotBlock s ino i f ne = record {
  file = f;
  in_slot = refl;
  block_ne_zero = ne;
  kept = λ _. refl;
  fresh = λ e. absurd (ne e);
  less_free = λ m h. h;
  other_slots = λ j _. refl;
  size = refl;
  other_inodes = λ k _. refl;
  bytes = refl;
}

file_get_block-fails :
    (s t : Fs) (ino i e : ℕ)
    → i < ndirect
    → (slot s ino i == 0) ≡ true
    → alloc_block s ≡ err e t
    → file_get_block ino i s ≡ err e t
unfolding file_get_block
file_get_block-fails s t ino i e h empty run = ground arith

-- the case of an empty slot, by what `alloc_block` has returned
file_get_block-alloc :
    (s : Fs) (ino i : ℕ) (r : Res ℕ)
    → IsFile s ino
    → i < ndirect
    → slot s ino i ≡ 0
    → alloc_block s ≡ r
    → AllocBlock s r
    → GetBlock s ino i (file_get_block ino i s)
unfolding finish
file_get_block-alloc s ino i (ok n t) f h empty run took =
    let g = fill-GotBlock s t ino i n f h empty took in
    let lt : slot (filled t ino i n) ino i < t.mem.super.blk_num =
      omega (arith, g.in_slot, free-lt s ino n f took.was_free, took.blk_num) in
    rw (file_get_block-empty s t ino i n h (ground arith) run lt, g.in_slot)
      (
        h,
        GotBlock-disk s (filled t ino i n) ino i n
            (copy_block ((filled t ino i n).mem) ((filled t ino i n).disk) 1) g,
      )
file_get_block-alloc s ino i (err e t) f h empty run (e_disk, same, full) =
    rw (file_get_block-fails s t ino i e h (ground arith) run) (same, inr (e_disk, empty, full))
file_get_block-alloc s ino i panic f h empty run none_left = absurd none_left

-- `file_get_block` on a well-formed file never panics. For a slot in range it returns the block in
-- the slot; an empty slot is filled with a free block first, and no other slot, inode, size or byte
-- is changed, and the file stays well-formed. It fails, with nothing changed, only with -E_INVAL
-- for a slot out of range, and with -E_NO_DISK for an empty slot when no block is free.
pub file_get_block-GetBlock :
    (s : Fs) (ino i : ℕ) → IsFile s ino → GetBlock s ino i (file_get_block ino i s)
unfolding finish
file_get_block-GetBlock s ino i f = elim (dec_lt i ndirect) [
  | no h ↦ rw (file_get_block-out s ino i (omega arith)) (refl, inl (refl, omega arith))
  | yes h ↦ elim (ℕ_discrete (slot s ino i) 0) [
    | yes e ↦
        file_get_block-alloc s ino i (alloc_block s) f h e refl (alloc_block-AllocBlock s f.bits)
    | no ne ↦ rw (file_get_block-full s ino i h (ground arith) (f.in_range i ne).1) (
      h,
      GotBlock-disk s s ino i (slot s ino i) (copy_block s.mem s.disk 1)
          (full-GotBlock s ino i f ne),
    )
  ]
]
