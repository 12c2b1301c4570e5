-- ===== src/Fs/Sample.antt =====
-- A small disk for the tests: a directory with one file.
use damn_os_damn_fs.Prelude.{
  ℕ, zero, suc, ◌≤◌, ◌<◌, ◌≡◌, refl, ◌≢◌, List, [], ◌∷◌, get_or, arith, ◌&&◌, ◌==◌, if◌then◌else◌,
  false,
}
use damn_os_damn_fs.Fs.State.{
  Inode, Super, Image, Fs, Res, ok, err, panic, ftype_dir, ftype_reg, no_inode,
}
use damn_os_damn_fs.Fs.Bitmap.{flush_block, is_free, block_is_free}
use damn_os_damn_fs.Fs.Bitmap.Laws.{HasBits}
use damn_os_damn_fs.Fs.Block.{
  slot, in_block, in_ind, file_get_block, file_flush, flush_from, flush_entry, diskaddr,
}
use damn_os_damn_fs.Fs.Block.Slots.{IsFile}
use damn_os_damn_fs.Fs.File.{file_write, write_loop}
use damn_os_damn_fs.Fs.File.Write.Whole.{HasEntry}

unfoldable pub zeros : ℕ → List ℕ
zeros zero = []
zeros (suc n) = 0 ∷ zeros n

get_or-zeros : (n i : ℕ) → get_or (zeros n) i 0 ≡ 0
unfolding zeros
get_or-zeros zero i = refl
get_or-zeros (suc n) zero = refl
get_or-zeros (suc n) (suc i) = get_or-zeros n i

-- Blocks 0 to 3 are in use: the super block, the inodes, a directory and a file.
abbrev pub small_super : Super
small_super = record {
  magic = 0;
  in_num = 4;
  blk_num = 6;
  in_size = 32;
  blk_size = 4096;
  in_entry = 0;
  blk_ocp = 15 ∷ [];
  in_ocp = 3 ∷ [];
}

unfoldable pub small_inodes : List Inode
unfolding zeros
small_inodes =
    record { type = ftype_dir; size = 18; blk_used = 1; blk_ind = 2 ∷ zeros 12 }
    ∷ record { type = ftype_reg; size = 5; blk_used = 1; blk_ind = 3 ∷ zeros 12 }
    ∷ no_inode
    ∷ no_inode
    ∷ []

-- The first entry of the directory leads to inode 1.
unfoldable pub small_blocks : ℕ → ℕ → ℕ
small_blocks b o = if b == 2 && o == 16 then 1 else 0

abbrev pub small_image : Image
small_image = record { super = small_super; inodes = small_inodes; blocks = small_blocks }

abbrev pub small : Fs
small = record { mem = small_image; disk = small_image }

pub small-HasBits : HasBits small_super
small-HasBits = record { blocks = omega arith; inodes = omega arith }

slot-zero : slot small 1 0 ≡ 3
unfolding small_inodes
slot-zero = refl

slot-suc : (i : ℕ) → slot small 1 (suc i) ≡ 0
unfolding small_inodes
slot-suc i = get_or-zeros 12 i

small_used : (b : ℕ) → b ≡ 3 → block_is_free small b ≡ false
unfolding block_is_free is_free
small_used b e = rw e refl

pub small-IsFile : IsFile small 1
unfolding small_inodes zeros block_is_free is_free
small-IsFile = record {
  exists = omega arith;
  slots = refl;
  bits = small-HasBits;
  small = omega arith;
  super_used = refl;
  inodes_used = refl;
  used = used;
  in_range = in_range;
  distinct = distinct;
}
  where
    used : (i : ℕ) → slot small 1 i ≢ 0 → block_is_free small (slot small 1 i) ≡ false
    used zero ne = small_used (slot small 1 0) slot-zero
    used (suc i) ne = absurd (ne (slot-suc i))

    in_range : (i : ℕ) → slot small 1 i ≢ 0 → (2 ≤ slot small 1 i) × (slot small 1 i < 6)
    in_range zero ne = rw slot-zero (omega arith, omega arith)
    in_range (suc i) ne = absurd (ne (slot-suc i))

    distinct : (i j : ℕ) → slot small 1 i ≢ 0 → slot small 1 i ≡ slot small 1 j → i ≡ j
    distinct zero zero ne e = refl
    distinct zero (suc j) ne e = absurd (omega (arith, slot-zero, slot-suc j))
    distinct (suc i) j ne e = absurd (ne (slot-suc i))

pub small-HasEntry : HasEntry small 2 0 1
unfolding small_blocks in_ind block_is_free is_free
small-HasEntry = record { leads = refl; used = refl; apart = apart; on_disk = omega arith }
  where
    apart : (i : ℕ) → slot small 1 i ≢ 2
    apart zero e = omega (arith, slot-zero)
    apart (suc i) e = omega (arith, slot-suc i)

abbrev pub two_bytes : List ℕ
two_bytes = b'h' ∷ b'i' ∷ []

-- the state that a run leaves
unfoldable pub state_of : Res ℕ → Fs
state_of (ok n s) = s
state_of (err e s) = s
state_of panic = small

unfoldable pub written : Fs
unfolding state_of
written = state_of (file_write (in_block 2 0) two_bytes 0 small)

pub written_run : file_write (in_block 2 0) two_bytes 0 small ≡ ok 2 written
unfolding written state_of file_write in_ind small_blocks small_inodes zeros write_loop
    file_get_block file_flush flush_from flush_entry flush_block diskaddr
written_run = refl
