-- ===== src/Fs/State.antt =====
-- The on-disk structures of damnfs.h, the state of the server, and its error results.
use damn_os_damn_fs.Prelude.{ℕ, ◌^◌, List, [], ◌==◌, if◌then◌else◌, get_or, set}

-- error.h
abbrev pub e_inval : ℕ
e_inval = 3

abbrev pub e_no_disk : ℕ
e_no_disk = 9

abbrev pub e_no_inode : ℕ
e_no_inode = 10

abbrev pub e_not_found : ℕ
e_not_found = 12

abbrev pub e_bad_path : ℕ
e_bad_path = 13

abbrev pub e_bad_name : ℕ
e_bad_name = 14

abbrev pub e_file_exists : ℕ
e_file_exists = 15

-- damnfs.h
abbrev pub blksize : ℕ
blksize = 4096

abbrev pub diresize : ℕ
diresize = 18

-- BLKSIZE / DIRESIZE
abbrev pub blkfiles : ℕ
blkfiles = 227

abbrev pub maxnamelen : ℕ
maxnamelen = 16

abbrev pub ndirect : ℕ
ndirect = 13

-- DISKSIZE / BLKSIZE
abbrev pub disk_blocks : ℕ
disk_blocks = 69634

abbrev pub ftype_reg : ℕ
ftype_reg = b'f'

abbrev pub ftype_dir : ℕ
ftype_dir = b'd'

-- `uint16_t`
abbrev pub u16 : ℕ
u16 = 2 ^ 16

-- `struct DamnInode`
pub record Inode : Type 0 where
  pub type : ℕ
  pub size : ℕ
  pub blk_used : ℕ
  pub blk_ind : List ℕ

-- `struct DamnSuper`; the bitmaps are 32-bit words.
pub record Super : Type 0 where
  pub magic : ℕ
  pub in_num : ℕ
  pub blk_num : ℕ
  pub in_size : ℕ
  pub blk_size : ℕ
  pub in_entry : ℕ
  pub blk_ocp : List ℕ
  pub in_ocp : List ℕ

-- A disk image: block 0 holds the super block, block 1 the inodes, and the bytes of any other
-- block are given by its number and the offset in it.
pub record Image : Type 0 where
  pub super : Super
  pub inodes : List Inode
  pub blocks : ℕ → ℕ → ℕ

-- What the server sees at `DISKMAP`, and what stands on the disk.
pub record Fs : Type 0 where
  pub mem : Image
  pub disk : Image

-- `err e` is a result `-e` of C; `panic` does not return.
pub data Res (A : Type 0) : Type 0 where
  ok : A → Fs → Res A
  err : ℕ → Fs → Res A
  panic : Res A

abbrev pub M : Type 0 → Type 0
M A = Fs → Res A

abbrev pub pure : {A : Type 0} → A → M A
pure a s = ok a s

abbrev pub fail : {A : Type 0} → ℕ → M A
fail e s = err e s

abbrev pub stop : {A : Type 0} → M A
stop s = panic

abbrev pub and_then : {A B : Type 0} → Res A → (A → M B) → Res B
and_then (ok a s) k = k a s
and_then (err e s) k = err e s
and_then panic k = panic

infixl 5 ◌>>=◌ ◌>>◌
abbrev pub ◌>>=◌ : {A B : Type 0} → M A → (A → M B) → M B
◌>>=◌ m k s = and_then (m s) k

abbrev pub ◌>>◌ : {B : Type 0} → M (Unit {0}) → M B → M B
m >> k = m >>= λ _. k

-- A C call whose error the caller looks at: `good` its result, `bad` its code.
pub data Outcome (A : Type 0) : Type 0 where
  good : A → Outcome A
  bad : ℕ → Outcome A

abbrev pub attempt : {A : Type 0} → M A → M (Outcome A)
attempt m s = elim (m s) [ ok a s' ↦ ok (good a) s' | err e s' ↦ ok (bad e) s' | panic ↦ panic ]

abbrev pub get : M Fs
get s = ok s s

abbrev pub put_super : Super → M (Unit {0})
put_super sp s = ok tt (record s { mem = record (s.mem) { super = sp } })

abbrev pub no_inode : Inode
no_inode = record { type = 0; size = 0; blk_used = 0; blk_ind = [] }

abbrev pub inode_of : Fs → ℕ → Inode
inode_of s i = get_or (s.mem.inodes) i no_inode

abbrev pub put_inode : ℕ → Inode → M (Unit {0})
put_inode i n s = ok tt (record s { mem = record (s.mem) { inodes = set (s.mem.inodes) i n } })

-- the byte at offset `o` of block `b`
abbrev pub byte : Fs → ℕ → ℕ → ℕ
byte s b o = s.mem.blocks b o

abbrev pub put_block : ℕ → (ℕ → ℕ) → M (Unit {0})
put_block b f s =
    ok tt (record s { mem = record (s.mem) { blocks = λ n. if n == b then f else s.mem.blocks n } })
