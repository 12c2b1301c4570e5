-- ===== src/Server.antt =====
-- The file server: serv.c. A page of a client request is received, one handler runs on the file
-- system, and its result is sent back.
pub mod Handlers
pub mod Open
pub mod Opentab
pub mod RoundTrip
mod Tests
use damn_os_damn_fs.Prelude.{
  ℕ, zero, suc, ◌+◌, ◌-◌, ◌*◌, ◌/◌, ◌%◌, ◌^◌, ◌≤◌, ◌<◌, min, ◌≡◌, refl, sym, ap, ap₂, subst, ◌∙◌,
  ◌≢◌, ◌↔◌, ◌⊎◌, inl, inr, Bool, true, false, ◌&&◌, ◌||◌, not, Option, none, some, List, [], ◌∷◌,
  ◌++◌, append_assoc, append-nil, arith, ltb, leb, ◌==◌, if◌then◌else◌, Bool-cases, ==_iff, length,
  get_or, set, take, drop, replicate, length-append, length-set, length-replicate, get_or-set_self,
  get_or-set_ne, codes, fun_ext,
}
use damn_os_damn_fs.Fs.State.{
  Fs, Res, ok, err, panic, M, inode_of, e_inval, e_file_exists, ftype_dir, ftype_reg,
}
use damn_os_damn_fs.Fs.Block.{
  EntryPtr, in_block, rt_entry, in_ind, file_set_size, file_flush, fs_sync,
}
use damn_os_damn_fs.Fs.Dir.{f_name}
use damn_os_damn_fs.Fs.Path.{file_create, file_open, file_remove}
use damn_os_damn_fs.Fs.File.{file_read, file_write}

abbrev pub maxopen : ℕ
maxopen = 1024

abbrev pub maxpathlen : ℕ
maxpathlen = 128

abbrev pub e_max_open : ℕ
e_max_open = 11

-- The fields of `struct Fd` on a page that the server shares with its clients.
pub record Fd : Type 0 where
  pub dev_id : ℕ
  pub offset : ℕ
  pub omode : ℕ
  pub id : ℕ

abbrev pub blank_fd : Fd
blank_fd = record { dev_id = 0; offset = 0; omode = 0; id = 0 }

-- `struct OpenFile`, with the page that `o_fd` points to, and the number of references to it that
-- `pageref` reports.
pub record OpenFile : Type 0 where
  pub fileid : ℕ
  pub file : Option EntryPtr
  pub mode : ℕ
  pub fd : Fd
  pub refs : ℕ

abbrev pub no_file : OpenFile
no_file = record { fileid = 0; file = none; mode = 0; fd = blank_fd; refs = 0 }

-- The server: `opentab` and the file system.
pub record Server : Type 0 where
  pub opentab : List OpenFile
  pub fs : Fs

-- How a request ends: with the number that is sent back, an error code, or a panic.
pub data Reply (A : Type 0) : Type 0 where
  sends : A → Server → Reply A
  fails : ℕ → Server → Reply A
  dies : Reply A

-- an operation on the file system
unfoldable pub on_fs : {A B : Type 0} → M A → Server → (A → Server → Reply B) → Reply B
on_fs m s k = elim (m s.fs) [
  | ok a f ↦ k a (record s { fs = f })
  | err e f ↦ fails e (record s { fs = f })
  | panic ↦ dies
]

-- `serve_init`, for entries `i` on
unfoldable pub serve_init : ℕ → ℕ → List OpenFile
serve_init zero i = []
serve_init (suc k) i = record no_file { fileid = i } ∷ serve_init k (i + 1)

-- A page with no reference is allocated, and is then as one that only the server has.
abbrev pub is_spare : OpenFile → Bool
is_spare o = leb o.refs 1

-- The entry that `openfile_alloc` takes; `fresh` is whether `sys_page_alloc` has a page.
unfoldable pub reissued : OpenFile → OpenFile
reissued o = record o { fileid = (o.fileid + maxopen) % 2 ^ 32; fd = blank_fd; refs = 1 }

-- The loop of `openfile_alloc` from entry `i` on: the index of the entry.
unfoldable pub openfile_alloc_from : List OpenFile → ℕ → Option ℕ
openfile_alloc_from [] i = none
openfile_alloc_from (o ∷ tab) i =
    let rest = openfile_alloc_from tab (i + 1) in if is_spare o then some i else rest

-- `*o = &opentab[i]; return (*o)->o_fileid`: the entry, and its number as an `int`. From 2 ^ 31 on
-- that is negative, which the caller takes for an error.
unfoldable pub issued : ℕ → Server → Reply (ℕ × ℕ)
issued i s =
    let fileid = (get_or s.opentab i no_file).fileid in
    if ltb fileid (2 ^ 31) then sends (i, fileid) s else fails (2 ^ 32 - fileid) s

-- `openfile_alloc`; `no_mem` is the error of `sys_page_alloc`, if it fails.
unfoldable pub openfile_alloc : Option ℕ → Server → Reply (ℕ × ℕ)
unfolding openfile_alloc_from reissued issued
openfile_alloc no_mem s = elim (openfile_alloc_from s.opentab 0) [
  | none ↦ fails e_max_open s
  | some i ↦
      let o = get_or s.opentab i no_file in
      let done = issued i (record s { opentab = set s.opentab i (reissued o) }) in
      if o.refs == 0 then elim no_mem [ none ↦ done | some e ↦ fails e s ] else done
]

unfoldable pub openfile_lookup : ℕ → Server → Reply ℕ
openfile_lookup fileid s =
    let i = fileid % maxopen in
    let o = get_or s.opentab i no_file in
    if leb o.refs 1 || not (o.fileid == fileid) then fails e_inval s else sends i s

abbrev pub file_at : Server → ℕ → OpenFile
file_at s i = get_or s.opentab i no_file

unfoldable pub put_file : ℕ → OpenFile → Server → Server
put_file i o s = record s { opentab = set s.opentab i o }

-- The entry that an operation on the file is called with; a null pointer is read through.
unfoldable pub with_file : {A : Type 0} → ℕ → Server → (OpenFile → EntryPtr → Reply A) → Reply A
with_file i s k = elim ((file_at s i).file) [ none ↦ dies | some p ↦ k (file_at s i) p ]

abbrev pub and_then : {A B : Type 0} → Reply A → (A → Server → Reply B) → Reply B
and_then (sends a s) k = k a s
and_then (fails e s) k = fails e s
and_then dies k = dies
