-- ===== src/Server/Open.antt =====
-- Opening a file in serv.c, and the dispatch of requests.
use damn_os_damn_fs.Prelude.{
  ℕ, ◌/◌, ◌%◌, ◌^◌, Bool, ◌&&◌, not, Option, none, some, List, ◌==◌, if◌then◌else◌,
}
use damn_os_damn_fs.Fs.State.{ok, err, panic, M, e_inval, e_file_exists, ftype_dir, ftype_reg}
use damn_os_damn_fs.Fs.Block.{EntryPtr, rt_entry, file_set_size}
use damn_os_damn_fs.Fs.Path.{file_create, file_open}
use damn_os_damn_fs.Server.{
  OpenFile, Server, Reply, sends, fails, dies, on_fs, openfile_alloc, file_at, put_file, and_then,
}
use damn_os_damn_fs.Server.Handlers.{
  req_path, Stat, serve_set_size, serve_read, serve_write, serve_stat, serve_flush, serve_mkdir,
  serve_remove, serve_sync,
}

-- `req_omode & flag`, for a flag of one bit
abbrev pub has_flag : ℕ → ℕ → Bool
has_flag omode k = omode / 2 ^ k % 2 == 1

-- the bits of `O_CREAT`, `O_TRUNC`, `O_EXCL` and `O_MKDIR`
abbrev pub o_creat : ℕ
o_creat = 8

abbrev pub o_trunc : ℕ
o_trunc = 9

abbrev pub o_excl : ℕ
o_excl = 10

abbrev pub o_mkdir : ℕ
o_mkdir = 11

-- `try_open`, after which the file is null for the root directory
unfoldable pub open_file : List ℕ → ℕ → M (Option EntryPtr)
open_file path omode s =
    if has_flag omode o_creat
    then elim (file_create path ftype_reg s) [
      | ok p t ↦ ok (some p) t
      | err e t ↦
          if not (has_flag omode o_excl) && e == e_file_exists then file_open path t else err e t
      | panic ↦ panic
    ]
    else file_open path s

-- the truncation, which reads through a null file
unfoldable pub truncate : Option EntryPtr → ℕ → M (Unit {0})
truncate f omode s =
    if has_flag omode o_trunc
    then elim f [ none ↦ panic | some p ↦ file_set_size p 0 s ]
    else ok tt s

-- The `Fd` of the file, and where it stands in the file system.
unfoldable pub opened : OpenFile → Option EntryPtr → ℕ → OpenFile
opened o f omode = record o {
  file = elim f [ none ↦ some rt_entry | some p ↦ some p ];
  mode = omode;
  fd = record (o.fd) { id = o.fileid; omode = omode % 4; dev_id = b'f' };
}

unfoldable pub open_entry : List ℕ → ℕ → Option ℕ → Server → Reply (ℕ × Option ℕ)
unfolding openfile_alloc on_fs open_file truncate opened put_file
open_entry path omode no_mem s = and_then (openfile_alloc no_mem s) λ r t.
    let i = r.0 in
    on_fs (open_file path omode) t λ f u. on_fs (truncate f omode) u λ x v.
      on_fs (file_open path) v
        λ g w. sends (0, some i) (put_file i (opened (file_at w i) g omode) w)

-- The result, and the page that is sent with it, by its entry. With `O_MKDIR` a directory is created
-- first; if that fails the code sends the value of a comparison, which is 1, and no page.
unfoldable pub serve_open : List ℕ → ℕ → Option ℕ → Server → Reply (ℕ × Option ℕ)
unfolding open_entry req_path
serve_open path omode no_mem s =
    if has_flag omode o_mkdir
    then elim (file_create (req_path path) ftype_dir s.fs) [
      | ok p f ↦ open_entry (req_path path) omode no_mem (record s { fs = f })
      | err e f ↦ sends (1, none) (record s { fs = f })
      | panic ↦ dies
    ]
    else open_entry (req_path path) omode no_mem s

-- A request, by the fields of the page that its handler reads; `unknown` is any other code.
pub data Request : Type 0 where
  req_open : List ℕ → ℕ → Request
  req_set_size : ℕ → ℕ → Request
  req_read : ℕ → ℕ → Request
  req_write : ℕ → List ℕ → Request
  req_stat : ℕ → Request
  req_flush : ℕ → Request
  req_mkdir : List ℕ → Request
  req_remove : List ℕ → Request
  req_sync : Request
  unknown : ℕ → Request

-- What is sent back: the number of `ipc_send`, the page, and what stands in the request page.
pub data Answer : Type 0 where
  number : ℕ → Answer
  error : ℕ → Answer
  bytes : List ℕ → Answer
  status : Stat → Answer
  page : ℕ → ℕ → Answer

abbrev pub answer : {A : Type 0} → (A → Answer) → Reply A → Reply Answer
answer f (sends a s) = sends (f a) s
answer f (fails e s) = sends (error e) s
answer f dies = dies

abbrev pub open_answer : ℕ × Option ℕ → Answer
open_answer (r, none) = number r
open_answer (r, some i) = page r i

-- One round of `serve`, for a request with its argument page.
unfoldable pub serve : Option ℕ → Request → Server → Reply Answer
unfolding serve_open serve_set_size serve_read serve_write serve_stat serve_flush serve_mkdir
    serve_remove serve_sync
serve no_mem (req_open path omode) s = answer open_answer (serve_open path omode no_mem s)
serve no_mem (req_set_size fileid size) s = answer number (serve_set_size fileid size s)
serve no_mem (req_read fileid n) s = answer bytes (serve_read fileid n s)
serve no_mem (req_write fileid buf) s = answer number (serve_write fileid buf s)
serve no_mem (req_stat fileid) s = answer status (serve_stat fileid s)
serve no_mem (req_flush fileid) s = answer number (serve_flush fileid s)
serve no_mem (req_mkdir path) s = answer number (serve_mkdir path s)
serve no_mem (req_remove path) s = answer number (serve_remove path s)
serve no_mem req_sync s = answer number (serve_sync s)
serve no_mem (unknown code) s = sends (error e_inval) s
