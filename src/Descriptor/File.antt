-- ===== src/Descriptor/File.antt =====
-- The device of open files, file.c: requests to the file server.
use damn_os_damn_fs.Prelude.{
  ℕ, Bool, true, false, Option, none, some, List, [], leb, ◌==◌, if◌then◌else◌, length, take,
}
use damn_os_damn_fs.Prelude.Int.{pos}
use damn_os_damn_fs.Fs.State.{e_bad_path}
use damn_os_damn_fs.Server.{maxpathlen}
use damn_os_damn_fs.Server.Open.{
  Request, req_open, req_set_size, req_read, req_write, req_stat, req_flush, req_mkdir, req_remove,
  req_sync,
}
use damn_os_damn_fs.Descriptor.{
  Answer, ok, err, Process, Call, Dev, Stat, fd_at, fd_alloc, fd_close, fstat, close, o_rdonly,
}

-- What `fsipc` brings back: a number or an error, with the bytes or the status that the server wrote
-- into the request page, and the page that it sent.
pub data Response : Type 0 where
  number : Answer ℕ → Response
  bytes : List ℕ → Response
  status : Stat → Response
  page : ℕ → ℕ → Response

-- the number that `ipc_recv` returns
abbrev pub result : Response → Answer ℕ
result (number r) = r
result (bytes l) = ok (length l)
result (status st) = ok 0
result (page r p) = ok r

abbrev is_err : {A : Type 0} → Answer A → Bool
is_err (ok a) = false
is_err (err e) = true

-- `fsipc` is ipc_send to the server and ipc_recv of its answer, an argument here: the request, the
-- state of all that it reaches, and what comes back. A page goes to the descriptor named, if any.
module _ {W : Type 0} (fsipc : Request → W → Response × W) where
  -- `fsipc (type, dstva)`, where the page that comes is mapped at descriptor `i`, if one is given
  unfoldable pub call_server : Request → Option ℕ → Process W → Response × Process W
  call_server req none s = let r = fsipc req s.world in (r.0, record s { world = r.1 })
  call_server req (some i) s =
      let r = fsipc req s.world in
      elim r.0 [
        | page n p ↦
            (page n p, record s { world = r.1; vm = λ j. if j == i then some p else s.vm j })
        | number a ↦ (number a, record s { world = r.1 })
        | bytes l ↦ (bytes l, record s { world = r.1 })
        | status st ↦ (status st, record s { world = r.1 })
      ]

  -- `open`, `makedir` and `remove` first find a free descriptor for the answer; on an error, and
  -- after `makedir` and `remove`, it is closed.
  unfoldable pub after_open : List (Dev W) → ℕ → Response × Process W → Answer ℕ × Process W
  unfolding fd_close
  after_open tab i (r, t) = elim (result r) [
    | ok n ↦ (ok i, t)
    | err e ↦ (err e, (fd_close tab i false t).1)
  ]

  unfoldable pub after_path : List (Dev W) → ℕ → Response × Process W → Answer ℕ × Process W
  unfolding fd_close
  after_path tab i (r, t) = elim (result r) [
    | ok n ↦ (ok 0, (fd_close tab i false t).1)
    | err e ↦ (err e, (fd_close tab i false t).1)
  ]

  unfoldable pub with_path :
      List ℕ → Request → (ℕ → Response × Process W → Answer ℕ × Process W) → Call W ℕ
  unfolding fd_alloc call_server
  with_path path req k s =
      if leb maxpathlen (length path)
      then (err e_bad_path, s)
      else elim (fd_alloc s) [ err e ↦ (err e, s) | ok i ↦ k i (call_server req (some i) s) ]

  unfoldable pub open_path : List (Dev W) → List ℕ → ℕ → Call W ℕ
  unfolding with_path after_open
  open_path tab path mode = with_path path (req_open path mode) (after_open tab)

  unfoldable pub makedir : List (Dev W) → List ℕ → Call W ℕ
  unfolding with_path after_path
  makedir tab path = with_path path (req_mkdir path) (after_path tab)

  unfoldable pub remove : List (Dev W) → List ℕ → Call W ℕ
  unfolding with_path after_path
  remove tab path = with_path path (req_remove path) (after_path tab)

  unfoldable pub devfile_flush : ℕ → Call W ℕ
  unfolding call_server
  devfile_flush i s = let r = call_server (req_flush (fd_at s i).id) none s in (result r.0, r.1)

  -- The bytes come back in the request page. (The server answers a request with what belongs to it;
  -- of any other answer nothing is taken.)
  unfoldable pub devfile_read : ℕ → ℕ → Call W (List ℕ)
  unfolding call_server
  devfile_read i n s =
      let r = call_server (req_read (fd_at s i).id n) none s in
      elim r.0 [
        | bytes l ↦ (ok l, r.1)
        | number (err e) ↦ (err e, r.1)
        | number (ok m) ↦ (ok [], r.1)
        | status st ↦ (ok [], r.1)
        | page m p ↦ (ok [], r.1)
      ]

  -- `PGSIZE - (sizeof (int) + sizeof (size_t))` bytes fit.
  abbrev pub max_write : ℕ
  max_write = 4088

  unfoldable pub devfile_write : ℕ → List ℕ → Call W ℕ
  unfolding call_server
  devfile_write i buf s =
      let r = call_server (req_write (fd_at s i).id (take max_write buf)) none s in
      (result r.0, r.1)

  unfoldable pub devfile_stat : ℕ → Call W Stat
  unfolding call_server
  devfile_stat i s =
      let r = call_server (req_stat (fd_at s i).id) none s in
      elim r.0 [
        | status st ↦ (ok st, r.1)
        | number (err e) ↦ (err e, r.1)
        | number (ok m) ↦ (ok (record { st_name = []; st_size = 0; st_isdir = 0 }), r.1)
        | bytes l ↦ (ok (record { st_name = []; st_size = 0; st_isdir = 0 }), r.1)
        | page m p ↦ (ok (record { st_name = []; st_size = 0; st_isdir = 0 }), r.1)
      ]

  unfoldable pub devfile_trunc : ℕ → ℕ → Call W ℕ
  unfolding call_server
  devfile_trunc i size s =
      let r = call_server (req_set_size (fd_at s i).id size) none s in (result r.0, r.1)

  unfoldable pub sync : Call W ℕ
  unfolding call_server
  sync s = let r = call_server req_sync none s in (result r.0, r.1)

  abbrev pub devfile : Dev W
  unfolding devfile_flush devfile_read devfile_write devfile_stat devfile_trunc
  devfile = record {
    dev_id = b'f';
    dev_read = some devfile_read;
    dev_write = some devfile_write;
    dev_close = some devfile_flush;
    dev_stat = some devfile_stat;
    dev_trunc = some devfile_trunc;
  }

  -- `stat` of fd.c
  unfoldable pub stat : List (Dev W) → List ℕ → Call W Stat
  unfolding open_path fstat close
  stat tab path s =
      let r = open_path tab path o_rdonly s in
      elim r.0 [
        | err e ↦ (err e, r.1)
        | ok i ↦ let q = fstat tab (pos i) r.1 in (q.0, (close tab (pos i) q.1).1)
      ]
