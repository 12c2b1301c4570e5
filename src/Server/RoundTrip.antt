-- ===== src/Server/RoundTrip.antt =====
-- What a client writes through the server, it reads back: serve_write, seek, serve_read.
use damn_os_damn_fs.Prelude.{
  ℕ, ◌+◌, ◌-◌, ◌*◌, ◌%◌, ◌≤◌, ◌<◌, ◌≡◌, refl, sym, ap, subst, ◌∙◌, some, List, arith, length,
  get_or, set, length-set, get_or-set_self,
}
use damn_os_damn_fs.Fs.State.{Fs, Res, ok, err, panic, ndirect, blksize}
use damn_os_damn_fs.Fs.Block.{in_block, EntryPtr}
use damn_os_damn_fs.Fs.Block.Slots.{IsFile}
use damn_os_damn_fs.Fs.File.{file_read, file_write}
use damn_os_damn_fs.Fs.File.Write.Whole.{HasEntry}
use damn_os_damn_fs.Fs.File.RoundTrip.{file_read-file_write}
use damn_os_damn_fs.Server.{
  OpenFile, Server, Reply, sends, fails, dies, openfile_lookup, file_at, put_file, no_file, maxopen,
  on_fs, with_file, and_then,
}
use damn_os_damn_fs.Server.Handlers.{serve_read, serve_write, read_file, write_file}

-- entry `i` of the table is open under `fileid`, and stands for entry `j` of block `b`
pub record IsOpen (s : Server) (fileid b j : ℕ) : Type 0 where
  pub inside : fileid % maxopen < length s.opentab
  pub held : 1 < (file_at s (fileid % maxopen)).refs
  pub number : (file_at s (fileid % maxopen)).fileid ≡ fileid
  pub file : (file_at s (fileid % maxopen)).file ≡ some (in_block b j)

-- `fd_offset`, and the client's `seek`
abbrev pub offset : Server → ℕ → ℕ
offset s fileid = (file_at s (fileid % maxopen)).fd.offset

abbrev pub seek : ℕ → ℕ → Server → Server
seek fileid o s =
    let f = file_at s (fileid % maxopen) in
    put_file (fileid % maxopen) (record f { fd = record (f.fd) { offset = o } }) s

found :
    (s : Server) (fileid b j : ℕ)
    → IsOpen s fileid b j
    → openfile_lookup fileid s ≡ sends (fileid % maxopen) s
unfolding openfile_lookup
found s fileid b j w = ground (arith, w.held, w.number)

with_file-open :
    {A : Type 0} (s : Server) (i : ℕ) (p : EntryPtr) (k : OpenFile → EntryPtr → Reply A)
    → (file_at s i).file ≡ some p
    → with_file i s k ≡ k (file_at s i) p
unfolding with_file
with_file-open s i p k e = rw (e, with_file) refl

-- An open file is found, and the handler goes on with its entry.
with_open :
    {A : Type 0} (s : Server) (fileid b j : ℕ) (k : ℕ → Server → OpenFile → EntryPtr → Reply A)
    → IsOpen s fileid b j
    → and_then (openfile_lookup fileid s) (λ i t. with_file i t (k i t))
      ≡ k (fileid % maxopen) s (file_at s (fileid % maxopen)) (in_block b j)
with_open s fileid b j k w =
    ap (λ r. and_then r (λ i t. with_file i t (k i t))) (found s fileid b j w)
    ∙ with_file-open s (fileid % maxopen) (in_block b j) (k (fileid % maxopen) s) w.file

-- what a write that is answered has done
record Wrote (s : Server) (fileid b j : ℕ) (buf : List ℕ) (n : ℕ) (t : Server) : Type 0 where
  run : file_write (in_block b j) buf (offset s fileid) s.fs ≡ ok n t.fs
  open_still : IsOpen t fileid b j
  moved : offset t fileid ≡ offset s fileid + n

abbrev WroteReply : Server → ℕ → ℕ → ℕ → List ℕ → Reply ℕ → Type 0
WroteReply s fileid b j buf (sends n t) = Wrote s fileid b j buf n t
WroteReply s fileid b j buf (fails e t) = Unit
WroteReply s fileid b j buf dies = Unit

write_file-Wrote :
    (s : Server) (fileid b j : ℕ) (buf : List ℕ) (r : Res ℕ)
    → IsOpen s fileid b j
    → file_write (in_block b j) buf (offset s fileid) s.fs ≡ r
    → WroteReply s fileid b j buf (
        on_fs
          (λ _. r)
          s
          (λ n u.
            let o = file_at s (fileid % maxopen) in
            sends n (
              put_file
                (fileid % maxopen)
                (record o { fd = record (o.fd) { offset = o.fd.offset + n } })
                u)))
unfolding on_fs put_file
write_file-Wrote s fileid b j buf (ok n f) w e =
    let o = file_at s (fileid % maxopen) in
    let o' = record o { fd = record (o.fd) { offset = o.fd.offset + n } } in
    let here : get_or (set s.opentab (fileid % maxopen) o') (fileid % maxopen) no_file ≡ o' =
      get_or-set_self s.opentab (fileid % maxopen) o' no_file w.inside in
    record {
      run = e;
      open_still = record {
        inside = omega (arith, w.inside, length-set s.opentab (fileid % maxopen) o');
        held = subst (λ (x : OpenFile). 1 < x.refs) (sym here) w.held;
        number = ap (λ (x : OpenFile). x.fileid) here ∙ w.number;
        file = ap (λ (x : OpenFile). x.file) here ∙ w.file;
      };
      moved = ap (λ (x : OpenFile). x.fd.offset) here;
    }
write_file-Wrote s fileid b j buf (err k f) w e = tt
write_file-Wrote s fileid b j buf panic w e = tt

serve_write-Wrote :
    (s t : Server) (fileid b j n : ℕ) (buf : List ℕ)
    → IsOpen s fileid b j
    → serve_write fileid buf s ≡ sends n t
    → Wrote s fileid b j buf n t
unfolding serve_write write_file on_fs
serve_write-Wrote s t fileid b j n buf w run =
    subst (WroteReply s fileid b j buf) (sym (with_open s fileid b j (write_file buf) w) ∙ run) (
      write_file-Wrote s fileid b j buf (file_write (in_block b j) buf (offset s fileid) s.fs) w
        refl)

module _ (t : Server) (fileid b j o : ℕ) (w : IsOpen t fileid b j) where
  abbrev sought : OpenFile
  sought = let f = file_at t (fileid % maxopen) in record f { fd = record (f.fd) { offset = o } }

  seek_here : file_at (seek fileid o t) (fileid % maxopen) ≡ sought
  unfolding put_file
  seek_here = get_or-set_self t.opentab (fileid % maxopen) sought no_file w.inside

  seek-IsOpen : IsOpen (seek fileid o t) fileid b j
  unfolding put_file
  seek-IsOpen = record {
    inside = omega (arith, w.inside, length-set t.opentab (fileid % maxopen) sought);
    held = subst (λ (x : OpenFile). 1 < x.refs) (sym seek_here) w.held;
    number = ap (λ (x : OpenFile). x.fileid) seek_here ∙ w.number;
    file = ap (λ (x : OpenFile). x.file) seek_here ∙ w.file;
  }

  offset-seek : offset (seek fileid o t) fileid ≡ o
  offset-seek = ap (λ (x : OpenFile). x.fd.offset) seek_here

read_file-ok :
    (s : Server) (i n : ℕ) (o : OpenFile) (p : EntryPtr) (l : List ℕ) (f : Fs)
    → file_read p n o.fd.offset s.fs ≡ ok l f
    → read_file n i s o p
      ≡ sends l (
          put_file i
            (record o { fd = record (o.fd) { offset = o.fd.offset + length l } })
            (record s { fs = f }))
unfolding read_file on_fs
read_file-ok s i n o p l f e = rw (e, on_fs) refl

-- `PGSIZE - (sizeof(int) + sizeof(size_t))`, the room for bytes in the page of a request
abbrev pub req_buf_size : ℕ
req_buf_size = 4096 - 8

-- When the server has answered a write of a buffer that fits into the page of a request and ends
-- inside the last slot of a well-formed file that is open, and the client goes back to the place
-- where it began, a read of as many bytes is answered with that buffer.
pub serve_read-serve_write :
    (s t : Server) (fileid b j ino n : ℕ) (buf : List ℕ)
    → IsOpen s fileid b j
    → IsFile s.fs ino
    → HasEntry s.fs b j ino
    → length buf ≤ req_buf_size
    → offset s fileid + length buf ≤ ndirect * blksize
    → serve_write fileid buf s ≡ sends n t
    → (u : Server) × (serve_read fileid (length buf) (seek fileid (offset s fileid) t)
        ≡ sends buf u)
unfolding serve_read put_file
serve_read-serve_write s t fileid b j ino n buf w file entry in_page fits run =
    let done = serve_write-Wrote s t fileid b j n buf w run in
    let v = seek fileid (offset s fileid) t in
    let at = offset-seek t fileid b j (offset s fileid) done.open_still in
    let (f, back) =
      file_read-file_write s.fs t.fs b j ino (offset s fileid) n buf file entry fits done.run in
    let o = file_at v (fileid % maxopen) in
    let read : file_read (in_block b j) (length buf) (offset v fileid) v.fs ≡ ok buf f =
      ap (λ k. file_read (in_block b j) (length buf) k t.fs) at ∙ back in
    (
      put_file (fileid % maxopen)
          (record o { fd = record (o.fd) { offset = o.fd.offset + length buf } })
          (record v { fs = f }),
      with_open v fileid b j (read_file (length buf))
            (seek-IsOpen t fileid b j (offset s fileid) done.open_still)
          ∙ read_file-ok v (fileid % maxopen) (length buf) o (in_block b j) buf f read,
    )
