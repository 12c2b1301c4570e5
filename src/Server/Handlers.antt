-- ===== src/Server/Handlers.antt =====
-- The handlers of serv.c for a file that is open, and those that take a path.
use damn_os_damn_fs.Prelude.{
  ℕ, ◌+◌, ◌-◌, ◌/◌, Bool, Option, none, some, List, [], ◌∷◌, ◌++◌, ◌==◌, if◌then◌else◌, length,
  take, codes,
}
use damn_os_damn_fs.Fs.State.{Fs, M, inode_of, ◌>>=◌, ◌>>◌, get, blksize, ftype_dir}
use damn_os_damn_fs.Fs.Block.{
  EntryPtr, in_block, rt_entry, in_ind, file_set_size, file_flush, fs_sync, slot, flush_from,
}
use damn_os_damn_fs.Fs.Bitmap.{flush_block}
use damn_os_damn_fs.Fs.Dir.{f_name}
use damn_os_damn_fs.Fs.Path.{file_create, file_remove}
use damn_os_damn_fs.Fs.File.{file_read, file_write}
use damn_os_damn_fs.Server.{
  OpenFile, Server, Reply, sends, on_fs, openfile_lookup, file_at, put_file, with_file, and_then,
  maxpathlen,
}

unfoldable pub serve_set_size : ℕ → ℕ → Server → Reply ℕ
unfolding openfile_lookup with_file on_fs
serve_set_size fileid size s =
    and_then (openfile_lookup fileid s)
      λ i t. with_file i t λ o p. on_fs (file_set_size p size) t λ u v. sends 0 v

-- `req_n` bytes are read into the page; `fd_offset` moves by the number of bytes read.
unfoldable pub read_file : ℕ → ℕ → Server → OpenFile → EntryPtr → Reply (List ℕ)
unfolding on_fs put_file
read_file n i s o p = on_fs (file_read p n o.fd.offset) s λ l u.
    sends l (put_file i (record o { fd = record (o.fd) { offset = o.fd.offset + length l } }) u)

unfoldable pub serve_read : ℕ → ℕ → Server → Reply (List ℕ)
unfolding openfile_lookup with_file read_file
serve_read fileid n s = and_then (openfile_lookup fileid s) λ i t. with_file i t (read_file n i t)

unfoldable pub write_file : List ℕ → ℕ → Server → OpenFile → EntryPtr → Reply ℕ
unfolding on_fs put_file
write_file buf i s o p =
    on_fs (file_write p buf o.fd.offset) s
      λ r u. sends r (put_file i (record o { fd = record (o.fd) { offset = o.fd.offset + r } }) u)

unfoldable pub serve_write : ℕ → List ℕ → Server → Reply ℕ
unfolding openfile_lookup with_file write_file
serve_write fileid buf s =
    and_then (openfile_lookup fileid s) λ i t. with_file i t (write_file buf i t)

-- What `serve_stat` puts into the page.
pub record Stat : Type 0 where
  pub name : List ℕ
  pub size : ℕ
  pub isdir : Bool

-- `o->o_file->f_name`
unfoldable pub entry_name : Fs → EntryPtr → List ℕ
unfolding f_name
entry_name s rt_entry = codes "/"
entry_name s (in_block b j) = f_name (s.mem.blocks b) j

unfoldable pub file_ino : Fs → Option EntryPtr → ℕ
file_ino s none = 0
file_ino s (some p) = in_ind s p

unfoldable pub file_name : Fs → Option EntryPtr → List ℕ
unfolding entry_name
file_name s none = codes "/"
file_name s (some p) = entry_name s p

unfoldable pub serve_stat : ℕ → Server → Reply Stat
unfolding openfile_lookup file_ino file_name
serve_stat fileid s = and_then (openfile_lookup fileid s) λ i t.
    let o = file_at t i in
    let d = inode_of t.fs (file_ino t.fs o.file) in
    sends (record { name = file_name t.fs o.file; size = d.size; isdir = d.type == ftype_dir }) t

-- `file_flush (&inodes[0])`: the inode is taken for an entry. Where an entry has `in_ind`, an inode
-- has `blk_ind[5]`, and the inodes stand in block 1.
unfoldable pub flush_root : M (Unit {0})
flush_root = do
  s ← get
  let ino = slot s 0 5
  flush_from (((inode_of s ino).size + blksize - 1) / blksize) ino 0
  flush_block 1
  flush_block 1

unfoldable pub serve_flush : ℕ → Server → Reply ℕ
unfolding openfile_lookup with_file on_fs flush_root
serve_flush fileid s = and_then (openfile_lookup fileid s) λ i t.
    with_file i t
      λ o p. on_fs (if in_ind t.fs p == 0 then flush_root else file_flush p) t λ u v. sends 0 v

-- the path in a request, made to end in its 128 bytes
unfoldable pub req_path : List ℕ → List ℕ
req_path path = take (maxpathlen - 1) path ++ (0 ∷ [])

unfoldable pub serve_mkdir : List ℕ → Server → Reply ℕ
unfolding on_fs req_path
serve_mkdir path s = on_fs (file_create (req_path path) ftype_dir) s λ p t. sends 0 t

unfoldable pub serve_remove : List ℕ → Server → Reply ℕ
unfolding on_fs req_path
serve_remove path s = on_fs (file_remove (req_path path)) s λ u t. sends 0 t

unfoldable pub serve_sync : Server → Reply ℕ
unfolding on_fs
serve_sync s = on_fs fs_sync s λ u t. sends 0 t
