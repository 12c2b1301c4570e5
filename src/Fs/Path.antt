-- ===== src/Fs/Path.antt =====
-- Path names, and the operations that take one.
use damn_os_damn_fs.Prelude.{
  ℕ, zero, suc, ◌*◌, Bool, true, false, not, ◌&&◌, ◌||◌, Option, none, some, List, [], ◌∷◌, ◌==◌,
  leb, if◌then◌else◌, length,
}
use damn_os_damn_fs.CString.{deref, strcmp, strlen}
use damn_os_damn_fs.Fs.State.{
  Fs, panic, M, pure, fail, stop, ◌>>=◌, ◌>>◌, get, put_inode, put_block, inode_of, diresize,
  maxnamelen, e_not_found, e_bad_path, e_bad_name, e_file_exists, attempt, good, bad, ftype_dir,
}
use damn_os_damn_fs.Fs.Bitmap.{flush_block, free_inode, alloc_inode}
use damn_os_damn_fs.Fs.Block.{
  EntryPtr, in_block, rt_entry, in_ind, file_get_block, file_set_size, file_flush, flush_entry,
  put_size,
}
use damn_os_damn_fs.Fs.Dir.{is_zero, set_name, set_in_ind, dir_lookup, dir_alloc_entry, write_bytes}

unfoldable pub skip_slash : List ℕ → List ℕ
skip_slash [] = []
skip_slash (c ∷ p) = let r = skip_slash p in if c == b'/' then r else c ∷ p

-- the loop of `name_is_valid` over the characters
no_slash_or_space : List ℕ → Bool
no_slash_or_space [] = true
no_slash_or_space (c ∷ p) =
    let r = no_slash_or_space p in
    if c == 0 then true else if c == b'/' || c == b' ' then false else r

unfoldable pub name_is_valid : List ℕ → Bool
unfolding no_slash_or_space
name_is_valid name =
    if leb maxnamelen (strlen name)
      || (is_zero (strcmp name (b'.' ∷ b'.' ∷ [])) || is_zero (strcmp name (b'.' ∷ [])))
    then false
    else no_slash_or_space name

-- The next element of a path, up to a slash or the end.
unfoldable pub element : List ℕ → List ℕ
element [] = []
element (c ∷ p) = let r = element p in if c == b'/' || c == 0 then [] else c ∷ r

unfoldable pub behind : List ℕ → List ℕ
behind [] = []
behind (c ∷ p) = let r = behind p in if c == b'/' || c == 0 then c ∷ p else r

-- What `walk_path` leaves in `*pdir`, `*pf` and `lastelem`. The root has no entry and no directory.
pub data Walk : Type 0 where
  found : Option ℕ → Option EntryPtr → Walk
  missing : ℕ → List ℕ → Walk
  failed : ℕ → Walk

-- The loop of `walk_path` at `path`, with the file `f` reached so far, its directory and its entry.
-- Each round takes a character, so that the fuel is never used up.
walk_loop : ℕ → List ℕ → ℕ → Option ℕ → Option EntryPtr → M Walk
unfolding element behind skip_slash
walk_loop zero path f dir entry = stop
walk_loop (suc k) path f dir entry = do
  s ← get
  let name = element path
  let rest = skip_slash (behind path)
  let next = λ (p : EntryPtr) (t : Fs). walk_loop k rest (in_ind t p) (some f) (some p) t
  if deref path == 0
      then pure (found dir entry)
      else if leb maxnamelen (length name)
      then pure (failed e_bad_path)
      else if not ((inode_of s f).type == ftype_dir)
      then pure (failed e_not_found)
      else (do
        r ← attempt (dir_lookup f name)
        elim r [
          | good p ↦ next p
          | bad e ↦ pure (if e == e_not_found && deref rest == 0 then missing f name else failed e)
        ])

unfoldable pub walk_path : List ℕ → M Walk
unfolding walk_loop
walk_path path =
    if not (deref path == b'/')
    then pure (failed e_bad_path)
    else walk_loop (suc (length path)) (skip_slash path) 0 none none

-- the first two entries of a new directory
init_dir : ℕ → ℕ → M (Unit {0})
init_dir inodeno blk = do
  set_name blk 0 (b'.' ∷ b'.' ∷ [])
  set_name blk 1 (b'.' ∷ [])
  set_in_ind blk 1 inodeno
  set_in_ind blk 0 inodeno
  put_size inodeno (2 * diresize)

make_dir : ℕ → M (Unit {0})
unfolding init_dir
make_dir inodeno = do
  r ← attempt (file_get_block inodeno 0)
  elim r [ good blk ↦ init_dir inodeno blk | bad e ↦ free_inode inodeno >> fail e ]

unfoldable pub put_type : ℕ → ℕ → M (Unit {0})
put_type ino type s = let n = inode_of s ino in put_inode ino (record n { type = type }) s

-- the end of `file_create`: the entry is filled in
fill_entry : EntryPtr → List ℕ → ℕ → ℕ → M (Unit {0})
unfolding put_type
fill_entry rt_entry name inodeno type = stop
fill_entry (in_block b j) name inodeno type = do
  set_name b j name
  set_in_ind b j inodeno
  put_type inodeno type

create_in : ℕ → List ℕ → ℕ → M EntryPtr
unfolding make_dir fill_entry
create_in dir name type = if not (name_is_valid name) then fail e_bad_name else do
  entry ← dir_alloc_entry dir
  inodeno ← alloc_inode
  if type == ftype_dir then make_dir inodeno else pure tt
  fill_entry entry name inodeno type
  file_flush entry
  pure entry

unfoldable pub file_create : List ℕ → ℕ → M EntryPtr
unfolding create_in
file_create path type = do
  r ← walk_path path
  elim r [
    | found dir entry ↦ fail e_file_exists
    | failed e ↦ fail e
    | missing dir name ↦ create_in dir name type
  ]

-- `none` is the null pointer, which stands for the root directory.
unfoldable pub file_open : List ℕ → M (Option EntryPtr)
file_open path = do
  r ← walk_path path
  elim r [ found dir entry ↦ pure entry | failed e ↦ fail e | missing dir name ↦ fail e_not_found ]

-- `f->f_name[0] = '\0'`
unfoldable pub clear_name : EntryPtr → M (Unit {0})
clear_name rt_entry s = panic
clear_name (in_block b j) s = put_block b (write_bytes (s.mem.blocks b) (diresize * j) (0 ∷ [])) s

remove_entry : EntryPtr → M (Unit {0})
unfolding clear_name
remove_entry f = do
  file_set_size f 0
  clear_name f
  s ← get
  put_size (in_ind s f) 0
  flush_entry f
  flush_block 1

-- A null entry is read through: the fault lies outside the disk map, and the server panics.
unfoldable pub file_remove : List ℕ → M (Unit {0})
unfolding remove_entry
file_remove path = do f ← file_open path; elim f [ none ↦ stop | some p ↦ remove_entry p ]
