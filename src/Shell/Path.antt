-- ===== src/Shell/Path.antt =====
-- Path names in the shell: update_curpath, update_fullpath and cd of sh.c. A string is the list of
-- its bytes; `curpath` is never empty.
pub mod Parent
pub mod Finished
use damn_os_damn_fs.Prelude.{
  ℕ, zero, suc, ◌+◌, ◌-◌, ◌*◌, ◌/◌, ◌%◌, ◌^◌, ◌≤◌, ◌<◌, min, ◌≡◌, refl, sym, ap, ap₂, subst, ◌∙◌,
  ◌≢◌, ◌↔◌, ◌⊎◌, inl, inr, Bool, true, false, ◌&&◌, ◌||◌, not, Option, none, some, List, [], ◌∷◌,
  ◌++◌, append_assoc, append-nil, arith, ltb, leb, ◌==◌, if◌then◌else◌, Bool-cases, ==_iff, length,
  get_or, set, take, drop, replicate, length-append, length-set, length-replicate, get_or-set_self,
  get_or-set_ne, codes, fun_ext,
}
use damn_os_damn_fs.Prelude.Int.{ℤ, pos, negsuc}
use damn_os_damn_fs.CString.{strcmp}

-- the last byte of a path
unfoldable pub last_byte : List ℕ → ℕ
last_byte l = get_or l (length l - 1) 0

-- `while (curpath[i] != '/' && i > 1) --i;`
unfoldable pub parent_end : List ℕ → ℕ → ℕ
parent_end l zero = 0
parent_end l (suc i) =
    let rest = parent_end l i in
    if get_or l (suc i) 0 == b'/' then suc i else if ltb 1 (suc i) then rest else suc i

-- `update_curpath (post, size)` with `size > 0`
unfoldable pub go_down : List ℕ → ℕ → List ℕ → List ℕ
unfolding last_byte
go_down post size cur =
    let slash =
      if not (get_or post 0 0 == b'/') && not (last_byte cur == b'/') then b'/' ∷ [] else [] in
    cur ++ (slash ++ take size post)

-- and with `size <= 0`
unfoldable pub go_up : List ℕ → List ℕ
unfolding parent_end
go_up cur = take (parent_end cur (length cur - 1)) cur

unfoldable pub update_fullpath : List ℕ → List ℕ → List ℕ
unfolding last_byte
update_fullpath cur post = cur ++ ((if last_byte cur == b'/' then [] else b'/' ∷ []) ++ post)

-- What `stat`, `open` and the loop of `readn` find at a path: an error, or whether it is a
-- directory, and the names of its entries.
pub record Files : Type 0 where
  pub stat : List ℕ → Option Bool
  pub open_ok : List ℕ → Bool
  pub entries : List ℕ → List (List ℕ)

abbrev is_zero : ℤ → Bool
is_zero (pos n) = n == 0
is_zero (negsuc n) = false

unfoldable pub same_name : List ℕ → List ℕ → Bool
same_name a b = is_zero (strcmp a b)

unfoldable pub has_entry : List (List ℕ) → List ℕ → Bool
unfolding same_name
has_entry [] target = false
has_entry (f ∷ l) target = if same_name f target then true else has_entry l target

-- the directory after a step to an entry
unfoldable pub stepped : List ℕ → List ℕ → List ℕ
unfolding same_name go_up go_down
stepped target cur =
    if same_name target (codes "..") && not (same_name cur (codes "/"))
    then go_up cur
    else if not (same_name target (codes "..")) && not (same_name target (codes "."))
    then go_down target (length target) cur
    else cur

-- `while (path[end] != '/' && path[end]) ++end;`
unfoldable pub element_end : List ℕ → ℕ
element_end [] = 0
element_end (c ∷ l) =
    let rest = element_end l in if not (c == b'/') && not (c == 0) then suc rest else 0

abbrev pub maxnamelen : ℕ
maxnamelen = 16

abbrev pub maxpathlen : ℕ
maxpathlen = 128

-- What `cd` comes to: whether its result is negative, with `curpath` afterwards; a write behind the
-- end of `target` or `fullpath`, which is undefined; or the end of the model's fuel.
pub data CdResult : Type 0 where
  ends : Bool → List ℕ → CdResult
  overruns : CdResult
  unfinished : CdResult

-- `target[end] = 0`, for `char target[MAXNAMELEN]`, and `strcpy` to `char fullpath[MAXPATHLEN]`.
-- Where the latter has room, `update_curpath (target, end)` has too, since it stores the same bytes.
abbrev pub target_overruns : ℕ → Bool
target_overruns n = leb maxnamelen n

abbrev pub fullpath_overruns : List ℕ → Bool
fullpath_overruns full = leb maxpathlen (length full)

-- `cd`. (The messages are left out.) The length is tested behind the write to `target`.
unfoldable pub cd : ℕ → Files → List ℕ → List ℕ → CdResult
unfolding element_end has_entry stepped update_fullpath
cd zero fs path cur = unfinished
cd (suc fuel) fs path cur =
    let p = if get_or path 0 0 == b'/' then drop 1 path else path in
    let n = element_end p in
    let target = take n p in
    let rest = cd fuel fs (drop n p) (stepped target cur) in
    if get_or path 0 0 == 0
    then ends false cur
    else if n == 0 && get_or p n 0 == 0
    then ends false cur
    else if target_overruns n
    then overruns
    else if ltb maxnamelen n
    then ends true cur
    else if n == 0
    then (if fullpath_overruns (update_fullpath cur (codes "/")) then overruns else ends true cur)
    else if fullpath_overruns (update_fullpath cur target)
    then overruns
    else elim (fs.stat cur) [
      | none ↦ ends true cur
      | some is_dir ↦
          if not is_dir
          then ends false cur
          else if not (fs.open_ok cur)
          then ends true cur
          else if has_entry (fs.entries cur) target
          then rest
          else ends true cur
    ]
