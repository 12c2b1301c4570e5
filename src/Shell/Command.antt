-- ===== src/Shell/Command.antt =====
-- The commands of the shell: the loop of runcmd of sh.c over the tokens of a line, and what it runs.
use damn_os_damn_fs.Prelude.{
  ℕ, zero, suc, Bool, true, false, ◌&&◌, not, Option, none, some, List, [], ◌∷◌, ◌++◌, ltb, leb,
  ◌==◌, if◌then◌else◌, length, get_or, take, drop, codes,
}
use damn_os_damn_fs.Shell.Path.{update_fullpath}
use damn_os_damn_fs.Shell.Token.{Tokens, gettoken}
use damn_os_damn_fs.CString.Scan.{text}

abbrev pub maxargs : ℕ
maxargs = 16

-- What the kernel and the file server answer: `open` of a path for reading or writing and `pipe` give
-- descriptors or fail, and the n-th `fork` fails, or returns in the child (`true`) or the parent.
pub record Calls : Type 0 where
  pub open_read : List ℕ → Option ℕ
  pub open_write : List ℕ → Option ℕ
  pub pipe : ℕ → Option (ℕ × ℕ)
  pub fork : ℕ → Option Bool

-- a change of the descriptors
pub data Effect : Type 0 where
  dup : ℕ → ℕ → Effect
  close : ℕ → Effect

-- How the loop of `runcmd` ends: with `exit ()` after a message, with a panic, or at `runit`, with
-- `argv`, what was done to the descriptors, and whether there is a pipe's child to wait for.
pub data Parsed : Type 0 where
  exits : List Effect → Parsed
  panics : List Effect → Parsed
  runit : List (List ℕ) → List Effect → Bool → Parsed
  unfinished : Parsed

-- the string at a pointer that `gettoken` returned
unfoldable pub string_at : Option ℕ → Tokens → List ℕ
unfolding text
string_at none s = []
string_at (some i) s = text (drop i s.buf)

-- `if (fd != n) { dup (fd, n); close (fd); }`
unfoldable pub moved : ℕ → ℕ → List Effect
moved fd n = if fd == n then [] else dup fd n ∷ close fd ∷ []

-- The token after `<` or `>` is the name of a file, which `open` opens as descriptor `n`.
unfoldable pub redirect :
    (List ℕ → Option ℕ)
    → ℕ
    → List ℕ
    → Tokens
    → List Effect
    → (Tokens → List Effect → Parsed)
    → Parsed
unfolding string_at moved update_fullpath gettoken
redirect opens n cur s done next =
    let r = gettoken s in
    if not (r.0.0 == b'w')
    then exits done
    else elim (opens (update_fullpath cur (string_at r.0.1 r.1))) [
      | none ↦ exits done
      | some fd ↦ next r.1 (done ++ moved fd n)
    ]

-- `case '|'`: the child goes on with the rest of the line, the parent runs what it has.
unfoldable pub piped : Calls → ℕ → List (List ℕ) → List Effect → (List Effect → Parsed) → Parsed
unfolding moved
piped k n argv done again = elim (k.pipe n) [
  | none ↦ exits done
  | some (p, q) ↦ elim (k.fork n) [
    | none ↦ exits done
    | some true ↦ again (done ++ (moved p 0 ++ close q ∷ []))
    | some false ↦ runit argv (done ++ (moved q 1 ++ close p ∷ [])) true
  ]
]

-- The loop for at most `fuel` tokens; `n` pipes have been made.
unfoldable pub parse_loop : ℕ → Calls → List ℕ → ℕ → Tokens → List (List ℕ) → List Effect → Parsed
unfolding gettoken string_at redirect piped
parse_loop zero k cur n s argv done = unfinished
parse_loop (suc fuel) k cur n s argv done =
    let r = gettoken s in
    let c = r.0.0 in
    let word = parse_loop fuel k cur n r.1 (argv ++ string_at r.0.1 r.1 ∷ []) done in
    let on = λ (t : Tokens) (d : List Effect). parse_loop fuel k cur n t argv d in
    let again = λ (d : List Effect). parse_loop fuel k cur (suc n) r.1 [] d in
    if c == b'w'
    then if leb maxargs (length argv) then exits done else word
    else if c == b'<'
    then redirect k.open_read 0 cur r.1 done on
    else if c == b'>'
    then redirect k.open_write 1 cur r.1 done on
    else if c == b'|'
    then piped k n argv done again
    else if c == 0
    then runit argv done false
    else panics done

-- What `runcmd` does at `runit`.
pub data Command : Type 0 where
  nothing cd_root usage show_path ping_pong cat_stdin : Command
  cd_to rm_path mkdir_path ls_path : List ℕ → Command
  echo cat_files : List (List ℕ) → Command
  spawn : List ℕ → List (List ℕ) → Command

-- `s[0] == w[0] && ... && s[n] == 0`
unfoldable pub is_word : List ℕ → List ℕ → Bool
is_word [] s = get_or s 0 0 == 0
is_word (c ∷ w) s = get_or s 0 0 == c && is_word w (drop 1 s)

unfoldable pub full_paths : List ℕ → List (List ℕ) → List (List ℕ)
unfolding update_fullpath
full_paths cur [] = []
full_paths cur (a ∷ l) = update_fullpath cur a ∷ full_paths cur l

-- `cd`: the argument `/p` becomes `p`, and only the first byte of `curpath` is set.
unfoldable pub cd_command : List (List ℕ) → Command
cd_command [] = cd_root
cd_command (a ∷ []) = cd_to (if get_or a 0 0 == b'/' then drop 1 a else a)
cd_command (a ∷ b ∷ l) = usage

-- `rm` and `mkdir` take one path.
unfoldable pub on_path : (List ℕ → Command) → List ℕ → List (List ℕ) → Command
unfolding update_fullpath
on_path f cur [] = usage
on_path f cur (a ∷ []) = f (update_fullpath cur a)
on_path f cur (a ∷ b ∷ l) = usage

unfoldable pub cat_command : List ℕ → List (List ℕ) → Command
unfolding full_paths
cat_command cur [] = cat_stdin
cat_command cur (a ∷ l) = cat_files (full_paths cur (a ∷ l))

unfoldable pub ls_command : List ℕ → List (List ℕ) → Command
ls_command cur [] = ls_path cur
ls_command cur (a ∷ l) = ls_path a

-- A command that is not built in: its path is the first byte of `curpath` and its name.
unfoldable pub spawn_command : List ℕ → List ℕ → List (List ℕ) → Command
spawn_command cur a l =
    let path = if get_or a 0 0 == b'/' then a else take 1 cur ++ a in spawn path (path ∷ l)

unfoldable pub command : List ℕ → List (List ℕ) → Command
unfolding is_word cd_command on_path cat_command ls_command spawn_command
command cur [] = nothing
command cur (a ∷ l) =
    if is_word (codes "cd") a
    then cd_command l
    else if is_word (codes "pwd") a
    then show_path
    else if is_word (codes "rm") a
    then on_path rm_path cur l
    else if is_word (codes "mkdir") a
    then on_path mkdir_path cur l
    else if is_word (codes "echo") a
    then echo l
    else if is_word (codes "pingpong") a
    then ping_pong
    else if is_word (codes "cat") a
    then cat_command cur l
    else if is_word (codes "ls") a
    then ls_command cur l
    else spawn_command cur a l

-- what `echo` writes to descriptor 1
unfoldable pub echo_text : List (List ℕ) → List ℕ
echo_text [] = b'\n' ∷ []
echo_text (a ∷ []) = a ++ b'\n' ∷ []
echo_text (a ∷ b ∷ l) = a ++ (b' ' ∷ echo_text (b ∷ l))

-- `cat`: what it writes for the blocks that `read` returns, and how it ends; an error of `read` or
-- of `write` is a panic.
pub data Copied : Type 0 where
  copied : List ℕ → Copied
  failed : Copied

abbrev pub bufsiz : ℕ
bufsiz = 1024

abbrev then_copied : List ℕ → Copied → Copied
then_copied b (copied l) = copied (b ++ l)
then_copied b failed = failed

-- `reads` are the results of `read`, `none` for an error; `writes` says whether `write` takes all.
unfoldable pub cat : (List ℕ → Bool) → List (Option (List ℕ)) → Copied
cat writes [] = copied []
cat writes (none ∷ l) = failed
cat writes (some b ∷ l) =
    let rest = then_copied b (cat writes l) in
    if not (ltb 0 (length b) && ltb (length b) bufsiz)
    then copied []
    else if writes b
    then rest
    else failed
