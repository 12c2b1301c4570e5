-- ===== src/Shell/Tests.antt =====
-- A command line read by the shell, and a step to a directory and back.
use damn_os_damn_fs.Prelude.{
  ℕ, suc, ◌≡◌, refl, Bool, true, false, some, List, [], ◌∷◌, arith, length, replicate, codes, drop,
}
use damn_os_damn_fs.CString.{strchr}
use damn_os_damn_fs.CString.Scan.{IsText}
use damn_os_damn_fs.Shell.Command.{
  Calls, dup, close, runit, parse_loop, copied, cat, cd_to, command,
}
use damn_os_damn_fs.Shell.Path.{Files, last_byte, cd, ends}
use damn_os_damn_fs.Shell.Path.Finished.{ShortNames, element_end-le, length-drop, cd-finished}
use damn_os_damn_fs.Shell.Token.{set_line, is_white, is_symbol, is_plain}
use damn_os_damn_fs.Shell.Token.Lex.{glue, lex, all_tokens}
use damn_os_damn_fs.Shell.Token.Read.{gettoken-lex}

abbrev line : List ℕ
line = codes " cat <in| sh"

line-IsText : IsText line
unfolding IsText
line-IsText = ground arith

line-lex :
    lex line
    ≡ (b'w', codes "cat") ∷ (b'<', []) ∷ (b'w', codes "in") ∷ (b'|', []) ∷ (b'w', codes "sh") ∷ []
unfolding lex glue is_white is_symbol is_plain
line-lex = refl

gettoken-lex_example : all_tokens (suc (length (lex line))) (set_line line) ≡ some (lex line)
gettoken-lex_example = gettoken-lex line line-IsText

abbrev home : List ℕ
home = codes "/usr"

-- one directory, with an entry for itself, its parent and a child
abbrev files : Files
files = record {
  stat = λ p. some true;
  open_ok = λ p. true;
  entries = λ p. codes "." ∷ codes ".." ∷ codes "bin" ∷ [];
}

bin-ShortNames : ShortNames (codes "bin/..")
bin-ShortNames k =
    let path = codes "bin/.." in omega (arith, element_end-le (drop k path), length-drop k path)

cd-finished_example : (b : Bool) × (c : List ℕ) × (cd 8 files (codes "bin/..") home ≡ ends b c)
cd-finished_example =
    cd-finished 8 files (codes "bin/..") home (omega arith) bin-ShortNames (omega arith)

-- every file opens as descriptor 3, and `fork` returns in the parent
abbrev calls : Calls
calls = record {
  open_read = λ p. some 3;
  open_write = λ p. some 3;
  pipe = λ n. some (4, 5);
  fork = λ n. some false;
}

line_parsed :
    parse_loop 9 calls home 0 (set_line line) [] []
    ≡ runit (codes "cat" ∷ []) (dup 3 0 ∷ close 3 ∷ dup 5 1 ∷ close 5 ∷ close 4 ∷ []) true
unfolding parse_loop set_line last_byte strchr is_white is_symbol is_plain
line_parsed = refl

-- A file of 1024 bytes is not copied.
cat_full : cat (λ b. true) (some (replicate 1024 b'x') ∷ some [] ∷ []) ≡ copied []
unfolding cat
cat_full = refl

-- An absolute path is taken as a relative one.
cd_absolute : command home (codes "cd" ∷ codes "/bin" ∷ []) ≡ cd_to (codes "bin")
unfolding command
cd_absolute = refl
