-- ===== src/Arguments/Tests.antt =====
-- The arguments `-ab x -c` read by argnext.
use damn_os_damn_fs.Prelude.{ℕ, suc, ◌≡◌, refl, none, some, List, [], ◌∷◌, arith, length}
use damn_os_damn_fs.CString.Scan.{IsText}
use damn_os_damn_fs.Arguments.{argstart}
use damn_os_damn_fs.Arguments.Flags.{parsed, all_args, word, AllText, argnext-parsed}

abbrev words : List (List ℕ)
words = (b'-' ∷ b'a' ∷ b'b' ∷ []) ∷ (b'x' ∷ []) ∷ (b'-' ∷ b'c' ∷ []) ∷ []

words-AllText : AllText words
unfolding AllText IsText
words-AllText = ground arith

words_parsed : parsed words ≡ (b'a' ∷ b'b' ∷ [], (b'x' ∷ []) ∷ (b'-' ∷ b'c' ∷ []) ∷ [])
unfolding parsed word
words_parsed = refl

argnext-parsed_example :
    all_args (suc (length ((parsed words).0))) (argstart words)
    ≡ some ((parsed words).0, record { argv = (parsed words).1; curarg = none; argvalue = none })
argnext-parsed_example = argnext-parsed words words-AllText
