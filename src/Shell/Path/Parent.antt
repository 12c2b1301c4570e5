-- ===== src/Shell/Path/Parent.antt =====
-- A step down and a step up of the shell's directory: update_curpath of sh.c.
use damn_os_damn_fs.Prelude.{ℕ, ◌<◌, ◌≡◌, ◌≢◌, List, [], ◌∷◌, length, get_or}
use damn_os_damn_fs.Shell.Path.{last_byte}

-- no byte is a slash
unfoldable pub NoSlash : List ℕ → Type 0
NoSlash [] = Unit
NoSlash (c ∷ s) = (c ≢ b'/') × NoSlash s

-- an absolute path that does not end in a slash, unless it is the root
pub record IsPath (l : List ℕ) : Type 0 where
  pub absolute : get_or l 0 0 ≡ b'/'
  pub no_slash : 1 < length l → last_byte l ≢ b'/'
