-- ===== src/Arguments.antt =====
-- The command line arguments of a program, args.c. A string is the list of its bytes, without the
-- NUL at its end.
pub mod Flags
mod Tests
use damn_os_damn_fs.Prelude.{
  ℕ, zero, suc, ◌+◌, ◌-◌, ◌*◌, ◌/◌, ◌%◌, ◌^◌, ◌≤◌, ◌<◌, min, ◌≡◌, refl, sym, ap, ap₂, subst, ◌∙◌,
  ◌≢◌, ◌↔◌, ◌⊎◌, inl, inr, Bool, true, false, ◌&&◌, ◌||◌, not, Option, none, some, List, [], ◌∷◌,
  ◌++◌, append_assoc, append-nil, arith, ltb, leb, ◌==◌, if◌then◌else◌, Bool-cases, ==_iff, length,
  get_or, set, take, drop, replicate, length-append, length-set, length-replicate, get_or-set_self,
  get_or-set_ne, codes, fun_ext,
}
use damn_os_damn_fs.CString.{deref}

-- `argv` holds the strings behind the name of the program, so `*argc` is one more than its length.
pub record Argstate : Type 0 where
  pub argv : List (List ℕ)
  pub curarg : Option (List ℕ)
  pub argvalue : Option (List ℕ)

unfoldable pub argstart : List (List ℕ) → Argstate
argstart [] = record { argv = []; curarg = none; argvalue = none }
argstart (a ∷ rest) = record { argv = a ∷ rest; curarg = some []; argvalue = none }

-- `endofargs`; -1 is `none`.
unfoldable pub endofargs : Argstate → Option ℕ × Argstate
endofargs s = (none, record s { curarg = none })

-- The byte at `curarg`, which moves on.
unfoldable pub next_char : List ℕ → Argstate → Option ℕ × Argstate
unfolding deref
next_char cur s = (some (deref cur), record s { curarg = some (drop 1 cur) })

-- The next argument, where `curarg` is at its end.
unfoldable pub next_arg : List (List ℕ) → Argstate → Option ℕ × Argstate
unfolding deref endofargs next_char
next_arg [] s = endofargs s
next_arg (a ∷ rest) s =
    if not (deref a == b'-') || deref (drop 1 a) == 0
    then endofargs s
    else if deref (drop 1 a) == b'-' && deref (drop 1 (drop 1 a)) == 0
    then endofargs (record s { argv = rest; curarg = some (drop 1 a) })
    else next_char (drop 1 a) (record s { argv = rest })

unfoldable pub argnext : Argstate → Option ℕ × Argstate
unfolding deref endofargs next_char next_arg
argnext s = elim s.curarg [
  | none ↦ (none, record s { argvalue = none })
  | some cur ↦
      if deref cur == 0
      then next_arg s.argv (record s { argvalue = none })
      else next_char cur (record s { argvalue = none })
]

-- `argnextvalue` where `curarg` is at its end
unfoldable pub next_value : List (List ℕ) → Argstate → Argstate
next_value [] s = record s { argvalue = none; curarg = none }
next_value (a ∷ rest) s = record s { argvalue = some a; argv = rest }

unfoldable pub argnextvalue : Argstate → Option (List ℕ) × Argstate
unfolding deref next_value
argnextvalue s = elim s.curarg [
  | none ↦ (none, s)
  | some cur ↦
      let t =
        if deref cur == 0
        then next_value s.argv s
        else record s { argvalue = some cur; curarg = some [] } in
      (t.argvalue, t)
]

unfoldable pub argvalue : Argstate → Option (List ℕ) × Argstate
unfolding argnextvalue
argvalue s = elim s.argvalue [ some v ↦ (some v, s) | none ↦ argnextvalue s ]
