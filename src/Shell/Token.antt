-- ===== src/Shell/Token.antt =====
-- The tokenizer of sh.c. The line is a list of bytes without the NUL at its end, and a pointer into
-- it is an index; a read at the end gives 0.
pub mod Lex
pub mod Read
pub mod Scan
use damn_os_damn_fs.Prelude.{
  ℕ, zero, suc, ◌+◌, ◌-◌, ◌*◌, ◌/◌, ◌%◌, ◌^◌, ◌≤◌, ◌<◌, min, ◌≡◌, refl, sym, ap, ap₂, subst, ◌∙◌,
  ◌≢◌, ◌↔◌, ◌⊎◌, inl, inr, Bool, true, false, ◌&&◌, ◌||◌, not, Option, none, some, List, [], ◌∷◌,
  ◌++◌, append_assoc, append-nil, arith, ltb, leb, ◌==◌, if◌then◌else◌, Bool-cases, ==_iff, length,
  get_or, set, take, drop, replicate, length-append, length-set, length-replicate, get_or-set_self,
  get_or-set_ne, codes, fun_ext,
}
use damn_os_damn_fs.CString.{strchr}

abbrev is_some : {A : Type 0} → Option A → Bool
is_some none = false
is_some (some a) = true

-- `WHITESPACE` and `SYMBOLS`
abbrev pub whitespace : List ℕ
whitespace = b' ' ∷ b'\t' ∷ b'\r' ∷ b'\n' ∷ []

abbrev pub symbols : List ℕ
symbols = codes "<|>&;()"

unfoldable pub is_white : ℕ → Bool
unfolding strchr
is_white c = is_some (strchr whitespace c)

unfoldable pub is_symbol : ℕ → Bool
unfolding strchr
is_symbol c = is_some (strchr symbols c)

-- `*s && !strchr(WHITESPACE SYMBOLS, *s)`
unfoldable pub is_plain : ℕ → Bool
unfolding strchr
is_plain c = not (c == 0) && not (is_some (strchr (whitespace ++ symbols) c))

-- The line and the static variables of `gettoken`.
pub record Tokens : Type 0 where
  pub buf : List ℕ
  pub nc : ℕ
  pub np1 : Option ℕ
  pub np2 : Option ℕ

-- `while (strchr(WHITESPACE, *s)) *s++ = 0`, for at most `k` bytes
unfoldable pub skip_white : ℕ → List ℕ → ℕ → List ℕ × ℕ
skip_white zero l i = (l, i)
skip_white (suc k) l i = elim (is_white (get_or l i 0)) [
  | true ↦ skip_white k (set l i 0) (suc i)
  | false ↦ (l, i)
]

unfoldable pub word_end : ℕ → List ℕ → ℕ → ℕ
word_end zero l i = i
word_end (suc k) l i = elim (is_plain (get_or l i 0)) [ true ↦ word_end k l (suc i) | false ↦ i ]

-- The token that begins at `i`.
unfoldable pub token_at : List ℕ → ℕ → Tokens
unfolding word_end
token_at l i =
    let c = get_or l i 0 in
    if c == 0
    then record { buf = l; nc = 0; np1 = none; np2 = none }
    else if is_symbol c
    then record { buf = set l i 0; nc = c; np1 = some i; np2 = some (suc i) }
    else record { buf = l; nc = b'w'; np1 = some i; np2 = some (word_end (length l) l i) }

-- `nc = _gettoken(s, &np1, &np2)`; a null `s` leaves the two pointers as they are.
unfoldable pub fetch : Option ℕ → Tokens → Tokens
unfolding token_at skip_white
fetch none s = record s { nc = 0 }
fetch (some i) s = let r = skip_white (length s.buf) s.buf i in token_at r.0 r.1

-- `gettoken(s, 0)`
unfoldable pub set_line : List ℕ → Tokens
unfolding fetch
set_line l = fetch (some 0) (record { buf = l; nc = 0; np1 = none; np2 = none })

-- `gettoken(0, &t)`: the kind of the token, and where it begins
unfoldable pub gettoken : Tokens → (ℕ × Option ℕ) × Tokens
unfolding fetch
gettoken s = ((s.nc, s.np1), fetch s.np2 s)
