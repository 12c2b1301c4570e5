-- ===== src/Format.antt =====
-- Formatted output: stdio.c. A `putch` function is called with one character after the other, so
-- vprintfmt is modelled by the characters that it puts, in order; what the several `putch`
-- functions do with them is Format/Sinks. An `unsigned long` has 32 bits.
pub mod Sinks
pub mod Number
pub mod Fuel
pub mod Prints
mod Tests
use damn_os_damn_fs.Prelude.{
  ℕ, zero, suc, ◌+◌, ◌-◌, ◌*◌, ◌/◌, ◌%◌, ◌^◌, ◌≤◌, ◌<◌, min, ◌≡◌, refl, sym, ap, ap₂, subst, ◌∙◌,
  ◌≢◌, ◌↔◌, ◌⊎◌, inl, inr, Bool, true, false, ◌&&◌, ◌||◌, not, Option, none, some, List, [], ◌∷◌,
  ◌++◌, append_assoc, arith, ltb, leb, ◌==◌, if◌then◌else◌, Bool-cases, ==_iff, length, get_or, set,
  take, drop, replicate, length-append, length-set, length-replicate, get_or-set_self,
  get_or-set_ne, codes, fun_ext,
}
use mathlib.Core.Option
use damn_os_damn_fs.CString.{strlen, strnlen, deref}

-- `"0123456789abcdef"[d]`
unfoldable pub hex_digit : ℕ → ℕ
hex_digit d = get_or (codes "0123456789abcdef") d 0

-- The recursion of `printnum`; `none` if the fuel runs out before it ends. Only a positive width
-- pads, so that it may stop at 0: `--width > 0` holds `width - 1` times.
unfoldable pub print_digits : ℕ → ℕ → ℕ → ℕ → ℕ → Option (List ℕ)
unfolding hex_digit
print_digits zero num base width padc = none
print_digits (suc fuel) num base width padc =
    Option.map (λ l. l ++ (hex_digit (num % base) ∷ []))
      (elim (leb base num) [
        | true ↦ print_digits fuel (num / base) base (width - 1) padc
        | false ↦ some (replicate (width - 1) padc)
      ])

-- A number has no more digits than its value and one.
unfoldable pub printnum : ℕ → ℕ → ℕ → ℕ → Option (List ℕ)
unfolding print_digits
printnum num base width padc = print_digits (suc num) num base width padc

-- An argument of the call: the bits of a number, of the size that is asked for, or a string, which
-- may be null.
pub data Arg : Type 0 where
  num : ℕ → Arg
  str : Option (List ℕ) → Arg

-- the flags and fields of an escape; a width or a precision that is negative is `none`
pub record Spec : Type 0 where
  pub padc : ℕ
  pub width : Option ℕ
  pub precision : Option ℕ
  pub lflag : ℕ
  pub altflag : Bool

abbrev pub no_spec : Spec
no_spec = record { padc = b' '; width = none; precision = none; lflag = 0; altflag = false }

abbrev pub field : Option ℕ → ℕ
field none = 0
field (some w) = w

-- `process_precision`
unfoldable pub process_precision : Option ℕ → Spec → Spec
process_precision p sp = elim (sp.width) [
  | none ↦ record sp { width = p; precision = none }
  | some w ↦ record sp { precision = p }
]

-- the digits of a width field behind its first: the value, and the rest of the format
unfoldable pub width_field : List ℕ → ℕ → ℕ × List ℕ
width_field [] p = (p, [])
width_field (c ∷ fmt) p =
    let rest = width_field fmt (p * 10 + (c - b'0')) in
    if leb b'0' c && leb c b'9' then rest else (p, c ∷ fmt)

-- the size of a number argument, and its sign and magnitude for `%d`
unfoldable pub arg_bits : ℕ → ℕ
arg_bits lflag = if leb 2 lflag then 64 else 32

unfoldable pub signed : ℕ → ℕ → Bool × ℕ
signed bits n = if ltb n (2 ^ (bits - 1)) then (false, n) else (true, 2 ^ bits - n)

-- `printnum` takes an `unsigned long`, whatever the size of the argument.
unfoldable pub put_number : Spec → ℕ → ℕ → Option (List ℕ)
unfolding printnum
put_number sp n base = printnum (n % 2 ^ 32) base (field (sp.width)) (sp.padc)

unfoldable pub put_signed : Spec → ℕ → Option (List ℕ)
unfolding signed put_number arg_bits
put_signed sp n =
    let (neg, m) = signed (arg_bits (sp.lflag)) n in
    if neg then Option.map (λ l. b'-' ∷ l) (put_number sp m 10) else put_number sp m 10

-- the characters of a string up to its end or the precision
unfoldable pub shown : List ℕ → Option ℕ → Bool → List ℕ
shown [] p alt = []
shown (c ∷ s) p alt =
    let rest = shown s (elim p [ none ↦ none | some n ↦ some (n - 1) ]) alt in
    if c == 0 then [] else elim p [
      | some zero ↦ []
      | _ ↦ (if alt && (ltb c b' ' || ltb b'~' c) then b'?' else c) ∷ rest
    ]

abbrev pub bounded : List ℕ → Option ℕ → ℕ
bounded s none = strlen s
bounded s (some n) = strnlen s n

-- the case `%s`: padding before the characters, or behind them if the flag is `-`
unfoldable pub put_string : Spec → List ℕ → List ℕ
unfolding shown
put_string sp s =
    let out = shown s (sp.precision) (sp.altflag) in
    let w = field (sp.width) in
    if sp.padc == b'-'
    then out ++ replicate (w - length out) b' '
    else replicate (w - bounded s (sp.precision)) (sp.padc) ++ out

-- `error_string`, of which entry 0 is null
abbrev error_strings : List (Option (List ℕ))
error_strings =
    none
    ∷ some (codes "unspecified error")
    ∷ some (codes "bad environment")
    ∷ some (codes "invalid parameter")
    ∷ some (codes "out of memory")
    ∷ some (codes "out of environments")
    ∷ some (codes "segmentation fault")
    ∷ some (codes "env is not recving")
    ∷ some (codes "unexpected end of file")
    ∷ some (codes "no free space on disk")
    ∷ some (codes "no free inode on disk")
    ∷ some (codes "too many files are open")
    ∷ some (codes "file or block not found")
    ∷ some (codes "invalid path")
    ∷ some (codes "bad file name")
    ∷ some (codes "file already exists")
    ∷ some (codes "file is not a valid executable")
    ∷ some (codes "operation not supported")
    ∷ []

unfoldable pub error_string : ℕ → Option (List ℕ)
error_string n = get_or error_strings n none

-- the case `%e`; the two inner calls of `printfmt` are written out
unfoldable pub put_error : ℕ → Option (List ℕ)
unfolding signed error_string printnum
put_error n =
    let (neg, m) = signed 32 n in
    elim (error_string m) [
      | none ↦ Option.map (λ l. codes "error " ++ l) (printnum m 10 0 b' ')
      | some p ↦ some p
    ]

-- What vprintfmt comes to: the characters, or an argument that is missing or of the wrong kind,
-- which is undefined, or the end of the model's fuel.
pub data Printed : Type 0 where
  printed : List ℕ → Printed
  undefined : Printed
  unfinished : Printed

abbrev pub after : List ℕ → Printed → Printed
after out (printed r) = printed (out ++ r)
after out undefined = undefined
after out unfinished = unfinished

-- What an escape comes to: characters, and the rest of the format and the arguments; `endless` is a
-- recursion of `printnum` that outlasts its fuel.
pub data Escape : Type 0 where
  puts : List ℕ → List ℕ → List Arg → Escape
  bad_arg : Escape
  endless : Escape
  more : Spec → List ℕ → List Arg → Escape

-- the escapes that take a number
abbrev on_number : List Arg → List ℕ → (ℕ → Option (List ℕ)) → Escape
on_number (num n ∷ args) fmt f = elim (f n) [ none ↦ endless | some l ↦ puts l fmt args ]
on_number (str s ∷ args) fmt f = bad_arg
on_number [] fmt f = bad_arg

-- the cases `*` and `%s`
pub on_star : List Arg → List ℕ → Spec → Escape
unfolding process_precision
on_star (num n ∷ args) fmt sp =
    more (process_precision (if ltb n (2 ^ 31) then some n else none) sp) fmt args
on_star (str s ∷ args) fmt sp = bad_arg
on_star [] fmt sp = bad_arg

pub on_string : List Arg → List ℕ → Spec → Escape
unfolding put_string
on_string (str none ∷ args) fmt sp = puts (put_string sp (codes "(null)")) fmt args
on_string (str (some s) ∷ args) fmt sp = puts (put_string sp s) fmt args
on_string (num n ∷ args) fmt sp = bad_arg
on_string [] fmt sp = bad_arg

-- One round of `reswitch`, at the character `ch` of the escape; `start` is the format behind the
-- `%`, to which an unknown escape goes back.
unfoldable pub switch : ℕ → Spec → List ℕ → List Arg → List ℕ → Escape
unfolding width_field process_precision put_signed put_number put_error on_star on_string
switch ch sp fmt args start =
    if ch == b'-'
    then more (record sp { padc = b'-' }) fmt args
    else if ch == b'0'
    then more (record sp { padc = b'0' }) fmt args
    else if leb b'1' ch && leb ch b'9'
    then (let (p, rest) = width_field fmt (ch - b'0') in
        more (process_precision (some p) sp) rest args)
    else if ch == b'*'
    then on_star args fmt sp
    else if ch == b'.'
    then more (record sp { width = some (field (sp.width)) }) fmt args
    else if ch == b'#'
    then more (record sp { altflag = true }) fmt args
    else if ch == b'l'
    then more (record sp { lflag = sp.lflag + 1 }) fmt args
    else if ch == b'c'
    then on_number args fmt (λ n. some (n ∷ []))
    else if ch == b'e'
    then on_number args fmt put_error
    else if ch == b's'
    then on_string args fmt sp
    else if ch == b'd'
    then on_number args fmt (put_signed sp)
    else if ch == b'u'
    then on_number args fmt (λ n. put_number sp n 10)
    else if ch == b'o'
    then on_number args fmt (λ n. put_number sp n 8)
    else if ch == b'p'
    then on_number args fmt (λ n. Option.map (λ l. b'0' ∷ b'x' ∷ l) (put_number sp n 16))
    else if ch == b'x'
    then on_number args fmt (λ n. put_number sp n 16)
    else if ch == b'%'
    then puts (b'%' ∷ []) fmt args
    else puts (b'%' ∷ []) start args

-- The escape behind a `%`. At the end of the format the character read is the NUL.
unfoldable pub escape : ℕ → Spec → List ℕ → List Arg → List ℕ → Escape
unfolding switch
escape fuel sp [] args start = puts (b'%' ∷ []) start args
escape zero sp (c ∷ fmt) args start = more sp (c ∷ fmt) args
escape (suc fuel) sp (c ∷ fmt) args start = elim (switch c sp fmt args start) [
  | puts out rest left ↦ puts out rest left
  | bad_arg ↦ bad_arg
  | endless ↦ endless
  | more sp' rest left ↦ escape fuel sp' rest left start
]

-- The outer loop, one character or one escape a round.
unfoldable pub print_loop : ℕ → List ℕ → List Arg → Printed
unfolding escape
print_loop fuel [] args = printed []
print_loop zero (c ∷ fmt) args = unfinished
print_loop (suc fuel) (c ∷ fmt) args =
    if c == 0
    then printed []
    else if c == b'%'
    then elim (escape (length fmt) no_spec fmt args fmt) [
      | puts out rest left ↦ after out (print_loop fuel rest left)
      | bad_arg ↦ undefined
      | endless ↦ unfinished
      | more sp rest left ↦ unfinished
    ]
    else after (c ∷ []) (print_loop fuel fmt args)

unfoldable pub vprintfmt : List ℕ → List Arg → Printed
unfolding print_loop
vprintfmt fmt args = print_loop (length fmt) fmt args
