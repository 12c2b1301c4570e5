-- ===== src/Format/Fuel.antt =====
-- The loops of vprintfmt of stdio.c end: the fuel is enough for any format.
use damn_os_damn_fs.Prelude.{
  ℕ, zero, suc, ◌+◌, ◌-◌, ◌*◌, ◌≤◌, ◌%◌, ◌^◌, refl, ◌≢◌, ◌⊎◌, inl, inr, Bool, true, false, Option,
  none, some, ◌++◌, codes, List, [], ◌∷◌, arith, ◌==◌, if◌then◌else◌, Bool-cases, length,
}
use damn_os_damn_fs.Format.{
  Arg, num, str, Spec, no_spec, Printed, printed, undefined, unfinished, after, Escape, puts,
  bad_arg, endless, more, switch, escape, print_loop, vprintfmt, width_field, on_number, on_star,
  on_string, put_number, put_signed, put_error, signed, arg_bits, error_string, field, printnum,
}
use mathlib.Core.Option
use damn_os_damn_fs.Format.Number.{printnum-some}

-- Each round of `reswitch` goes on at a later place, and an escape ends no further back than it
-- began.
abbrev Shrinks : ℕ → ℕ → Escape → Type 0
Shrinks n m (puts out rest left) = (length rest ≤ n) ⊎ (length rest ≤ m)
Shrinks n m bad_arg = Unit
Shrinks n m endless = ⊥
Shrinks n m (more sp rest left) = length rest ≤ n

width_field-le : (fmt : List ℕ) (p : ℕ) → length ((width_field fmt p).1) ≤ length fmt
unfolding width_field
width_field-le [] p = omega arith
width_field-le (c ∷ fmt) p = ground (arith, width_field-le fmt (p * 10 + (c - b'0')))

if-Shrinks :
    (n m : ℕ) (b : Bool) (x y : Escape)
    → Shrinks n m x
    → Shrinks n m y
    → Shrinks n m (if b then x else y)
if-Shrinks n m true x y hx hy = hx
if-Shrinks n m false x y hx hy = hy

some-Shrinks :
    (fmt : List ℕ) (m : ℕ) (args : List Arg) (o : Option (List ℕ))
    → o ≢ none
    → Shrinks (length fmt) m (elim o [ none ↦ endless | some l ↦ puts l fmt args ])
some-Shrinks fmt m args none h = absurd (h refl)
some-Shrinks fmt m args (some l) h = inl (omega arith)

on_number-Shrinks :
    (args : List Arg) (fmt : List ℕ) (f : ℕ → Option (List ℕ)) (m : ℕ)
    → ((n : ℕ) → f n ≢ none)
    → Shrinks (length fmt) m (on_number args fmt f)
on_number-Shrinks [] fmt f m h = tt
on_number-Shrinks (num n ∷ args) fmt f m h = some-Shrinks fmt m args (f n) (h n)
on_number-Shrinks (str s ∷ args) fmt f m h = tt

-- What the escapes for a number put: the recursion of `printnum` ends.
map-ne : (f : List ℕ → List ℕ) (o : Option (List ℕ)) → o ≢ none → Option.map f o ≢ none
map-ne f none h e = h refl
map-ne f (some l) h e = cc

put_number-ne : (sp : Spec) (n base : ℕ) → 2 ≤ base → put_number sp n base ≢ none
unfolding put_number
put_number-ne sp n base h = printnum-some (n % 2 ^ 32) base (field sp.width) sp.padc h

pub put_signed-ne : (sp : Spec) (n : ℕ) → put_signed sp n ≢ none
unfolding put_signed
put_signed-ne sp n = signed-ne (signed (arg_bits sp.lflag) n)
  where
    signed-ne :
        (r : Bool × ℕ)
        → (if r.0 then Option.map (λ l. b'-' ∷ l) (put_number sp r.1 10) else put_number sp r.1 10)
          ≢ none
    signed-ne (true, m) =
        map-ne (λ l. b'-' ∷ l) (put_number sp m 10) (put_number-ne sp m 10 (omega arith))
    signed-ne (false, m) = put_number-ne sp m 10 (omega arith)

pub put_error-ne : (n : ℕ) → put_error n ≢ none
unfolding put_error
put_error-ne n = named-ne ((signed 32 n).1) (error_string ((signed 32 n).1))
  where
    named-ne :
        (m : ℕ) (o : Option (List ℕ))
        → elim o [
          | none ↦ Option.map (λ l. codes "error " ++ l) (printnum m 10 0 b' ')
          | some p ↦ some p
        ]
          ≢ none
    named-ne m none =
        map-ne (λ l. codes "error " ++ l) (printnum m 10 0 b' ')
          (printnum-some m 10 0 b' ' (omega arith))
    named-ne m (some p) = λ e. cc

on_star-Shrinks :
    (args : List Arg) (fmt : List ℕ) (sp : Spec) (m : ℕ)
    → Shrinks (length fmt) m (on_star args fmt sp)
unfolding on_star
on_star-Shrinks [] fmt sp m = tt
on_star-Shrinks (num n ∷ args) fmt sp m = omega arith
on_star-Shrinks (str s ∷ args) fmt sp m = tt

on_string-Shrinks :
    (args : List Arg) (fmt : List ℕ) (sp : Spec) (m : ℕ)
    → Shrinks (length fmt) m (on_string args fmt sp)
unfolding on_string
on_string-Shrinks [] fmt sp m = tt
on_string-Shrinks (num n ∷ args) fmt sp m = tt
on_string-Shrinks (str none ∷ args) fmt sp m = inl (omega arith)
on_string-Shrinks (str (some s) ∷ args) fmt sp m = inl (omega arith)

switch-Shrinks :
    (ch : ℕ) (sp : Spec) (fmt : List ℕ) (args : List Arg) (start : List ℕ)
    → Shrinks (length fmt) (length start) (switch ch sp fmt args start)
unfolding switch
switch-Shrinks ch sp fmt args start =
    let here : length fmt ≤ length fmt = omega arith in
    let start_here : (length start ≤ length fmt) ⊎ (length start ≤ length start) =
      inr (omega arith) in
    let fmt_here : (length fmt ≤ length fmt) ⊎ (length fmt ≤ length start) = inl (omega arith) in
    let shown_char : (n : ℕ) → some (n ∷ []) ≢ none = λ n e. cc in
    let shown_u : (n : ℕ) → put_number sp n 10 ≢ none = λ n. put_number-ne sp n 10 (omega arith) in
    let shown_o : (n : ℕ) → put_number sp n 8 ≢ none = λ n. put_number-ne sp n 8 (omega arith) in
    let shown_x : (n : ℕ) → put_number sp n 16 ≢ none = λ n. put_number-ne sp n 16 (omega arith) in
    let shown_p : (n : ℕ) → Option.map (λ l. b'0' ∷ b'x' ∷ l) (put_number sp n 16) ≢ none =
      λ n. map-ne (λ l. b'0' ∷ b'x' ∷ l) (put_number sp n 16) (shown_x n) in
    search
      (
        shown_char, shown_u, shown_o, shown_x, shown_p, put_signed-ne, put_error-ne, if-Shrinks,
        on_number-Shrinks, on_star-Shrinks, on_string-Shrinks, width_field-le, here, start_here,
        fmt_here,
      )
      depth 30

-- An escape comes to an end, and leaves no more of the format than stood behind the `%`.
abbrev pub Ends : ℕ → Escape → Type 0
Ends m (puts out rest left) = length rest ≤ m
Ends m bad_arg = Unit
Ends m endless = ⊥
Ends m (more sp rest left) = ⊥

next-Ends :
    (fuel n : ℕ) (start : List ℕ) (e : Escape)
    → n ≤ fuel
    → n ≤ length start
    → ((sp : Spec) (rest : List ℕ) (left : List Arg)
        → length rest ≤ fuel
        → length rest ≤ length start
        → Ends (length start) (escape fuel sp rest left start))
    → Shrinks n (length start) e
    → Ends (length start) (elim e [
      | puts out rest left ↦ puts out rest left
      | bad_arg ↦ bad_arg
      | endless ↦ endless
      | more sp rest left ↦ escape fuel sp rest left start
    ])
next-Ends fuel n start (puts out rest left) h k rec (inl s) = omega arith
next-Ends fuel n start (puts out rest left) h k rec (inr s) = s
next-Ends fuel n start bad_arg h k rec s = tt
next-Ends fuel n start endless h k rec s = absurd s
next-Ends fuel n start (more sp rest left) h k rec s = rec sp rest left (omega arith) (omega arith)

pub escape-Ends :
    (fuel : ℕ) (sp : Spec) (fmt : List ℕ) (args : List Arg) (start : List ℕ)
    → length fmt ≤ fuel
    → length fmt ≤ length start
    → Ends (length start) (escape fuel sp fmt args start)
unfolding escape
escape-Ends fuel sp [] args start h k = omega arith
escape-Ends zero sp (c ∷ fmt) args start h k = absurd (omega arith)
escape-Ends (suc fuel) sp (c ∷ fmt) args start h k =
    next-Ends fuel (length fmt) start (switch c sp fmt args start) (omega arith) (omega arith)
      (λ sp' rest left m n. escape-Ends fuel sp' rest left start m n)
      (switch-Shrinks c sp fmt args start)

after-finished : (out : List ℕ) (r : Printed) → r ≢ unfinished → after out r ≢ unfinished
after-finished out (printed r) h e = ground (arith, e)
after-finished out undefined h e = ground (arith, e)
after-finished out unfinished h e = h refl

escaped-finished :
    (fuel n : ℕ) (e : Escape)
    → n ≤ fuel
    → ((rest : List ℕ) (left : List Arg)
        → length rest ≤ fuel
        → print_loop fuel rest left ≢ unfinished)
    → Ends n e
    → elim e [
      | puts out rest left ↦ after out (print_loop fuel rest left)
      | bad_arg ↦ undefined
      | endless ↦ unfinished
      | more sp rest left ↦ unfinished
    ]
      ≢ unfinished
escaped-finished fuel n (puts out rest left) h rec s =
    after-finished out (print_loop fuel rest left) (rec rest left (omega arith))
escaped-finished fuel n bad_arg h rec s = λ e. ground (arith, e)
escaped-finished fuel n endless h rec s = absurd s
escaped-finished fuel n (more sp rest left) h rec s = absurd s

print_loop-finished :
    (fuel : ℕ) (fmt : List ℕ) (args : List Arg)
    → length fmt ≤ fuel
    → print_loop fuel fmt args ≢ unfinished
unfolding print_loop
print_loop-finished fuel [] args h = λ e. ground (arith, e)
print_loop-finished zero (c ∷ fmt) args h = absurd (omega arith)
print_loop-finished (suc fuel) (c ∷ fmt) args h = elim (Bool-cases (c == 0)) [
  | inl y ↦ rw y (λ e. ground (arith, e))
  | inr n ↦ elim (Bool-cases (c == b'%')) [
    | inl y ↦
        rw (n, y)
          (escaped-finished fuel (length fmt) (escape (length fmt) no_spec fmt args fmt)
            (omega arith) (λ rest left m. print_loop-finished fuel rest left m)
            (escape-Ends (length fmt) no_spec fmt args fmt (omega arith) (omega arith)))
    | inr m ↦
        rw (n, m)
          (after-finished (c ∷ []) (print_loop fuel fmt args)
            (print_loop-finished fuel fmt args (omega arith)))
  ]
]

pub vprintfmt-ne : (fmt : List ℕ) (args : List Arg) → vprintfmt fmt args ≢ unfinished
unfolding vprintfmt
vprintfmt-ne fmt args = print_loop-finished (length fmt) fmt args (omega arith)
