-- ===== src/Format/Prints.antt =====
-- For every format of vprintfmt of stdio.c there are arguments with which it prints.
use damn_os_damn_fs.Prelude.{
  ℕ, zero, suc, ◌≤◌, ◌≡◌, refl, ◌≢◌, inl, inr, Bool, true, false, Option, none, some, List, [], ◌∷◌,
  ◌++◌, append_assoc, arith, ◌==◌, if◌then◌else◌, Bool-cases, length, subst,
}
use damn_os_damn_fs.Format.{
  Arg, num, str, Spec, no_spec, printed, unfinished, Escape, puts, bad_arg, endless, more, switch,
  escape, print_loop, vprintfmt, on_number, on_star, on_string, put_string, process_precision,
}
use damn_os_damn_fs.Format.Fuel.{Ends, escape-Ends, put_signed-ne, put_error-ne, vprintfmt-ne}

-- With some arguments at the front an escape puts characters or goes on, whatever stands behind them.
data Takes (e : List Arg → Escape) : Type 0 where
  to_put :
      (a : List Arg) (out rest : List ℕ)
      → ((left : List Arg) → e (a ++ left) ≡ puts out rest left)
      → Takes e
  to_go_on :
      (a : List Arg) (sp : Spec) (rest : List ℕ)
      → ((left : List Arg) → e (a ++ left) ≡ more sp rest left)
      → Takes e

if-Takes :
    (b : Bool) (x y : List Arg → Escape)
    → Takes x
    → Takes y
    → Takes (λ args. if b then x args else y args)
if-Takes true x y hx hy = hx
if-Takes false x y hx hy = hy

some-Takes :
    (fmt : List ℕ) (f : ℕ → Option (List ℕ)) (o : Option (List ℕ))
    → f 0 ≡ o
    → o ≢ none
    → Takes (λ args. on_number args fmt f)
some-Takes fmt f none e h = absurd (h refl)
some-Takes fmt f (some l) e h = to_put (num 0 ∷ []) l fmt (λ left. rw e refl)

on_number-Takes :
    (fmt : List ℕ) (f : ℕ → Option (List ℕ)) → f 0 ≢ none → Takes (λ args. on_number args fmt f)
on_number-Takes fmt f h = some-Takes fmt f (f 0) refl h

on_star-Takes : (fmt : List ℕ) (sp : Spec) → Takes (λ args. on_star args fmt sp)
unfolding on_star
on_star-Takes fmt sp = to_go_on (num 0 ∷ []) (process_precision (some 0) sp) fmt (λ left. refl)

on_string-Takes : (fmt : List ℕ) (sp : Spec) → Takes (λ args. on_string args fmt sp)
unfolding on_string
on_string-Takes fmt sp = to_put (str (some []) ∷ []) (put_string sp []) fmt (λ left. refl)

goes_on : (sp : Spec) (rest : List ℕ) → Takes (λ args. more sp rest args)
goes_on sp rest = to_go_on [] sp rest (λ left. refl)

putting : (out rest : List ℕ) → Takes (λ args. puts out rest args)
putting out rest = to_put [] out rest (λ left. refl)

some-ne : (l : List ℕ) → some l ≢ none
some-ne l e = cc

switch-Takes :
    (ch : ℕ) (sp : Spec) (fmt start : List ℕ) → Takes (λ args. switch ch sp fmt args start)
unfolding switch
switch-Takes ch sp fmt start =
    search
      (
        if-Takes, goes_on, putting, on_star-Takes, on_string-Takes, on_number-Takes, put_error-ne,
        put_signed-ne, some-ne,
      )
      depth 40

next-Takes :
    (fuel : ℕ) (start : List ℕ) (e : List Arg → Escape)
    → Takes e
    → ((sp : Spec) (rest : List ℕ) → Takes (λ args. escape fuel sp rest args start))
    → Takes (λ args. elim (e args) [
      | puts out rest left ↦ puts out rest left
      | bad_arg ↦ bad_arg
      | endless ↦ endless
      | more sp rest left ↦ escape fuel sp rest left start
    ])
next-Takes fuel start e (to_put a out rest h) rec = to_put a out rest (λ left. rw (h left) refl)
next-Takes fuel start e (to_go_on a sp rest h) rec = behind (rec sp rest)
  where
    behind :
        Takes (λ args. escape fuel sp rest args start)
        → Takes (λ args. elim (e args) [
          | puts out rest' left ↦ puts out rest' left
          | bad_arg ↦ bad_arg
          | endless ↦ endless
          | more sp' rest' left ↦ escape fuel sp' rest' left start
        ])
    behind (to_put a' out rest' k) =
        to_put (a ++ a') out rest' (λ left. rw (append_assoc a a' left, h (a' ++ left)) (k left))
    behind (to_go_on a' sp' rest' k) =
        to_go_on (a ++ a') sp' rest' (λ left. rw (append_assoc a a' left, h (a' ++ left)) (k left))

escape-Takes :
    (fuel : ℕ) (sp : Spec) (fmt start : List ℕ) → Takes (λ args. escape fuel sp fmt args start)
unfolding escape
escape-Takes fuel sp [] start = putting (b'%' ∷ []) start
escape-Takes zero sp (c ∷ fmt) start = goes_on sp (c ∷ fmt)
escape-Takes (suc fuel) sp (c ∷ fmt) start =
    next-Takes fuel start (λ args. switch c sp fmt args start) (switch-Takes c sp fmt start)
      (λ sp' rest. escape-Takes fuel sp' rest start)

abbrev Prints : ℕ → List ℕ → Type 0
Prints fuel fmt = (args : List Arg) × (out : List ℕ) × (print_loop fuel fmt args ≡ printed out)

escaped-Prints :
    (fuel : ℕ) (fmt : List ℕ) (c : ℕ)
    → length fmt ≤ fuel
    → (c == 0) ≡ false
    → (c == b'%') ≡ true
    → Takes (λ args. escape (length fmt) no_spec fmt args fmt)
    → ((rest : List ℕ) → length rest ≤ fuel → Prints fuel rest)
    → Prints (suc fuel) (c ∷ fmt)
unfolding print_loop
escaped-Prints fuel fmt c h n y (to_put a out rest k) rec =
    let ended = escape-Ends (length fmt) no_spec fmt (a ++ []) fmt (omega arith) (omega arith) in
    let shorter : length rest ≤ length fmt = subst (Ends (length fmt)) (k []) ended in
    let (args, o, run) = rec rest (omega (arith, shorter)) in
    (a ++ args, out ++ o, rw (n, y, k args, run) refl)
escaped-Prints fuel fmt c h n y (to_go_on a sp rest k) rec =
    let ended = escape-Ends (length fmt) no_spec fmt (a ++ []) fmt (omega arith) (omega arith) in
    absurd (subst (Ends (length fmt)) (k []) ended)

print_loop-Prints : (fuel : ℕ) (fmt : List ℕ) → length fmt ≤ fuel → Prints fuel fmt
unfolding print_loop
print_loop-Prints fuel [] h = ([], [], refl)
print_loop-Prints zero (c ∷ fmt) h = absurd (omega arith)
print_loop-Prints (suc fuel) (c ∷ fmt) h = elim (Bool-cases (c == 0)) [
  | inl y ↦ ([], [], rw y refl)
  | inr n ↦ elim (Bool-cases (c == b'%')) [
    | inl y ↦
        escaped-Prints fuel fmt c (omega arith) n y (escape-Takes (length fmt) no_spec fmt fmt)
          (λ rest m. print_loop-Prints fuel rest m)
    | inr m ↦
        let (args, out, run) = print_loop-Prints fuel fmt (omega arith) in
        (args, (c ∷ []) ++ out, rw (n, m, run) refl)
  ]
]

-- `vprintfmt` comes to an end on every format and every list of arguments, the recursion of
-- `printnum` included. The end may be an argument that is missing or of the wrong kind, which is
-- undefined; but for every format there are arguments with which it puts its characters.
pub vprintfmt-finished :
    (fmt : List ℕ)
    → ((args : List Arg) → vprintfmt fmt args ≢ unfinished)
      × ((args : List Arg) × (out : List ℕ) × (vprintfmt fmt args ≡ printed out))
unfolding vprintfmt
vprintfmt-finished fmt =
    (λ args. vprintfmt-ne fmt args, print_loop-Prints (length fmt) fmt (omega arith))
