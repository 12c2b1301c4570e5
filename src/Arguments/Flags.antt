-- ===== src/Arguments/Flags.antt =====
-- What a program reads with argnext (args.c): the flags of its arguments, described word by word.
use damn_os_damn_fs.Prelude.{
  ℕ, zero, suc, ◌≡◌, refl, sym, ap, subst, ◌∙◌, inl, inr, false, Option, none, some, List, [], ◌∷◌,
  ◌++◌, arith, ◌==◌, if◌then◌else◌, Bool-cases, length,
}
use damn_os_damn_fs.CString.{deref}
use damn_os_damn_fs.CString.Scan.{IsText}
use damn_os_damn_fs.Arguments.{Argstate, argstart, endofargs, next_char, next_arg, argnext}

-- An argument holds flags, is "--", or is no flag.
pub data Word : Type 0 where
  flags : List ℕ → Word
  last : Word
  plain : Word

unfoldable pub word : List ℕ → Word
word [] = plain
word (c ∷ []) = plain
word (c ∷ d ∷ []) = if c == b'-' then (if d == b'-' then last else flags (d ∷ [])) else plain
word (c ∷ d ∷ e ∷ a) = if c == b'-' then flags (d ∷ e ∷ a) else plain

-- The flags of a list of arguments, and the arguments that are left.
unfoldable pub parsed : List (List ℕ) → List ℕ × List (List ℕ)
unfolding word
parsed [] = ([], [])
parsed (a ∷ rest) =
    let r = parsed rest in
    elim (word a) [ flags l ↦ (l ++ r.0, r.1) | last ↦ ([], rest) | plain ↦ ([], a ∷ rest) ]

-- `argnext` is called until it returns -1, at most `n` times.
unfoldable pub all_args : ℕ → Argstate → Option (List ℕ × Argstate)
unfolding argnext
all_args zero s = none
all_args (suc n) s =
    let r = argnext s in
    elim r.0 [
      | none ↦ some ([], r.1)
      | some c ↦ elim (all_args n r.1) [ none ↦ none | some t ↦ some (c ∷ t.0, t.1) ]
    ]

unfoldable pub AllText : List (List ℕ) → Type 0
unfolding IsText
AllText [] = Unit
AllText (a ∷ l) = IsText a × AllText l

-- in the middle of a word, or behind the last argument
abbrev reading : List (List ℕ) → Option (List ℕ) → Argstate
reading l cur = record { argv = l; curarg = cur; argvalue = none }

all_args_end : (n : ℕ) (s t : Argstate) → argnext s ≡ (none, t) → all_args (suc n) s ≡ some ([], t)
unfolding all_args
all_args_end n s t e =
    ap
      (λ (r : Option ℕ × Argstate). elim r.0 as (λ x. Option (List ℕ × Argstate)) [
        | none ↦ some ([], r.1)
        | some d ↦ elim (all_args n r.1) as (λ x. Option (List ℕ × Argstate)) [
          | none ↦ none
          | some q ↦ some (d ∷ q.0, q.1)
        ]
      ])
      e

all_args_next :
    (n : ℕ) (s t u : Argstate) (c : ℕ) (out : List ℕ)
    → argnext s ≡ (some c, t)
    → all_args n t ≡ some (out, u)
    → all_args (suc n) s ≡ some (c ∷ out, u)
unfolding all_args
all_args_next n s t u c out e f =
    ap
      (λ (r : Option ℕ × Argstate). elim r.0 as (λ x. Option (List ℕ × Argstate)) [
        | none ↦ some ([], r.1)
        | some d ↦ elim (all_args n r.1) as (λ x. Option (List ℕ × Argstate)) [
          | none ↦ none
          | some q ↦ some (d ∷ q.0, q.1)
        ]
      ])
      e
    ∙ ap
        (λ (o : Option (List ℕ × Argstate)). elim o as (λ x. Option (List ℕ × Argstate)) [
          | none ↦ none
          | some q ↦ some (c ∷ q.0, q.1)
        ])
        f

word_run :
    (w : List ℕ) (l : List (List ℕ)) (out : List ℕ) (t : Argstate)
    → IsText w
    → all_args (suc (length out)) (reading l (some [])) ≡ some (out, t)
    → all_args (suc (length (w ++ out))) (reading l (some w)) ≡ some (w ++ out, t)
unfolding argnext next_char deref IsText
word_run [] l out t h e = e
word_run (c ∷ w) l out t h e =
    let not_end : c == 0 ≡ false = ground (arith, h.0) in
    all_args_next (suc (length (w ++ out))) (reading l (some (c ∷ w))) (reading l (some w)) t c
      (w ++ out) (rw not_end refl) (word_run w l out t h.1 e)

-- All calls of `argnext` from `s` on give `r`.
abbrev Runs : Argstate → List ℕ × List (List ℕ) → Type 0
Runs s r = all_args (suc (length (r.0))) s ≡ some (r.0, reading (r.1) none)

stopped :
    (l k : List (List ℕ))
    → argnext (reading l (some [])) ≡ (none, reading k none)
    → parsed l ≡ ([], k)
    → Runs (reading l (some [])) (parsed l)
stopped l k e p =
    subst (Runs (reading l (some []))) (sym p)
      (all_args_end 0 (reading l (some [])) (reading k none) e)

parsed_run : (l : List (List ℕ)) → AllText l → Runs (reading l (some [])) (parsed l)
unfolding argnext next_arg next_char endofargs deref parsed word AllText IsText
parsed_run [] h = stopped [] [] refl refl
parsed_run ([] ∷ rest) h = stopped ([] ∷ rest) ([] ∷ rest) refl refl
parsed_run ((c ∷ []) ∷ rest) h =
    let l = (c ∷ []) ∷ rest in
    elim (Bool-cases (c == b'-')) [
      | inl y ↦ stopped l l (rw y refl) refl
      | inr n ↦ stopped l l (rw n refl) refl
    ]
parsed_run ((c ∷ d ∷ []) ∷ rest) h =
    let more : d == 0 ≡ false = ground (arith, h.0.1.0) in
    let l = (c ∷ d ∷ []) ∷ rest in
    let r = parsed rest in
    let ih = parsed_run rest h.1 in
    elim (Bool-cases (c == b'-')) [
      | inr n ↦ stopped l l (rw n refl) (rw (parsed, n) refl)
      | inl y ↦ elim (Bool-cases (d == b'-')) [
        | inl z ↦ stopped l rest (rw (y, more, z) refl) (rw (parsed, y, z) refl)
        | inr m ↦
            let p : parsed l ≡ (d ∷ r.0, r.1) = rw (parsed, y, m) refl in
            subst (Runs (reading l (some []))) (sym p) (
              all_args_next (suc (length (r.0))) (reading l (some [])) (reading rest (some []))
                (reading (r.1) none) d (r.0) (rw (y, more, m) refl) ih)
      ]
    ]
parsed_run ((c ∷ d ∷ e ∷ a) ∷ rest) h =
    let more : d == 0 ≡ false = ground (arith, h.0.1.0) in
    let longer : e == 0 ≡ false = ground (arith, h.0.1.1.0) in
    let l = (c ∷ d ∷ e ∷ a) ∷ rest in
    let r = parsed rest in
    let behind = word_run (e ∷ a) rest (r.0) (reading (r.1) none) h.0.1.1 (parsed_run rest h.1) in
    elim (Bool-cases (c == b'-')) [
      | inr n ↦ stopped l l (rw n refl) (rw (parsed, n) refl)
      | inl y ↦
          let p : parsed l ≡ (d ∷ e ∷ a ++ r.0, r.1) = rw (parsed, y) refl in
          let step : argnext (reading l (some [])) ≡ (some d, reading rest (some (e ∷ a))) =
            elim (Bool-cases (d == b'-')) [
              | inl z ↦ rw (y, more, longer, z) refl
              | inr m ↦ rw (y, more, m) refl
            ] in
          subst (Runs (reading l (some []))) (sym p) (
            all_args_next (suc (length (e ∷ a ++ r.0))) (reading l (some []))
              (reading rest (some (e ∷ a))) (reading (r.1) none) d (e ∷ a ++ r.0) step behind)
    ]

-- For arguments without a NUL byte, `argnext` is called until it returns -1, which is one call more
-- than there are flags. The calls return the flags, word by word, and leave the arguments that are
-- no flags, as `parsed` describes them; the position in the word is then the null pointer.
pub argnext-parsed :
    (l : List (List ℕ))
    → AllText l
    → all_args (suc (length ((parsed l).0))) (argstart l)
      ≡ some ((parsed l).0, record { argv = (parsed l).1; curarg = none; argvalue = none })
unfolding argstart parsed all_args argnext
argnext-parsed [] h = refl
argnext-parsed (a ∷ rest) h = parsed_run (a ∷ rest) h
