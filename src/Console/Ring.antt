-- ===== src/Console/Ring.antt =====
-- The input ring of console.c is a queue of at most 511 characters.
use damn_os_damn_fs.Prelude.{
  ℕ, zero, suc, ◌+◌, ◌%◌, ◌<◌, ◌≡◌, refl, sym, ap, subst, ◌∙◌, inl, inr, true, false, List, [], ◌∷◌,
  ◌++◌, append_assoc, append-nil, arith, ◌==◌, if◌then◌else◌, Bool-cases, length, get_or, set,
  length-append, length-set, get_or-set_self, get_or-set_ne,
}
use native.Mathlib.Decide.{dec_lt}
use damn_os_damn_fs.Console.{Cons, consbufsize, cons_intr, cons_getc}

-- the characters in the ring, oldest first
pub record Waiting (s : Cons) (l : List ℕ) : Type 0 where
  pub cells : length s.buf ≡ consbufsize
  pub start : s.rpos < consbufsize
  pub few : length l < consbufsize
  pub end : s.wpos ≡ (s.rpos + length l) % consbufsize
  pub holds : (i : ℕ) → i < length l → get_or s.buf ((s.rpos + i) % consbufsize) 0 ≡ get_or l i 0

-- the characters that an interrupt keeps: those that are not 0, as bytes
abbrev pub kept : List ℕ → List ℕ
kept [] = []
kept (c ∷ proc) = if c == 0 then kept proc else c % 256 ∷ kept proc

-- the ring with one more character
abbrev ring_with : ℕ → Cons → Cons
ring_with c s = record {
  buf = set s.buf s.wpos (c % 256);
  rpos = s.rpos;
  wpos = if s.wpos + 1 == consbufsize then 0 else s.wpos + 1;
}

get_or-snoc_last : (l : List ℕ) (c : ℕ) → get_or (l ++ (c ∷ [])) (length l) 0 ≡ c
get_or-snoc_last [] c = refl
get_or-snoc_last (x ∷ l) c = get_or-snoc_last l c

get_or-snoc_less : (l : List ℕ) (c i : ℕ) → i < length l → get_or (l ++ (c ∷ [])) i 0 ≡ get_or l i 0
get_or-snoc_less [] c i h = absurd (omega arith)
get_or-snoc_less (x ∷ l) c zero h = refl
get_or-snoc_less (x ∷ l) c (suc i) h = get_or-snoc_less l c i (omega arith)

ring_with-Waiting :
    (s : Cons) (l : List ℕ) (c : ℕ)
    → Waiting s l
    → length l + 1 < consbufsize
    → Waiting (ring_with c s) (l ++ (c % 256 ∷ []))
ring_with-Waiting s l c h fits = record {
  cells = length-set s.buf s.wpos (c % 256) ∙ h.cells;
  start = h.start;
  few = omega (arith, length-append l (c % 256 ∷ []), fits);
  end = ground (arith, length-append l (c % 256 ∷ []), h.end);
  holds = holds;
}
  where
    holds :
        (i : ℕ)
        → i < length (l ++ (c % 256 ∷ []))
        → get_or (set s.buf s.wpos (c % 256)) ((s.rpos + i) % consbufsize) 0
          ≡ get_or (l ++ (c % 256 ∷ [])) i 0
    holds i lt = elim (dec_lt i (length l)) [
      | yes less ↦
          get_or-set_ne s.buf s.wpos ((s.rpos + i) % consbufsize) (c % 256) 0
            (λ e. omega (arith, e, h.end, h.start, fits, less))
          ∙ h.holds i less
          ∙ sym (get_or-snoc_less l (c % 256) i less)
      | no more ↦
          let last : i ≡ length l = omega (arith, lt, more, length-append l (c % 256 ∷ [])) in
          ap (λ k. get_or (set s.buf s.wpos (c % 256)) k 0)
            (ap (λ k. (s.rpos + k) % consbufsize) last ∙ sym h.end)
          ∙ get_or-set_self s.buf s.wpos (c % 256) 0 (omega (arith, h.end, h.cells))
          ∙ sym (get_or-snoc_last l (c % 256))
          ∙ ap (λ k. get_or (l ++ (c % 256 ∷ [])) k 0) (sym last)
    ]

-- Interrupts add their characters behind those that wait, as long as there is room for them.
pub cons_intr-Waiting :
    (proc : List ℕ) (s : Cons) (l : List ℕ)
    → Waiting s l
    → length l + length (kept proc) < consbufsize
    → Waiting (cons_intr proc s) (l ++ kept proc)
unfolding cons_intr
cons_intr-Waiting [] s l h fits = subst (Waiting s) (sym (append-nil l)) h
cons_intr-Waiting (c ∷ proc) s l h fits = elim (Bool-cases (c == 0)) [
  | inl y ↦ rw y (cons_intr-Waiting proc s l h (ground (arith, y, fits)))
  | inr n ↦
      let room : length l + suc (length (kept proc)) < consbufsize = ground (arith, n, fits) in
      rw n (
        subst (Waiting (cons_intr proc (ring_with c s))) (append_assoc l (c % 256 ∷ []) (kept proc))
          (cons_intr-Waiting proc (ring_with c s) (l ++ (c % 256 ∷ []))
            (ring_with-Waiting s l c h (omega arith))
            (omega (arith, room, length-append l (c % 256 ∷ [])))))
]

-- what `cons_getc` returns, with the characters `l` in the ring
abbrev pub Taken : List ℕ → ℕ × Cons → Type 0
Taken [] (c, t) = (c ≡ 0) × Waiting t []
Taken (x ∷ l) (c, t) = (c ≡ x) × Waiting t l

take-Taken :
    (t : Cons) (l : List ℕ)
    → Waiting t l
    → Taken l (
        if t.rpos == t.wpos then (0, t) else (
          get_or t.buf t.rpos 0,
          record t { rpos = if t.rpos + 1 == consbufsize then 0 else t.rpos + 1 },
        ))
take-Taken t [] h =
    let e : t.rpos == t.wpos ≡ true = ground (arith, h.end, h.start) in rw e (refl, h)
take-Taken t (x ∷ l) h =
    let e : t.rpos == t.wpos ≡ false = ground (arith, h.end, h.start, h.few) in
    let here : (t.rpos + 0) % consbufsize ≡ t.rpos = omega (arith, h.start) in
    let next = if t.rpos + 1 == consbufsize then 0 else t.rpos + 1 in
    rw e (
      ap (λ k. get_or t.buf k 0) (sym here) ∙ h.holds 0 (omega arith),
      record {
        cells = h.cells;
        start = ground (arith, h.start);
        few = omega (arith, h.few);
        end = ground (arith, h.end, h.start);
        holds = λ i lt.
            ap (λ k. get_or t.buf k 0) (ground (arith, h.start)) ∙ h.holds (suc i) (omega arith);
      },
    )

-- `cons_getc` returns the oldest character that waits, those that polling brings included, and 0 if
-- there is none; the others still wait. There must be room for those that polling brings.
pub cons_getc-Taken :
    (serial kbd : List ℕ) (s : Cons) (l : List ℕ)
    → Waiting s l
    → length l + length (kept serial) + length (kept kbd) < consbufsize
    → Taken ((l ++ kept serial) ++ kept kbd) (cons_getc serial kbd s)
unfolding cons_getc
cons_getc-Taken serial kbd s l h fits =
    let one = cons_intr-Waiting serial s l h (omega arith) in
    let two =
      cons_intr-Waiting kbd (cons_intr serial s) (l ++ kept serial) one
        (omega (arith, fits, length-append l (kept serial))) in
    take-Taken (cons_intr kbd (cons_intr serial s)) ((l ++ kept serial) ++ kept kbd) two
