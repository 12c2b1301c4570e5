-- ===== src/Shell/Token/Scan.antt =====
-- What `_gettoken` of sh.c does to the line, by the bytes that are left of it.
use damn_os_damn_fs.Prelude.{
  ℕ, zero, suc, ◌≤◌, ◌≡◌, refl, sym, ap, ap₂, ◌∙◌, inl, inr, Bool, true, false, none, some, List,
  [], ◌∷◌, ◌++◌, append_assoc, append-nil, arith, ◌==◌, if◌then◌else◌, Bool-cases, length, get_or,
  set, length-append,
}
use damn_os_damn_fs.CString.Scan.{IsText}
use damn_os_damn_fs.Shell.Token.{
  Tokens, is_white, is_symbol, is_plain, skip_white, word_end, token_at, fetch,
}

-- The blanks at the front, as they are overwritten, and what follows them.
unfoldable pub blanks : List ℕ → List ℕ
blanks [] = []
blanks (c ∷ s) = let r = blanks s in if is_white c then 0 ∷ r else []

unfoldable pub trimmed : List ℕ → List ℕ
trimmed [] = []
trimmed (c ∷ s) = let r = trimmed s in if is_white c then r else c ∷ s

unfoldable pub word : List ℕ → List ℕ
word [] = []
word (c ∷ s) = let r = word s in if is_plain c then c ∷ r else []

unfoldable pub behind : List ℕ → List ℕ
behind [] = []
behind (c ∷ s) = let r = behind s in if is_plain c then r else c ∷ s

pub get_or-append : (d s : List ℕ) → get_or (d ++ s) (length d) 0 ≡ get_or s 0 0
get_or-append [] s = refl
get_or-append (x ∷ d) s = get_or-append d s

set-append : (d s : List ℕ) (c v : ℕ) → set (d ++ c ∷ s) (length d) v ≡ (d ++ v ∷ []) ++ s
set-append [] s c v = refl
set-append (x ∷ d) s c v = ap (λ l. x ∷ l) (set-append d s c v)

pub length-snoc : (d : List ℕ) (v : ℕ) → length (d ++ v ∷ []) ≡ suc (length d)
length-snoc d v = omega (arith, length-append d (v ∷ []))

snoc-append : (d s : List ℕ) (c : ℕ) → (d ++ c ∷ []) ++ s ≡ d ++ c ∷ s
snoc-append d s c = append_assoc d (c ∷ []) s

nul-not-white : is_white 0 ≡ false
unfolding is_white
nul-not-white = refl

nul-not-plain : is_plain 0 ≡ false
unfolding is_plain
nul-not-plain = refl

skip_stop :
    (k : ℕ) (l : List ℕ) (i : ℕ) → is_white (get_or l i 0) ≡ false → skip_white k l i ≡ (l, i)
unfolding skip_white
skip_stop zero l i e = refl
skip_stop (suc k) l i e =
    ap
      (λ (b : Bool). elim b as (λ x. List ℕ × ℕ) [
        | true ↦ skip_white k (set l i 0) (suc i)
        | false ↦ (l, i)
      ])
      e

skip_next :
    (k : ℕ) (l : List ℕ) (i : ℕ)
    → is_white (get_or l i 0) ≡ true
    → skip_white (suc k) l i ≡ skip_white k (set l i 0) (suc i)
unfolding skip_white
skip_next k l i e =
    ap
      (λ (b : Bool). elim b as (λ x. List ℕ × ℕ) [
        | true ↦ skip_white k (set l i 0) (suc i)
        | false ↦ (l, i)
      ])
      e

skip_none :
    (d s : List ℕ) → ◌≡◌ {A = List ℕ × ℕ} (d ++ s, length d) ((d ++ []) ++ s, length (d ++ []))
skip_none d s = rw append-nil refl

skip_white_lem :
    (k : ℕ) (d s : List ℕ)
    → length s ≤ k
    → skip_white k (d ++ s) (length d) ≡ ((d ++ blanks s) ++ trimmed s, length (d ++ blanks s))
unfolding blanks trimmed
skip_white_lem k d [] h =
    skip_stop k (d ++ []) (length d) (ap is_white (get_or-append d []) ∙ nul-not-white)
    ∙ skip_none d []
skip_white_lem zero d (c ∷ s) h = absurd (omega arith)
skip_white_lem (suc k) d (c ∷ s) h = elim (Bool-cases (is_white c)) [
  | inl y ↦
      let rest =
        ap₂ (skip_white k) (set-append d s c 0) (sym (length-snoc d 0))
        ∙ skip_white_lem k (d ++ 0 ∷ []) s (omega arith) in
      let pair = λ (l : List ℕ). let r : List ℕ × ℕ = (l ++ trimmed s, length l) in r in
      rw y (
        skip_next k (d ++ c ∷ s) (length d) (ap is_white (get_or-append d (c ∷ s)) ∙ y)
        ∙ rest
        ∙ ap pair (snoc-append d (blanks s) 0))
  | inr n ↦
      skip_stop (suc k) (d ++ c ∷ s) (length d) (ap is_white (get_or-append d (c ∷ s)) ∙ n)
      ∙ rw n (skip_none d (c ∷ s))
]

end_stop : (k : ℕ) (l : List ℕ) (i : ℕ) → is_plain (get_or l i 0) ≡ false → word_end k l i ≡ i
unfolding word_end
end_stop zero l i e = refl
end_stop (suc k) l i e =
    ap (λ (b : Bool). elim b as (λ x. ℕ) [ true ↦ word_end k l (suc i) | false ↦ i ]) e

end_next :
    (k : ℕ) (l : List ℕ) (i : ℕ)
    → is_plain (get_or l i 0) ≡ true
    → word_end (suc k) l i ≡ word_end k l (suc i)
unfolding word_end
end_next k l i e =
    ap (λ (b : Bool). elim b as (λ x. ℕ) [ true ↦ word_end k l (suc i) | false ↦ i ]) e

word_end_lem :
    (k : ℕ) (d s : List ℕ) → length s ≤ k → word_end k (d ++ s) (length d) ≡ length (d ++ word s)
unfolding word
word_end_lem k d [] h =
    end_stop k (d ++ []) (length d) (ap is_plain (get_or-append d []) ∙ nul-not-plain)
    ∙ ap length (sym (append-nil d))
word_end_lem zero d (c ∷ s) h = absurd (omega arith)
word_end_lem (suc k) d (c ∷ s) h = elim (Bool-cases (is_plain c)) [
  | inl y ↦
      let rest =
        ap₂ (word_end k) (sym (snoc-append d s c)) (sym (length-snoc d c))
        ∙ word_end_lem k (d ++ c ∷ []) s (omega arith) in
      rw y (
        end_next k (d ++ c ∷ s) (length d) (ap is_plain (get_or-append d (c ∷ s)) ∙ y)
        ∙ rest
        ∙ ap length (snoc-append d (word s) c))
  | inr n ↦
      end_stop (suc k) (d ++ c ∷ s) (length d) (ap is_plain (get_or-append d (c ∷ s)) ∙ n)
      ∙ rw n (ap length (sym (append-nil d)))
]

-- The variables of the tokenizer, where the bytes `e` are behind it and `t` begins with a token.
abbrev pub fetched : List ℕ → List ℕ → Tokens
fetched e [] = record { buf = e ++ []; nc = 0; np1 = none; np2 = none }
fetched e (c ∷ r) =
    if is_symbol c
    then record {
      buf = (e ++ 0 ∷ []) ++ r;
      nc = c;
      np1 = some (length e);
      np2 = some (suc (length e));
    }
    else record {
      buf = e ++ c ∷ r;
      nc = b'w';
      np1 = some (length e);
      np2 = some (length (e ++ word (c ∷ r)));
    }

pub length-append-le : (d s : List ℕ) → length s ≤ length (d ++ s)
length-append-le d s = omega (arith, length-append d s)

token_at-fetched : (e t : List ℕ) → IsText t → token_at (e ++ t) (length e) ≡ fetched e t
unfolding token_at IsText
token_at-fetched e [] h = rw (get_or-append e []) refl
token_at-fetched e (c ∷ r) h =
    let some_byte : c == 0 ≡ false = ground (arith, h.0) in
    rw
      (
        get_or-append e (c ∷ r),
        some_byte,
        set-append e r c 0,
        word_end_lem (length (e ++ c ∷ r)) e (c ∷ r) (length-append-le e (c ∷ r)),
      )
      refl

pub trimmed-IsText : (s : List ℕ) → IsText s → IsText (trimmed s)
unfolding trimmed IsText
trimmed-IsText [] h = tt
trimmed-IsText (c ∷ s) h = elim (Bool-cases (is_white c)) [
  | inl y ↦ rw y (trimmed-IsText s h.1)
  | inr n ↦ rw n h
]

pub behind-IsText : (s : List ℕ) → IsText s → IsText (behind s)
unfolding behind IsText
behind-IsText [] h = tt
behind-IsText (c ∷ s) h = elim (Bool-cases (is_plain c)) [
  | inl y ↦ rw y (behind-IsText s h.1)
  | inr n ↦ rw n h
]

pub fetch_lem :
    (s : Tokens) (d r : List ℕ)
    → s.buf ≡ d ++ r
    → IsText r
    → fetch (some (length d)) s ≡ fetched (d ++ blanks r) (trimmed r)
unfolding fetch
fetch_lem s d r e h =
    let skip =
      ap (λ l. skip_white (length l) l (length d)) e
      ∙ skip_white_lem (length (d ++ r)) d r (length-append-le d r) in
    ap (λ (p : List ℕ × ℕ). token_at p.0 p.1) skip
    ∙ token_at-fetched (d ++ blanks r) (trimmed r) (trimmed-IsText r h)
