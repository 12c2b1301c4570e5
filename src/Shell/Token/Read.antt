-- ===== src/Shell/Token/Read.antt =====
-- The tokens that `gettoken` of sh.c returns are those of the line.
use damn_os_damn_fs.Prelude.{
  ℕ, zero, suc, ◌≤◌, ◌≡◌, refl, sym, ap, ap₂, subst, ◌∙◌, ◌≢◌, ◌⊎◌, inl, inr, true, false, ◌&&◌,
  not, Option, none, some, List, [], ◌∷◌, ◌++◌, append_assoc, arith, ◌==◌, Bool-cases, length, drop,
}
use damn_os_damn_fs.CString.Scan.{text, IsText}
use damn_os_damn_fs.Shell.Token.{Tokens, is_white, is_symbol, is_plain, fetch, set_line, gettoken}
use damn_os_damn_fs.Shell.Token.Scan.{
  blanks, trimmed, word, behind, length-snoc, trimmed-IsText, behind-IsText, fetch_lem, fetched,
}
use damn_os_damn_fs.Shell.Token.Lex.{
  Token, lex, token_text, read_token, all_tokens, lex-trimmed, plain_cases, lex-word, scrub,
  fetched-buf, drop-append, Ends, text-append, word-IsText, word-behind, behind-Ends,
  length-trimmed, length-behind, behind_plain,
}

-- One call of `gettoken`, for the kind and the text that it returns.
all_tokens_next :
    (n : ℕ) (s u : Tokens) (p : Option ℕ) (k : ℕ) (w : List ℕ) (t : List Token)
    → gettoken s ≡ ((k, p), u)
    → k ≢ 0
    → token_text p u.buf ≡ w
    → all_tokens n u ≡ some t
    → all_tokens (suc n) s ≡ some ((k, w) ∷ t)
unfolding all_tokens read_token
all_tokens_next n s u p k w t g nz e f =
    let not_end : k == 0 ≡ false = ground (arith, nz) in
    ap (λ r. read_token r (all_tokens n)) g ∙ rw (not_end, f, e) refl

token_text_lem :
    (e w x l : List ℕ) → l ≡ e ++ (w ++ x) → IsText w → Ends x → token_text (some (length e)) l ≡ w
unfolding token_text
token_text_lem e w x l h t n =
    ap (λ l. text (drop (length e) l)) h ∙ ap text (drop-append e (w ++ x)) ∙ text-append w x t n

-- All calls of `gettoken` from `s` on return the tokens `t`.
abbrev Reads : Tokens → List Token → Type 0
Reads s t = all_tokens (suc (length t)) s ≡ some t

-- What is to be shown of the bytes `t` at the end of a line.
abbrev ReadsLine : List ℕ → List ℕ → Type 0
ReadsLine d t = Reads (fetched (d ++ blanks t) (trimmed t)) (lex t)

lex_symbol :
    (c : ℕ) (r : List ℕ) → is_white c ≡ false → is_symbol c ≡ true → lex (c ∷ r) ≡ (c, []) ∷ lex r
unfolding lex
lex_symbol c r w y = rw (w, y) refl

symbol-Reads :
    (e : List ℕ) (c : ℕ) (r : List ℕ)
    → is_white c ≡ false
    → is_symbol c ≡ true
    → IsText (c ∷ r)
    → ReadsLine (e ++ 0 ∷ []) r
    → Reads (fetched e (c ∷ r)) (lex (c ∷ r))
unfolding gettoken IsText
symbol-Reads e c r w y h ih =
    let d = e ++ 0 ∷ [] in
    let s : Tokens = record {
      buf = d ++ r;
      nc = c;
      np1 = some (length e);
      np2 = some (suc (length e));
    } in
    let u = fetched (d ++ blanks r) (trimmed r) in
    let got = ap (λ i. fetch (some i) s) (sym (length-snoc e 0)) ∙ fetch_lem s d r refl h.1 in
    let line =
      fetched-buf (d ++ blanks r) (trimmed r)
      ∙ append_assoc d (blanks r) (scrub (trimmed r))
      ∙ append_assoc e (0 ∷ []) (blanks r ++ scrub (trimmed r)) in
    let x = 0 ∷ (blanks r ++ scrub (trimmed r)) in
    let text_eq = token_text_lem e [] x u.buf line tt refl in
    let t =
      all_tokens_next (suc (length (lex r))) s u (some (length e)) c [] (lex r)
        (ap (λ v. ((c, some (length e)), v)) got) h.0 text_eq ih in
    rw (y, lex_symbol c r w y) t

word-Reads :
    (e : List ℕ) (c : ℕ) (r : List ℕ)
    → is_white c ≡ false
    → is_symbol c ≡ false
    → is_plain c ≡ true
    → IsText (c ∷ r)
    → ReadsLine (e ++ word (c ∷ r)) (behind (c ∷ r))
    → Reads (fetched e (c ∷ r)) (lex (c ∷ r))
unfolding gettoken IsText
word-Reads e c r w n p h ih =
    let v = word (c ∷ r) in
    let b = behind (c ∷ r) in
    let x = blanks b ++ scrub (trimmed b) in
    let s : Tokens = record {
      buf = e ++ c ∷ r;
      nc = b'w';
      np1 = some (length e);
      np2 = some (length (e ++ v));
    } in
    let u = fetched ((e ++ v) ++ blanks b) (trimmed b) in
    let split = ap (λ l. e ++ l) (sym (word-behind (c ∷ r))) ∙ sym (append_assoc e v b) in
    let got = fetch_lem s (e ++ v) b split (behind-IsText (c ∷ r) h) in
    let line =
      fetched-buf ((e ++ v) ++ blanks b) (trimmed b)
      ∙ append_assoc (e ++ v) (blanks b) (scrub (trimmed b))
      ∙ append_assoc e v x in
    let text_eq = token_text_lem e v x u.buf line (word-IsText (c ∷ r) h) (behind-Ends (c ∷ r) h) in
    let t =
      all_tokens_next (suc (length (lex b))) s u (some (length e)) b'w' v (lex b)
        (ap (λ z. ((b'w', some (length e)), z)) got) (omega arith) text_eq ih in
    rw (n, lex-word c r w n p h.1) t

end-Reads : (e : List ℕ) → Reads (fetched e []) (lex [])
unfolding all_tokens read_token gettoken lex
end-Reads e = refl

-- whether a token is left, and its first byte
trimmed_head :
    (t : List ℕ)
    → (trimmed t ≡ []) ⊎ ((c : ℕ) × (r : List ℕ) × (trimmed t ≡ c ∷ r) × (is_white c ≡ false))
unfolding trimmed
trimmed_head [] = inl refl
trimmed_head (c ∷ t) = elim (Bool-cases (is_white c)) [
  | inl y ↦ rw y (trimmed_head t)
  | inr n ↦ inr (c, t, rw n refl, n)
]

token-Reads :
    (n : ℕ) (e : List ℕ) (c : ℕ) (r : List ℕ)
    → length r ≤ n
    → is_white c ≡ false
    → IsText (c ∷ r)
    → ((d t : List ℕ) → length t ≤ n → IsText t → ReadsLine d t)
    → Reads (fetched e (c ∷ r)) (lex (c ∷ r))
unfolding IsText
token-Reads n e c r k w h ih = elim (Bool-cases (is_symbol c)) [
  | inl y ↦ symbol-Reads e c r w y h (ih (e ++ 0 ∷ []) r k h.1)
  | inr m ↦
      let p : is_plain c ≡ true = plain_cases c h.0 ∙ ap₂ (λ a b. not a && not b) w m in
      let short : length (behind (c ∷ r)) ≤ n =
        omega (arith, length-behind r, ap length (behind_plain c r p)) in
      word-Reads e c r w m p h
        (ih (e ++ word (c ∷ r)) (behind (c ∷ r)) short (behind-IsText (c ∷ r) h))
]

trimmed-Reads :
    (d t u : List ℕ) → trimmed t ≡ u → Reads (fetched (d ++ blanks t) u) (lex u) → ReadsLine d t
trimmed-Reads d t u e h =
    let s = fetched (d ++ blanks t) (trimmed t) in
    subst (Reads s) (lex-trimmed t)
      (subst (λ v. Reads (fetched (d ++ blanks t) v) (lex v)) (sym e) h)

line-Reads : (n : ℕ) (d t : List ℕ) → length t ≤ n → IsText t → ReadsLine d t
line-Reads zero d t k h = elim (trimmed_head t) [
  | inl e ↦ trimmed-Reads d t [] e (end-Reads (d ++ blanks t))
  | inr (c, r, e, w) ↦ absurd (omega (arith, k, length-trimmed t, ap length e))
]
line-Reads (suc n) d t k h = elim (trimmed_head t) [
  | inl e ↦ trimmed-Reads d t [] e (end-Reads (d ++ blanks t))
  | inr (c, r, e, w) ↦
      let short : length r ≤ n = omega (arith, k, length-trimmed t, ap length e) in
      trimmed-Reads d t (c ∷ r) e (
        token-Reads n (d ++ blanks t) c r short w (subst IsText e (trimmed-IsText t h))
          (line-Reads n))
]

-- For a line without a NUL byte, `gettoken` is called until it returns 0, once more than there are
-- tokens. The calls return the kinds of the tokens of the line, and each pointer that comes with a
-- word leads to exactly the text of that word, ended by a NUL; `lex` describes the tokens.
pub gettoken-lex :
    (l : List ℕ) → IsText l → all_tokens (suc (length (lex l))) (set_line l) ≡ some (lex l)
unfolding set_line
gettoken-lex l h =
    let s : Tokens = record { buf = l; nc = 0; np1 = none; np2 = none } in
    rw (fetch_lem s [] l refl h) (line-Reads (length l) [] l (omega arith) h)
