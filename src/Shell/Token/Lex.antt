-- ===== src/Shell/Token/Lex.antt =====
-- The tokens of a line, described from its back, and what `gettoken` of sh.c leaves of a word.
use damn_os_damn_fs.Prelude.{
  ℕ, zero, suc, ◌≤◌, ◌≡◌, refl, sym, ap, ap₂, ◌∙◌, ◌≢◌, inl, inr, true, false, ◌&&◌, not, Option,
  none, some, List, [], ◌∷◌, ◌++◌, append_assoc, arith, ◌==◌, if◌then◌else◌, Bool-cases, length,
  drop,
}
use damn_os_damn_fs.CString.{strchr}
use damn_os_damn_fs.CString.Scan.{text, IsText}
use damn_os_damn_fs.Shell.Token.{Tokens, is_white, is_symbol, is_plain, gettoken}
use damn_os_damn_fs.Shell.Token.Scan.{blanks, trimmed, word, behind, fetched}

-- A token: its kind, and for a word its text.
abbrev pub Token : Type 0
Token = ℕ × List ℕ

-- the character `c` of a word, before the characters `s`, whose tokens are `t`
unfoldable pub glue : ℕ → List ℕ → List Token → List Token
glue c [] t = (b'w', c ∷ []) ∷ t
glue c (d ∷ s) [] = (b'w', c ∷ []) ∷ []
glue c (d ∷ s) ((k, w) ∷ t) = if is_plain d then (b'w', c ∷ w) ∷ t else (b'w', c ∷ []) ∷ (k, w) ∷ t

unfoldable pub lex : List ℕ → List Token
unfolding glue
lex [] = []
lex (c ∷ s) =
    let t = lex s in if is_white c then t else if is_symbol c then (c, []) ∷ t else glue c s t

unfoldable pub token_text : Option ℕ → List ℕ → List ℕ
unfolding text
token_text none l = []
token_text (some i) l = text (drop i l)

-- What is done with a token that `gettoken` returned, before the tokens that `rest` reads.
unfoldable pub read_token :
    (ℕ × Option ℕ) × Tokens → (Tokens → Option (List Token)) → Option (List Token)
unfolding token_text
read_token r rest =
    if r.0.0 == 0
    then some []
    else elim (rest r.1) [ none ↦ none | some t ↦ some ((r.0.0, token_text r.0.1 r.1.buf) ∷ t) ]

-- `gettoken` is called until it returns 0, at most `n` times; each token is read when it is returned.
unfoldable pub all_tokens : ℕ → Tokens → Option (List Token)
unfolding gettoken read_token
all_tokens zero s = none
all_tokens (suc n) s = read_token (gettoken s) (all_tokens n)

pub lex-trimmed : (s : List ℕ) → lex (trimmed s) ≡ lex s
unfolding lex trimmed
lex-trimmed [] = refl
lex-trimmed (c ∷ s) = elim (Bool-cases (is_white c)) [
  | inl y ↦ rw (y, lex-trimmed s) refl
  | inr n ↦ rw (n, lex, n) refl
]

pub plain_cases : (c : ℕ) → c ≢ 0 → is_plain c ≡ (not (is_white c) && not (is_symbol c))
unfolding is_plain is_white is_symbol strchr
plain_cases c h = ground arith

pub glue_stop :
    (c d : ℕ) (s : List ℕ) (t : List Token)
    → is_plain d ≡ false
    → glue c (d ∷ s) t ≡ (b'w', c ∷ []) ∷ t
unfolding glue
glue_stop c d s [] e = refl
glue_stop c d s ((k, w) ∷ t) e = rw e refl

lex_plain :
    (c : ℕ) (s : List ℕ) → is_white c ≡ false → is_symbol c ≡ false → lex (c ∷ s) ≡ glue c s (lex s)
unfolding lex
lex_plain c s w n = rw (w, n) refl

word_plain : (c : ℕ) (s : List ℕ) → is_plain c ≡ true → word (c ∷ s) ≡ c ∷ word s
unfolding word
word_plain c s p = rw p refl

pub behind_plain : (c : ℕ) (s : List ℕ) → is_plain c ≡ true → behind (c ∷ s) ≡ behind s
unfolding behind
behind_plain c s p = rw p refl

word_shut : (c : ℕ) (s : List ℕ) → is_plain c ≡ false → word (c ∷ s) ≡ []
unfolding word
word_shut c s p = rw p refl

behind_shut : (c : ℕ) (s : List ℕ) → is_plain c ≡ false → behind (c ∷ s) ≡ c ∷ s
unfolding behind
behind_shut c s p = rw p refl

glue_on :
    (c d : ℕ) (s w : List ℕ) (t : List Token)
    → is_plain d ≡ true
    → glue c (d ∷ s) ((b'w', w) ∷ t) ≡ (b'w', c ∷ w) ∷ t
unfolding glue
glue_on c d s w t e = rw e refl

lex_single :
    (c : ℕ)
    → is_white c ≡ false
    → is_symbol c ≡ false
    → is_plain c ≡ true
    → lex (c ∷ []) ≡ (b'w', word (c ∷ [])) ∷ lex (behind (c ∷ []))
unfolding lex glue word behind
lex_single c w s p = rw (w, s, p) refl

pub lex-word :
    (c : ℕ) (r : List ℕ)
    → is_white c ≡ false
    → is_symbol c ≡ false
    → is_plain c ≡ true
    → IsText r
    → lex (c ∷ r) ≡ (b'w', word (c ∷ r)) ∷ lex (behind (c ∷ r))
unfolding IsText
lex-word c [] w s p h = lex_single c w s p
lex-word c (d ∷ r) w s p h =
    let joined =
      sym (ap₂ (λ v t. (b'w', v) ∷ lex t) (word_plain c (d ∷ r) p) (behind_plain c (d ∷ r) p)) in
    elim (Bool-cases (is_plain d)) [
      | inr n ↦
          lex_plain c (d ∷ r) w s
          ∙ glue_stop c d r (lex (d ∷ r)) n
          ∙ sym (ap₂ (λ v t. (b'w', c ∷ v) ∷ lex t) (word_shut d r n) (behind_shut d r n))
          ∙ joined
      | inl y ↦
          let cases = sym (plain_cases d h.0) ∙ y in
          let dw : is_white d ≡ false = ground (arith, cases) in
          let ds : is_symbol d ≡ false = ground (arith, cases) in
          lex_plain c (d ∷ r) w s
          ∙ ap (glue c (d ∷ r)) (lex-word d r dw ds y h.1)
          ∙ glue_on c d r (word (d ∷ r)) (lex (behind (d ∷ r))) y
          ∙ joined
    ]

-- What `gettoken` writes into the line behind its token.
unfoldable pub scrub : List ℕ → List ℕ
scrub [] = []
scrub (c ∷ r) = if is_symbol c then 0 ∷ r else c ∷ r

pub fetched-buf : (e t : List ℕ) → (fetched e t).buf ≡ e ++ scrub t
unfolding scrub
fetched-buf e [] = refl
fetched-buf e (c ∷ r) = elim (Bool-cases (is_symbol c)) [
  | inl y ↦ rw (y) (append_assoc e (0 ∷ []) r)
  | inr n ↦ rw n refl
]

pub drop-append : (e x : List ℕ) → drop (length e) (e ++ x) ≡ x
drop-append [] x = refl
drop-append (c ∷ e) x = drop-append e x

-- the string ends before `x`
abbrev pub Ends : List ℕ → Type 0
Ends [] = Unit
Ends (c ∷ x) = c ≡ 0

pub text-append : (w x : List ℕ) → IsText w → Ends x → text (w ++ x) ≡ w
unfolding text IsText
text-append [] [] h e = refl
text-append [] (c ∷ x) h e = rw e refl
text-append (c ∷ w) x h e =
    let some_byte : c == 0 ≡ false = ground (arith, h.0) in
    rw (some_byte, text-append w x h.1 e) refl

pub word-IsText : (s : List ℕ) → IsText s → IsText (word s)
unfolding word IsText
word-IsText [] h = tt
word-IsText (c ∷ s) h = elim (Bool-cases (is_plain c)) [
  | inl y ↦ rw y (h.0, word-IsText s h.1)
  | inr n ↦ rw n tt
]

pub word-behind : (s : List ℕ) → word s ++ behind s ≡ s
unfolding word behind
word-behind [] = refl
word-behind (c ∷ s) = elim (Bool-cases (is_plain c)) [
  | inl y ↦ rw (y) (ap (λ l. c ∷ l) (word-behind s))
  | inr n ↦ rw n refl
]

-- What follows a word begins with a NUL once the next token has been looked for.
pub behind-Ends : (s : List ℕ) → IsText s → Ends (blanks (behind s) ++ scrub (trimmed (behind s)))
unfolding behind blanks trimmed scrub IsText
behind-Ends [] h = tt
behind-Ends (c ∷ s) h = elim (Bool-cases (is_plain c)) [
  | inl y ↦ rw y (behind-Ends s h.1)
  | inr n ↦
      let cases = sym (plain_cases c h.0) ∙ n in
      elim (Bool-cases (is_white c)) [
        | inl y ↦ rw (n, y) refl
        | inr m ↦ let y : is_symbol c ≡ true = ground (arith, cases, m) in rw (n, m, y) refl
      ]
]

pub length-trimmed : (s : List ℕ) → length (trimmed s) ≤ length s
unfolding trimmed
length-trimmed [] = omega arith
length-trimmed (c ∷ s) = ground (arith, length-trimmed s)

pub length-behind : (s : List ℕ) → length (behind s) ≤ length s
unfolding behind
length-behind [] = omega arith
length-behind (c ∷ s) = ground (arith, length-behind s)
