-- ===== src/CString/Copy.antt =====
-- strcpy, strcat, strncpy and strlcpy of string.c: what is copied, what is kept, and when the
-- destination is too small.
use damn_os_damn_fs.Prelude.{
  ℕ, zero, suc, ◌+◌, ◌-◌, ◌≤◌, ◌<◌, min, ◌≡◌, refl, ap, ◌∙◌, true, none, some, List, [], ◌∷◌, ◌++◌,
  arith, ◌==◌, if◌then◌else◌, length, take, drop, inl, inr, Bool-cases,
}
use native.Mathlib.Numerals.{add-one}
use damn_os_damn_fs.CString.{
  deref, strlen, strcpy, strcpy_at, strcat, advance, strncpy, strlcpy_loop, strlcpy,
}
use damn_os_damn_fs.CString.Scan.{text}

-- `strcpy` of a string that fits writes its characters and a NUL, and leaves the bytes behind as
-- they were.
pub strcpy-text :
    (dst src : List ℕ)
    → strlen src < length dst
    → strcpy dst src ≡ some (text src ++ 0 ∷ drop (strlen src + 1) dst)
unfolding strcpy strlen text
strcpy-text [] src h = absurd (omega arith)
strcpy-text (d ∷ dst) [] h = refl
strcpy-text (d ∷ dst) (c ∷ src) h = ground (arith, strcpy-text dst src)

-- A destination too small for the characters and the NUL is overrun.
pub strcpy-none : (dst src : List ℕ) → length dst ≤ strlen src → strcpy dst src ≡ none
unfolding strcpy strlen
strcpy-none [] src h = refl
strcpy-none (d ∷ dst) [] h = absurd (omega arith)
strcpy-none (d ∷ dst) (c ∷ src) h = ground (arith, strcpy-none dst src)

text-append_zero : (s rest : List ℕ) → text (text s ++ 0 ∷ rest) ≡ text s
unfolding text
text-append_zero [] rest = refl
text-append_zero (c ∷ s) rest = ground (arith, text-append_zero s rest)

strcpy_at-keep :
    (dst src : List ℕ) (n : ℕ)
    → strlen src + n < length dst
    → strcpy_at dst n src ≡ some (take n dst ++ (text src ++ 0 ∷ drop (n + strlen src + 1) dst))
unfolding strcpy_at
strcpy_at-keep dst src zero h = rw (strcpy-text dst src (omega arith)) (ground arith)
strcpy_at-keep [] src (suc n) h = absurd (omega arith)
strcpy_at-keep (d ∷ dst) src (suc n) h =
    let e : suc n + strlen src + 1 ≡ suc (n + strlen src + 1) = omega arith in
    rw (e, strcpy_at-keep dst src n (omega arith)) refl

take-strlen : (s : List ℕ) → take (strlen s) s ≡ text s
unfolding strlen text
take-strlen [] = refl
take-strlen (c ∷ s) = elim (Bool-cases (c == 0)) [
  | inl e ↦ rw e refl
  | inr n ↦ rw (n, add-one) (ap (λ t. c ∷ t) (take-strlen s))
]

-- `strcat` appends: the destination then holds its own characters, those of the source and a NUL,
-- and its other bytes are unchanged, if all of it fits.
pub strcat-text :
    (dst src : List ℕ)
    → strlen src + strlen dst < length dst
    → strcat dst src ≡ some (text dst ++ (text src ++ 0 ∷ drop (strlen dst + strlen src + 1) dst))
unfolding strcat
strcat-text dst src h =
    strcpy_at-keep dst src (strlen dst) h
    ∙ ap (λ t. some (t ++ (text src ++ 0 ∷ drop (strlen dst + strlen src + 1) dst)))
        (take-strlen dst)

-- the first `n` characters of `s`, padded with NULs to `n`
unfoldable pub padded : List ℕ → ℕ → List ℕ
padded s zero = []
padded [] (suc n) = 0 ∷ padded [] n
padded (c ∷ s) (suc n) = if c == 0 then 0 ∷ padded [] n else c ∷ padded s n

padded-zero : (c : ℕ) (s : List ℕ) (n : ℕ) → (c == 0) ≡ true → padded (c ∷ s) n ≡ padded [] n
unfolding padded
padded-zero c s zero e = refl
padded-zero c s (suc n) e = rw e refl

-- `strncpy` writes exactly `size` bytes, the characters of the source padded with NULs, and leaves
-- those behind as they were.
pub strncpy-padded :
    (dst src : List ℕ) (size : ℕ)
    → size ≤ length dst
    → strncpy dst src size ≡ some (padded src size ++ drop size dst)
unfolding strncpy padded deref advance
strncpy-padded dst src zero h = refl
strncpy-padded [] src (suc n) h = absurd (omega arith)
strncpy-padded (d ∷ dst) [] (suc n) h = rw (strncpy-padded dst [] n (omega arith)) refl
strncpy-padded (d ∷ dst) (c ∷ src) (suc n) h = elim (Bool-cases (c == 0)) [
  | inl e ↦
      rw (e, strncpy-padded dst (c ∷ src) n (omega arith), padded-zero c src n e) (ground arith)
  | inr ne ↦ rw (ne, strncpy-padded dst src n (omega arith)) refl
]

strlcpy_loop-take :
    (dst src : List ℕ) (room : ℕ)
    → room < length dst
    → let n = min (strlen src) room in
      strlcpy_loop dst src room ≡ some (take n (text src) ++ 0 ∷ drop (n + 1) dst, n)
unfolding strlcpy_loop strlen text
strlcpy_loop-take [] src room h = absurd (omega arith)
strlcpy_loop-take (d ∷ dst) src zero h = let e : min (strlen src) 0 ≡ 0 = omega arith in rw e refl
strlcpy_loop-take (d ∷ dst) [] (suc room) h =
    let e : min 0 (suc room) ≡ 0 = omega arith in rw e refl
strlcpy_loop-take (d ∷ dst) (c ∷ src) (suc room) h = elim (Bool-cases (c == 0)) [
  | inl z ↦ let e : min 0 (suc room) ≡ 0 = omega arith in rw (z, e) refl
  | inr ne ↦
      let e : min (strlen src + 1) (suc room) ≡ suc (min (strlen src) room) = omega arith in
      let e' : suc (min (strlen src) room) + 1 ≡ suc (min (strlen src) room + 1) = omega arith in
      rw (ne, e, e', strlcpy_loop-take dst src room (omega arith))
        (ap
          (λ k. some (
            c
                ∷ (take (min (strlen src) room) (text src)
                    ++ 0 ∷ drop (min (strlen src) room + 1) dst),
            k,
          ))
          (omega arith))
]

-- `strlcpy` into a buffer of `size` bytes never writes behind it: it copies as many characters as
-- fit, ends them with a NUL, and returns their number.
pub strlcpy-take :
    (dst src : List ℕ) (size : ℕ)
    → 0 < size
    → size ≤ length dst
    → let n = min (strlen src) (size - 1) in
      strlcpy dst src size ≡ some (take n (text src) ++ 0 ∷ drop (n + 1) dst, n)
unfolding strlcpy
strlcpy-take dst src zero p h = absurd (omega arith)
strlcpy-take dst src (suc size) p h =
    let e : suc size - 1 ≡ size = omega arith in rw e (strlcpy_loop-take dst src size (omega arith))
