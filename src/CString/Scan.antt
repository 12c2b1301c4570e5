-- ===== src/CString/Scan.antt =====
-- What a C string holds, and what strlen, strnlen, strchr and strfind of string.c find in it.
use damn_os_damn_fs.Prelude.{
  ℕ, zero, suc, ◌≤◌, min, ◌≡◌, ◌≢◌, refl, ◌↔◌, ap, Bool, false, ◌||◌, none, some, List, [], ◌∷◌,
  ◌++◌, arith, ◌==◌, if◌then◌else◌, length, ◌⊎◌, inl, inr, Bool-cases,
}
use damn_os_damn_fs.CString.{deref, strlen, strnlen, strchr, strfind}

-- the characters of a C string: the bytes before the first NUL
unfoldable pub text : List ℕ → List ℕ
text [] = []
text (c ∷ s) = let r = text s in if c == 0 then [] else c ∷ r

-- no byte of a string is NUL
unfoldable pub IsText : List ℕ → Type 0
IsText [] = Unit
IsText (c ∷ s) = (c ≢ 0) × IsText s

unfoldable pub holds : ℕ → List ℕ → Bool
holds c [] = false
holds c (x ∷ s) = x == c || holds c s

-- `strlen` is the number of characters before the first NUL.
pub strlen-length : (s : List ℕ) → strlen s ≡ length (text s)
unfolding strlen text
strlen-length [] = refl
strlen-length (c ∷ s) = ground (arith, strlen-length s)

-- `strnlen` is that number, or the bound where it is smaller.
pub strnlen-min : (s : List ℕ) (size : ℕ) → strnlen s size ≡ min (strlen s) size
unfolding strlen strnlen
strnlen-min [] zero = refl
strnlen-min (c ∷ s) zero = omega arith
strnlen-min [] (suc size) = omega arith
strnlen-min (c ∷ s) (suc size) = ground (arith, strnlen-min s size)

pub strlen-le-length : (s : List ℕ) → strlen s ≤ length s
unfolding strlen
strlen-le-length [] = omega arith
strlen-le-length (c ∷ s) = ground (arith, strlen-le-length s)

-- where a scan for `c` has stopped at `r`: what it passed over, and what it stands on
pub record Stops (s : List ℕ) (c : ℕ) (r : List ℕ) : Type 0 where
  pub passed : List ℕ
  pub split : s ≡ passed ++ r
  pub no_end : holds 0 passed ≡ false
  pub no_match : holds c passed ≡ false
  pub stands : (deref r ≡ 0) ⊎ (deref r ≡ c)

Stops-here : (s : List ℕ) (c : ℕ) → (deref s ≡ 0) ⊎ (deref s ≡ c) → Stops s c s
unfolding holds
Stops-here s c h = record { passed = []; split = refl; no_end = refl; no_match = refl; stands = h }

Stops-next :
    {s r : List ℕ} {c : ℕ} (x : ℕ)
    → (x == 0) ≡ false
    → (x == c) ≡ false
    → Stops s c r
    → Stops (x ∷ s) c r
unfolding holds
Stops-next x ne nm h = record {
  passed = x ∷ h.passed;
  split = ap (λ t. x ∷ t) h.split;
  no_end = rw ne h.no_end;
  no_match = rw nm h.no_match;
  stands = h.stands;
}

-- `strfind` stops at the first character `c`, or at the NUL where there is none.
pub strfind-Stops : (s : List ℕ) (c : ℕ) → Stops s c (strfind s c)
unfolding strfind deref
strfind-Stops [] c = Stops-here [] c (inl refl)
strfind-Stops (x ∷ s) c = elim (Bool-cases (x == 0)) [
  | inl e ↦ rw e (Stops-here (x ∷ s) c (inl (ground arith)))
  | inr n ↦ elim (Bool-cases (x == c)) [
    | inl e ↦ rw (n, e) (Stops-here (x ∷ s) c (inr (ground arith)))
    | inr m ↦ rw (n, m) (Stops-next x n m (strfind-Stops s c))
  ]
]

-- `strchr` returns the place where `strfind` stops if a character `c` other than NUL stands there,
-- and the null pointer if the end does.
pub strchr-strfind :
    (s : List ℕ) (c : ℕ)
    → strchr s c ≡ (if deref (strfind s c) == 0 then none else some (strfind s c))
unfolding strchr strfind deref
strchr-strfind [] c = refl
strchr-strfind (x ∷ s) c = ground (arith, strchr-strfind s c)

-- `strchr` fails exactly when no character of the string is `c`.
pub strchr-none : (s : List ℕ) (c : ℕ) → (strchr s c ≡ none) ↔ (holds c (text s) ≡ false)
unfolding strchr text holds
strchr-none [] c = (λ _. refl, λ _. refl)
strchr-none (x ∷ s) c =
    (λ h. ground (arith, (strchr-none s c).0), λ h. ground (arith, (strchr-none s c).1))
