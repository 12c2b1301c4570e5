-- ===== src/CString/Compare.antt =====
-- strcmp, strncmp and memcmp of string.c decide equality.
use damn_os_damn_fs.Prelude.{
  ℕ, zero, suc, ◌≤◌, ◌≡◌, refl, ◌↔◌, some, List, [], ◌∷◌, arith, ◌==◌, length, take, inl, inr,
  Bool-cases, ==_iff,
}
use damn_os_damn_fs.Prelude.Int.{ℤ, pos, sub_ℕ}
use damn_os_damn_fs.CString.{deref, strcmp, strncmp, memcmp}
use damn_os_damn_fs.CString.Scan.{text}

-- `strcmp` returns 0 exactly for two strings of the same characters.
pub strcmp-eq-zero : (p q : List ℕ) → (strcmp p q ≡ pos 0) ↔ (text p ≡ text q)
unfolding strcmp text deref
strcmp-eq-zero [] [] = (λ _. refl, λ _. refl)
strcmp-eq-zero [] (d ∷ q) = (λ h. ground arith, λ h. ground arith)
strcmp-eq-zero (c ∷ p) [] = (λ h. ground arith, λ h. ground arith)
strcmp-eq-zero (c ∷ p) (d ∷ q) =
    (λ h. ground (arith, (strcmp-eq-zero p q).0), λ h. ground (arith, (strcmp-eq-zero p q).1))

-- `strncmp` returns 0 exactly if the strings agree in their first `n` characters.
pub strncmp-eq-zero :
    (p q : List ℕ) (n : ℕ) → (strncmp p q n ≡ pos 0) ↔ (take n (text p) ≡ take n (text q))
unfolding strncmp text deref
strncmp-eq-zero p q zero = (λ _. refl, λ _. refl)
strncmp-eq-zero [] [] (suc n) = (λ _. refl, λ _. refl)
strncmp-eq-zero [] (d ∷ q) (suc n) = (λ h. ground arith, λ h. ground arith)
strncmp-eq-zero (c ∷ p) [] (suc n) = (λ h. ground arith, λ h. ground arith)
strncmp-eq-zero (c ∷ p) (d ∷ q) (suc n) =
    (λ h. ground (arith, (strncmp-eq-zero p q n).0), λ h. ground (arith, (strncmp-eq-zero p q n).1))

-- On two objects of at least `n` bytes `memcmp` reads inside them, and returns 0 exactly if their
-- first `n` bytes agree.
pub memcmp-eq-zero :
    (s t : List ℕ) (n : ℕ)
    → n ≤ length s
    → n ≤ length t
    → (r : ℤ) × (memcmp s t n ≡ some r) × ((r ≡ pos 0) ↔ (take n s ≡ take n t))
unfolding memcmp
memcmp-eq-zero s t zero hs ht = (pos 0, refl, (λ _. refl, λ _. refl))
memcmp-eq-zero [] t (suc n) hs ht = absurd (omega arith)
memcmp-eq-zero (x ∷ s) [] (suc n) hs ht = absurd (omega arith)
memcmp-eq-zero (x ∷ s) (y ∷ t) (suc n) hs ht = elim (Bool-cases (x == y)) [
  | inl e ↦
      let (r, run, iff) = memcmp-eq-zero s t n (omega arith) (omega arith) in
      let same : x ≡ y = (==_iff x y).0 e in
      (r, rw e run, (λ h. ground (arith, iff.0), λ h. iff.1 (cc)))
  | inr d ↦ (sub_ℕ x y, rw d refl, (λ h. ground arith, λ h. ground arith))
]
