-- ===== src/Bits.antt =====
-- Bits of machine words: `w & m`, `w | m` and `~m` (on 32 bits) read bit by bit.
use Prim.Native.Nat.{digits, max, bit_and-bitwise, bit_or-bitwise}
use native.Mathlib.Nat.{pow-suc, one-le-pow, div-div-eq-div-mul, div-add-mod, mul_assoc}
use native.Mathlib.Decide.{dec_lt}
use damn_os_damn_fs.Prelude.{
  ℕ, zero, suc, ◌+◌, ◌-◌, ◌*◌, ◌/◌, ◌%◌, ◌^◌, ◌≤◌, ◌<◌, min, bit_and, bit_or, ◌≡◌, refl, sym, ap,
  ◌∙◌, arith, ◌==◌, if◌then◌else◌, ◌⊎◌, inl, inr,
}

-- A count of digits that is not smaller than the first number is as good as any other.
module _ (end : ℕ → ℕ) (op : ℕ → ℕ → ℕ) where
  count-enough : (w u n m : ℕ) → w ≤ n → w ≤ m → digits end op n w u ≡ digits end op m w u
  count-enough (suc w) u (suc n) (suc m) h k =
      ap (λ d. d * 2 + op (suc w % 2) (u % 2))
        (count-enough (suc w / 2) (u / 2) n m (omega arith) (omega arith))
  count-enough zero u (suc n) (suc m) h k = refl
  count-enough zero u zero (suc m) h k = refl
  count-enough (suc w) u zero m h k = absurd (omega arith)
  count-enough zero u zero zero h k = refl
  count-enough zero u (suc n) zero h k = refl
  count-enough (suc w) u (suc n) zero h k = absurd (omega arith)

-- The lowest digit of `w & u` and of `w | u`, and the others.
bit_and_step : (w u : ℕ) → bit_and w u ≡ bit_and (w / 2) (u / 2) * 2 + min (w % 2) (u % 2)
bit_and_step (suc w) u = omega (
  arith,
  count-enough (λ d. zero) min (suc w / 2) (u / 2) w (suc w / 2) (omega arith) (omega arith),
  bit_and-bitwise (suc w / 2) (u / 2),
  bit_and-bitwise (suc w) u,
)
bit_and_step zero u = omega (arith, bit_and-bitwise 0 (u / 2), bit_and-bitwise 0 u)

bit_or_step : (w u : ℕ) → bit_or w u ≡ bit_or (w / 2) (u / 2) * 2 + max (w % 2) (u % 2)
bit_or_step (suc w) u = omega (
  arith,
  count-enough (λ d. d) max (suc w / 2) (u / 2) w (suc w / 2) (omega arith) (omega arith),
  bit_or-bitwise (suc w / 2) (u / 2),
  bit_or-bitwise (suc w) u,
)
bit_or_step zero u = omega (arith, bit_or-bitwise 0 (u / 2), bit_or-bitwise 0 u)

-- Bit `j` of `w`.
unfoldable pub bit : ℕ → ℕ → ℕ
bit w zero = w % 2
bit w (suc j) = bit (w / 2) j

bit-le-one : (w j : ℕ) → bit w j ≤ 1
unfolding bit
bit-le-one w zero = omega arith
bit-le-one w (suc j) = bit-le-one (w / 2) j

bit-zero : (j : ℕ) → bit 0 j ≡ 0
unfolding bit
bit-zero zero = refl
bit-zero (suc j) = bit-zero j

bit-bit_and : (a b j : ℕ) → bit (bit_and a b) j ≡ min (bit a j) (bit b j)
unfolding bit
bit-bit_and a b zero = omega (arith, bit_and_step a b)
bit-bit_and a b (suc j) =
    let e : bit_and a b / 2 ≡ bit_and (a / 2) (b / 2) = omega (arith, bit_and_step a b) in
    rw e (bit-bit_and (a / 2) (b / 2) j)

bit-bit_or : (a b j : ℕ) → bit (bit_or a b) j ≡ max (bit a j) (bit b j)
unfolding bit
bit-bit_or a b zero = omega (arith, bit_or_step a b)
bit-bit_or a b (suc j) =
    let e : bit_or a b / 2 ≡ bit_or (a / 2) (b / 2) = omega (arith, bit_or_step a b) in
    rw e (bit-bit_or (a / 2) (b / 2) j)

two-pow-half : (k : ℕ) → 2 ^ suc k / 2 ≡ 2 ^ k
two-pow-half k = omega (arith, pow-suc 2 k)

bit-two_pow : (k j : ℕ) → bit (2 ^ k) j ≡ (if k == j then 1 else 0)
unfolding bit
bit-two_pow zero zero = refl
bit-two_pow zero (suc j) = ground (arith, bit-zero j)
bit-two_pow (suc k) zero = ground (arith, pow-suc 2 k)
bit-two_pow (suc k) (suc j) = rw (two-pow-half k) (ground (arith, bit-two_pow k j))

-- The bits of the complement of `m` on `n` bits.
bit-complement : (n m j : ℕ) → m < 2 ^ n → j < n → bit (2 ^ n - 1 - m) j ≡ 1 - bit m j
unfolding bit
bit-complement zero m j h l = absurd (omega arith)
bit-complement (suc n) m zero h l = omega (arith, pow-suc 2 n)
bit-complement (suc n) m (suc j) h l =
    let e : (2 ^ suc n - 1 - m) / 2 ≡ 2 ^ n - 1 - m / 2 = omega (arith, pow-suc 2 n) in
    rw e (bit-complement n (m / 2) j (omega (arith, pow-suc 2 n)) (omega arith))

two_pow_lt : (k n : ℕ) → k < n → 2 ^ k < 2 ^ n
two_pow_lt zero zero h = absurd (omega arith)
two_pow_lt zero (suc n) h = omega (arith, pow-suc 2 n, one-le-pow n 2)
two_pow_lt (suc k) zero h = absurd (omega arith)
two_pow_lt (suc k) (suc n) h = omega (arith, pow-suc 2 n, pow-suc 2 k, two_pow_lt k n)

-- `~m` on 32 bits.
unfoldable pub complement : ℕ → ℕ
complement m = 2 ^ 32 - 1 - m

-- `w | (1 << k)` sets bit `k` and no other.
pub bit-set_bit : (w k j : ℕ) → bit (bit_or w (2 ^ k)) j ≡ (if k == j then 1 else bit w j)
bit-set_bit w k j = ground (arith, bit-bit_or w (2 ^ k) j, bit-two_pow k j, bit-le-one w j)

-- `w & ~(1 << k)` clears bit `k` and no other.
pub bit-clear_bit :
    (w k j : ℕ)
    → k < 32
    → j < 32
    → bit (bit_and w (complement (2 ^ k))) j ≡ (if k == j then 0 else bit w j)
unfolding complement
bit-clear_bit w k j hk hj = ground (
  arith,
  bit-bit_and w (2 ^ 32 - 1 - 2 ^ k) j,
  bit-complement 32 (2 ^ k) j (two_pow_lt k 32 hk) hj,
  bit-two_pow k j,
  bit-le-one w j,
)

bit_and-zero_of_halves : (k a : ℕ) → a ≤ k → bit_and a 0 ≡ 0
bit_and-zero_of_halves k zero h = refl
bit_and-zero_of_halves zero (suc a) h = absurd (omega arith)
bit_and-zero_of_halves (suc k) (suc a) h =
    omega (arith, bit_and_step (suc a) 0, bit_and-zero_of_halves k (suc a / 2) (omega arith))

-- `w & (1 << k)` is bit `k` in its place.
pub bit_and-two_pow : (w k : ℕ) → bit_and w (2 ^ k) ≡ bit w k * 2 ^ k
unfolding bit
bit_and-two_pow w zero =
    omega (arith, bit_and_step w 1, bit_and-zero_of_halves (w / 2) (w / 2) (omega arith))
bit_and-two_pow w (suc k) =
    let half : bit_and w (2 ^ suc k) ≡ bit_and (w / 2) (2 ^ k) * 2 =
      omega (arith, bit_and_step w (2 ^ suc k), pow-suc 2 k, ap_half) in
    grind (arith, half, bit_and-two_pow (w / 2) k, pow-suc 2 k)
  where
    ap_half : bit_and (w / 2) (2 ^ suc k / 2) ≡ bit_and (w / 2) (2 ^ k)
    ap_half = rw (two-pow-half k)

bit-cases : (w k : ℕ) → (bit w k ≡ 0) ⊎ (bit w k ≡ 1)
bit-cases w k = omega (arith, bit-le-one w k)

-- The test `(w & (1 << k)) == 0` reads bit `k`.
pub test_bit : (w k : ℕ) → (bit_and w (2 ^ k) == 0) ≡ (bit w k == 0)
test_bit w k = elim (bit-cases w k) [
  | inl e ↦ ground (arith, bit_and-two_pow w k)
  | inr e ↦ ground (arith, bit_and-two_pow w k, one-le-pow k 2)
]

low_bits_half : (k w : ℕ) → w % 2 ^ suc k ≡ (w / 2) % 2 ^ k * 2 + w % 2
low_bits_half k w =
    let double : 2 ^ suc k ≡ 2 * 2 ^ k = omega (arith, pow-suc 2 k) in
    let quotient : w / (2 * 2 ^ k) ≡ w / 2 / 2 ^ k = sym (div-div-eq-div-mul w 2 (2 ^ k)) in
    let whole : 2 * 2 ^ k * (w / 2 / 2 ^ k) + w % (2 * 2 ^ k) ≡ w =
      rw (← quotient) (div-add-mod w (2 * 2 ^ k)) in
    rw double
      (omega (arith, whole, div-add-mod (w / 2) (2 ^ k), mul_assoc 2 (2 ^ k) (w / 2 / 2 ^ k)))

-- `w & (2^k - 1)` is the remainder by `2^k`.
pub bit_and_low_bits : (k w : ℕ) → bit_and w (2 ^ k - 1) ≡ w % 2 ^ k
bit_and_low_bits zero w = omega (arith, bit_and-zero_of_halves w w (omega arith))
bit_and_low_bits (suc k) w =
    let half : (2 ^ suc k - 1) / 2 ≡ 2 ^ k - 1 = omega (arith, pow-suc 2 k, one-le-pow k 2) in
    let odd : (2 ^ suc k - 1) % 2 ≡ 1 = omega (arith, pow-suc 2 k, one-le-pow k 2) in
    let e : bit_and (w / 2) ((2 ^ suc k - 1) / 2) ≡ (w / 2) % 2 ^ k =
      rw half (bit_and_low_bits k (w / 2)) in
    omega (arith, bit_and_step w (2 ^ suc k - 1), odd, e, low_bits_half k w)

bit_or_zero_left : (b : ℕ) → bit_or 0 b ≡ b
bit_or_zero_left b = omega (arith, bit_or-bitwise 0 b)

bit_or_zero_right : (n a : ℕ) → a ≤ n → bit_or a 0 ≡ a
bit_or_zero_right zero a h = let z : a ≡ 0 = omega arith in rw z (bit_or_zero_left 0)
bit_or_zero_right (suc n) a h = elim (dec_lt 0 a) [
  | yes p ↦ omega (arith, bit_or_step a 0, bit_or_zero_right n (a / 2) (omega arith))
  | no z ↦ let e : a ≡ 0 = omega arith in rw e (bit_or_zero_left 0)
]

-- A word whose low `k` bits are clear takes the bits of a number below `2 ^ k`.
pub bit_or_low : (k a b : ℕ) → b < 2 ^ k → bit_or (a * 2 ^ k) b ≡ a * 2 ^ k + b
bit_or_low zero a b h =
    let z : b ≡ 0 = omega arith in
    rw z (omega (arith, bit_or_zero_right (a * 1) (a * 1) (omega arith)))
bit_or_low (suc k) a b h =
    let two : 2 ^ suc k ≡ 2 ^ k * 2 = omega (arith, pow-suc 2 k) in
    let eq : a * 2 ^ suc k ≡ a * 2 ^ k * 2 = ap (λ m. a * m) two ∙ sym (mul_assoc a (2 ^ k) 2) in
    let half : a * 2 ^ suc k / 2 ≡ a * 2 ^ k = omega arith in
    let rec : bit_or (a * 2 ^ suc k / 2) (b / 2) ≡ a * 2 ^ k + b / 2 =
      ap (λ m. bit_or m (b / 2)) half ∙ bit_or_low k a (b / 2) (omega arith) in
    omega (arith, bit_or_step (a * 2 ^ suc k) b)
