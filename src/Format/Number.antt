-- ===== src/Format/Number.antt =====
-- The digits that printnum of stdio.c puts: strtol of string.c reads them back.
use damn_os_damn_fs.Prelude.{
  ℕ, zero, suc, ◌+◌, ◌-◌, ◌*◌, ◌/◌, ◌%◌, ◌^◌, ◌≤◌, ◌<◌, ◌≡◌, refl, sym, ap, subst, ◌∙◌, ◌≢◌, Bool,
  true, false, ◌&&◌, ◌||◌, not, Option, none, some, List, [], ◌∷◌, ◌++◌, append_assoc, arith, leb,
  ◌==◌, if◌then◌else◌, length, replicate, length-append,
}
use damn_os_damn_fs.CString.{deref, digit, digits_loop, skip_blanks, sign, prefix, strtol}
use mathlib.Core.Option
use native.Mathlib.Decide.{dec_lt}
use native.Mathlib.Nat.{mod-lt, mod-eq_of_lt, div-add-mod', div-lt_self}
use damn_os_damn_fs.Prelude.Table.{passes, passes-each}
use damn_os_damn_fs.Format.{hex_digit, print_digits, printnum}

-- A test of the digits of all bases, which is run: their values, and that they are no blank, sign
-- or `x`.
abbrev digit_test : ℕ → Bool
digit_test d =
    elim (digit (hex_digit d)) [ none ↦ false | some k ↦ k == d ]
    && not (
        hex_digit d == 0
        || hex_digit d == b' '
        || hex_digit d == 9
        || hex_digit d == b'+'
        || hex_digit d == b'-'
        || hex_digit d == b'x')

digit_table : passes digit_test 16 ≡ true
unfolding passes digit hex_digit
digit_table = refl

-- where the digits of all bases start the number
record IsDigit (c d : ℕ) : Type 0 where
  value : digit c ≡ some d
  not_nul : c ≢ 0
  not_blank : (c ≢ b' ') × (c ≢ 9)
  not_sign : (c ≢ b'+') × (c ≢ b'-')
  not_x : c ≢ b'x'

some_value : (o : Option ℕ) (d : ℕ) → elim o [ none ↦ false | some k ↦ k == d ] ≡ true → o ≡ some d
some_value none d h = absurd (ground (arith, h))
some_value (some k) d h = ap some (ground (arith, h))

test-IsDigit :
    (c d : ℕ) (o : Option ℕ)
    → digit c ≡ o
    → (elim o [ none ↦ false | some k ↦ k == d ]
        && not (c == 0 || c == b' ' || c == 9 || c == b'+' || c == b'-' || c == b'x'))
      ≡ true
    → IsDigit c d
test-IsDigit c d none e h = absurd (ground (arith, h))
test-IsDigit c d (some k) e h = record {
  value = e ∙ ap some (ground (arith, h));
  not_nul = λ z. ground (arith, h, z);
  not_blank = (λ z. ground (arith, h, z), λ z. ground (arith, h, z));
  not_sign = (λ z. ground (arith, h, z), λ z. ground (arith, h, z));
  not_x = λ z. ground (arith, h, z);
}

hex_digit-IsDigit : (d : ℕ) → d < 16 → IsDigit (hex_digit d) d
hex_digit-IsDigit d h =
    test-IsDigit (hex_digit d) d (digit (hex_digit d)) refl
      (passes-each digit_test 16 d h digit_table)

-- The digits of a base, and no others.
abbrev AllDigits : ℕ → List ℕ → Type 0
AllDigits base [] = Unit
AllDigits base (c ∷ s) = ((d : ℕ) × (d < base) × IsDigit c d) × AllDigits base s

AllDigits-snoc :
    (base : ℕ) (s : List ℕ) (c d : ℕ)
    → AllDigits base s
    → d < base
    → IsDigit c d
    → AllDigits base (s ++ (c ∷ []))
AllDigits-snoc base [] c d a lt i = ((d, lt, i), tt)
AllDigits-snoc base (x ∷ s) c d a lt i = (a.0, AllDigits-snoc base s c d a.1 lt i)

digits_loop-cons :
    (c : ℕ) (s : List ℕ) (base val d : ℕ)
    → IsDigit c d
    → d < base
    → digits_loop (c ∷ s) base val ≡ digits_loop s base ((val * base + d) % 2 ^ 32)
unfolding digits_loop
digits_loop-cons c s base val d i lt =
    let small : leb base d ≡ false = ground arith in
    ap
      (λ (o : Option ℕ). elim o as (λ _. ℕ × List ℕ) [
        | none ↦ (val, c ∷ s)
        | some dig ↦
            if leb base dig then (val, c ∷ s) else digits_loop s base ((val * base + dig) % 2 ^ 32)
      ])
      i.value
    ∙ ap (λ (b : Bool). if b then (val, c ∷ s) else digits_loop s base ((val * base + d) % 2 ^ 32))
        small

digits_loop-nil : (base val : ℕ) → digits_loop [] base val ≡ (val, [])
unfolding digits_loop
digits_loop-nil base val = refl

digits_loop-snoc :
    (s : List ℕ) (base val v c d : ℕ)
    → AllDigits base s
    → digits_loop s base val ≡ (v, [])
    → IsDigit c d
    → d < base
    → digits_loop (s ++ (c ∷ [])) base val ≡ ((v * base + d) % 2 ^ 32, [])
unfolding digits_loop
digits_loop-snoc [] base val v c d a h i lt =
    digits_loop-cons c [] base val d i lt
    ∙ ap (λ (r : ℕ × List ℕ). ((r.0 * base + d) % 2 ^ 32, [])) h
digits_loop-snoc (x ∷ s) base val v c d a h i lt =
    let (e, small, j) = a.0 in
    digits_loop-cons x (s ++ (c ∷ [])) base val e j small
    ∙ digits_loop-snoc s base ((val * base + e) % 2 ^ 32) v c d a.1
        (sym (digits_loop-cons x s base val e j small) ∙ h) i lt

-- The characters of a number as a list; with enough fuel these are those that `printnum` puts.
digits_of : ℕ → ℕ → ℕ → ℕ → ℕ → List ℕ
digits_of zero num base width padc = []
digits_of (suc fuel) num base width padc =
    elim (leb base num) [
      | true ↦ digits_of fuel (num / base) base (width - 1) padc
      | false ↦ replicate (width - 1) padc
    ]
    ++ (hex_digit (num % base) ∷ [])

print_digits-some :
    (fuel num base width padc : ℕ)
    → num < fuel
    → 2 ≤ base
    → print_digits fuel num base width padc ≡ some (digits_of fuel num base width padc)
unfolding print_digits digits_of
print_digits-some zero num base width padc small two = absurd (omega arith)
print_digits-some (suc fuel) num base width padc small two = elim (dec_lt num base) [
  | yes h ↦ let t : leb base num ≡ false = ground arith in rw t refl
  | no h ↦
      let t : leb base num ≡ true = ground arith in
      let less : num / base < num = div-lt_self (omega arith) (omega arith) in
      rw t (
        ap (Option.map (λ l. l ++ (hex_digit (num % base) ∷ [])))
          (print_digits-some fuel (num / base) base (width - 1) padc (omega arith) two))
]

-- The recursion of `printnum` ends in any base but 0 and 1.
pub printnum-some : (num base width padc : ℕ) → 2 ≤ base → printnum num base width padc ≢ none
unfolding printnum
printnum-some num base width padc two e =
    cc (print_digits-some (suc num) num base width padc (omega arith) two, e)

digits_of-more :
    (fuel num base width padc : ℕ)
    → base ≤ num
    → digits_of (suc fuel) num base width padc
      ≡ digits_of fuel (num / base) base (width - 1) padc ++ (hex_digit (num % base) ∷ [])
unfolding digits_of
digits_of-more fuel num base width padc h =
    let t : leb base num ≡ true = ground arith in
    ap
      (λ (b : Bool).
        elim b as (λ _. List ℕ) [
          | true ↦ digits_of fuel (num / base) base (width - 1) padc
          | false ↦ replicate (width - 1) padc
        ]
        ++ (hex_digit (num % base) ∷ []))
      t

digits_of-last :
    (fuel num base width padc : ℕ)
    → num < base
    → digits_of (suc fuel) num base width padc
      ≡ replicate (width - 1) padc ++ (hex_digit (num % base) ∷ [])
unfolding digits_of
digits_of-last fuel num base width padc h =
    let t : leb base num ≡ false = ground arith in
    ap
      (λ (b : Bool).
        elim b as (λ _. List ℕ) [
          | true ↦ digits_of fuel (num / base) base (width - 1) padc
          | false ↦ replicate (width - 1) padc
        ]
        ++ (hex_digit (num % base) ∷ []))
      t

-- The digits are those of the base, and read as the number.
record Reads (num base : ℕ) (s : List ℕ) : Type 0 where
  all : AllDigits base s
  value : digits_loop s base 0 ≡ (num, [])

digits_of-Reads :
    (fuel num base padc : ℕ)
    → num < fuel
    → num < 2 ^ 32
    → 2 ≤ base
    → base ≤ 16
    → Reads num base (digits_of fuel num base 0 padc)
digits_of-Reads zero num base padc small fits two max = absurd (omega arith)
digits_of-Reads (suc fuel) num base padc small fits two max =
    let positive : 0 < base = omega arith in
    let digit_small : num % base < base = mod-lt num positive in
    let is_digit = hex_digit-IsDigit (num % base) (omega arith) in
    elim (dec_lt num base) [
      | yes h ↦
          let same : num % base ≡ num = mod-eq_of_lt h in
          subst (Reads num base) (sym (digits_of-last fuel num base 0 padc h)) (record {
            all = ((num % base, digit_small, is_digit), tt);
            value =
                digits_loop-cons (hex_digit (num % base)) [] base 0 (num % base) is_digit
                  digit_small
                ∙ digits_loop-nil base ((0 * base + num % base) % 2 ^ 32)
                ∙ ap (λ n. (n, [])) (omega (arith, same));
          })
      | no h ↦
          let less : num / base < num = div-lt_self (omega arith) (omega arith) in
          let r = digits_of-Reads fuel (num / base) base padc (omega arith) (omega arith) two max in
          let whole : num / base * base + num % base ≡ num = div-add-mod' num base in
          subst (Reads num base) (sym (digits_of-more fuel num base 0 padc (omega arith))) (record {
            all =
                AllDigits-snoc base (digits_of fuel (num / base) base 0 padc)
                  (hex_digit (num % base)) (num % base) r.all digit_small is_digit;
            value =
                digits_loop-snoc (digits_of fuel (num / base) base 0 padc) base 0 (num / base)
                  (hex_digit (num % base)) (num % base) r.all r.value is_digit digit_small
                ∙ ap (λ n. (n, [])) (omega (arith, whole));
          })
    ]

-- Padding goes before the digits, up to the width.
digits_of-pad :
    (fuel num base width padc : ℕ)
    → num < fuel
    → 2 ≤ base
    → digits_of fuel num base width padc
      ≡ replicate (width - length (digits_of fuel num base 0 padc)) padc
        ++ digits_of fuel num base 0 padc
digits_of-pad zero num base width padc small two = absurd (omega arith)
digits_of-pad (suc fuel) num base width padc small two = elim (dec_lt num base) [
  | yes h ↦
      rw (digits_of-last fuel num base width padc h, digits_of-last fuel num base 0 padc h) refl
  | no h ↦
      let less : num / base < num = div-lt_self (omega arith) (omega arith) in
      let digits = digits_of fuel (num / base) base 0 padc in
      let last = hex_digit (num % base) in
      let count : width - 1 - length digits ≡ width - length (digits ++ (last ∷ [])) =
        omega (arith, length-append digits (last ∷ [])) in
      digits_of-more fuel num base width padc (omega arith)
      ∙ ap (λ l. l ++ (last ∷ []))
          (digits_of-pad fuel (num / base) base (width - 1) padc (omega arith) two)
      ∙ append_assoc (replicate (width - 1 - length digits) padc) digits (last ∷ [])
      ∙ ap (λ k. replicate k padc ++ (digits ++ (last ∷ []))) count
      ∙ ap (λ l. replicate (width - length l) padc ++ l)
          (sym (digits_of-more fuel num base 0 padc (omega arith)))
]

skip_blanks-blanks : (k : ℕ) (s : List ℕ) → skip_blanks (replicate k b' ' ++ s) ≡ skip_blanks s
unfolding skip_blanks
skip_blanks-blanks zero s = refl
skip_blanks-blanks (suc k) s = skip_blanks-blanks k s

skip_blanks-digits : (base : ℕ) (s : List ℕ) → AllDigits base s → skip_blanks s ≡ s
unfolding skip_blanks
skip_blanks-digits base [] a = refl
skip_blanks-digits base (c ∷ s) a =
    let (d, small, i) = a.0 in ground (arith, i.not_blank.0, i.not_blank.1)

sign-digits : (base : ℕ) (s : List ℕ) → AllDigits base s → sign s ≡ (s, false)
unfolding sign deref
sign-digits base [] a = refl
sign-digits base (c ∷ s) a = let (d, small, i) = a.0 in ground (arith, i.not_sign.0, i.not_sign.1)

deref-not_x : (base : ℕ) (s : List ℕ) → AllDigits base s → deref s ≢ b'x'
unfolding deref
deref-not_x base [] a e = absurd (omega arith)
deref-not_x base (c ∷ s) a e = let (d, small, i) = a.0 in i.not_x e

prefix-digits : (base : ℕ) (s : List ℕ) → 2 ≤ base → AllDigits base s → prefix s base ≡ (s, base)
unfolding prefix
prefix-digits base [] two a = ground arith
prefix-digits base (c ∷ s) two a = ground (arith, deref-not_x base s a.1)

strtol-Reads :
    (k num base : ℕ) (s : List ℕ)
    → 2 ≤ base
    → Reads num base s
    → strtol (replicate k b' ' ++ s) base ≡ (num, [])
unfolding strtol
strtol-Reads k num base s two r =
    rw
      (
        skip_blanks-blanks k s,
        skip_blanks-digits base s r.all,
        sign-digits base s r.all,
        prefix-digits base s two r.all,
        r.value,
      )
      refl

-- `printnum` of a 32-bit number in any base from 2 to 16, padded with blanks to any width, comes to
-- an end, and `strtol` in that base reads the number back from what it puts, to its end.
pub strtol-printnum :
    (num base width : ℕ)
    → num < 2 ^ 32
    → 2 ≤ base
    → base ≤ 16
    → (l : List ℕ) × (printnum num base width b' ' ≡ some l) × (strtol l base ≡ (num, []))
unfolding printnum
strtol-printnum num base width fits two max = (
  digits_of (suc num) num base width b' ',
  print_digits-some (suc num) num base width b' ' (omega arith) two,
  ap (λ s. strtol s base) (digits_of-pad (suc num) num base width b' ' (omega arith) two)
      ∙ strtol-Reads (width - length (digits_of (suc num) num base 0 b' ')) num base
          (digits_of (suc num) num base 0 b' ') two
          (digits_of-Reads (suc num) num base b' ' (omega arith) fits two max),
)
