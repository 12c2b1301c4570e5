-- ===== src/CString.antt =====
-- string.c. A `char *` is the list of the bytes from it to the end of its object; past the list a
-- read gives NUL, so that a text may be written without its terminator. A function that writes
-- returns the bytes of the destination, and `none` where it would write behind them.
pub mod Scan
pub mod Copy
pub mod Compare
mod Tests
use damn_os_damn_fs.Prelude.{
  ℕ, zero, suc, ◌+◌, ◌-◌, ◌*◌, ◌%◌, ◌^◌, Bool, true, false, ◌&&◌, ◌||◌, not, Option, none, some,
  List, [], ◌∷◌, ltb, leb, ◌==◌, if◌then◌else◌, drop,
}
use damn_os_damn_fs.Prelude.Int.{ℤ, pos, sub_ℕ}

-- `*s`
unfoldable pub deref : List ℕ → ℕ
deref [] = 0
deref (c ∷ s) = c

pub strlen : List ℕ → ℕ
strlen [] = 0
strlen (c ∷ s) = let n = strlen s in if c == 0 then 0 else n + 1

pub strnlen : List ℕ → ℕ → ℕ
strnlen s zero = 0
strnlen [] (suc size) = 0
strnlen (c ∷ s) (suc size) = let n = strnlen s size in if c == 0 then 0 else n + 1

-- The copy ends behind the NUL, which `[]` and a byte 0 both stand for.
pub strcpy : List ℕ → List ℕ → Option (List ℕ)
strcpy [] src = none
strcpy (d ∷ dst) [] = some (0 ∷ dst)
strcpy (d ∷ dst) (c ∷ src) =
    let rest = strcpy dst src in
    if c == 0 then some (0 ∷ dst) else elim rest [ none ↦ none | some r ↦ some (c ∷ r) ]

-- `strcpy (dst + len, src)`, with the `len` bytes before it kept
strcpy_at : List ℕ → ℕ → List ℕ → Option (List ℕ)
unfolding strcpy
strcpy_at dst zero src = strcpy dst src
strcpy_at [] (suc len) src = none
strcpy_at (d ∷ dst) (suc len) src = elim (strcpy_at dst len src) [
  | none ↦ none
  | some r ↦ some (d ∷ r)
]

pub strcat : List ℕ → List ℕ → Option (List ℕ)
unfolding strlen strcpy_at
strcat dst src = strcpy_at dst (strlen dst) src

-- the rest of `src` behind its first byte, on which the source stays once it is NUL
advance : List ℕ → List ℕ
advance [] = []
advance (c ∷ src) = if c == 0 then c ∷ src else src

pub strncpy : List ℕ → List ℕ → ℕ → Option (List ℕ)
unfolding deref advance
strncpy dst src zero = some dst
strncpy [] src (suc size) = none
strncpy (d ∷ dst) src (suc size) = elim (strncpy dst (advance src) size) [
  | none ↦ none
  | some r ↦ some (deref src ∷ r)
]

-- The loop of `strlcpy` with `room` bytes left for characters, and the NUL behind it. The number is
-- that of the characters written, `dst - dst_in`.
strlcpy_loop : List ℕ → List ℕ → ℕ → Option (List ℕ × ℕ)
strlcpy_loop [] src room = none
strlcpy_loop (d ∷ dst) src zero = some (0 ∷ dst, 0)
strlcpy_loop (d ∷ dst) [] (suc room) = some (0 ∷ dst, 0)
strlcpy_loop (d ∷ dst) (c ∷ src) (suc room) =
    let rest = strlcpy_loop dst src room in
    if c == 0
    then some (0 ∷ dst, 0)
    else elim rest [ none ↦ none | some (r, n) ↦ some (c ∷ r, n + 1) ]

pub strlcpy : List ℕ → List ℕ → ℕ → Option (List ℕ × ℕ)
unfolding strlcpy_loop
strlcpy dst src zero = some (dst, 0)
strlcpy dst src (suc size) = strlcpy_loop dst src size

-- The difference of the first bytes that differ, as `int`.
pub strcmp : List ℕ → List ℕ → ℤ
unfolding deref
strcmp [] q = sub_ℕ 0 (deref q)
strcmp (c ∷ p) [] = sub_ℕ c 0
strcmp (c ∷ p) (d ∷ q) = let r = strcmp p q in if not (c == 0) && c == d then r else sub_ℕ c d

pub strncmp : List ℕ → List ℕ → ℕ → ℤ
unfolding deref
strncmp p q zero = pos 0
strncmp [] q (suc n) = sub_ℕ 0 (deref q)
strncmp (c ∷ p) [] (suc n) = sub_ℕ c 0
strncmp (c ∷ p) (d ∷ q) (suc n) =
    let r = strncmp p q n in if not (c == 0) && c == d then r else sub_ℕ c d

-- The string from the first `c` on, `none` for a null pointer.
unfoldable pub strchr : List ℕ → ℕ → Option (List ℕ)
strchr [] c = none
strchr (x ∷ s) c = let r = strchr s c in if x == 0 then none else if x == c then some (x ∷ s) else r

pub strfind : List ℕ → ℕ → List ℕ
strfind [] c = []
strfind (x ∷ s) c = let r = strfind s c in if x == 0 then x ∷ s else if x == c then x ∷ s else r

-- `none` for a read behind an object.
pub memcmp : List ℕ → List ℕ → ℕ → Option ℤ
memcmp s t zero = some (pos 0)
memcmp [] t (suc n) = none
memcmp (x ∷ s) [] (suc n) = none
memcmp (x ∷ s) (y ∷ t) (suc n) =
    let r = memcmp s t n in if not (x == y) then some (sub_ℕ x y) else r

-- The number of bytes passed over; `none` for a read behind the object. `c` is cast to
-- `unsigned char`.
pub memfind : List ℕ → ℕ → ℕ → Option ℕ
memfind s c zero = some 0
memfind [] c (suc n) = none
memfind (x ∷ s) c (suc n) =
    let r = memfind s c n in
    if x == c % 256 then some 0 else elim r [ none ↦ none | some k ↦ some (k + 1) ]

unfoldable pub skip_blanks : List ℕ → List ℕ
skip_blanks [] = []
skip_blanks (c ∷ s) = let r = skip_blanks s in if c == b' ' || c == 9 then r else c ∷ s

-- the sign: the rest, and whether it was a minus
unfoldable pub sign : List ℕ → List ℕ × Bool
unfolding deref
sign s =
    if deref s == b'+'
    then (drop 1 s, false)
    else if deref s == b'-'
    then (drop 1 s, true)
    else (s, false)

-- the prefix `0x` or `0`: the rest, and the base
unfoldable pub prefix : List ℕ → ℕ → List ℕ × ℕ
unfolding deref
prefix s base =
    if (base == 0 || base == 16) && (deref s == b'0' && deref (drop 1 s) == b'x')
    then (drop 2 s, 16)
    else if base == 0 && deref s == b'0'
    then (drop 1 s, 8)
    else if base == 0
    then (s, 10)
    else (s, base)

-- the value of a digit in any base, `none` for another character
unfoldable pub digit : ℕ → Option ℕ
digit c =
    if leb b'0' c && leb c b'9'
    then some (c - b'0')
    else if leb b'a' c && leb c b'z'
    then some (c - b'a' + 10)
    else if leb b'A' c && leb c b'Z'
    then some (c - b'A' + 10)
    else none

-- `long` has 32 bits: the value is the bit pattern, which wraps. (Signed overflow is undefined in
-- C; the compiled code wraps.)
unfoldable pub digits_loop : List ℕ → ℕ → ℕ → ℕ × List ℕ
unfolding digit
digits_loop [] base val = (val, [])
digits_loop (c ∷ s) base val =
    let d = digit c in
    elim d [
      | none ↦ (val, c ∷ s)
      | some dig ↦
          if leb base dig then (val, c ∷ s) else digits_loop s base ((val * base + dig) % 2 ^ 32)
    ]

-- The 32-bit pattern of the result, and what `*endptr` is set to.
unfoldable pub strtol : List ℕ → ℕ → ℕ × List ℕ
unfolding skip_blanks sign prefix digits_loop
strtol s base =
    let (s1, neg) = sign (skip_blanks s) in
    let (s2, b) = prefix s1 base in
    let (val, rest) = digits_loop s2 b 0 in
    if neg then ((2 ^ 32 - val) % 2 ^ 32, rest) else (val, rest)
