-- ===== src/CString/Tests.antt =====
-- The theorems on string.c at work on short strings.
use damn_os_damn_fs.Prelude.{
  ℕ, ◌+◌, ◌-◌, ◌<◌, length, ◌≡◌, some, List, [], ◌∷◌, ◌++◌, take, drop, arith, min, ◌↔◌,
}
use damn_os_damn_fs.CString.{strcat, strlcpy, strlen, memcmp}
use damn_os_damn_fs.Prelude.Int.{ℤ, pos}
use damn_os_damn_fs.CString.Scan.{text}
use damn_os_damn_fs.CString.Compare.{memcmp-eq-zero}
use damn_os_damn_fs.CString.Copy.{strcat-text, strlcpy-take}

abbrev cat : List ℕ
cat = b'c' ∷ b'a' ∷ b't' ∷ 0 ∷ []

abbrev car : List ℕ
car = b'c' ∷ b'a' ∷ b'r' ∷ 0 ∷ []

abbrev field : List ℕ
field = b'm' ∷ 0 ∷ 7 ∷ 7 ∷ 7 ∷ 7 ∷ []

cat_fits : strlen cat + strlen field < length field
unfolding strlen
cat_fits = omega arith

strcat-text_example :
    strcat field cat
    ≡ some (text field ++ (text cat ++ 0 ∷ drop (strlen field + strlen cat + 1) field))
strcat-text_example = strcat-text field cat cat_fits

strlcpy-take_example :
    let n = min (strlen cat) (3 - 1) in
    strlcpy field cat 3 ≡ some (take n (text cat) ++ 0 ∷ drop (n + 1) field, n)
strlcpy-take_example = strlcpy-take field cat 3 (omega arith) (omega arith)

memcmp-eq-zero_example :
    (r : ℤ) × (memcmp cat car 3 ≡ some r) × ((r ≡ pos 0) ↔ (take 3 cat ≡ take 3 car))
memcmp-eq-zero_example = memcmp-eq-zero cat car 3 (omega arith) (omega arith)
