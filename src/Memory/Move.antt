-- ===== src/Memory/Move.antt =====
-- What memset and memmove of string.c leave in memory, byte by byte.
use native.Mathlib.Nat.{mod-lt}
use damn_os_damn_fs.Prelude.{
  ℕ, zero, suc, ◌+◌, ◌-◌, ◌*◌, ◌/◌, ◌%◌, ◌^◌, ◌≤◌, ◌<◌, bit_and, bit_or, ◌&&◌, ltb, leb, ◌==◌, ◌≡◌,
  refl, if◌then◌else◌, ◌⊎◌, Bool, true, arith,
}
use damn_os_damn_fs.Bits.{bit_and_low_bits}
use damn_os_damn_fs.Prelude.Table.{passes, passes-each}
use damn_os_damn_fs.Memory.{
  Memory, store, byte_of, store_word, move_word, rep_stosb, rep_stosl, rep_movsb, rep_movsl,
  std_movsb, std_movsl, spread, memset, memmove,
}

-- the byte at `a` once the `n` bytes at `s` have been moved to `d`
unfoldable pub moved : Memory → ℕ → ℕ → ℕ → ℕ → ℕ
moved m d s n a = if leb d a && ltb a (d + n) then m (s + (a - d)) else m a

rep_movsb-moved :
    (n : ℕ) (m : Memory) (d s a : ℕ) → (d ≤ s) ⊎ (s + n ≤ d) → rep_movsb n m d s a ≡ moved m d s n a
unfolding rep_movsb moved store
rep_movsb-moved zero m d s a h = ground arith
rep_movsb-moved (suc n) m d s a h =
    ground (arith, rep_movsb-moved n (store m d (m s)) (d + 1) (s + 1) a)

move_word-moved : (m : Memory) (d s a : ℕ) → move_word m d s a ≡ moved m d s 4 a
unfolding move_word moved store
move_word-moved m d s a = ground arith

std_movsb-moved :
    (n : ℕ) (m : Memory) (d s a : ℕ)
    → s < d
    → std_movsb n m (d + n - 1) (s + n - 1) a ≡ moved m d s n a
unfolding std_movsb moved store
std_movsb-moved zero m d s a h = ground arith
std_movsb-moved (suc n) m d s a h =
    ground (arith, std_movsb-moved n (store m (d + n) (m (s + n))) d s a)

rep_movsl-moved :
    (n : ℕ) (m : Memory) (d s a : ℕ)
    → (d ≤ s) ⊎ (s + 4 * n ≤ d)
    → rep_movsl n m d s a ≡ moved m d s (4 * n) a
unfolding rep_movsl moved
rep_movsl-moved zero m d s a h = ground arith
rep_movsl-moved (suc n) m d s a h = ground (
  arith,
  rep_movsl-moved n (move_word m d s) (d + 4) (s + 4) a,
  move_word-moved m d s a,
  move_word-moved m d s (s + 4 + (a - (d + 4))),
)

-- Downwards the words must not straddle: the distance is at least one word.
std_movsl-moved :
    (n : ℕ) (m : Memory) (d s a : ℕ)
    → s + 4 ≤ d
    → std_movsl n m (d + 4 * n - 4) (s + 4 * n - 4) a ≡ moved m d s (4 * n) a
unfolding std_movsl moved
std_movsl-moved zero m d s a h = ground arith
std_movsl-moved (suc n) m d s a h =
    let ed : d + 4 * suc n - 4 ≡ d + 4 * n = omega arith in
    let es : s + 4 * suc n - 4 ≡ s + 4 * n = omega arith in
    rw (ed, es)
      (ground (
        arith,
        std_movsl-moved n (move_word m (d + 4 * n) (s + 4 * n)) d s a,
        move_word-moved m (d + 4 * n) (s + 4 * n) a,
        move_word-moved m (d + 4 * n) (s + 4 * n) (s + (a - d)),
      ))

-- After `memmove (d, s, n)` the `n` bytes at `d` are those that stood at `s` before the call, in
-- the same order, however the two regions overlap, and every other byte is unchanged.
pub memmove-moved : (m : Memory) (d s n a : ℕ) → memmove m d s n a ≡ moved m d s n a
unfolding memmove
memmove-moved m d s n a = ground (
  arith,
  std_movsl-moved (n / 4) m d s a,
  std_movsb-moved n m d s a,
  rep_movsl-moved (n / 4) m d s a,
  rep_movsb-moved n m d s a,
)

rep_stosb-filled :
    (n : ℕ) (m : Memory) (v c a : ℕ)
    → rep_stosb n m v c a ≡ (if leb v a && ltb a (v + n) then c % 256 else m a)
unfolding rep_stosb store
rep_stosb-filled zero m v c a = ground arith
rep_stosb-filled (suc n) m v c a =
    ground (arith, rep_stosb-filled n (store m v (c % 256)) (v + 1) c a)

rep_stosl-filled :
    (n : ℕ) (m : Memory) (v w b a : ℕ)
    → byte_of w 0 ≡ b
    → byte_of w 1 ≡ b
    → byte_of w 2 ≡ b
    → byte_of w 3 ≡ b
    → rep_stosl n m v w a ≡ (if leb v a && ltb a (v + 4 * n) then b else m a)
unfolding rep_stosl store_word store
rep_stosl-filled zero m v w b a p0 p1 p2 p3 = ground arith
rep_stosl-filled (suc n) m v w b a p0 p1 p2 p3 =
    ground (arith, rep_stosl-filled n (store_word m v w) (v + 4) w b a p0 p1 p2 p3)

abbrev spread_test : ℕ → Bool
spread_test b =
    let w = bit_or (bit_or (bit_or (b * 2 ^ 24) (b * 2 ^ 16)) (b * 2 ^ 8)) b in
    w / 2 ^ 0 % 256 == b
    && (w / 2 ^ 8 % 256 == b && (w / 2 ^ 16 % 256 == b && w / 2 ^ 24 % 256 == b))

spread_table : passes spread_test 256 ≡ true
unfolding passes
spread_table = refl

low_byte : (c : ℕ) → bit_and c 0xff ≡ c % 256
low_byte c = bit_and_low_bits 8 c

spread_bytes :
    (c : ℕ)
    → (byte_of (spread c) 0 ≡ c % 256)
      × (byte_of (spread c) 1 ≡ c % 256)
      × (byte_of (spread c) 2 ≡ c % 256)
      × (byte_of (spread c) 3 ≡ c % 256)
unfolding byte_of spread
spread_bytes c =
    rw low_byte
      (ground (arith, passes-each spread_test 256 (c % 256) (mod-lt c (omega arith)) spread_table))

-- `memset (v, c, n)` stores the low byte of `c` at each of the `n` addresses from `v` on, and
-- leaves every other byte as it was.
pub memset-filled :
    (m : Memory) (v c n a : ℕ)
    → memset m v c n a ≡ (if leb v a && ltb a (v + n) then c % 256 else m a)
unfolding memset
memset-filled m v c n a = ground (
  arith,
  rep_stosb-filled n m v c a,
  rep_stosl-filled (n / 4) m v (spread c) (c % 256) a (spread_bytes c).0 (spread_bytes c).1
      (spread_bytes c).2 (spread_bytes c).3,
)
