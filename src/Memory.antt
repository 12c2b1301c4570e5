-- ===== src/Memory.antt =====
-- memset, memmove and memcpy of string.c over a flat byte memory, with the x86 string instructions
-- that their assembly runs. Objects do not wrap round the end of the address space.
pub mod Move
mod Tests
use damn_os_damn_fs.Prelude.{
  ℕ, zero, suc, ◌+◌, ◌-◌, ◌*◌, ◌/◌, ◌%◌, ◌^◌, bit_and, bit_or, ◌&&◌, ltb, ◌==◌, if◌then◌else◌,
}

-- the byte at each address
abbrev pub Memory : Type 0
Memory = ℕ → ℕ

unfoldable pub store : Memory → ℕ → ℕ → Memory
store m a v x = if x == a then v else m x

-- byte `i` of a 32-bit word
unfoldable pub byte_of : ℕ → ℕ → ℕ
byte_of w i = w / 2 ^ (8 * i) % 256

-- `stosl`: the word goes to `a`, its low byte first.
unfoldable pub store_word : Memory → ℕ → ℕ → Memory
unfolding store byte_of
store_word m a w =
    store (store (store (store m a (byte_of w 0)) (a + 1) (byte_of w 1)) (a + 2) (byte_of w 2))
      (a + 3) (byte_of w 3)

-- `movsl`: four bytes are read before any is written.
unfoldable pub move_word : Memory → ℕ → ℕ → Memory
unfolding store
move_word m d s =
    store (store (store (store m d (m s)) (d + 1) (m (s + 1))) (d + 2) (m (s + 2))) (d + 3)
      (m (s + 3))

-- `cld; rep stosb`
rep_stosb : ℕ → Memory → ℕ → ℕ → Memory
rep_stosb zero m d al = m
rep_stosb (suc n) m d al = rep_stosb n (store m d (al % 256)) (d + 1) al

-- `cld; rep stosl`
rep_stosl : ℕ → Memory → ℕ → ℕ → Memory
rep_stosl zero m d eax = m
rep_stosl (suc n) m d eax = rep_stosl n (store_word m d eax) (d + 4) eax

-- `cld; rep movsb` and `cld; rep movsl`
rep_movsb : ℕ → Memory → ℕ → ℕ → Memory
rep_movsb zero m d s = m
rep_movsb (suc n) m d s = rep_movsb n (store m d (m s)) (d + 1) (s + 1)

rep_movsl : ℕ → Memory → ℕ → ℕ → Memory
rep_movsl zero m d s = m
rep_movsl (suc n) m d s = rep_movsl n (move_word m d s) (d + 4) (s + 4)

-- `std; rep movsb` and `std; rep movsl` go downwards.
std_movsb : ℕ → Memory → ℕ → ℕ → Memory
std_movsb zero m d s = m
std_movsb (suc n) m d s = std_movsb n (store m d (m s)) (d - 1) (s - 1)

std_movsl : ℕ → Memory → ℕ → ℕ → Memory
std_movsl zero m d s = m
std_movsl (suc n) m d s = std_movsl n (move_word m d s) (d - 4) (s - 4)

-- `c &= 0xFF; c = (c<<24)|(c<<16)|(c<<8)|c`
unfoldable pub spread : ℕ → ℕ
spread c =
    let b = bit_and c 0xff in bit_or (bit_or (bit_or (b * 2 ^ 24) (b * 2 ^ 16)) (b * 2 ^ 8)) b

pub memset : Memory → ℕ → ℕ → ℕ → Memory
memset m v c n =
    if n == 0
    then m
    else if v % 4 == 0 && n % 4 == 0
    then rep_stosl (n / 4) m v (spread c)
    else rep_stosb n m v c

pub memmove : Memory → ℕ → ℕ → ℕ → Memory
memmove m d s n =
    if ltb s d && ltb d (s + n)
    then if (s + n) % 4 == 0 && (d + n) % 4 == 0 && n % 4 == 0
      then std_movsl (n / 4) m (d + n - 4) (s + n - 4)
      else std_movsb n m (d + n - 1) (s + n - 1)
    else if s % 4 == 0 && d % 4 == 0 && n % 4 == 0
    then rep_movsl (n / 4) m d s
    else rep_movsb n m d s

pub memcpy : Memory → ℕ → ℕ → ℕ → Memory
memcpy m d s n = memmove m d s n
