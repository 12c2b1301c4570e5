-- ===== src/Console.antt =====
-- The console: console.c, as far as it is not port I/O. Output is the screen buffer of the CGA
-- card with its cursor, input the ring that the interrupts fill.
pub mod Keyboard
pub mod Screen
pub mod Ring
mod Tests
use damn_os_damn_fs.Prelude.{
  ℕ, zero, suc, ◌+◌, ◌-◌, ◌*◌, ◌/◌, ◌%◌, ◌^◌, ◌≤◌, ◌<◌, min, ◌≡◌, refl, sym, ap, ap₂, subst, ◌∙◌,
  ◌≢◌, ◌↔◌, ◌⊎◌, inl, inr, Bool, true, false, ◌&&◌, ◌||◌, not, Option, none, some, List, [], ◌∷◌,
  ◌++◌, append_assoc, append-nil, arith, ltb, leb, ◌==◌, if◌then◌else◌, Bool-cases, ==_iff, length,
  get_or, set, take, drop, replicate, length-append, length-set, length-replicate, get_or-set_self,
  get_or-set_ne, codes, fun_ext, bit_or, bit_and,
}

abbrev pub crt_cols : ℕ
crt_cols = 80

-- `CRT_SIZE`, of 25 rows
abbrev pub crt_size : ℕ
crt_size = 2000

-- `crt_buf` and `crt_pos`
pub record Crt : Type 0 where
  pub buf : List ℕ
  pub pos : ℕ

-- a character without an attribute is black on white
unfoldable pub with_attribute : ℕ → ℕ
with_attribute c = if ltb c 256 then bit_or c 0x0700 else c

-- The switch of `cga_putc`, but for the tab. `crt_pos` and the cells of `crt_buf` are `uint16_t`.
unfoldable pub cga_place : ℕ → Crt → Crt
cga_place c t =
    let low = c % 256 in
    if low == 8
    then (if ltb 0 t.pos
        then record {
          buf = set t.buf (t.pos - 1) (bit_or (c / 256 * 256) b' ' % 2 ^ 16);
          pos = t.pos - 1;
        }
        else t)
    else if low == 10
    then record t { pos = (t.pos + crt_cols) % 2 ^ 16 - (t.pos + crt_cols) % 2 ^ 16 % crt_cols }
    else if low == 13
    then record t { pos = t.pos - t.pos % crt_cols }
    else record { buf = set t.buf t.pos (c % 2 ^ 16); pos = (t.pos + 1) % 2 ^ 16 }

-- At the end of the screen all lines move up by one, and the last is blank.
unfoldable pub cga_scroll : Crt → Crt
cga_scroll t =
    if leb crt_size t.pos
    then record {
      buf = drop crt_cols t.buf ++ replicate crt_cols (bit_or 0x0700 b' ');
      pos = t.pos - crt_cols;
    }
    else t

unfoldable pub cga_putc : ℕ → Crt → Crt
unfolding cga_place cga_scroll with_attribute
cga_putc ch t =
    let c = with_attribute ch in
    let blank = λ (u : Crt). cga_scroll (cga_place (with_attribute b' ') u) in
    if c % 256 == 9
    then cga_scroll (blank (blank (blank (blank t))))
    else cga_scroll (cga_place c t)

-- `printstr`: at most 100 characters
unfoldable pub printstr : ℕ → List ℕ → Crt → Crt
unfolding cga_putc
printstr zero str t = t
printstr (suc n) [] t = t
printstr (suc n) (c ∷ str) t =
    let rest = printstr n str (cga_putc c t) in if c == 0 then t else rest

abbrev pub consbufsize : ℕ
consbufsize = 512

-- `cons`
pub record Cons : Type 0 where
  pub buf : List ℕ
  pub rpos : ℕ
  pub wpos : ℕ

-- `cons_intr`, with what `proc` answers until it answers -1
unfoldable pub cons_intr : List ℕ → Cons → Cons
cons_intr [] s = s
cons_intr (c ∷ proc) s = cons_intr proc (
    if c == 0 then s else record {
      buf = set s.buf s.wpos (c % 256);
      rpos = s.rpos;
      wpos = if s.wpos + 1 == consbufsize then 0 else s.wpos + 1;
    })

-- `cons_getc`, with what the serial port and the keyboard answer when they are polled
unfoldable pub cons_getc : List ℕ → List ℕ → Cons → ℕ × Cons
unfolding cons_intr
cons_getc serial kbd s =
    let t = cons_intr kbd (cons_intr serial s) in
    if t.rpos == t.wpos then (0, t) else (
      get_or t.buf t.rpos 0,
      record t { rpos = if t.rpos + 1 == consbufsize then 0 else t.rpos + 1 },
    )
