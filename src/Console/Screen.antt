-- ===== src/Console/Screen.antt =====
-- The cursor of console.c stays on the screen.
use damn_os_damn_fs.Prelude.{
  ℕ, zero, suc, ◌+◌, ◌-◌, ◌*◌, ◌/◌, ◌%◌, ◌^◌, ◌<◌, ◌≡◌, inl, inr, List, [], ◌∷◌, arith, leb, ◌==◌,
  Bool-cases, length, drop, replicate, length-append, length-set, length-replicate, bit_or,
}
use damn_os_damn_fs.Console.{
  Crt, crt_cols, crt_size, cga_place, cga_scroll, cga_putc, with_attribute,
}

-- the buffer has a cell for each place, and the cursor is at one of them
pub record OnScreen (t : Crt) : Type 0 where
  pub cells : length t.buf ≡ crt_size
  pub cursor : t.pos < crt_size

record NearScreen (t : Crt) : Type 0 where
  cells : length t.buf ≡ crt_size
  cursor : t.pos < crt_size + crt_cols

length-drop : (n : ℕ) (l : List ℕ) → length (drop n l) ≡ length l - n
length-drop zero l = omega arith
length-drop (suc n) [] = omega arith
length-drop (suc n) (x ∷ l) = omega (arith, length-drop n l)

cga_scroll-OnScreen : (t : Crt) → NearScreen t → OnScreen (cga_scroll t)
unfolding cga_scroll
cga_scroll-OnScreen t h = elim (Bool-cases (leb crt_size t.pos)) [
  | inl y ↦ rw y (record {
    cells = omega (
      arith,
      h.cells,
      length-drop crt_cols t.buf,
      length-append (drop crt_cols t.buf) (replicate crt_cols (bit_or 0x0700 b' ')),
      length-replicate {A = ℕ} crt_cols (bit_or 0x0700 b' '),
    );
    cursor = ground (arith, y, h.cursor);
  })
  | inr n ↦ rw n (record { cells = h.cells; cursor = ground (arith, n) })
]

cga_place-NearScreen : (c : ℕ) (t : Crt) → OnScreen t → NearScreen (cga_place c t)
unfolding cga_place
cga_place-NearScreen c t h = record {
  cells = ground (
    arith,
    h.cells,
    length-set t.buf t.pos (c % 2 ^ 16),
    length-set t.buf (t.pos - 1) (bit_or (c / 256 * 256) b' ' % 2 ^ 16),
  );
  cursor = ground (arith, h.cursor);
}

put_one-OnScreen : (c : ℕ) (t : Crt) → OnScreen t → OnScreen (cga_scroll (cga_place c t))
put_one-OnScreen c t h = cga_scroll-OnScreen (cga_place c t) (cga_place-NearScreen c t h)

stays-NearScreen : (t : Crt) → OnScreen t → NearScreen t
stays-NearScreen t h = record { cells = h.cells; cursor = omega (arith, h.cursor) }

-- Whatever is put on it, the screen keeps its size, and the cursor stays on it.
pub cga_putc-OnScreen : (c : ℕ) (t : Crt) → OnScreen t → OnScreen (cga_putc c t)
unfolding cga_putc
cga_putc-OnScreen c t h = elim (Bool-cases (with_attribute c % 256 == 9)) [
  | inr n ↦ rw n (put_one-OnScreen (with_attribute c) t h)
  | inl y ↦
      let b = with_attribute b' ' in
      let blank = λ (u : Crt). cga_scroll (cga_place b u) in
      let one = put_one-OnScreen b t h in
      let two = put_one-OnScreen b (blank t) one in
      let three = put_one-OnScreen b (blank (blank t)) two in
      let four = put_one-OnScreen b (blank (blank (blank t))) three in
      rw y (
        cga_scroll-OnScreen (blank (blank (blank (blank t))))
          (stays-NearScreen (blank (blank (blank (blank t)))) four))
]
