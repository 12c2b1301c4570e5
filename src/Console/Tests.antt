-- ===== src/Console/Tests.antt =====
-- The theorems on the console at work.
use damn_os_damn_fs.Prelude.{◌≡◌, refl, [], ◌∷◌, ◌++◌, arith, length-replicate, replicate, ℕ}
use damn_os_damn_fs.Prelude.{some}
use damn_os_damn_fs.Console.Keyboard.{kbd_proc_data}
use damn_os_damn_fs.Console.{Crt, cga_putc, Cons, cons_getc}
use damn_os_damn_fs.Console.Screen.{OnScreen, cga_putc-OnScreen}
use damn_os_damn_fs.Console.Ring.{Waiting, Taken, kept, cons_getc-Taken}

-- the cursor at the last place
abbrev full_screen : Crt
full_screen = record { buf = replicate 2000 0x0720; pos = 1999 }

full_screen-OnScreen : OnScreen full_screen
full_screen-OnScreen = record { cells = length-replicate {A = ℕ} 2000 0x0720; cursor = omega arith }

cga_putc-OnScreen_example : OnScreen (cga_putc b'x' full_screen)
cga_putc-OnScreen_example = cga_putc-OnScreen b'x' full_screen full_screen-OnScreen

-- an empty ring with both positions at the end of the buffer
abbrev ring : Cons
ring = record { buf = replicate 512 7; rpos = 511; wpos = 511 }

ring-Waiting : Waiting ring []
ring-Waiting = record {
  cells = length-replicate {A = ℕ} 512 7;
  start = omega arith;
  few = omega arith;
  end = refl;
  holds = λ i h. absurd (omega arith);
}

cons_getc-Taken_example :
    Taken
      (([] ++ kept (b'a' ∷ 0 ∷ [])) ++ kept (b'b' ∷ []))
      (cons_getc (b'a' ∷ 0 ∷ []) (b'b' ∷ []) ring)
cons_getc-Taken_example =
    cons_getc-Taken (b'a' ∷ 0 ∷ []) (b'b' ∷ []) ring [] ring-Waiting (omega arith)

-- A letter, the same with the shift key down, and the shift key up again.
letter : (kbd_proc_data (some 0x1e) 0).c ≡ some b'a'
unfolding kbd_proc_data
letter = refl

capital : (kbd_proc_data (some 0x1e) (kbd_proc_data (some 0x2a) 0).shift).c ≡ some b'A'
unfolding kbd_proc_data
capital = refl

released : (kbd_proc_data (some 0xaa) (kbd_proc_data (some 0x2a) 0).shift).shift ≡ 0
unfolding kbd_proc_data
released = refl
