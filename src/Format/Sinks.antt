-- ===== src/Format/Sinks.antt =====
-- What the `putch` functions of stdio.c do with the characters that they are called with: into a
-- bounded buffer (sprintputch), to the console in pieces (the user's putch), and to a file in
-- pieces (fputch). A `char` keeps the low byte.
pub mod Text
use damn_os_damn_fs.Prelude.{
  ℕ, zero, suc, ◌+◌, ◌-◌, ◌*◌, ◌/◌, ◌%◌, ◌^◌, ◌≤◌, ◌<◌, min, ◌≡◌, refl, sym, ap, ap₂, subst, ◌∙◌,
  ◌≢◌, ◌↔◌, ◌⊎◌, inl, inr, Bool, true, false, ◌&&◌, ◌||◌, not, Option, none, some, List, [], ◌∷◌,
  ◌++◌, append_assoc, arith, ltb, leb, ◌==◌, if◌then◌else◌, Bool-cases, ==_iff, length, get_or, set,
  take, drop, replicate, length-append, length-set, length-replicate, get_or-set_self,
  get_or-set_ne, codes, fun_ext,
}
use damn_os_damn_fs.Prelude.Int.{ℤ, pos, negsuc}

abbrev low : ℕ → ℕ
low c = c % 256

abbrev pub bytes : List ℕ → List ℕ
bytes [] = []
bytes (c ∷ s) = c % 256 ∷ bytes s

-- `struct sprintbuf`: the bytes behind `buf`, how many of them stand before `ebuf`, and the count;
-- `done` are those before `buf`.
pub record Sprintbuf : Type 0 where
  pub done : List ℕ
  pub room : ℕ
  pub rest : List ℕ
  pub cnt : ℕ

unfoldable pub sprintputch : ℕ → Sprintbuf → Sprintbuf
sprintputch ch b =
    if ltb 0 b.room
    then record {
      done = b.done ++ (ch % 256 ∷ []);
      room = b.room - 1;
      rest = drop 1 b.rest;
      cnt = b.cnt + 1;
    }
    else record b { cnt = b.cnt + 1 }

-- `putch` called with each character
unfoldable pub put_all : {B : Type 0} → (ℕ → B → B) → List ℕ → B → B
put_all putch [] b = b
put_all putch (c ∷ out) b = put_all putch out (putch c b)

-- What `vsnprintf` leaves in the buffer and returns, for the characters that are put; `none` is
-- the error -E_INVAL. The buffer is given with its bytes, and is not null.
unfoldable pub snprint : List ℕ → ℕ → List ℕ → Option (List ℕ × ℕ)
unfolding sprintputch put_all
snprint buf zero out = none
snprint buf (suc n) out =
    let b = put_all sprintputch out (record { done = []; room = n; rest = buf; cnt = 0 }) in
    some (b.done ++ (0 ∷ drop 1 b.rest), b.cnt)

-- `struct printbuf` of the user's console: the characters that wait, and what `sys_cputs` has been
-- called with.
pub record Printbuf : Type 0 where
  pub waiting : List ℕ
  pub cputs : List (List ℕ)
  pub cnt : ℕ

unfoldable pub putch : ℕ → Printbuf → Printbuf
putch ch b =
    let buf = b.waiting ++ (ch % 256 ∷ []) in
    if length buf == 255
    then record { waiting = []; cputs = b.cputs ++ (buf ∷ []); cnt = b.cnt + 1 }
    else record { waiting = buf; cputs = b.cputs; cnt = b.cnt + 1 }

-- The calls of `sys_cputs` that `vcprintf` makes, and its result.
unfoldable pub cprint : List ℕ → List (List ℕ) × ℕ
unfolding putch put_all
cprint out =
    let b = put_all putch out (record { waiting = []; cputs = []; cnt = 0 }) in
    (b.cputs ++ (b.waiting ∷ []), b.cnt)

abbrev pub joined : List (List ℕ) → List ℕ
joined [] = []
joined (l ∷ ls) = l ++ joined ls

-- `struct fprintbuf`: the characters that wait, the results of `write` added up, the first error
-- (1 while there is none), and what `write` has been called with.
pub record Fprintbuf : Type 0 where
  pub waiting : List ℕ
  pub result : ℕ
  pub error : ℤ
  pub writes : List (List ℕ)

abbrev pub is_pos : ℤ → Bool
is_pos (pos n) = ltb 0 n
is_pos (negsuc n) = false

-- `write` is the device behind the descriptor: its result, given the calls before and the bytes.
unfoldable pub writebuf : (List (List ℕ) → List ℕ → ℤ) → Fprintbuf → Fprintbuf
writebuf write b =
    if is_pos b.error
    then elim (write b.writes b.waiting) [
      | pos n ↦ record b {
        result = b.result + n;
        error = if n == length b.waiting then b.error else pos 0;
        writes = b.writes ++ (b.waiting ∷ []);
      }
      | negsuc n ↦ record b { error = negsuc n; writes = b.writes ++ (b.waiting ∷ []) }
    ]
    else b

unfoldable pub fputch : (List (List ℕ) → List ℕ → ℤ) → ℕ → Fprintbuf → Fprintbuf
unfolding writebuf
fputch write ch b =
    let full = record b { waiting = b.waiting ++ (ch % 256 ∷ []) } in
    if length full.waiting == 256 then record (writebuf write full) { waiting = [] } else full

-- The buffer behind `vfprintf`, and its result.
unfoldable pub fprint : (List (List ℕ) → List ℕ → ℤ) → List ℕ → Fprintbuf
unfolding fputch put_all writebuf
fprint write out =
    let b =
      put_all (fputch write) out
        (record { waiting = []; result = 0; error = pos 1; writes = [] }) in
    if ltb 0 (length b.waiting) then writebuf write b else b

unfoldable pub fprint_result : Fprintbuf → ℤ
fprint_result b = if b.result == 0 then b.error else pos b.result
