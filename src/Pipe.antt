-- ===== src/Pipe.antt =====
-- Pipes: pipe.c. The positions are the numbers that an `off_t` holds: they count all the bytes that
-- have gone through, and overflow of a signed integer is undefined.
pub mod Ends
pub mod Made
pub mod Fifo
mod Tests
use damn_os_damn_fs.Prelude.{
  ℕ, zero, suc, ◌+◌, ◌-◌, ◌%◌, Bool, List, [], ◌∷◌, ◌++◌, ◌==◌, ltb, leb, if◌then◌else◌, get_or,
  set,
}

abbrev pub pipebufsiz : ℕ
pipebufsiz = 32

-- `struct Pipe`
pub record Pipe : Type 0 where
  pub p_rpos : ℕ
  pub p_wpos : ℕ
  pub p_buf : List ℕ

-- How a read or a write goes on: it returns, or it yields the processor with the bytes that it has
-- not yet written.
pub data Step (A : Type 0) : Type 0 where
  returns : A → Pipe → Step A
  yields : List ℕ → Pipe → Step A

-- `p->p_buf[p->p_rpos % PIPEBUFSIZ]`, and the position moved on
unfoldable pub front : Pipe → ℕ
front p = get_or (p.p_buf) (p.p_rpos % pipebufsiz) 0

unfoldable pub taken : Pipe → Pipe
taken p = record p { p_rpos = p.p_rpos + 1 }

unfoldable pub stored : ℕ → Pipe → Pipe
stored c p = record p { p_buf = set (p.p_buf) (p.p_wpos % pipebufsiz) c; p_wpos = p.p_wpos + 1 }

abbrev pub is_empty : Pipe → Bool
is_empty p = p.p_rpos == p.p_wpos

abbrev pub is_full : Pipe → Bool
is_full p = leb (p.p_rpos + pipebufsiz) (p.p_wpos)

-- The loop of `devpipe_read` with `n` bytes left to read, behind the bytes it has `got`; `closed`
-- is the answer of `_pipeisclosed`.
unfoldable pub read_from : ℕ → Bool → List ℕ → Pipe → Step (List ℕ)
unfolding front taken
read_from zero closed got p = returns got p
read_from (suc n) closed [] p =
    let rest = read_from n closed (front p ∷ []) (taken p) in
    if is_empty p then (if closed then returns [] p else yields [] p) else rest
read_from (suc n) closed (b ∷ got) p =
    let rest = read_from n closed ((b ∷ got) ++ (front p ∷ [])) (taken p) in
    if is_empty p then returns (b ∷ got) p else rest

unfoldable pub devpipe_read : ℕ → Bool → Pipe → Step (List ℕ)
unfolding read_from
devpipe_read n closed p = read_from n closed [] p

-- The loop of `devpipe_write` with `i` bytes written. If the readers are gone it returns 0.
unfoldable pub write_from : List ℕ → Bool → ℕ → Pipe → Step ℕ
unfolding stored
write_from [] closed i p = returns i p
write_from (c ∷ buf) closed i p =
    let rest = write_from buf closed (i + 1) (stored c p) in
    if is_full p then (if closed then returns 0 p else yields (c ∷ buf) p) else rest

unfoldable pub devpipe_write : List ℕ → Bool → Pipe → Step ℕ
unfolding write_from
devpipe_write buf closed p = write_from buf closed 0 p

-- `st_size` of `devpipe_stat`
unfoldable pub stat_size : Pipe → ℕ
stat_size p = p.p_wpos - p.p_rpos
