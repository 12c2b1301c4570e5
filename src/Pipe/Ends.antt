-- ===== src/Pipe/Ends.antt =====
-- The two ends of a pipe: pipe, pipeisclosed and devpipe_close of pipe.c, on the descriptors.
use damn_os_damn_fs.Prelude.{ℕ, ◌+◌, Bool, Option, none, some, ◌==◌}
use damn_os_damn_fs.Prelude.Int.{ℤ}
use damn_os_damn_fs.Fs.State.{e_inval}
use damn_os_damn_fs.Server.{blank_fd}
use damn_os_damn_fs.Descriptor.{
  maxfd, o_rdonly, o_wronly, Answer, ok, err, Process, Call, at, unmap, fd_alloc, fd_lookup,
}

-- What the kernel answers: `sys_page_alloc` at a place gives a page or an error, and `sys_page_map`
-- from one place to another fails with an error or not.
pub record Pages : Type 0 where
  pub alloc : ℕ → Answer ℕ
  pub map_fails : ℕ → ℕ → Option ℕ

abbrev pub pipe_id : ℕ
pipe_id = b'p'

-- `pageref`: how many mappings a page has, 0 where there is none
unfoldable pub pageref : (ℕ → ℕ) → Option ℕ → ℕ
pageref refs none = 0
pageref refs (some p) = refs p

module _ {W : Type 0} where
  -- a new page, filled with zeros
  abbrev pub mapped : ℕ → ℕ → Process W → Process W
  mapped i p s = record s { vm = at s.vm i (some p); fd_of = at s.fd_of p blank_fd }

  -- the two `struct Fd`, in the pages `p` and `q`
  abbrev pub ends : ℕ → ℕ → Process W → Process W
  ends p q s =
      let f = at s.fd_of p (record (s.fd_of p) { dev_id = pipe_id; omode = o_rdonly }) in
      record s { fd_of = at f q (record (f q) { dev_id = pipe_id; omode = o_wronly }) }

  -- `_pipeisclosed`, with the counts as they are while `env_runs` stays the same; the loop only waits
  -- for that.
  unfoldable pub is_closed : (ℕ → ℕ) → ℕ → Process W → Bool
  unfolding pageref
  is_closed refs i s = pageref refs (s.vm i) == pageref refs (s.vm (maxfd + i))

  unfoldable pub pipeisclosed : (ℕ → ℕ) → ℤ → Process W → Answer Bool
  unfolding fd_lookup is_closed
  pipeisclosed refs fdnum s = elim (fd_lookup fdnum s) [
    | none ↦ err e_inval
    | some i ↦ ok (is_closed refs i s)
  ]

  unfoldable pub devpipe_close : ℕ → Call W ℕ
  devpipe_close i s = (ok 0, unmap (maxfd + i) (unmap i s))

module _ {W : Type 0} (k : Pages) where
  -- The steps of `pipe`, each by the answer of a call; the errors undo what was done.
  unfoldable pub map_second : ℕ → ℕ → ℕ → ℕ → Option ℕ → Call W (ℕ × ℕ)
  map_second i j p q (some e) s = (err e, unmap i (unmap j (unmap (maxfd + i) s)))
  map_second i j p q none s =
      (ok (i, j), ends p q (record s { vm = at s.vm (maxfd + j) (s.vm (maxfd + i)) }))

  unfoldable pub alloc_data : ℕ → ℕ → ℕ → ℕ → Answer ℕ → Call W (ℕ × ℕ)
  unfolding map_second
  alloc_data i j p q (err e) s = (err e, unmap i (unmap j s))
  alloc_data i j p q (ok d) s =
      map_second i j p q (k.map_fails (maxfd + i) (maxfd + j)) (mapped (maxfd + i) d s)

  unfoldable pub alloc_second : ℕ → ℕ → ℕ → Answer ℕ → Call W (ℕ × ℕ)
  unfolding alloc_data
  alloc_second i j p (err e) s = (err e, unmap i s)
  alloc_second i j p (ok q) s = alloc_data i j p q (k.alloc (maxfd + i)) (mapped j q s)

  unfoldable pub find_second : ℕ → ℕ → Answer ℕ → Call W (ℕ × ℕ)
  unfolding alloc_second
  find_second i p (err e) s = (err e, unmap i s)
  find_second i p (ok j) s = alloc_second i j p (k.alloc j) s

  unfoldable pub alloc_first : ℕ → Answer ℕ → Call W (ℕ × ℕ)
  unfolding find_second
  alloc_first i (err e) s = (err e, s)
  alloc_first i (ok p) s = let t = mapped i p s in find_second i p (fd_alloc t) t

  unfoldable pub find_first : Answer ℕ → Call W (ℕ × ℕ)
  unfolding alloc_first
  find_first (err e) s = (err e, s)
  find_first (ok i) s = alloc_first i (k.alloc i) s

  unfoldable pub pipe : Call W (ℕ × ℕ)
  unfolding find_first fd_alloc
  pipe s = find_first (fd_alloc s) s
