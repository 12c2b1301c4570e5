-- ===== src/Pipe/Tests.antt =====
-- A pipe whose bytes go round the end of its buffer.
use damn_os_damn_fs.Prelude.{ℕ, zero, suc, refl, false, List, [], ◌∷◌, arith}
use damn_os_damn_fs.Prelude.{none, ◌+◌, ◌≡◌}
use damn_os_damn_fs.Server.{blank_fd}
use damn_os_damn_fs.Descriptor.{ok, Process}
use damn_os_damn_fs.Pipe.Ends.{Pages, pipe}
use damn_os_damn_fs.Pipe.Made.{IsFresh, Made, pipe-Made}
use damn_os_damn_fs.Pipe.{Pipe, devpipe_read, devpipe_write}
use damn_os_damn_fs.Pipe.Fifo.{
  IsPipe, ReadStep, WriteStep, devpipe_read-ReadStep, devpipe_write-WriteStep,
}

unfoldable blank : ℕ → List ℕ
blank zero = []
blank (suc n) = 0 ∷ blank n

abbrev wrapped : Pipe
wrapped = record { p_rpos = 30; p_wpos = 33; p_buf = 9 ∷ blank 31 }

wrapped-IsPipe : IsPipe wrapped
unfolding blank
wrapped-IsPipe = record { order = omega arith; bound = omega arith; size = refl }

devpipe_read-ReadStep_example : ReadStep wrapped false 5 [] (devpipe_read 5 false wrapped)
devpipe_read-ReadStep_example = devpipe_read-ReadStep wrapped false 5 wrapped-IsPipe

devpipe_write-WriteStep_example :
    WriteStep wrapped false 0 (1 ∷ 2 ∷ []) (devpipe_write (1 ∷ 2 ∷ []) false wrapped)
devpipe_write-WriteStep_example = devpipe_write-WriteStep wrapped false (1 ∷ 2 ∷ []) wrapped-IsPipe

-- a process without descriptors, and a kernel that has a page for each place
abbrev bare : Process ℕ
bare = record { vm = λ x. none; fd_of = λ p. blank_fd; world = 0 }

abbrev plenty : Pages
plenty = record { alloc = λ i. ok (100 + i); map_fails = λ i j. none }

plenty-IsFresh : IsFresh plenty
plenty-IsFresh i j p q n a b e =
    let f : 100 + i ≡ p = ground (arith, a) in
    let g : 100 + j ≡ q = ground (arith, b) in n (omega (arith, f, g, e))

pipe-Made_example : Made bare (pipe plenty bare)
pipe-Made_example = pipe-Made plenty bare plenty-IsFresh (λ i h e. refl)
