-- ===== src/Server/Tests.antt =====
-- The theorems on the file server at work.
use damn_os_damn_fs.Prelude.{
  ℕ, zero, suc, ◌+◌, ◌≤◌, ◌<◌, ◌≡◌, refl, ap, none, some, [], ◌∷◌, arith, length, get_or,
}
use damn_os_damn_fs.Fs.Block.{
  in_block, file_flush, flush_from, flush_entry, diskaddr, in_ind, file_get_block,
}
use damn_os_damn_fs.Fs.Bitmap.{flush_block}
use damn_os_damn_fs.Fs.File.{file_write, write_loop}
use damn_os_damn_fs.Fs.Sample.{
  small, small_inodes, small_blocks, zeros, small-IsFile, small-HasEntry, two_bytes, written,
  state_of,
}
use damn_os_damn_fs.Server.{
  Server, sends, blank_fd, no_file, maxopen, openfile_alloc, openfile_lookup, serve_init, put_file,
  on_fs, with_file,
}
use damn_os_damn_fs.Server.Handlers.{serve_read, serve_write, write_file}
use damn_os_damn_fs.Server.Opentab.{IsTable, Alloc, openfile_alloc-Alloc}
use damn_os_damn_fs.Server.RoundTrip.{IsOpen, seek, serve_read-serve_write}

serve_init-length : (k i : ℕ) → length (serve_init k i) ≡ k
unfolding serve_init
serve_init-length zero i = refl
serve_init-length (suc k) i = ap suc (serve_init-length k (i + 1))

serve_init-fileid :
    (k i j : ℕ)
    → (j < k → (get_or (serve_init k i) j no_file).fileid ≡ i + j)
      × ((get_or (serve_init k i) j no_file).fileid ≤ i + k)
unfolding serve_init
serve_init-fileid zero i j = (λ h. absurd (omega arith), omega arith)
serve_init-fileid (suc k) i zero = (λ h. omega arith, omega arith)
serve_init-fileid (suc k) i (suc j) =
    let r = serve_init-fileid k (i + 1) j in
    (λ h. omega (arith, r.0 (omega arith)), omega (arith, r.1))

-- the server after `serve_init`
abbrev started : Server
started = record { opentab = serve_init maxopen 0; fs = small }

started-IsTable : IsTable started.opentab
started-IsTable = record {
  size = serve_init-length maxopen 0;
  numbers = λ i h. omega (arith, h, (serve_init-fileid maxopen 0 i).0 h);
  words = λ i. omega (arith, (serve_init-fileid maxopen 0 i).1);
}

openfile_alloc-Alloc_example : Alloc none started (openfile_alloc none started)
openfile_alloc-Alloc_example = openfile_alloc-Alloc started none started-IsTable

-- one client has the file of the small disk open, under 1024
abbrev serving : Server
serving = record {
  opentab =
      record { fileid = 1024; file = some (in_block 2 0); mode = 2; fd = blank_fd; refs = 2 } ∷ [];
  fs = small;
}

serving-IsOpen : IsOpen serving 1024 2 0
serving-IsOpen = record { inside = omega arith; held = omega arith; number = refl; file = refl }

abbrev answered : Server
answered = record {
  opentab =
      record {
        fileid = 1024;
        file = some (in_block 2 0);
        mode = 2;
        fd = record blank_fd { offset = 2 };
        refs = 2;
      }
      ∷ [];
  fs = written;
}

serving_run : serve_write 1024 two_bytes serving ≡ sends 2 answered
unfolding serve_write write_file openfile_lookup with_file on_fs put_file written state_of
    file_write in_ind small_blocks small_inodes zeros write_loop file_get_block file_flush
    flush_from flush_entry flush_block diskaddr
serving_run = refl

serve_read-serve_write_example :
    (u : Server) × (serve_read 1024 2 (seek 1024 0 answered) ≡ sends two_bytes u)
serve_read-serve_write_example =
    serve_read-serve_write serving answered 1024 2 0 1 2 two_bytes serving-IsOpen small-IsFile
      small-HasEntry (omega arith) (omega arith) serving_run
