-- ===== src/User/Tests.antt =====
-- A process with one writable page, and the theorems on fork at work on it.
use damn_os_damn_fs.Prelude.{◌≡◌, refl, true, none, some, arith, ◌==◌, if◌then◌else◌}
use damn_os_damn_fs.Prelude.Int.{pos}
use damn_os_damn_fs.Descriptor.{ok, at}
use damn_os_damn_fs.User.{pte_wup, unmapped, Spaces, Answers, pgfault, fork}
use damn_os_damn_fs.User.Entries.{IsWilling}
use damn_os_damn_fs.User.Cow.{Forked, fork-Forked}
use damn_os_damn_fs.User.Fault.{Copied, pgfault-Copied}

abbrev willing : Answers
willing = record {
  alloc = λ t pn. ok 500;
  map_error = λ t pn. none;
  unmap_error = λ pn. none;
  upcall_error = λ t. none;
  status_error = none;
  exofork = pos 4097;
}

willing-IsWilling : IsWilling willing
willing-IsWilling = record {
  maps = λ t pn. refl;
  unmaps = λ pn. refl;
  upcalls = λ t. refl;
  status = refl;
}

-- page 1024 is writable, page 1025 marked copy-on-write
abbrev forking : Spaces
forking = record {
  uvpt =
      at (at (λ q. unmapped) 1024 (record { page = 30; perm = pte_wup })) 1025
        (record { page = 31; perm = 0x805 });
  uvpd = λ i. if i == 1 then 7 else 0;
  theirs = λ q. unmapped;
  words = λ p i. p;
  handler = true;
}

fork-Forked_example :
    (t : Spaces) × (fork willing forking ≡ some (pos 4097, t)) × Forked forking t 500
fork-Forked_example = fork-Forked willing forking 500 willing-IsWilling refl refl refl

pgfault-Copied_example :
    (t : Spaces) × (pgfault willing 1025 2 forking ≡ some t) × Copied forking t 1025 500
pgfault-Copied_example =
    pgfault-Copied willing 1025 2 500 forking willing-IsWilling refl (λ e. omega (arith, e))
      (λ e. omega (arith, e)) refl refl
