-- ===== src/User.antt =====
-- The part of a process that handles other processes and their pages: fork.c, pgfault.c, ipc.c and
-- wait.c. A process is its page table, that of the child it makes, and the words of the pages; what
-- the kernel answers is a parameter. A panic is `none`.
pub mod Entries
pub mod Cow
pub mod Fault
pub mod Messages
mod Tests
use damn_os_damn_fs.Prelude.{
  ℕ, zero, suc, ◌+◌, ◌-◌, ◌*◌, ◌/◌, ◌%◌, ◌^◌, ◌≤◌, ◌<◌, min, ◌≡◌, refl, sym, ap, ap₂, subst, ◌∙◌,
  ◌≢◌, ◌↔◌, ◌⊎◌, inl, inr, Bool, true, false, ◌&&◌, ◌||◌, not, Option, none, some, List, [], ◌∷◌,
  ◌++◌, append_assoc, append-nil, arith, ltb, leb, ◌==◌, if◌then◌else◌, Bool-cases, ==_iff, length,
  get_or, set, take, drop, replicate, length-append, length-set, length-replicate, get_or-set_self,
  get_or-set_ne, codes, fun_ext,
}
use damn_os_damn_fs.Prelude.{bit_and}
use damn_os_damn_fs.Prelude.Int.{ℤ, pos, negsuc}
use damn_os_damn_fs.Kernel.State.{
  Env, no_env, nenv, pgsize, pte_p, pte_u, pte_w, env_free_status, e_ipc_not_recv,
}
use damn_os_damn_fs.Kernel.Env.{envx}
use damn_os_damn_fs.Descriptor.{Answer, ok, err, at}

abbrev pub pte_cow : ℕ
pte_cow = 0x800

abbrev pub pte_share : ℕ
pte_share = 0x400

abbrev pub pte_syscall : ℕ
pte_syscall = 0xe07

-- `PTE_W|PTE_U|PTE_P` and `PTE_U|PTE_P`
abbrev pub pte_wup : ℕ
pte_wup = 7

abbrev pub pte_up : ℕ
pte_up = 5

-- the numbers of the pages at UXSTACKTOP - PGSIZE and PFTEMP, and of those below USTACKTOP
abbrev pub uxstack : ℕ
uxstack = 0xeebff

abbrev pub pftemp : ℕ
pftemp = 0x7ff

abbrev pub ustack_pages : ℕ
ustack_pages = 0xeebfe

-- An entry of a page table: the physical page, and the permission bits.
pub record Entry : Type 0 where
  pub page : ℕ
  pub perm : ℕ

abbrev pub unmapped : Entry
unmapped = record { page = 0; perm = 0 }

-- `FEC_WR`: the fault was a write
abbrev pub fec_wr : ℕ
fec_wr = 2

pub data Target : Type 0 where
  self : Target
  child : Target

-- `uvpt` and `uvpd` of the process, the page table of the child, the words of the physical pages, and
-- whether `_pgfault_handler` is set.
pub record Spaces : Type 0 where
  pub uvpt : ℕ → Entry
  pub uvpd : ℕ → ℕ
  pub theirs : ℕ → Entry
  pub words : ℕ → ℕ → ℕ
  pub handler : Bool

-- What the kernel answers: the page that sys_page_alloc gives for a place, or an error, and the
-- errors of the other calls.
pub record Answers : Type 0 where
  pub alloc : Target → ℕ → Answer ℕ
  pub map_error : Target → ℕ → Option ℕ
  pub unmap_error : ℕ → Option ℕ
  pub upcall_error : Target → Option ℕ
  pub status_error : Option ℕ
  pub exofork : ℤ

abbrev pub has : ℕ → ℕ → Bool
has perm mask = not (bit_and perm mask == 0)

-- the table of the target with another entry
abbrev pub put_entry : Target → ℕ → Entry → Spaces → Spaces
put_entry self pn e s = record s { uvpt = at s.uvpt pn e }
put_entry child pn e s = record s { theirs = at s.theirs pn e }

abbrev pub after : {A : Type 0} → Option Spaces → (Spaces → Option A) → Option A
after none f = none
after (some s) f = f s

-- a call that either panics, or goes on
abbrev pub checked : Option ℕ → Spaces → Option Spaces
checked none s = some s
checked (some e) s = none

abbrev pub allocated : Target → ℕ → ℕ → Answer ℕ → Spaces → Option Spaces
allocated t pn perm (err e) s = none
allocated t pn perm (ok p) s =
    some (
      put_entry t pn (record { page = p; perm = perm })
        (record s { words = at s.words p (λ i. 0) }))

-- `sys_page_alloc` at page `pn`, and `sys_page_map` from page `src` of the process
abbrev pub page_alloc_at : Answers → Target → ℕ → ℕ → Spaces → Option Spaces
page_alloc_at k t pn perm s = allocated t pn perm (k.alloc t pn) s

abbrev pub page_map_at : Answers → ℕ → Target → ℕ → ℕ → Spaces → Option Spaces
page_map_at k src t pn perm s =
    checked (k.map_error t pn) (put_entry t pn (record { page = (s.uvpt src).page; perm = perm }) s)

-- `memcpy (PFTEMP, addr, PGSIZE)` from page `src` to page `dst` of the process
abbrev pub copy_page : ℕ → ℕ → Spaces → Spaces
copy_page dst src s = record s {
  words = at s.words ((s.uvpt dst).page) (s.words ((s.uvpt src).page));
}

-- `pgfault` for a fault in page `pn`
unfoldable pub pgfault : Answers → ℕ → ℕ → Spaces → Option Spaces
pgfault k pn fault s =
    if not (has fault fec_wr) && not (has ((s.uvpt pn).perm) pte_cow)
    then none
    else after (page_alloc_at k self pftemp pte_wup s) (λ t.
      after (page_map_at k pftemp self pn pte_wup (copy_page pftemp pn t))
        (λ u. checked (k.unmap_error pftemp) (put_entry self pftemp unmapped u)))

unfoldable pub duppage : Answers → ℕ → Spaces → Option Spaces
duppage k pn s =
    let perm = (s.uvpt pn).perm in
    if has perm pte_share
    then page_map_at k pn child pn pte_syscall s
    else if has perm pte_w || has perm pte_cow
    then after (page_map_at k pn child pn (pte_cow + pte_up) s)
        (λ t. page_map_at k pn self pn (pte_cow + pte_up) t)
    else page_map_at k pn child pn pte_up s

-- the pages that fork hands on
unfoldable pub is_user : ℕ → Spaces → Bool
is_user pn s =
    has (s.uvpd (pn / 1024)) pte_p && (has ((s.uvpt pn).perm) pte_p && has ((s.uvpt pn).perm) pte_u)

-- `for(i = 0; i < USTACKTOP; i += PGSIZE)`, for the `n` pages from `pn` on
unfoldable pub dup_pages_from : Answers → ℕ → ℕ → Spaces → Option Spaces
unfolding is_user duppage
dup_pages_from k zero pn s = some s
dup_pages_from k (suc n) pn s =
    after (if is_user pn s then duppage k pn s else some s) (dup_pages_from k n (suc pn))

unfoldable pub set_pgfault_handler : Answers → Spaces → Option Spaces
set_pgfault_handler k s =
    if s.handler
    then some s
    else after (page_alloc_at k self uxstack pte_wup s)
        (λ t. checked (k.upcall_error self) (record t { handler = true }))

abbrev pub is_zero : ℤ → Bool
is_zero (pos n) = n == 0
is_zero (negsuc n) = false

-- what the parent does with the child
unfoldable pub make_child : Answers → Spaces → Option Spaces
make_child k s = after (dup_pages_from k ustack_pages 0 s) (λ t.
    after (page_alloc_at k child uxstack pte_wup t)
      (λ u. after (checked (k.upcall_error child) u) (checked k.status_error)))

-- `fork`: the number, and the pages of both. sys_exofork answers 0 in the child.
unfoldable pub fork : Answers → Spaces → Option (ℤ × Spaces)
unfolding set_pgfault_handler
fork k s = after (set_pgfault_handler k s) (λ t.
    if is_zero k.exofork
    then some (pos 0, t)
    else after (make_child k t) (λ u. some (k.exofork, u)))
