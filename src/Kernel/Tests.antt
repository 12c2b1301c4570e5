-- ===== src/Kernel/Tests.antt =====
-- Two environments, and the theorems on the kernel at work on them.
use damn_os_damn_fs.Prelude.{
  ◌+◌, ◌*◌, ◌^◌, ◌<◌, ◌≡◌, ◌≢◌, true, none, some, [], ◌∷◌, arith, ◌==◌, if◌then◌else◌,
}
use damn_os_damn_fs.Kernel.State.{Env, Kernel, ret, env_runnable, env_running, no_env}
use damn_os_damn_fs.Prelude.{refl, ◌-◌, false}
use damn_os_damn_fs.Kernel.State.{utop}
use damn_os_damn_fs.Kernel.Pages.{page_alloc, page_decref, page_remove, pdx, ptx}
use damn_os_damn_fs.Kernel.Pages.Remove.{IsMapped, Removed, page_remove-Removed}
use damn_os_damn_fs.Kernel.Pages.Free.{
  Chain, Without, Distinct, Unused, IsFree, Alloc, Decref, page_alloc-Alloc, page_decref-Decref,
}
use damn_os_damn_fs.Kernel.Boot.{page_init, spare, page_init-IsFree}
use damn_os_damn_fs.Kernel.Syscall.{sys_ipc_try_send}
use damn_os_damn_fs.Kernel.Trap.Ipc.{Sent, sys_ipc_try_send-Sent}
use damn_os_damn_fs.Kernel.Env.{envx, next_id, envid2env, sched_yield}
use damn_os_damn_fs.Kernel.Env.Sched.{Next, sched_yield-Next}
use damn_os_damn_fs.Kernel.Env.Ids.{next_id-fresh, Found, envid2env-Found}

abbrev parent : Env
parent = record no_env { id = 4096; status = env_running; pgdir = 7 }

abbrev child : Env
child = record no_env { id = 4097; parent_id = 4096; status = env_runnable; pgdir = 8 }

abbrev two : Kernel
two = record {
  envs = parent ∷ child ∷ [];
  curenv = some 0;
  env_free_list = none;
  kern_pgdir = 1;
  pp_ref = λ p. 0;
  pp_link = λ p. none;
  page_free_list = some 3;
  words = λ p i. if p == 7 then 8 * 4096 + 7 else 0;
}

sched_yield-Next_example : Next two 0 (sched_yield two)
unfolding envx
sched_yield-Next_example = sched_yield-Next two 0 refl (omega arith) refl refl

envid2env-Found_example : Found two 4097 true (envid2env 4097 true two)
envid2env-Found_example = envid2env-Found two 4097 true

next_id-fresh_example :
    (0 < next_id 4097 1)
    × (next_id 4097 1 < 2 ^ 31)
    × (envx (next_id 4097 1) ≡ 1)
    × (next_id 4097 1 ≢ 4097)
next_id-fresh_example = next_id-fresh 4097 1 (omega arith) (omega arith)

-- page 3 is the only free one, and page 8 has one reference
abbrev counted : Kernel
counted = record two { pp_ref = λ p. if p == 8 then 1 else 0 }

counted-IsFree : IsFree counted (3 ∷ [])
unfolding Chain Distinct Unused Without
counted-IsFree = record { chain = (refl, refl); distinct = (tt, tt); unused = (refl, tt) }

page_alloc-Alloc_example : Alloc true counted (3 ∷ []) (page_alloc true counted)
page_alloc-Alloc_example = page_alloc-Alloc true counted (3 ∷ []) counted-IsFree

page_decref-Decref_example :
    (t : Kernel) × (page_decref 8 counted ≡ ret tt t) × Decref counted t (3 ∷ []) 8
unfolding Without
page_decref-Decref_example =
    page_decref-Decref counted (3 ∷ []) 8 counted-IsFree ((λ e. omega (arith, e)), tt) refl
      (omega arith) (omega arith)

-- page 8 is the page table of the second address, whose entry leads to page 9, with two references
abbrev mapped : Kernel
mapped = record two {
  words = λ p i. if p == 7 then 8 * 4096 + 7 else (if p == 8 then 9 * 4096 + 7 else 0);
  pp_ref = λ p. if p == 9 then 2 else 0;
}

mapped-IsFree : IsFree mapped (3 ∷ [])
unfolding Chain Distinct Unused Without
mapped-IsFree = record { chain = (refl, refl); distinct = (tt, tt); unused = (refl, tt) }

mapped-IsMapped : IsMapped mapped 7 4096 8 9
unfolding pdx ptx
mapped-IsMapped = record {
  has_table = λ e. omega (arith, e);
  at_table = refl;
  present = refl;
  at_page = refl;
}

page_remove-Removed_example :
    (t : Kernel) × (page_remove 7 4096 mapped ≡ ret tt t) × Removed mapped t (3 ∷ []) 8 (ptx 4096) 9
unfolding Without
page_remove-Removed_example =
    page_remove-Removed mapped (3 ∷ []) 7 4096 8 9 mapped-IsFree ((λ e. omega (arith, e)), tt) refl
      (omega arith) (omega arith) mapped-IsMapped

-- before page_init: 1024 pages, 640 KB of base memory, and the kernel up to page 300
abbrev booting : Kernel
booting = record two { page_free_list = none }

page_init-IsFree_example : IsFree (page_init 1024 160 300 booting) (spare 160 300 (1024 - 1) [])
page_init-IsFree_example = page_init-IsFree 1024 160 300 booting refl

-- the child waits for a message
abbrev waiting : Kernel
waiting = record two { envs = parent ∷ record child { ipc_recving = true } ∷ [] }

receiver_found : envid2env 4097 false waiting ≡ ret (some 1) waiting
unfolding envid2env
receiver_found = refl

sys_ipc_try_send-Sent_example :
    (t : Kernel) × (sys_ipc_try_send 4097 42 utop 0 waiting ≡ ret tt t) × Sent waiting t 1 4096 42
sys_ipc_try_send-Sent_example =
    sys_ipc_try_send-Sent waiting 4097 42 utop 0 1 0 receiver_found (omega arith) refl refl
      (omega arith)
