-- ===== src/Kernel/Env.antt =====
-- Environments and the scheduler: env.c and sched.c.
pub mod Sched
pub mod Ids
use damn_os_damn_fs.Prelude.{
  ℕ, zero, suc, ◌+◌, ◌-◌, ◌*◌, ◌/◌, ◌%◌, ◌^◌, bit_or, Bool, true, false, Option, none, some, not,
  ◌&&◌, ◌||◌, List, [], ◌∷◌, ◌==◌, ltb, leb, if◌then◌else◌, set, length,
}
use damn_os_damn_fs.Kernel.State.{
  Env, Trapframe, Kernel, K, Out, ret, err, panic, user, halted, monitor, pure, fail, and_then,
  ◌>>=◌, ◌>>◌, get, env_at, with_env, put_env, no_trapframe, at, nenv, env_free_status, env_dying,
  env_runnable, env_running, e_bad_env, e_no_mem, e_no_free_env, utop, uvpt, pgsize,
}
use damn_os_damn_fs.Kernel.Pages.{
  pdx, pte_addr, page2pa, pa2page, put_word, page_alloc, page_incref, page_decref, page_remove,
}

-- `ENVX`
unfoldable pub envx : ℕ → ℕ
envx id = id % nenv

abbrev pub is_env : Option ℕ → ℕ → Bool
is_env none n = false
is_env (some c) n = c == n

-- `curenv->env_id`, through a null pointer too
unfoldable pub cur_id : K ℕ
cur_id s = elim (s.curenv) [ none ↦ panic | some c ↦ ret ((env_at s c).id) s ]

-- The environment of `envid`; with `envid` 0 that is `curenv`, which may be null.
unfoldable pub envid2env : ℕ → Bool → K (Option ℕ)
unfolding envx cur_id
envid2env envid checkperm s =
    let n = envx envid in
    let e = env_at s n in
    if envid == 0
    then ret (s.curenv) s
    else if e.status == env_free_status || not (e.id == envid)
    then err e_bad_env s
    else if checkperm && not (is_env (s.curenv) n)
    then (cur_id >>= λ c. if e.parent_id == c then pure (some n) else fail e_bad_env) s
    else ret (some n) s

-- The loop of `env_init`, from environment `k - 1` down.
unfoldable pub env_init_from : ℕ → Kernel → Kernel
env_init_from zero s = s
env_init_from (suc i) s =
    env_init_from i
      (record (with_env s i
        (record (env_at s i) { id = 0; status = env_free_status; link = s.env_free_list })) {
          env_free_list = some i;
        })

unfoldable pub env_init : Kernel → Kernel
unfolding env_init_from
env_init s = env_init_from nenv s

-- A page directory: a copy of the kernel's, with itself at `UVPT`.
unfoldable pub env_setup_vm : ℕ → K (Unit {0})
unfolding page_alloc page_incref put_word pdx page2pa
env_setup_vm n = do
  r ← page_alloc true
  elim r [
    | none ↦ fail e_no_mem
    | some p ↦ do
      s ← get
      put_env n (record (env_at s n) { pgdir = p })
      (λ t. ret tt (record t { words = at (t.words) p (t.words (t.kern_pgdir)) }))
      page_incref p
      put_word p (pdx uvpt) (bit_or (bit_or (page2pa p) 1) 4)
  ]

-- The number of a new environment in slot `n`, which last had the number `old`.
unfoldable pub next_id : ℕ → ℕ → ℕ
next_id old n =
    let g = (old + 2 ^ 12) % 2 ^ 32 / nenv * nenv in
    let generation = if g == 0 || leb (2 ^ 31) g then 2 ^ 12 else g in bit_or generation n

-- `GD_UD | 3` and `GD_UT | 3`, `USTACKTOP`, and `FL_IF`
abbrev user_trapframe : Trapframe
user_trapframe = record no_trapframe {
  esp = utop - 2 * pgsize;
  eflags = 0x200;
  saved = 0x23 ∷ 0x23 ∷ 0x23 ∷ 0x1b ∷ [];
}

unfoldable pub env_alloc : ℕ → K ℕ
unfolding env_setup_vm next_id
env_alloc parent_id s = elim (s.env_free_list) [
  | none ↦ err e_no_free_env s
  | some n ↦
      (do
        env_setup_vm n
        t ← get
        let e = env_at t n
        put_env n (record e {
          id = next_id (e.id) n;
          parent_id = parent_id;
          type = 0;
          status = env_runnable;
          runs = 0;
          tf = user_trapframe;
          pgfault_upcall = 0;
          ipc_recving = false;
        })
        (λ u. ret tt (record u { env_free_list = e.link }))
        pure n)
        s
]

-- The pages of one page table, from entry `i` on.
unfoldable pub unmap_table : ℕ → ℕ → ℕ → ℕ → ℕ → K (Unit {0})
unfolding page_remove
unmap_table zero pgdir pt pdeno i = pure tt
unmap_table (suc k) pgdir pt pdeno i = do
  s ← get
  if s.words pt i % 2 == 0 then pure tt else page_remove pgdir (pdeno * 2 ^ 22 + i * 2 ^ 12)
  unmap_table k pgdir pt pdeno (i + 1)

-- The user part of the address space, from directory entry `pdeno` on.
unfoldable pub unmap_user : ℕ → ℕ → ℕ → K (Unit {0})
unfolding unmap_table put_word page_decref pte_addr pa2page
unmap_user zero pgdir pdeno = pure tt
unmap_user (suc k) pgdir pdeno = do
  s ← get
  let pa = pte_addr (s.words pgdir pdeno)
  if s.words pgdir pdeno % 2 == 0
      then pure tt
      else (unmap_table 1024 pgdir (pa2page pa) pdeno 0
          >> (put_word pgdir pdeno 0 >> page_decref (pa2page pa)))
  unmap_user k pgdir (pdeno + 1)

unfoldable pub env_free : ℕ → K (Unit {0})
unfolding unmap_user pdx page_decref
env_free n = do
  s ← get
  let pgdir = (env_at s n).pgdir
  unmap_user (pdx utop) pgdir 0
  t ← get
  put_env n (record (env_at t n) { pgdir = 0 })
  page_decref pgdir
  u ← get
  put_env n (record (env_at u n) { status = env_free_status; link = u.env_free_list })
  (λ v. ret tt (record v { env_free_list = some n }))

-- `curenv` is set back to runnable if it was running.
unfoldable pub descheduled : Kernel → Kernel
descheduled s = elim (s.curenv) [
  | none ↦ s
  | some c ↦
      if (env_at s c).status == env_running
      then with_env s c (record (env_at s c) { status = env_runnable })
      else s
]

unfoldable pub env_run : {A : Type 0} → ℕ → K A
unfolding descheduled
env_run n s =
    if is_env (s.curenv) n
    then user n s
    else let t = descheduled s in
      let e = env_at t n in
      user n
        (record (with_env t n (record e { status = env_running; runs = (e.runs + 1) % 2 ^ 32 })) {
          curenv = some n;
        })

-- An environment that keeps the processor out of the monitor.
unfoldable pub alive : Kernel → ℕ → Bool
alive s n =
    let e = env_at s n in
    e.status == env_runnable || (e.status == env_running || e.status == env_dying)

unfoldable pub any_alive : ℕ → ℕ → Kernel → Bool
unfolding alive
any_alive zero i s = false
any_alive (suc k) i s = alive s i || any_alive k (i + 1) s

unfoldable pub sched_halt : {A : Type 0} → K A
unfolding any_alive
sched_halt s = if any_alive nenv 0 s then halted (record s { curenv = none }) else monitor s

-- The index at which the search starts.
unfoldable pub curenv_id : Kernel → ℕ
unfolding envx
curenv_id s = elim (s.curenv) [ none ↦ 0 | some c ↦ envx ((env_at s c).id) ]

-- where no environment is runnable
unfoldable pub sched_rest : {A : Type 0} → K A
unfolding env_run sched_halt
sched_rest s = elim (s.curenv) [
  | none ↦ sched_halt s
  | some c ↦ if (env_at s c).status == env_running then env_run c s else sched_halt s
]

unfoldable pub sched_from : {A : Type 0} → ℕ → ℕ → K A
unfolding sched_rest env_run
sched_from zero i s = sched_rest s
sched_from (suc k) i s =
    let j = (curenv_id s + i) % nenv in
    elim ((env_at s j).status == env_runnable) [
      | true ↦ env_run j s
      | false ↦ sched_from k (i + 1) s
    ]

unfoldable pub sched_yield : {A : Type 0} → K A
unfolding sched_from
sched_yield s = sched_from nenv 0 s

unfoldable pub env_destroy : ℕ → K (Unit {0})
unfolding env_free sched_yield
env_destroy n s =
    let e = env_at s n in
    if e.status == env_running && not (is_env (s.curenv) n)
    then put_env n (record e { status = env_dying }) s
    else (do
      env_free n
      t ← get
      if is_env (t.curenv) n then (λ u. sched_yield (record u { curenv = none })) else pure tt)
        s
