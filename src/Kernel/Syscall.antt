-- ===== src/Kernel/Syscall.antt =====
-- The system calls of trap.c. A call is made with `curenv` set.
use damn_os_damn_fs.Prelude.{
  ℕ, ◌+◌, ◌-◌, ◌*◌, ◌/◌, ◌%◌, ◌^◌, bit_or, bit_and, Bool, true, false, Option, none, some, not,
  ◌&&◌, ◌||◌, ◌==◌, ltb, leb, if◌then◌else◌,
}
use damn_os_damn_fs.Kernel.State.{
  Trapframe, Kernel, K, ret, err, panic, user, halted, monitor, pure, fail, ◌>>=◌, ◌>>◌, get,
  env_at, with_env, put_env, env_runnable, env_not_runnable, e_no_mem, e_inval, e_ipc_not_recv,
  utop, pgsize,
}
use damn_os_damn_fs.Kernel.Pages.{page_alloc, page_insert, page_lookup, page_remove, page_free}
use damn_os_damn_fs.Kernel.Env.{cur_id, envid2env, env_alloc, env_destroy, sched_yield}

-- `env_store`, about to be read through
unfoldable pub target : Option ℕ → K ℕ
target none s = panic
target (some n) s = ret n s

-- the target of a call that asks for permission
unfoldable pub own_env : ℕ → K ℕ
unfolding target
own_env envid = envid2env envid true >>= target

-- `va >= UTOP || va % PGSIZE != 0`
unfoldable pub bad_va : ℕ → Bool
bad_va va = leb utop va || not (va % pgsize == 0)

-- `!(perm & PTE_U) || !(perm & PTE_P)`, or a bit outside `PTE_SYSCALL`
unfoldable pub bad_perm : ℕ → Bool
bad_perm perm = perm / 4 % 2 == 0 || (perm % 2 == 0 || not (bit_and perm (2 ^ 32 - 1 - 0xe07) == 0))

unfoldable pub writes : ℕ → Bool
writes perm = perm / 2 % 2 == 1

unfoldable pub sys_getenvid : K ℕ
sys_getenvid = cur_id

unfoldable pub sys_env_destroy : ℕ → K (Unit {0})
sys_env_destroy envid = do e ← envid2env envid true; n ← target e; env_destroy n

unfoldable pub sys_yield : K (Unit {0})
sys_yield = sched_yield

unfoldable pub current : K ℕ
unfolding target
current s = target (s.curenv) s

-- The child gets the registers of its parent, with a result of 0.
unfoldable pub sys_exofork : K ℕ
unfolding current
sys_exofork = do
  parent ← cur_id
  n ← env_alloc parent
  c ← current
  s ← get
  put_env n (record (env_at s n) {
    status = env_not_runnable;
    tf = record ((env_at s c).tf) { reg_eax = 0 };
  })
  pure ((env_at s n).id)

unfoldable pub sys_env_set_status : ℕ → ℕ → K (Unit {0})
unfolding own_env
sys_env_set_status envid status =
    if not (status == env_runnable) && not (status == env_not_runnable)
    then fail e_inval
    else do n ← own_env envid; s ← get; put_env n (record (env_at s n) { status = status })

unfoldable pub sys_env_set_trapframe : ℕ → Trapframe → K (Unit {0})
unfolding own_env
sys_env_set_trapframe envid tf = do
  n ← own_env envid
  s ← get
  put_env n (record (env_at s n) { tf = record tf { eflags = bit_or (tf.eflags) 0x200 } })

unfoldable pub sys_env_set_pgfault_upcall : ℕ → ℕ → K (Unit {0})
unfolding own_env
sys_env_set_pgfault_upcall envid func = do
  n ← own_env envid
  s ← get
  if func == 0 then fail e_inval else put_env n (record (env_at s n) { pgfault_upcall = func })

-- the insertion of a new page, which is freed where there is no page table
insert_new : ℕ → ℕ → ℕ → ℕ → K (Unit {0})
insert_new pgdir p va perm s = elim (page_insert pgdir p va perm s) [
  | ret u t ↦ ret u t
  | err e t ↦ (page_free p >> fail e_no_mem) t
  | panic ↦ panic
  | user n t ↦ user n t
  | halted t ↦ halted t
  | monitor t ↦ monitor t
]

-- Out of memory, `page_free` reads through a null pointer.
unfoldable pub sys_page_alloc : ℕ → ℕ → ℕ → K (Unit {0})
unfolding own_env insert_new bad_va bad_perm
sys_page_alloc envid va perm = do
  n ← own_env envid
  if bad_va va then fail e_inval else if bad_perm perm then fail e_inval else do
    r ← page_alloc true
    s ← get
    elim r [ none ↦ (λ t. panic) | some p ↦ insert_new ((env_at s n).pgdir) p va perm ]

-- The test for a read-only page looks at the address of the entry, as the code does.
unfoldable pub sys_page_map : ℕ → ℕ → ℕ → ℕ → ℕ → K (Unit {0})
unfolding own_env bad_va bad_perm writes
sys_page_map srcenvid srcva dstenvid dstva perm = do
  src ← own_env srcenvid
  dst ← own_env dstenvid
  if bad_va srcva || bad_va dstva then fail e_inval else if bad_perm perm then fail e_inval else do
    s ← get
    r ← page_lookup ((env_at s src).pgdir) srcva
    elim r [
      | none ↦ fail e_inval
      | some l ↦
          if writes perm && writes (0xf0000000 + (l.1.0) * 4096 + (l.1.1) * 4)
          then fail e_inval
          else page_insert ((env_at s dst).pgdir) (l.0) dstva perm
    ]

unfoldable pub sys_page_unmap : ℕ → ℕ → K (Unit {0})
unfolding own_env bad_va
sys_page_unmap envid va = do
  n ← own_env envid
  s ← get
  if bad_va va then fail e_inval else page_remove ((env_at s n).pgdir) va

-- `env_ipc_perm = perm`, after the page has been mapped; 0 where it could not be.
map_sent : ℕ → ℕ → ℕ → K (Unit {0})
map_sent n p perm s = elim (page_insert ((env_at s n).pgdir) p ((env_at s n).ipc_dstva) perm s) [
  | ret u t ↦ put_env n (record (env_at t n) { ipc_perm = perm }) t
  | err e t ↦ (put_env n (record (env_at t n) { ipc_perm = 0 }) >> fail e) t
  | panic ↦ panic
  | user m t ↦ user m t
  | halted t ↦ halted t
  | monitor t ↦ monitor t
]

-- The page of a message, where `srcva` names one.
unfoldable pub send_page : ℕ → ℕ → ℕ → K (Unit {0})
unfolding map_sent bad_perm writes current
send_page n srcva perm =
    if not (srcva % pgsize == 0) then fail e_inval else if bad_perm perm then fail e_inval else do
      c ← current
      s ← get
      r ← page_lookup ((env_at s c).pgdir) srcva
      t ← get
      elim r [
        | none ↦ fail e_inval
        | some l ↦
            if writes perm && not (writes (t.words (l.1.0) (l.1.1)))
            then fail e_inval
            else if ltb ((env_at t n).ipc_dstva) utop
            then map_sent n (l.0) perm
            else pure tt
      ]

-- The value reaches environment `n`, which becomes runnable.
unfoldable pub deliver : ℕ → ℕ → ℕ → Kernel → Kernel
deliver n from value s =
    let e = env_at s n in
    with_env s n (record e {
      ipc_from = from;
      ipc_value = value;
      status = env_runnable;
      tf = record (e.tf) { reg_eax = 0 };
    })

unfoldable pub stop_recving : ℕ → Kernel → Kernel
stop_recving n s = with_env s n (record (env_at s n) { ipc_recving = false })

unfoldable pub sys_ipc_try_send : ℕ → ℕ → ℕ → ℕ → K (Unit {0})
unfolding target send_page deliver stop_recving
sys_ipc_try_send envid value srcva perm = do
  e ← envid2env envid false
  n ← target e
  s ← get
  if not ((env_at s n).ipc_recving) then fail e_ipc_not_recv else do
    (λ t. ret tt (stop_recving n t))
    if ltb srcva utop then send_page n srcva perm else pure tt
    from ← cur_id
    (λ t. ret tt (deliver n from value t))

unfoldable pub sys_ipc_recv : ℕ → K (Unit {0})
unfolding current
sys_ipc_recv dstva = if ltb dstva utop && not (dstva % pgsize == 0) then fail e_inval else do
  c ← current
  s ← get
  put_env c
      (record (env_at s c) { ipc_recving = true; ipc_dstva = dstva; status = env_not_runnable })
  sched_yield
