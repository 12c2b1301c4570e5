-- ===== src/Kernel/Trap.antt =====
-- Traps: trap_init, trapname, syscall, trap_dispatch, page_fault_handler and trap of trap.c.
pub mod Ipc
pub mod Frame
use damn_os_damn_fs.Prelude.{
  ℕ, zero, suc, ◌+◌, ◌-◌, ◌*◌, ◌/◌, ◌%◌, ◌^◌, ◌≤◌, ◌<◌, min, ◌≡◌, refl, sym, ap, ap₂, subst, ◌∙◌,
  ◌≢◌, ◌↔◌, ◌⊎◌, inl, inr, Bool, true, false, ◌&&◌, ◌||◌, not, Option, none, some, List, [], ◌∷◌,
  ◌++◌, append_assoc, append-nil, arith, ltb, leb, ◌==◌, if◌then◌else◌, Bool-cases, ==_iff, length,
  get_or, set, take, drop, replicate, length-append, length-set, length-replicate, get_or-set_self,
  get_or-set_ne, codes, fun_ext,
}
use damn_os_damn_fs.Kernel.State.{
  Trapframe, Kernel, K, Out, ret, err, panic, user, halted, monitor, pure, fail, and_then, ◌>>=◌,
  ◌>>◌, get, env_at, with_env, put_env, env_dying, env_running, e_inval, utop, pgsize,
}
use damn_os_damn_fs.Kernel.Env.{cur_id, env_free, env_run, env_destroy, sched_yield}
use damn_os_damn_fs.Kernel.Syscall.{
  current, sys_getenvid, sys_env_destroy, sys_yield, sys_exofork, sys_env_set_status,
  sys_env_set_trapframe, sys_env_set_pgfault_upcall, sys_page_alloc, sys_page_map, sys_page_unmap,
  sys_ipc_try_send, sys_ipc_recv,
}

-- `SETGATE`: whether it is a trap gate, and the privilege level that may call it.
pub record Gate : Type 0 where
  pub is_trap : Bool
  pub dpl : ℕ

abbrev kernel_gate : Gate
kernel_gate = record { is_trap = false; dpl = 0 }

-- The table that trap_init sets, by the number of the trap.
unfoldable pub idt : ℕ → Option Gate
idt n =
    if n == 3
    then some (record { is_trap = false; dpl = 3 })
    else if leb n 8 || (leb 10 n && leb n 14) || (leb 16 n && leb n 19)
    then some kernel_gate
    else if n == 48
    then some (record { is_trap = true; dpl = 3 })
    else if n == 32
    then some kernel_gate
    else none

abbrev excnames : List (List ℕ)
excnames =
    codes "Divide error"
    ∷ codes "Debug"
    ∷ codes "Non-Maskable Interrupt"
    ∷ codes "Breakpoint"
    ∷ codes "Overflow"
    ∷ codes "BOUND Range Exceeded"
    ∷ codes "Invalid Opcode"
    ∷ codes "Device Not Available"
    ∷ codes "Double Fault"
    ∷ codes "Coprocessor Segment Overrun"
    ∷ codes "Invalid TSS"
    ∷ codes "Segment Not Present"
    ∷ codes "Stack Fault"
    ∷ codes "General Protection"
    ∷ codes "Page Fault"
    ∷ codes "(unknown trap)"
    ∷ codes "x87 FPU Floating-Point Error"
    ∷ codes "Alignment Check"
    ∷ codes "Machine-Check"
    ∷ codes "SIMD Floating-Point Exception"
    ∷ []

unfoldable pub trapname : ℕ → List ℕ
trapname n =
    if ltb n 20
    then get_or excnames n []
    else if n == 48
    then codes "System call"
    else if leb 32 n && ltb n 48
    then codes "Hardware Interrupt"
    else codes "(unknown trap)"

-- What the processor gives: the fault address in CR2, a character that waits at the console, a
-- `struct Trapframe` in user memory, and the store of words through the page tables in use, `none`
-- where it faults (in the kernel, a panic).
pub record Machine : Type 0 where
  pub cr2 : ℕ
  pub key : ℕ
  pub frame_at : ℕ → Trapframe
  pub store : ℕ → List ℕ → Kernel → Option Kernel

-- The trap: its number, error code and `cs`, the registers in the order of `struct PushRegs`, and the
-- rest of the frame.
pub record Trap : Type 0 where
  pub trapno : ℕ
  pub code : ℕ
  pub cs : ℕ
  pub regs : List ℕ
  pub frame : Trapframe

abbrev reg : Trap → ℕ → ℕ
reg t i = get_or t.regs i 0

-- A call that returns 0, and an error as the word that stands for `-e`.
abbrev zero_of : K (Unit {0}) → K ℕ
zero_of m = m >>= λ u. pure 0

abbrev pub returned : Out ℕ → Out ℕ
returned (ret n s) = ret n s
returned (err e s) = ret (2 ^ 32 - e) s
returned panic = panic
returned (user n s) = user n s
returned (halted s) = halted s
returned (monitor s) = monitor s

-- The memory calls, and those on messages and frames.
syscall_memory : Machine → ℕ → ℕ → ℕ → ℕ → ℕ → ℕ → K ℕ
syscall_memory m call a1 a2 a3 a4 a5 =
    if call == 4
    then zero_of (sys_page_alloc a1 a2 a3)
    else if call == 5
    then zero_of (sys_page_map a1 a2 a3 a4 a5)
    else if call == 6
    then zero_of (sys_page_unmap a1 a2)
    else if call == 9
    then zero_of (sys_env_set_trapframe a1 (m.frame_at a2))
    else if call == 10
    then zero_of (sys_env_set_pgfault_upcall a1 a2)
    else if call == 12
    then zero_of (sys_ipc_try_send a1 a2 a3 a4)
    else if call == 13
    then zero_of (sys_ipc_recv a1)
    else fail e_inval

-- `syscall`, by the numbers of util.h. (What `sys_cputs` prints is left out.)
unfoldable pub syscall : Machine → ℕ → ℕ → ℕ → ℕ → ℕ → ℕ → K ℕ
unfolding syscall_memory
syscall m call a1 a2 a3 a4 a5 s = returned (
    (if call == 0
        then pure 0
        else if call == 1
        then pure m.key
        else if call == 2
        then sys_getenvid
        else if call == 3
        then zero_of (sys_env_destroy a1)
        else if call == 7
        then sys_exofork
        else if call == 8
        then zero_of (sys_env_set_status a1 a2)
        else if call == 11
        then zero_of sys_yield
        else syscall_memory m call a1 a2 a3 a4 a5)
      s)

-- `UXSTACKTOP` is `UTOP`; `struct UTrapframe` has 13 words.
abbrev pub uxstacktop : ℕ
uxstacktop = 0xeec00000

abbrev pub utrapframe_size : ℕ
utrapframe_size = 52

-- where the frame for the handler goes
unfoldable pub utf_addr : ℕ → ℕ
utf_addr esp =
    if leb (uxstacktop - pgsize) esp && leb esp (uxstacktop - 1)
    then esp - utrapframe_size - 4
    else uxstacktop - utrapframe_size

unfoldable pub utrapframe : ℕ → Trap → List ℕ
utrapframe fault_va t =
    fault_va ∷ t.code ∷ t.regs ++ (t.frame.eip ∷ t.frame.eflags ∷ t.frame.esp ∷ [])

-- `*utf = ...`
unfoldable pub push_frame : Machine → ℕ → List ℕ → K (Unit {0})
push_frame m va l s = elim (m.store va l s) [ none ↦ panic | some t ↦ ret tt t ]

unfoldable pub page_fault_handler : Machine → Trap → K (Unit {0})
unfolding current utf_addr utrapframe push_frame
page_fault_handler m t = if t.cs % 4 == 0 then (λ s. panic) else do
  c ← current
  s ← get
  if (env_at s c).pgfault_upcall == 0 then env_destroy c else do
    push_frame m (utf_addr t.frame.esp) (utrapframe m.cr2 t)
    u ← get
    put_env c (record (env_at u c) {
      tf = record ((env_at u c).tf) {
        eip = (env_at u c).pgfault_upcall;
        esp = utf_addr t.frame.esp;
      };
    })
    env_run c

-- `tf->tf_regs.reg_eax = temp_ret`: into the current environment's frame, if the trap came from user
-- mode (else into the frame on the kernel's stack).
unfoldable pub set_result : Trap → Option ℕ → ℕ → Kernel → Kernel
set_result t none n s = s
set_result t (some c) n s =
    if t.cs % 4 == 3
    then with_env s c (record (env_at s c) { tf = record ((env_at s c).tf) { reg_eax = n } })
    else s

unfoldable pub system_call : Machine → Trap → K (Unit {0})
unfolding syscall set_result
system_call m t s =
    (syscall m (reg t 7) (reg t 5) (reg t 6) (reg t 4) (reg t 0) (reg t 1) >>= λ n u.
    ret tt (set_result t s.curenv n u))
      s

-- (What kbd_intr, serial_intr and print_trapframe do does not show in the kernel's state here.)
unfoldable pub trap_dispatch : Machine → Trap → K (Unit {0})
unfolding page_fault_handler system_call current
trap_dispatch m t =
    if t.trapno == 14
    then page_fault_handler m t
    else if t.trapno == 3
    then (λ s. monitor s)
    else if t.trapno == 48
    then system_call m t
    else if t.trapno == 39
    then pure tt
    else if t.trapno == 32
    then sched_yield
    else if t.trapno == 33 || t.trapno == 36
    then pure tt
    else if t.cs == 8
    then (λ s. panic)
    else current >>= env_destroy

-- From user mode: a zombie is collected, and another environment runs; else the frame is saved.
unfoldable pub enter : Trap → K (Unit {0})
unfolding current
enter t = do
  c ← current
  s ← get
  if (env_at s c).status == env_dying
      then env_free c >> (λ u. sched_yield (record u { curenv = none }))
      else put_env c (record (env_at s c) { tf = t.frame })

-- The way back to an environment.
unfoldable pub leave : K (Unit {0})
leave s = elim s.curenv [
  | none ↦ sched_yield s
  | some c ↦ if (env_at s c).status == env_running then env_run c s else sched_yield s
]

unfoldable pub trap : Machine → Trap → K (Unit {0})
unfolding enter trap_dispatch leave
trap m t = do if t.cs % 4 == 3 then enter t else pure tt; trap_dispatch m t; leave
