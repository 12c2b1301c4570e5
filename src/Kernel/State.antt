-- ===== src/Kernel/State.antt =====
-- The state of the kernel: `struct Env` of env.h, `struct PageInfo` of pmap.h, and the globals of
-- env.c and pmap.c.
use damn_os_damn_fs.Prelude.{
  ℕ, Bool, false, Option, none, List, [], ◌==◌, if◌then◌else◌, get_or, set,
}

-- error.h
abbrev pub e_bad_env : ℕ
e_bad_env = 2

abbrev pub e_inval : ℕ
e_inval = 3

abbrev pub e_no_mem : ℕ
e_no_mem = 4

abbrev pub e_no_free_env : ℕ
e_no_free_env = 5

abbrev pub e_ipc_not_recv : ℕ
e_ipc_not_recv = 7

-- env.h
abbrev pub nenv : ℕ
nenv = 1024

abbrev pub env_free_status : ℕ
env_free_status = 0

abbrev pub env_dying : ℕ
env_dying = 1

abbrev pub env_runnable : ℕ
env_runnable = 2

abbrev pub env_running : ℕ
env_running = 3

abbrev pub env_not_runnable : ℕ
env_not_runnable = 4

-- util.h
abbrev pub pgsize : ℕ
pgsize = 4096

abbrev pub utop : ℕ
utop = 0xeec00000

abbrev pub uvpt : ℕ
uvpt = 0xef400000

abbrev pub pte_p : ℕ
pte_p = 1

abbrev pub pte_w : ℕ
pte_w = 2

abbrev pub pte_u : ℕ
pte_u = 4

-- `struct Trapframe`, as far as the kernel code here sets it; `saved` are the segment registers
-- `ds`, `es`, `ss`, `cs`, and then whatever else was saved.
pub record Trapframe : Type 0 where
  pub reg_eax : ℕ
  pub eip : ℕ
  pub esp : ℕ
  pub eflags : ℕ
  pub saved : List ℕ

-- `struct Env`; a pointer to an environment is its index in `envs`, and the page directory is
-- named by its physical page.
pub record Env : Type 0 where
  pub tf : Trapframe
  pub link : Option ℕ
  pub id : ℕ
  pub parent_id : ℕ
  pub type : ℕ
  pub status : ℕ
  pub runs : ℕ
  pub pgdir : ℕ
  pub pgfault_upcall : ℕ
  pub ipc_recving : Bool
  pub ipc_dstva : ℕ
  pub ipc_value : ℕ
  pub ipc_from : ℕ
  pub ipc_perm : ℕ

-- The globals. A pointer to a `struct PageInfo` is its index in `pages`; `words p i` is word `i` of
-- physical page `p`.
pub record Kernel : Type 0 where
  pub envs : List Env
  pub curenv : Option ℕ
  pub env_free_list : Option ℕ
  pub kern_pgdir : ℕ
  pub pp_ref : ℕ → ℕ
  pub pp_link : ℕ → Option ℕ
  pub page_free_list : Option ℕ
  pub words : ℕ → ℕ → ℕ

-- How a kernel function ends: it returns, returns `-e`, panics, enters user mode in an environment,
-- halts the processor, or falls into the monitor.
pub data Out (A : Type 0) : Type 0 where
  ret : A → Kernel → Out A
  err : ℕ → Kernel → Out A
  panic : Out A
  user : ℕ → Kernel → Out A
  halted : Kernel → Out A
  monitor : Kernel → Out A

abbrev pub K : Type 0 → Type 0
K A = Kernel → Out A

abbrev pub pure : {A : Type 0} → A → K A
pure a s = ret a s

abbrev pub fail : {A : Type 0} → ℕ → K A
fail e s = err e s

abbrev pub and_then : {A B : Type 0} → Out A → (A → K B) → Out B
and_then (ret a s) k = k a s
and_then (err e s) k = err e s
and_then panic k = panic
and_then (user n s) k = user n s
and_then (halted s) k = halted s
and_then (monitor s) k = monitor s

infixl 5 ◌>>=◌ ◌>>◌
abbrev pub ◌>>=◌ : {A B : Type 0} → K A → (A → K B) → K B
◌>>=◌ m k s = and_then (m s) k

abbrev pub ◌>>◌ : {B : Type 0} → K (Unit {0}) → K B → K B
m >> k = m >>= λ _. k

abbrev pub get : K Kernel
get s = ret s s

abbrev pub no_trapframe : Trapframe
no_trapframe = record { reg_eax = 0; eip = 0; esp = 0; eflags = 0; saved = [] }

abbrev pub no_env : Env
no_env = record {
  tf = no_trapframe;
  link = none;
  id = 0;
  parent_id = 0;
  type = 0;
  status = env_free_status;
  runs = 0;
  pgdir = 0;
  pgfault_upcall = 0;
  ipc_recving = false;
  ipc_dstva = 0;
  ipc_value = 0;
  ipc_from = 0;
  ipc_perm = 0;
}

abbrev pub env_at : Kernel → ℕ → Env
env_at s n = get_or (s.envs) n no_env

abbrev pub with_env : Kernel → ℕ → Env → Kernel
with_env s n e = record s { envs = set (s.envs) n e }

abbrev pub put_env : ℕ → Env → K (Unit {0})
put_env n e s = ret tt (with_env s n e)

-- a function changed at one argument
abbrev pub at : {A : Type 0} → (ℕ → A) → ℕ → A → ℕ → A
at f p v q = if q == p then v else f q
