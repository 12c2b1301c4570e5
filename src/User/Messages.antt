-- ===== src/User/Messages.antt =====
-- Messages between processes: ipc.c, and wait.c. The system calls' answers are arguments.
use damn_os_damn_fs.Prelude.{
  ℕ, zero, suc, Bool, true, false, ◌&&◌, not, Option, none, some, List, [], ◌∷◌, ◌==◌,
  if◌then◌else◌,
}
use damn_os_damn_fs.Kernel.State.{Env, nenv, env_free_status, e_ipc_not_recv}

-- `ipc_find_env`, from the `n` entries that are left
unfoldable pub find_env_from : ℕ → ℕ → List Env → ℕ
find_env_from type zero envs = 0
find_env_from type (suc n) [] = 0
find_env_from type (suc n) (e ∷ envs) = if e.type == type then e.id else find_env_from type n envs

unfoldable pub ipc_find_env : ℕ → List Env → ℕ
unfolding find_env_from
ipc_find_env type envs = find_env_from type nenv envs

-- a place to store a number at, which a null pointer leaves out
abbrev pub stored : Option ℕ → ℕ → Option ℕ
stored none n = none
stored (some old) n = some n

-- `ipc_recv`: the value that is returned, and what is stored for the sender and the permission. After
-- an error of sys_ipc_recv the code goes on.
unfoldable pub ipc_recv : Option ℕ → Option ℕ → Option ℕ → Env → ℕ × (Option ℕ × Option ℕ)
ipc_recv error from perm thisenv =
    let cleared : Option ℕ × Option ℕ = elim error [
      | none ↦ (from, perm)
      | some e ↦ (stored from 0, stored perm 0)
    ] in
    (thisenv.ipc_value, (stored cleared.0 thisenv.ipc_from, stored cleared.1 thisenv.ipc_perm))

pub data Sending : Type 0 where
  delivered : Sending
  panicked : ℕ → Sending
  trying : ℕ → Sending

-- `ipc_send`: each call of sys_ipc_try_send answers with an error or not; `trying n` has called
-- sys_yield `n` times and goes on.
unfoldable pub ipc_send : List (Option ℕ) → ℕ → Sending
ipc_send [] n = trying n
ipc_send (none ∷ answers) n = delivered
ipc_send (some e ∷ answers) n =
    let rest = ipc_send answers (suc n) in if e == e_ipc_not_recv then rest else panicked e

-- `wait`: what the entry of the environment is at each look; whether one of them ends the loop
unfoldable pub wait : ℕ → List Env → Bool
wait envid [] = false
wait envid (e ∷ looks) =
    let rest = wait envid looks in
    if e.id == envid && not (e.status == env_free_status) then rest else true
