-- ===== src/Kernel/Trap/Ipc.antt =====
-- What a message brings: sys_ipc_recv and sys_ipc_try_send of trap.c.
use damn_os_damn_fs.Prelude.{
  ℕ, ◌≤◌, ◌<◌, ◌≡◌, refl, sym, ap, subst, ◌∙◌, ◌≢◌, inl, inr, true, false, some, arith, ltb, ◌==◌,
  Bool-cases, length, length-set, get_or-set_self, get_or-set_ne,
}
use damn_os_damn_fs.Kernel.State.{Env, Kernel, ret, env_at, with_env, env_runnable, utop, no_env}
use damn_os_damn_fs.Kernel.Env.{cur_id, envid2env}
use damn_os_damn_fs.Kernel.Syscall.{target, sys_ipc_try_send, deliver, stop_recving}

-- The environment with a message from `from`.
pub record Received (e f : Env) (from value : ℕ) : Type 0 where
  pub message : (f.ipc_from ≡ from) × (f.ipc_value ≡ value)
  pub wakes : (f.status ≡ env_runnable) × (f.ipc_recving ≡ false) × (f.tf.reg_eax ≡ 0)
  pub same : (f.id ≡ e.id) × (f.pgdir ≡ e.pgdir) × (f.tf.eip ≡ e.tf.eip) × (f.tf.esp ≡ e.tf.esp)

-- What a message without a page does.
pub record Sent (s t : Kernel) (n from value : ℕ) : Type 0 where
  pub receiver : Received (env_at s n) (env_at t n) from value
  pub others : (j : ℕ) → j ≢ n → env_at t j ≡ env_at s j
  pub rest : (t.curenv ≡ s.curenv) × (t.words ≡ s.words) × (t.pp_ref ≡ s.pp_ref)

env_at-with_env_self :
    (s : Kernel) (n : ℕ) (e : Env) → n < length s.envs → env_at (with_env s n e) n ≡ e
env_at-with_env_self s n e h = get_or-set_self s.envs n e no_env h

env_at-with_env_ne :
    (s : Kernel) (n j : ℕ) (e : Env) → n ≢ j → env_at (with_env s n e) j ≡ env_at s j
env_at-with_env_ne s n j e h = get_or-set_ne s.envs n j e no_env h

-- the receiver before and after the message is delivered
abbrev stopped : Env → Env
stopped e = record e { ipc_recving = false }

abbrev woken : ℕ → ℕ → Env → Env
woken from value e = record e {
  ipc_from = from;
  ipc_value = value;
  status = env_runnable;
  tf = record (e.tf) { reg_eax = 0 };
}

woken-Received :
    (e : Env) (from from' value : ℕ)
    → from' ≡ from
    → Received e (woken from' value (stopped e)) from value
woken-Received e from from' value h = record {
  message = (h, refl);
  wakes = (refl, refl, refl);
  same = (refl, refl, refl, refl);
}

-- Marking the receiver changes nobody's number.
stopped-id :
    (s : Kernel) (n c : ℕ)
    → n < length s.envs
    → (env_at (with_env s n (stopped (env_at s n))) c).id ≡ (env_at s c).id
stopped-id s n c h = elim (Bool-cases (n == c)) [
  | inl y ↦
      let same : n ≡ c = ground (arith, y) in
      subst (λ j. (env_at (with_env s n (stopped (env_at s n))) j).id ≡ (env_at s j).id) same
        (ap (λ (e : Env). e.id) (env_at-with_env_self s n (stopped (env_at s n)) h))
  | inr m ↦
      ap (λ (e : Env). e.id) (env_at-with_env_ne s n c (stopped (env_at s n)) (ground (arith, m)))
]

delivered-Sent :
    (s : Kernel) (n from from' value : ℕ)
    → n < length s.envs
    → from' ≡ from
    → Sent s (deliver n from' value (stop_recving n s)) n from value
unfolding deliver stop_recving
delivered-Sent s n from from' value h id =
    let e = env_at s n in
    let u = with_env s n (stopped e) in
    let inside : n < length u.envs = omega (arith, length-set s.envs n (stopped e)) in
    let now =
      env_at-with_env_self u n (woken from' value (env_at u n)) inside
      ∙ ap (woken from' value) (env_at-with_env_self s n (stopped e) h) in
    record {
      receiver =
          subst (λ f. Received e f from value) (sym now) (woken-Received e from from' value id);
      others = λ j ne.
          env_at-with_env_ne u n j (woken from' value (env_at u n)) (λ q. ne (sym q))
          ∙ env_at-with_env_ne s n j (stopped e) (λ q. ne (sym q));
      rest = (refl, refl, refl);
    }

sender_id :
    (s : Kernel) (n c : ℕ) → n < length s.envs → (env_at (stop_recving n s) c).id ≡ (env_at s c).id
unfolding stop_recving
sender_id s n c h = stopped-id s n c h

-- Environment `n`, which `envid` names, is receiving, and environment `c` sends it a value without a
-- page. Then sys_ipc_try_send succeeds: the receiver has the value and the sender's number, becomes
-- runnable with a result of 0, and receives no more, going on where it was; no other environment, no
-- word of memory and no count changes.
pub sys_ipc_try_send-Sent :
    (s : Kernel) (envid value srcva perm n c : ℕ)
    → envid2env envid false s ≡ ret (some n) s
    → n < length s.envs
    → (env_at s n).ipc_recving ≡ true
    → s.curenv ≡ some c
    → utop ≤ srcva
    → (t : Kernel) × (sys_ipc_try_send envid value srcva perm s ≡ ret tt t)
      × Sent s t n (env_at s c).id value
unfolding sys_ipc_try_send target deliver stop_recving cur_id
sys_ipc_try_send-Sent s envid value srcva perm n c e h k g u =
    let s1 = stop_recving n s in
    let no_page : ltb srcva utop ≡ false = ground (arith, u) in
    let t = deliver n (env_at s1 c).id value s1 in
    (
      t,
      rw (e, k, no_page, g) refl,
      delivered-Sent s n (env_at s c).id (env_at s1 c).id value h (sender_id s n c h),
    )
