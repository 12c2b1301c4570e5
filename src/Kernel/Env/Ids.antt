-- ===== src/Kernel/Env/Ids.antt =====
-- The numbers of environments, and what envid2env of env.c finds.
use native.Mathlib.Decide.{ℕ_discrete}
use damn_os_damn_fs.Prelude.{
  ℕ, ◌+◌, ◌*◌, ◌/◌, ◌%◌, ◌^◌, ◌<◌, ◌≡◌, refl, ◌≢◌, ap, ◌∙◌, sym, Bool, true, false, Option, none,
  some, not, ◌&&◌, ◌||◌, leb, ◌==◌, if◌then◌else◌, arith, ◌⊎◌, inl, inr, Bool-cases, bit_or, subst,
}
use damn_os_damn_fs.Bits.{bit_or_low}
use damn_os_damn_fs.Kernel.State.{
  Kernel, Out, ret, err, panic, user, halted, monitor, env_at, nenv, env_free_status, e_bad_env,
}
use damn_os_damn_fs.Kernel.Env.{envx, is_env, next_id, envid2env, cur_id}

-- the generation of `next_id`
abbrev generation : ℕ → ℕ
generation old =
    let g = (old + 2 ^ 12) % 2 ^ 32 / nenv * nenv in if g == 0 || leb (2 ^ 31) g then 2 ^ 12 else g

generation-high : (old : ℕ) → generation old ≡ generation old / nenv * 2 ^ 10
generation-high old = ground arith

next_id-sum : (old n : ℕ) → n < nenv → next_id old n ≡ generation old + n
unfolding next_id
next_id-sum old n h =
    ap (λ g. bit_or g n) (generation-high old)
    ∙ bit_or_low 10 (generation old / nenv) n h
    ∙ ap (λ g. g + n) (sym (generation-high old))

-- The number given to slot `n` is positive as an `int32_t`, leads back to the slot, and is not the
-- one that the slot had before.
pub next_id-fresh :
    (old n : ℕ)
    → n < nenv
    → old < 2 ^ 31
    → (0 < next_id old n)
      × (next_id old n < 2 ^ 31)
      × (envx (next_id old n) ≡ n)
      × (next_id old n ≢ old)
unfolding envx
next_id-fresh old n h small =
    let e = next_id-sum old n h in
    (ground (arith, e), ground (arith, e), ground (arith, e), λ same. ground (arith, e))

-- what `envid2env` may return
abbrev pub Found : Kernel → ℕ → Bool → Out (Option ℕ) → Type 0
Found s envid checkperm (ret none t) = (t ≡ s) × (envid ≡ 0) × (s.curenv ≡ none)
Found s envid checkperm (ret (some n) t) =
    (t ≡ s)
    × (((envid ≡ 0) × (s.curenv ≡ some n))
        ⊎ ((n ≡ envx envid)
            × ((env_at s n).status ≢ env_free_status)
            × ((env_at s n).id ≡ envid)
            × ((checkperm ≡ false)
                ⊎ ((s.curenv ≡ some n)
                    ⊎ ((c : ℕ) × (s.curenv ≡ some c)
                        × ((env_at s n).parent_id ≡ (env_at s c).id))))))
Found s envid checkperm (err e t) = (t ≡ s) × (e ≡ e_bad_env) × (envid ≢ 0)
Found s envid checkperm panic = s.curenv ≡ none
Found s envid checkperm (user n t) = ⊥
Found s envid checkperm (halted t) = ⊥
Found s envid checkperm (monitor t) = ⊥

is_env-some :
    (s : Kernel) (n : ℕ) (c : Option ℕ) → s.curenv ≡ c → is_env c n ≡ true → s.curenv ≡ some n
is_env-some s n none e h = absurd (ground (arith, h))
is_env-some s n (some c) e h = let same : c ≡ n = ground (arith, h) in e ∙ ap some same

cur-Found :
    (s : Kernel) (envid : ℕ) (checkperm : Bool) (c : Option ℕ)
    → s.curenv ≡ c
    → envid ≡ 0
    → Found s envid checkperm (ret c s)
cur-Found s envid checkperm none e z = (refl, z, e)
cur-Found s envid checkperm (some n) e z = (refl, inl (z, e))

-- the test of the permission, where the environment is not the current one
abbrev parent_test : Kernel → ℕ → Option ℕ → Out (Option ℕ)
parent_test s envid none = panic
parent_test s envid (some k) =
    if (env_at s (envx envid)).parent_id == (env_at s k).id
    then ret (some (envx envid)) s
    else err e_bad_env s

module _ (s : Kernel) (envid : ℕ) (nonzero : envid ≢ 0)
    (alive : (env_at s (envx envid)).status ≢ env_free_status)
    (same : (env_at s (envx envid)).id ≡ envid) where
  parent-Found : (c : Option ℕ) → s.curenv ≡ c → Found s envid true (parent_test s envid c)
  parent-Found none e = e
  parent-Found (some k) e =
      elim (Bool-cases ((env_at s (envx envid)).parent_id == (env_at s k).id)) [
        | inl y ↦ rw y (refl, inr (refl, alive, same, inr (inr (k, e, ground arith))))
        | inr n ↦ rw n (refl, refl, nonzero)
      ]

  run-parent :
      (c : Option ℕ)
      → s.curenv ≡ c
      → is_env s.curenv (envx envid) ≡ false
      → envid2env envid true s ≡ parent_test s envid c
  unfolding envid2env cur_id
  run-parent none e h = ground (arith, e, h, nonzero, alive, same)
  run-parent (some k) e h = ground (arith, e, h, nonzero, alive, same)

  run-granted :
      (checkperm : Bool)
      → (checkperm && not (is_env s.curenv (envx envid))) ≡ false
      → envid2env envid checkperm s ≡ ret (some (envx envid)) s
  unfolding envid2env
  run-granted checkperm h = ground (arith, h, nonzero, alive, same)

run-bad :
    (s : Kernel) (envid : ℕ) (checkperm : Bool)
    → envid ≢ 0
    → ((env_at s (envx envid)).status == env_free_status
        || not ((env_at s (envx envid)).id == envid))
      ≡ true
    → envid2env envid checkperm s ≡ err e_bad_env s
unfolding envid2env
run-bad s envid checkperm z h = ground (arith, h, z)

run-cur :
    (s : Kernel) (envid : ℕ) (checkperm : Bool)
    → envid ≡ 0
    → envid2env envid checkperm s ≡ ret s.curenv s
unfolding envid2env
run-cur s envid checkperm z = ground (arith, z)

use-Found :
    (s : Kernel) (envid : ℕ) (checkperm : Bool)
    → envid ≢ 0
    → (env_at s (envx envid)).status ≢ env_free_status
    → (env_at s (envx envid)).id ≡ envid
    → Found s envid checkperm (envid2env envid checkperm s)
use-Found s envid false z alive same =
    subst (Found s envid false) (sym (run-granted s envid z alive same false refl))
      (refl, inr (refl, alive, same, inl refl))
use-Found s envid true z alive same = elim (Bool-cases (is_env s.curenv (envx envid))) [
  | inl y ↦
      subst (Found s envid true) (sym (run-granted s envid z alive same true (ap not y)))
        (refl, inr (refl, alive, same, inr (inl (is_env-some s (envx envid) s.curenv refl y))))
  | inr n ↦
      subst (Found s envid true) (sym (run-parent s envid z alive same s.curenv refl n))
        (parent-Found s envid z alive same s.curenv refl)
]

-- `envid2env` changes nothing. With `envid` 0 it returns `curenv`; otherwise only an environment in
-- use that has this very number and, where permission is asked for, is the current environment or a
-- child of it. Its only error is -E_BAD_ENV.
pub envid2env-Found :
    (s : Kernel) (envid : ℕ) (checkperm : Bool)
    → Found s envid checkperm (envid2env envid checkperm s)
envid2env-Found s envid checkperm = elim (ℕ_discrete envid 0) [
  | yes z ↦
      subst (Found s envid checkperm) (sym (run-cur s envid checkperm z))
        (cur-Found s envid checkperm s.curenv refl z)
  | no ne ↦
      let bad =
        (env_at s (envx envid)).status == env_free_status
        || not ((env_at s (envx envid)).id == envid) in
      elim (Bool-cases bad) [
        | inl y ↦
            subst (Found s envid checkperm) (sym (run-bad s envid checkperm ne y)) (refl, refl, ne)
        | inr n ↦ use-Found s envid checkperm ne (λ f. ground (arith, f, n)) (ground (arith, n))
      ]
]
