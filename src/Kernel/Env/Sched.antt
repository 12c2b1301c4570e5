-- ===== src/Kernel/Env/Sched.antt =====
-- What the scheduler of sched.c and env_run of env.c do to the environments.
use native.Mathlib.Decide.{dec_lt}
use damn_os_damn_fs.Prelude.{
  ℕ, zero, suc, ◌+◌, ◌%◌, ◌<◌, ◌≡◌, refl, ap, subst, sym, ◌∙◌, ◌-◌, ◌≢◌, Bool, true, false, Option,
  none, some, ◌==◌, if◌then◌else◌, arith, inl, inr, Bool-cases,
}
use damn_os_damn_fs.Kernel.State.{Kernel, Out, env_at, nenv, env_runnable, env_running}
use damn_os_damn_fs.Kernel.Env.{
  env_run, curenv_id, envx, sched_halt, sched_rest, sched_from, sched_yield,
}

abbrev pub runnable : Kernel → ℕ → Bool
runnable s n = (env_at s n).status == env_runnable

-- the `i`-th environment of the search
abbrev candidate : Kernel → ℕ → ℕ
candidate s i = (curenv_id s + i) % nenv

-- what `sched_yield` may come to
data Chosen (s : Kernel) (r : Out (Unit {0})) : Type 0 where
  first :
      (i : ℕ)
      → i < nenv
      → runnable s (candidate s i) ≡ true
      → ((m : ℕ) → m < i → runnable s (candidate s m) ≡ false)
      → r ≡ env_run (candidate s i) s
      → Chosen s r
  keep :
      (c : ℕ)
      → ((n : ℕ) → n < nenv → runnable s n ≡ false)
      → s.curenv ≡ some c
      → (env_at s c).status ≡ env_running
      → r ≡ env_run c s
      → Chosen s r
  halt :
      ((n : ℕ) → n < nenv → runnable s n ≡ false)
      → ((c : ℕ) → s.curenv ≡ some c → (env_at s c).status ≢ env_running)
      → r ≡ sched_halt s
      → Chosen s r

-- The candidates are all the environments.
candidate-covers :
    (s : Kernel)
    → ((m : ℕ) → m < nenv → runnable s (candidate s m) ≡ false)
    → (n : ℕ) → n < nenv
    → runnable s n ≡ false
candidate-covers s low n h =
    let m = (n + (nenv - curenv_id s % nenv)) % nenv in
    let same : candidate s m ≡ n = omega arith in
    subst (λ k. runnable s k ≡ false) same (low m (omega arith))

rest-none : (s : Kernel) → s.curenv ≡ none → sched_rest {A = Unit {0}} s ≡ sched_halt s
unfolding sched_rest
rest-none s e = rw e refl

rest-some :
    (s : Kernel) (c : ℕ)
    → s.curenv ≡ some c
    → sched_rest {A = Unit {0}} s
      ≡ (if (env_at s c).status == env_running then env_run c s else sched_halt s)
unfolding sched_rest
rest-some s c e = rw e refl

rest-Chosen :
    (s : Kernel) (cur : Option ℕ)
    → s.curenv ≡ cur
    → ((n : ℕ) → n < nenv → runnable s n ≡ false)
    → Chosen s (sched_rest s)
rest-Chosen s none e low = halt low (λ c e'. ground (arith, e, e')) (rest-none s e)
rest-Chosen s (some c) e low = elim (Bool-cases ((env_at s c).status == env_running)) [
  | inl y ↦ keep c low e (ground arith) (rest-some s c e ∙ rw y refl)
  | inr n ↦ halt low (λ d e'. λ run. ground (arith, e, e', n, run)) (rest-some s c e ∙ rw n refl)
]

from-first :
    (k i : ℕ) (s : Kernel)
    → runnable s (candidate s i) ≡ true
    → sched_from {A = Unit {0}} (suc k) i s ≡ env_run (candidate s i) s
unfolding sched_from
from-first k i s e = rw (e, sched_from) refl

from-next :
    (k i : ℕ) (s : Kernel)
    → runnable s (candidate s i) ≡ false
    → sched_from {A = Unit {0}} (suc k) i s ≡ sched_from k (i + 1) s
unfolding sched_from
from-next k i s e = rw (e, sched_from) refl

next_low :
    (s : Kernel) (i : ℕ)
    → runnable s (candidate s i) ≡ false
    → ((m : ℕ) → m < i → runnable s (candidate s m) ≡ false)
    → (m : ℕ) → m < i + 1
    → runnable s (candidate s m) ≡ false
next_low s i n low m h = elim (dec_lt m i) [
  | yes lt ↦ low m lt
  | no ge ↦ subst (λ k. runnable s (candidate s k) ≡ false) (omega arith) n
]

from-Chosen :
    (k i : ℕ) (s : Kernel)
    → i + k ≡ nenv
    → ((m : ℕ) → m < i → runnable s (candidate s m) ≡ false)
    → Chosen s (sched_from k i s)
unfolding sched_from
from-Chosen zero i s e low =
    rest-Chosen s s.curenv refl (candidate-covers s (λ m h. low m (omega arith)))
from-Chosen (suc k) i s e low = elim (Bool-cases (runnable s (candidate s i))) [
  | inl y ↦ first i (omega arith) y low (from-first k i s y)
  | inr n ↦
      subst (Chosen s) (sym (from-next k i s n))
        (from-Chosen k (i + 1) s (omega arith) (next_low s i n low))
]

sched_yield-Chosen : (s : Kernel) → Chosen s (sched_yield s)
unfolding sched_yield
sched_yield-Chosen s = from-Chosen nenv 0 s refl (λ m h. absurd (omega arith))

-- the `i`-th environment behind `c`
abbrev pub behind : ℕ → ℕ → ℕ
behind c i = (c + 1 + i) % nenv

-- what `sched_yield` may come to when `c` is the current environment
pub data Next (s : Kernel) (c : ℕ) (r : Out (Unit {0})) : Type 0 where
  first :
      (i : ℕ)
      → i < nenv
      → runnable s (behind c i) ≡ true
      → ((m : ℕ) → m < i → runnable s (behind c m) ≡ false)
      → r ≡ env_run (behind c i) s
      → Next s c r
  keep :
      ((n : ℕ) → n < nenv → runnable s n ≡ false)
      → (env_at s c).status ≡ env_running
      → r ≡ env_run c s
      → Next s c r
  halt :
      ((n : ℕ) → n < nenv → runnable s n ≡ false)
      → (env_at s c).status ≢ env_running
      → r ≡ sched_halt s
      → Next s c r

current-candidate :
    (s : Kernel) (c : ℕ)
    → s.curenv ≡ some c
    → envx ((env_at s c).id) ≡ c
    → (i : ℕ) → candidate s i ≡ (c + i) % nenv
unfolding curenv_id
current-candidate s c e own i = rw (e, own) refl

-- The search passes over the current environment, which is not runnable.
Chosen-Next :
    (s : Kernel) (c : ℕ) (r : Out (Unit {0}))
    → s.curenv ≡ some c
    → c < nenv
    → envx ((env_at s c).id) ≡ c
    → runnable s c ≡ false
    → Chosen s r
    → Next s c r
Chosen-Next s c r e small own busy (Chosen.first zero h run low is) =
    let here : candidate s 0 ≡ c = current-candidate s c e own 0 ∙ omega (arith, small) in
    absurd (ground (arith, subst (λ k. runnable s k ≡ true) here run, busy))
Chosen-Next s c r e small own busy (Chosen.first (suc i) h run low is) =
    let at : (m : ℕ) → candidate s (suc m) ≡ behind c m = λ m.
      let sum : c + suc m ≡ c + 1 + m = omega arith in
      current-candidate s c e own (suc m) ∙ ap (λ k. k % nenv) sum in
    Next.first i (omega arith) (subst (λ k. runnable s k ≡ true) (at i) run)
      (λ m lt. subst (λ k. runnable s k ≡ false) (at m) (low (suc m) (omega arith)))
      (is ∙ ap (λ k. env_run {A = Unit {0}} k s) (at i))
Chosen-Next s c r e small own busy (Chosen.keep d low e' running is) =
    let same : d ≡ c = ground (arith, e, e') in
    Next.keep low (subst (λ k. (env_at s k).status ≡ env_running) same running)
      (is ∙ ap (λ k. env_run {A = Unit {0}} k s) same)
Chosen-Next s c r e small own busy (Chosen.halt low none_runs is) = Next.halt low (none_runs c e) is

-- With a current environment that stands in the slot of its number and is not runnable,
-- `sched_yield` runs the first runnable environment behind it in circular order. If there is none it
-- goes on with the current one where that is running, and otherwise it halts.
pub sched_yield-Next :
    (s : Kernel) (c : ℕ)
    → s.curenv ≡ some c
    → c < nenv
    → envx ((env_at s c).id) ≡ c
    → runnable s c ≡ false
    → Next s c (sched_yield s)
sched_yield-Next s c e small own busy =
    Chosen-Next s c (sched_yield s) e small own busy (sched_yield-Chosen s)
