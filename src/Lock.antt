-- ===== src/Lock.antt =====
-- The big kernel lock, spinlock.c, on any number of processors.
mod Tests
use damn_os_damn_fs.Prelude.{
  ℕ, zero, suc, ◌+◌, ◌-◌, ◌*◌, ◌/◌, ◌%◌, ◌^◌, ◌≤◌, ◌<◌, min, ◌≡◌, refl, sym, ap, ap₂, subst, ◌∙◌,
  ◌≢◌, ◌↔◌, ◌⊎◌, inl, inr, Bool, true, false, ◌&&◌, ◌||◌, not, Option, none, some, List, [], ◌∷◌,
  ◌++◌, append_assoc, append-nil, arith, ltb, leb, ◌==◌, if◌then◌else◌, Bool-cases, ==_iff, length,
  get_or, set, take, drop, replicate, length-append, length-set, length-replicate, get_or-set_self,
  get_or-set_ne, codes, fun_ext,
}

-- What a processor does with the lock: nothing, spinning in `spin_lock`, or running with the lock
-- until `spin_unlock`.
pub data Phase : Type 0 where
  outside spinning inside : Phase

-- `locked`, and the phase of each processor
pub record System : Type 0 where
  pub locked : ℕ
  pub phase : ℕ → Phase

-- `__spin_initlock`
abbrev pub spin_initlock : System
spin_initlock = record { locked = 0; phase = λ i. outside }

abbrev pub at : (ℕ → Phase) → ℕ → Phase → ℕ → Phase
at f i p j = if j == i then p else f j

-- `xchg (&locked, v)`: the old value, and the new state
unfoldable pub xchg : ℕ → System → ℕ × System
xchg v s = (s.locked, record s { locked = v })

-- one round of `while (xchg (&lk->locked, 1) != 0)` of processor `i`
unfoldable pub spin_lock : ℕ → System → System
unfolding xchg
spin_lock i s =
    let r = xchg 1 s in
    let t = r.1 in if r.0 == 0 then record t { phase = at t.phase i inside } else t

unfoldable pub spin_unlock : ℕ → System → System
unfolding xchg
spin_unlock i s = let t = (xchg 0 s).1 in record t { phase = at t.phase i outside }

-- A step of one processor. Each exchange is atomic, and only the one inside unlocks.
pub data Step : System → System → Type 0 where
  arrive :
      (s : System) (i : ℕ)
      → s.phase i ≡ outside
      → Step s (record s { phase = at s.phase i spinning })
  spin : (s : System) (i : ℕ) → s.phase i ≡ spinning → Step s (spin_lock i s)
  leave : (s : System) (i : ℕ) → s.phase i ≡ inside → Step s (spin_unlock i s)

pub data Reach (s : System) : System → Type 0 where
  here : Reach s s
  next : {t u : System} → Reach s t → Step t u → Reach s u

-- At most one processor is inside, and only while the lock is taken.
pub record Exclusive (s : System) : Type 0 where
  pub alone : (i j : ℕ) → s.phase i ≡ inside → s.phase j ≡ inside → i ≡ j
  pub taken : (i : ℕ) → s.phase i ≡ inside → s.locked ≡ 1

at-inside :
    (f : ℕ → Phase) (i j : ℕ) (p : Phase)
    → p ≢ inside
    → at f i p j ≡ inside
    → (j ≢ i) × (f j ≡ inside)
at-inside f i j p n e = elim (Bool-cases (j == i)) [
  | inl y ↦ absurd (n (ap (λ (b : Bool). if b then p else f j) (sym y) ∙ e))
  | inr m ↦ (ground (arith, m), ap (λ (b : Bool). if b then p else f j) (sym m) ∙ e)
]

-- A processor that gets inside is the one that exchanged, or was inside.
at-who : (f : ℕ → Phase) (i j : ℕ) → at f i inside j ≡ inside → (j ≡ i) ⊎ (f j ≡ inside)
at-who f i j e = elim (Bool-cases (j == i)) [
  | inl y ↦ inl (ground (arith, y))
  | inr m ↦ inr (ap (λ (b : Bool). if b then inside else f j) (sym m) ∙ e)
]

take-Exclusive :
    (s : System) (i : ℕ)
    → s.locked ≡ 0
    → Exclusive s
    → Exclusive (record { locked = 1; phase = at s.phase i inside })
take-Exclusive s i free h = record {
  alone = λ j k a b. who j a ∙ sym (who k b);
  taken = λ j a. refl;
}
  where
    who : (j : ℕ) → at s.phase i inside j ≡ inside → j ≡ i
    who j a = elim (at-who s.phase i j a) [
      | inl e ↦ e
      | inr e ↦ absurd (omega (arith, free, h.taken j e))
    ]

Step-Exclusive : {s t : System} → Step s t → Exclusive s → Exclusive t
unfolding spin_lock spin_unlock xchg
Step-Exclusive (arrive s i o) h =
    let was = λ (j : ℕ). at-inside s.phase i j spinning (λ e. cc) in
    record {
      alone = λ j k a b. h.alone j k (was j a).1 (was k b).1;
      taken = λ j a. h.taken j (was j a).1;
    }
Step-Exclusive (spin s i o) h = elim (Bool-cases (s.locked == 0)) [
  | inl y ↦ rw y (take-Exclusive s i (ground (arith, y)) h)
  | inr n ↦ rw n (record { alone = h.alone; taken = λ j a. refl })
]
Step-Exclusive (leave s i o) h =
    let was = λ (j : ℕ). at-inside s.phase i j outside (λ e. cc) in
    record {
      alone = λ j k a b. h.alone j k (was j a).1 (was k b).1;
      taken = λ j a. absurd ((was j a).0 (h.alone j i (was j a).1 o));
    }

Reached-Exclusive : {s t : System} → Reach s t → Exclusive s → Exclusive t
Reached-Exclusive here h = h
Reached-Exclusive (next r st) h = Step-Exclusive st (Reached-Exclusive r h)

-- From the state after `__spin_initlock`, whatever the order in which the processors arrive, spin
-- and leave, no two of them hold the lock, and the lock is marked while one does.
pub Reach-Exclusive : (s : System) → Reach spin_initlock s → Exclusive s
Reach-Exclusive s r =
    Reached-Exclusive r (record { alone = λ i j a b. absurd (cc a); taken = λ i a. absurd (cc a) })
