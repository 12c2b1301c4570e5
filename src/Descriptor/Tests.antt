-- ===== src/Descriptor/Tests.antt =====
-- A process with descriptor 0 open, at page 7.
use damn_os_damn_fs.Prelude.{
  ℕ, ◌≡◌, refl, sym, ap, Option, none, some, [], ◌∷◌, arith, ◌==◌, if◌then◌else◌,
}
use damn_os_damn_fs.Prelude.Int.{pos}
use damn_os_damn_fs.Descriptor.{ok, Process, Call, Dev, dup}
use damn_os_damn_fs.Descriptor.Dup.{AllTame, Dup, dup-Dup}

abbrev device : Dev (Unit {0})
device = record {
  dev_id = b'f';
  dev_read = none;
  dev_write = none;
  dev_close = some (λ i s. (ok 0, s));
  dev_stat = none;
  dev_trunc = none;
}

abbrev process : Process (Unit {0})
process = record {
  vm = λ i. if i == 0 then some 7 else none;
  fd_of = λ p. record { dev_id = b'f'; offset = 0; omode = 2; id = 1 };
  world = tt;
}

same_call :
    (f : ℕ → Call (Unit {0}) ℕ) (k j : ℕ) (s : Process (Unit {0}))
    → device.dev_close ≡ some f
    → (f k s).1.vm j ≡ s.vm j
same_call f k j s e =
    let run = λ (o : Option (ℕ → Call (Unit {0}) ℕ)).
      let r : Process (Unit {0}) = elim o [ none ↦ s | some g ↦ (g k s).1 ] in r.vm j in
    ap run (sym e)

device-AllTame : AllTame (device ∷ [])
unfolding AllTame
device-AllTame = (record { others = λ f k j s e a b. same_call f k j s e }, tt)

dup-Dup_example :
    (t : Process (Unit {0})) × (dup (λ a b. none) (device ∷ []) (pos 0) 1 process ≡ (ok 1, t))
    × Dup process t 0 1 7
dup-Dup_example =
    dup-Dup (device ∷ []) process 0 1 7 device-AllTame (omega arith) (omega arith) (omega arith)
      refl
