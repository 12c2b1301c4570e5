-- ===== src/Prelude/Table.antt =====
-- Tests on all numbers below a bound, which are run.
use Prim.Native.Nat.{ℕ, zero, suc, ◌<◌}
use mathlib.Core.Path.{◌≡◌}
use mathlib.Core.Bool.{Bool, true, ◌&&◌}
use native.Mathlib.Omega.{arith}

unfoldable pub passes : (ℕ → Bool) → ℕ → Bool
passes test zero = true
passes test (suc c) = passes test c && test c

pub passes-each :
    (test : ℕ → Bool) (bound c : ℕ) → c < bound → passes test bound ≡ true → test c ≡ true
unfolding passes
passes-each test (suc bound) c small all = ground (arith, passes-each test bound c)
passes-each test zero c small all = absurd (omega arith)
