-- ===== src/Lock/Tests.antt =====
-- Processor 3 takes the lock, and processor 5 waits for it.
use damn_os_damn_fs.Prelude.{◌≡◌, refl}
use damn_os_damn_fs.Lock.{
  System, spin_initlock, at, spinning, inside, spin_lock, xchg, arrive, spin, Reach, here, next,
  Exclusive, Reach-Exclusive,
}

abbrev came : System
came = record spin_initlock { phase = at spin_initlock.phase 3 spinning }

abbrev holds : System
holds = spin_lock 3 came

holds-Reach : Reach spin_initlock holds
holds-Reach = next (next here (arrive spin_initlock 3 refl)) (spin came 3 refl)

holds_inside : holds.phase 3 ≡ inside
unfolding spin_lock xchg
holds_inside = refl

Reach-Exclusive_example : Exclusive holds
Reach-Exclusive_example = Reach-Exclusive holds holds-Reach
