-- ===== src/Fleet/Pool/Tests.antt =====
-- Two goroutines that dial the same host.
use amarre.Base.{true, ◌≡◌, refl, [], ◌∷◌, String}
use amarre.Fleet.Pool.{Pool, new_pool, install, dialled}
use amarre.Fleet.Pool.Leaks.{NoLeak, starts, goes_on, installs, Reachable-NoLeak}

abbrev key : String
key = "web:22|root"

abbrev dialled_twice : Pool
dialled_twice = install (install new_pool key 1 5) key 2 6

-- The second one is closed, and the first one stays.
second_closed : dialled_twice ≡ record {
  conns = (key, record (dialled 1 5) { last = 6 }) ∷ [];
  gone = record (dialled 2 6) { closed = true } ∷ [];
}
unfolding install
second_closed = refl

Reachable-NoLeak_example : NoLeak dialled_twice
Reachable-NoLeak_example = Reachable-NoLeak dialled_twice (
    goes_on (goes_on starts (installs new_pool key 1 5))
      (installs (install new_pool key 1 5) key 2 6))
