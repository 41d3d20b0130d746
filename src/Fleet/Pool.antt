-- ===== src/Fleet/Pool.antt =====
-- The pool of connections of pool.go: the critical sections of `get`, `drop`, `reap` and `Close`,
-- and the goroutine that waits for the end of a connection. `gone` holds what the map does not
-- hold any more, or never did: it says what became of each client. The dial is not modelled.
pub mod Leaks
mod Tests
use amarre.Base.{
  ℕ, ◌*◌, Bool, true, false, not, ◌||◌, String, Option, none, some, List, [], ◌∷◌, ◌++◌, ltb_ℤ, pos,
  if◌then◌else◌, Time, minute, sub_time, Dict, lookup, insert, erase,
}

-- `closed` is `client.Close`, `ended` that `client.Wait` has returned and its goroutine has run.
pub record Conn : Type 0 where
  pub id : ℕ
  pub last : Time
  pub dead : Bool
  pub closed : Bool
  pub ended : Bool

pub record Pool : Type 0 where
  pub conns : Dict Conn
  pub gone : List Conn

abbrev pub new_pool : Pool
new_pool = record { conns = []; gone = [] }

abbrev pub idle_ttl : ℕ
idle_ttl = 10 * minute

abbrev pub dialled : ℕ → Time → Conn
dialled id now = record { id = id; last = now; dead = false; closed = false; ended = false }

-- The first section of `get`, by the entry of the key.
unfoldable pub peek_at : Pool → String → Time → Option Conn → Pool × Option Conn
peek_at p k now none = (p, none)
peek_at p k now (some c) = if c.dead then (p, none) else (
  record p { conns = insert k (record c { last = now }) p.conns },
  some (record c { last = now }),
)

unfoldable pub peek : Pool → String → Time → Pool × Option Conn
unfolding peek_at
peek p k now = peek_at p k now (lookup k p.conns)

-- The second section of `get`: a connection that another goroutine made in the meantime is kept,
-- and the new one is closed.
unfoldable pub install_at : Pool → String → ℕ → Time → Option Conn → Pool
install_at p k id now none = record p { conns = insert k (dialled id now) p.conns }
install_at p k id now (some c) =
    if c.dead
    then record { conns = insert k (dialled id now) p.conns; gone = c ∷ p.gone }
    else record {
      conns = insert k (record c { last = now }) p.conns;
      gone = record (dialled id now) { closed = true } ∷ p.gone;
    }

unfoldable pub install : Pool → String → ℕ → Time → Pool
unfolding install_at
install p k id now = install_at p k id now (lookup k p.conns)

-- The goroutine of a connection that fell.
unfoldable pub fall_at : Pool → String → Option Conn → Pool
fall_at p k none = p
fall_at p k (some c) = record p {
  conns = insert k (record c { dead = true; ended = true }) p.conns;
}

unfoldable pub fall : Pool → String → Pool
unfolding fall_at
fall p k = fall_at p k (lookup k p.conns)

unfoldable pub drop_at : Pool → String → Option Conn → Pool
drop_at p k none = p
drop_at p k (some c) = record {
  conns = erase k p.conns;
  gone = record c { dead = true; closed = true } ∷ p.gone;
}

unfoldable pub drop : Pool → String → Pool
unfolding drop_at
drop p k = drop_at p k (lookup k p.conns)

-- `c.dead || time.Since(c.last) > idleTTL`
abbrev pub is_idle : Time → Conn → Bool
is_idle now c = c.dead || ltb_ℤ (pos idle_ttl) (sub_time now c.last)

-- The loop of `reap`: what it leaves, and what it closes.
unfoldable pub reap_kept : Time → Dict Conn → Dict Conn
reap_kept now [] = []
reap_kept now ((k, c) ∷ d) =
    let rest = reap_kept now d in if is_idle now c then rest else (k, c) ∷ rest

unfoldable pub reap_closed : Time → Dict Conn → List Conn
reap_closed now [] = []
reap_closed now ((k, c) ∷ d) =
    let rest = reap_closed now d in
    if is_idle now c then record c { closed = true } ∷ rest else rest

unfoldable pub reap : Pool → Time → Pool
unfolding reap_kept reap_closed
reap p now = record { conns = reap_kept now p.conns; gone = reap_closed now p.conns ++ p.gone }

unfoldable pub all_closed : Dict Conn → List Conn
all_closed [] = []
all_closed ((k, c) ∷ d) = record c { closed = true } ∷ all_closed d

unfoldable pub close : Pool → Pool
unfolding all_closed
close p = record { conns = []; gone = all_closed p.conns ++ p.gone }
