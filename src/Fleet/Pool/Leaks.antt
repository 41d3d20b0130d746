-- ===== src/Fleet/Pool/Leaks.antt =====
-- No connection is forgotten while it is open.
use amarre.Base.{
  ℕ, ◌≡◌, refl, subst, ◌⊎◌, inl, inr, Bool, true, false, ◌||◌, String, Option, none, some, List, [],
  ◌∷◌, ◌++◌, arith, ℤ, ltb_ℤ, pos, ◌≤ℤ◌, if◌then◌else◌, str_eq, Bool-cases, Time, sub_time, Dict,
  lookup, insert, erase,
}
use amarre.Fleet.Pool.{
  Conn, Pool, new_pool, idle_ttl, dialled, peek_at, peek, install_at, install, fall_at, fall,
  drop_at, drop, is_idle, reap_kept, reap_closed, reap, all_closed, close,
}

-- The client is closed, or its connection has ended.
abbrev pub Settled : Conn → Type 0
Settled c = (c.closed ≡ true) ⊎ (c.ended ≡ true)

-- A connection of the map that is marked as dead is settled.
abbrev pub Sound : Conn → Type 0
Sound c = (c.dead ≡ false) ⊎ Settled c

abbrev pub AllSound : Dict Conn → Type 0
AllSound [] = Unit {0}
AllSound ((k, c) ∷ d) = Sound c × AllSound d

abbrev pub AllSettled : List Conn → Type 0
AllSettled [] = Unit {0}
AllSettled (c ∷ cs) = Settled c × AllSettled cs

pub record NoLeak (p : Pool) : Type 0 where
  pub sound : AllSound p.conns
  pub settled : AllSettled p.gone

insert-AllSound :
    (k : String) (c : Conn) (d : Dict Conn) → Sound c → AllSound d → AllSound (insert k c d)
insert-AllSound k c [] s a = (s, tt)
insert-AllSound k c ((j, b) ∷ d) s a = elim (Bool-cases (str_eq k j)) [
  | inl same ↦ rw same (s, a.1)
  | inr other ↦ rw other (a.0, insert-AllSound k c d s a.1)
]

erase-AllSound : (k : String) (d : Dict Conn) → AllSound d → AllSound (erase k d)
erase-AllSound k [] a = tt
erase-AllSound k ((j, b) ∷ d) a = elim (Bool-cases (str_eq k j)) [
  | inl same ↦ rw same a.1
  | inr other ↦ rw other (a.0, erase-AllSound k d a.1)
]

lookup-Sound : (k : String) (c : Conn) (d : Dict Conn) → AllSound d → lookup k d ≡ some c → Sound c
lookup-Sound k c [] a e = absurd (cc e)
lookup-Sound k c ((j, b) ∷ d) a e = elim (Bool-cases (str_eq k j)) [
  | inl same ↦
      let p : some b ≡ some c = subst (λ t. (if t then some b else lookup k d) ≡ some c) same e in
      let q : b ≡ c = cc p in subst Sound q a.0
  | inr other ↦ lookup-Sound k c d a.1 (ground (arith, other, e))
]

AllSettled-append : (xs ys : List Conn) → AllSettled xs → AllSettled ys → AllSettled (xs ++ ys)
AllSettled-append [] ys a b = b
AllSettled-append (x ∷ xs) ys a b = (a.0, AllSettled-append xs ys a.1 b)

reap_kept-AllSound : (now : Time) (d : Dict Conn) → AllSound d → AllSound (reap_kept now d)
unfolding reap_kept
reap_kept-AllSound now [] a = tt
reap_kept-AllSound now ((k, c) ∷ d) a = elim (Bool-cases (is_idle now c)) [
  | inl idle ↦ rw idle (reap_kept-AllSound now d a.1)
  | inr used ↦ rw used (a.0, reap_kept-AllSound now d a.1)
]

reap_closed-AllSettled : (now : Time) (d : Dict Conn) → AllSettled (reap_closed now d)
unfolding reap_closed
reap_closed-AllSettled now [] = tt
reap_closed-AllSettled now ((k, c) ∷ d) = elim (Bool-cases (is_idle now c)) [
  | inl idle ↦ rw idle (inl refl, reap_closed-AllSettled now d)
  | inr used ↦ rw used (reap_closed-AllSettled now d)
]

all_closed-AllSettled : (d : Dict Conn) → AllSettled (all_closed d)
unfolding all_closed
all_closed-AllSettled [] = tt
all_closed-AllSettled ((k, c) ∷ d) = (inl refl, all_closed-AllSettled d)

-- A critical section, with the key that it is about; a dialled client has an identifier.
pub data Step : Pool → Pool → Type 0 where
  peeks : (p : Pool) (k : String) (now : Time) → Step p (peek p k now).0
  installs : (p : Pool) (k : String) (id : ℕ) (now : Time) → Step p (install p k id now)
  falls : (p : Pool) (k : String) → Step p (fall p k)
  drops : (p : Pool) (k : String) → Step p (drop p k)
  reaps : (p : Pool) (now : Time) → Step p (reap p now)
  closes : (p : Pool) → Step p (close p)

pub data Reachable : Pool → Type 0 where
  starts : Reachable new_pool
  goes_on : {p p' : Pool} → Reachable p → Step p p' → Reachable p'

-- Sound but marked dead means settled.
Sound-dead : (c : Conn) → Sound c → c.dead ≡ true → Settled c
Sound-dead c (inl alive) h = absurd (cc (alive, h))
Sound-dead c (inr s) h = s

peek_at-NoLeak :
    (p : Pool) (k : String) (now : Time) (o : Option Conn)
    → lookup k p.conns ≡ o
    → NoLeak p
    → NoLeak (peek_at p k now o).0
unfolding peek_at
peek_at-NoLeak p k now none e n = n
peek_at-NoLeak p k now (some c) e n = go c.dead refl
  where
    picked : Bool → Pool × Option Conn
    picked b = if b then (p, none) else (
      record p { conns = insert k (record c { last = now }) p.conns },
      some (record c { last = now }),
    )

    go : (b : Bool) → c.dead ≡ b → NoLeak (picked b).0
    go true h = n
    go false h = record {
      sound = insert-AllSound k (record c { last = now }) p.conns (inl h) n.sound;
      settled = n.settled;
    }

install_at-NoLeak :
    (p : Pool) (k : String) (id : ℕ) (now : Time) (o : Option Conn)
    → lookup k p.conns ≡ o
    → NoLeak p
    → NoLeak (install_at p k id now o)
unfolding install_at
install_at-NoLeak p k id now none e n = record {
  sound = insert-AllSound k (dialled id now) p.conns (inl refl) n.sound;
  settled = n.settled;
}
install_at-NoLeak p k id now (some c) e n = go c.dead refl
  where
    go :
        (b : Bool)
        → c.dead ≡ b
        → NoLeak (
            if b
            then record { conns = insert k (dialled id now) p.conns; gone = c ∷ p.gone }
            else record {
              conns = insert k (record c { last = now }) p.conns;
              gone = record (dialled id now) { closed = true } ∷ p.gone;
            })
    go true h = record {
      sound = insert-AllSound k (dialled id now) p.conns (inl refl) n.sound;
      settled = (Sound-dead c (lookup-Sound k c p.conns n.sound e) h, n.settled);
    }
    go false h = record {
      sound = insert-AllSound k (record c { last = now }) p.conns (inl h) n.sound;
      settled = (inl refl, n.settled);
    }

fall_at-NoLeak : (p : Pool) (k : String) (o : Option Conn) → NoLeak p → NoLeak (fall_at p k o)
unfolding fall_at
fall_at-NoLeak p k none n = n
fall_at-NoLeak p k (some c) n = record {
  sound =
      insert-AllSound k (record c { dead = true; ended = true }) p.conns (inr (inr refl)) n.sound;
  settled = n.settled;
}

drop_at-NoLeak : (p : Pool) (k : String) (o : Option Conn) → NoLeak p → NoLeak (drop_at p k o)
unfolding drop_at
drop_at-NoLeak p k none n = n
drop_at-NoLeak p k (some c) n = record {
  sound = erase-AllSound k p.conns n.sound;
  settled = (inl refl, n.settled);
}

Step-NoLeak : {p p' : Pool} → Step p p' → NoLeak p → NoLeak p'
unfolding peek install fall drop reap close
Step-NoLeak (peeks p k now) n = peek_at-NoLeak p k now (lookup k p.conns) refl n
Step-NoLeak (installs p k id now) n = install_at-NoLeak p k id now (lookup k p.conns) refl n
Step-NoLeak (falls p k) n = fall_at-NoLeak p k (lookup k p.conns) n
Step-NoLeak (drops p k) n = drop_at-NoLeak p k (lookup k p.conns) n
Step-NoLeak (reaps p now) n = record {
  sound = reap_kept-AllSound now p.conns n.sound;
  settled =
      AllSettled-append (reap_closed now p.conns) p.gone (reap_closed-AllSettled now p.conns)
        n.settled;
}
Step-NoLeak (closes p) n = record {
  sound = tt;
  settled = AllSettled-append (all_closed p.conns) p.gone (all_closed-AllSettled p.conns) n.settled;
}

-- In every state that the critical sections reach, in whatever order, a connection that the map
-- does not hold is closed or has ended, and so is one of the map that is marked as dead: no open
-- connection is out of reach of `reap` and of `Close`.
pub Reachable-NoLeak : (p : Pool) → Reachable p → NoLeak p
Reachable-NoLeak p starts = record { sound = tt; settled = tt }
Reachable-NoLeak p (goes_on r s) = Step-NoLeak s (Reachable-NoLeak _ r)

-- Every connection of the map is alive and was used within ten minutes.
abbrev pub AllRecent : Time → Dict Conn → Type 0
AllRecent now [] = Unit {0}
AllRecent now ((k, c) ∷ d) =
    (c.dead ≡ false) × (sub_time now c.last ≤ℤ pos idle_ttl) × AllRecent now d

not_idle :
    (now : Time) (c : Conn)
    → is_idle now c ≡ false
    → (c.dead ≡ false) × (sub_time now c.last ≤ℤ pos idle_ttl)
not_idle now c h = both c.dead (sub_time now c.last) h
  where
    both :
        (b : Bool) (d : ℤ)
        → (b || ltb_ℤ (pos idle_ttl) d) ≡ false
        → (b ≡ false) × (d ≤ℤ pos idle_ttl)
    both true d k = absurd (cc k)
    both false d k = (refl, ground arith)

reap_kept-AllRecent : (now : Time) (d : Dict Conn) → AllRecent now (reap_kept now d)
unfolding reap_kept
reap_kept-AllRecent now [] = tt
reap_kept-AllRecent now ((k, c) ∷ d) = elim (Bool-cases (is_idle now c)) [
  | inl idle ↦ rw idle (reap_kept-AllRecent now d)
  | inr used ↦ rw used ((not_idle now c used).0, (not_idle now c used).1, reap_kept-AllRecent now d)
]

-- After `reap` the map holds only connections that are alive and were used within ten minutes,
-- and what it took from the map is closed.
pub reap-AllRecent :
    (p : Pool) (now : Time)
    → AllRecent now (reap p now).conns
      × AllSettled (reap_closed now p.conns)
      × ((reap p now).gone ≡ reap_closed now p.conns ++ p.gone)
unfolding reap
reap-AllRecent p now = (reap_kept-AllRecent now p.conns, reap_closed-AllSettled now p.conns, refl)
