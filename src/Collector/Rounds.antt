-- ===== src/Collector/Rounds.antt =====
-- `CollectAll` and `Run` of collector.go: one goroutine for each host that is due, at most as many
-- inside `collectOne` as the channel `limit` has places. The writes of a collection are taken
-- together, at its end.
pub mod Complete
mod Tests
use amarre.Base.{ℕ, suc, ◌+◌, ◌-◌, ◌*◌, ◌<◌, ◌≡◌, List, [], ◌∷◌, ◌++◌, Time, hour}
use amarre.Config.{HostConfig, Config}
use amarre.Store.Tables.{Db}
use amarre.Store.Sessions.{purge_expired_sessions}
use amarre.Store.History.{purge_health_history}
use amarre.Fleet.Pool.{Pool, reap}
use amarre.Collector.Sante.{Texts}
use amarre.Collector.Sante.Board.{Decoders, sante_fleet}
use amarre.Collector.Collect.{Console, Answers, collect_one, chosen, record_snapshot}

-- The places of the channel `limit`.
abbrev pub places : ℕ
places = 4

-- The goroutines that wait for a place, those inside, those that are over; and the places held.
pub record Round (V : Type 0) : Type 0 where
  pub con : Console V
  pub waiting : List HostConfig
  pub inside : List HostConfig
  pub finished : List HostConfig
  pub held : ℕ

-- The loop that starts the goroutines.
abbrev pub begin : {V : Type 0} → Config → Console V → Time → Round V
begin c con now = record {
  con = con;
  waiting = chosen c.hosts con.bo now;
  inside = [];
  finished = [];
  held = 0;
}

-- `c.limit <- struct{}{}`, of any goroutine that waits.
abbrev pub take : {V : Type 0} → Round V → List HostConfig → HostConfig → List HostConfig → Round V
take s before h after = record s {
  waiting = before ++ after;
  inside = h ∷ s.inside;
  held = s.held + 1;
}

-- `collectOne`, and the place that is given back.
abbrev pub end :
    {V : Type 0}
    → Config
    → Round V
    → List HostConfig
    → HostConfig
    → List HostConfig
    → Time
    → Time
    → Answers
    → Round V
end c s before h after now later a = record s {
  con = collect_one c h now later a s.con;
  inside = before ++ after;
  finished = h ∷ s.finished;
  held = s.held - 1;
}

module _ {V : Type 0} (c : Config) where
  pub data Step : Round V → Round V → Type 0 where
    takes :
        (s : Round V) (before : List HostConfig) (h : HostConfig) (after : List HostConfig)
        → s.waiting ≡ before ++ h ∷ after
        → s.held < places
        → Step s (take s before h after)
    ends :
        (s : Round V) (before : List HostConfig) (h : HostConfig) (after : List HostConfig)
        (now later : Time) (a : Answers)
        → s.inside ≡ before ++ h ∷ after
        → Step s (end c s before h after now later a)

  pub data Reachable (con : Console V) (now : Time) : Round V → Type 0 where
    begins : Reachable con now (begin c con now)
    goes_on : {s s' : Round V} → Reachable con now s → Step s s' → Reachable con now s'

-- What `Run` does after a round: `RecordHealthSnapshot`; and, from the second round on, the two
-- purges and `Reap`.
unfoldable pub settle : {V : Type 0} → Texts → Decoders → Config → Console V → Time → Console V
unfolding record_snapshot
settle t d c con now = record con { db = record_snapshot (sante_fleet t d c con.db now) now con.db }

abbrev pub history_kept : ℕ
history_kept = 15 * (24 * hour)

unfoldable pub tidy : {V : Type 0} → Console V → Pool → Time → Console V × Pool
unfolding purge_health_history reap
tidy con p now = (
  record con { db = purge_health_history (purge_expired_sessions con.db now) history_kept now },
  reap p now,
)
