-- ===== src/Collector/Rounds/Tests.antt =====
-- A round on the sample host.
use mathlib.Core.List.{Perm}
use amarre.Base.{ℕ, ◌+◌, ◌*◌, ◌≡◌, ◌⊎◌, refl, arith, none, [], ◌∷◌, Time, epoch, hour, minute, err}
use amarre.Store.Tables.{empty_db}
use amarre.Collector.Trees.{new_tree_store}
use amarre.Collector.Collect.{Console, Answers, chosen}
use amarre.Collector.Samples.{lone, lone_host}
use amarre.Collector.Rounds.{Round, begin, take, end, Step, takes, ends, Reachable, begins, goes_on}
use amarre.Collector.Rounds.Complete.{IsRound, Reachable-IsRound, load, Reachable-ends}

abbrev noon : Time
noon = epoch + 20000 * (24 * hour)

abbrev idle : Console ℕ
idle = record { db = empty_db; bo = []; cache = []; trees = new_tree_store; running = [] }

abbrev silent : Answers
silent = record {
  status = err "i/o timeout";
  stats = none;
  snapshots = none;
  policy = none;
  excludes = none;
  health = none;
  probe = none;
}

due_hosts : chosen lone.hosts idle.bo noon ≡ lone_host ∷ []
unfolding chosen
due_hosts = refl

abbrev first : Round ℕ
first = begin lone idle noon

abbrev second : Round ℕ
second = take first [] lone_host []

second-Reachable : Reachable lone idle noon second
unfolding chosen
second-Reachable = goes_on begins (takes first [] lone_host [] refl (omega arith))

abbrev third : Round ℕ
third = end lone second [] lone_host [] noon (noon + minute) silent

third-Reachable : Reachable lone idle noon third
third-Reachable =
    goes_on second-Reachable (ends second [] lone_host [] noon (noon + minute) silent refl)

Reachable-IsRound_example : IsRound (chosen lone.hosts idle.bo noon) third
Reachable-IsRound_example = Reachable-IsRound lone idle noon third third-Reachable

Reachable-ends_example :
    (((second.waiting ≡ [])
        × (second.inside ≡ [])
        × Perm second.finished (chosen lone.hosts idle.bo noon))
      ⊎ ((s' : Round ℕ) × Step lone second s'))
    × ((s' : Round ℕ) → Step lone second s' → load lone second ≡ load lone s' + 1)
Reachable-ends_example =
    Reachable-ends lone idle noon (noon + minute) silent second second-Reachable
