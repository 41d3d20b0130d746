-- ===== src/Collector/Action.antt =====
-- `Action` and `Busy` of collector.go: the part that answers the request, and the goroutine that
-- runs the operation.
pub mod Exclusion
mod Tests
use amarre.Base.{
  concat, Bool, true, false, ◌||◌, String, Option, none, some, List, [], ◌∷◌, if◌then◌else◌, str_eq,
  Time, Dict, lookup, insert, erase, Result, ok, err,
}
use amarre.Config.{HostConfig, Config}
use amarre.Store.Audit.{audit}
use amarre.Collector.Cache
use amarre.Collector.Trees.{invalidate_trees}
use amarre.Collector.Collect.{Console, Answers, collect_one, find_host}

pub data ActionError : Type 0 where
  unknown_host : String → ActionError
  not_offered : String → ActionError
  busy : String → String → ActionError

abbrev pub is_offered : String → Bool
is_offered verb =
    str_eq verb "check" || (str_eq verb "backup" || (str_eq verb "unlock" || str_eq verb "refresh"))

module _ {V : Type 0} where
  -- By the operation that runs on the host.
  unfoldable pub begin_with :
      Option String
      → Console V
      → HostConfig
      → String
      → String
      → String
      → Time
      → Result ActionError (Console V)
  unfolding audit
  begin_with (some cur) con h verb actor ip now = err (busy h.name cur)
  begin_with none con h verb actor ip now = ok (record con {
    running = insert h.name verb con.running;
    db = audit con.db now actor ip verb h.name "demandé";
  })

  -- The section under `runMu`, and the line of the audit log that follows it.
  abbrev pub begin :
      Console V → HostConfig → String → String → String → Time → Result ActionError (Console V)
  begin con h verb actor ip now = begin_with (lookup h.name con.running) con h verb actor ip now

  -- By the host of that name.
  unfoldable pub action_on :
      Option HostConfig
      → Console V
      → String
      → String
      → String
      → String
      → Time
      → Result ActionError (Console V)
  unfolding begin_with
  action_on none con host verb actor ip now = err (unknown_host host)
  action_on (some h) con host verb actor ip now =
      if is_offered verb then begin con h verb actor ip now else err (not_offered verb)

  unfoldable pub action :
      Config → Console V → String → String → String → String → Time → Result ActionError (Console V)
  unfolding action_on
  action c con host verb actor ip now = action_on (find_host c host) con host verb actor ip now

  -- What changes on the host is forgotten, and the host is collected again.
  unfoldable pub refresh : Config → HostConfig → Time → Answers → Console V → Console V
  unfolding invalidate_trees collect_one
  refresh c h now a con = collect_one c h now now a (record con {
    cache = Cache.invalidate con.cache h.name;
    trees = invalidate_trees con.trees h.name;
  })

  -- The end of the operation, by the error that it returned.
  unfoldable pub conclude :
      Config
      → HostConfig
      → String
      → String
      → String
      → Time
      → Option String
      → Answers
      → Console V
      → Console V
  unfolding audit refresh
  conclude c h verb actor ip now (some e) a con = record con {
    db = audit con.db now actor ip verb h.name (concat ("échec : " ∷ e ∷ []));
  }
  conclude c h verb actor ip now none a con =
      refresh c h now a (record con { db = audit con.db now actor ip verb h.name "succès" })

  -- The goroutine, from the answer of the host on: `error` is that of the verb; "refresh" has
  -- none, and collects. After a success the host is collected, and at the end the entry of the
  -- host is deleted.
  unfoldable pub finish :
      Config
      → HostConfig
      → String
      → String
      → String
      → Time
      → Option String
      → Answers
      → Answers
      → Console V
      → Console V
  unfolding conclude refresh
  finish c h verb actor ip now error first second con =
      let done =
        if str_eq verb "refresh"
        then conclude c h verb actor ip now none second (refresh c h now first con)
        else conclude c h verb actor ip now error second con in
      record done { running = erase h.name done.running }

  abbrev pub busy_on : Console V → String → Option String
  busy_on con host = lookup host con.running
