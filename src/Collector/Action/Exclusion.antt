-- ===== src/Collector/Action/Exclusion.antt =====
-- One operation at a time on a host.
use amarre.Base.{
  ◌≡◌, refl, sym, subst, ap, ◌∙◌, true, String, Option, none, some, if◌then◌else◌, str_eq,
  str_eq_iff, Bool-cases, inl, inr, Time, lookup, erase, IsMap, lookup-insert_self,
  lookup-erase_self, lookup-erase_ne, Result, ok, err,
}
use amarre.Config.{HostConfig, Config}
use amarre.Collector.Collect.{Console, Answers, collect_one, find_host}
use amarre.Collector.Action.{
  ActionError, not_offered, busy, is_offered, begin, begin_with, action_on, action, refresh,
  conclude, finish,
}

module _ {V : Type 0} where
  begin_with-ok :
      (o : Option String) (con con' : Console V) (h : HostConfig) (verb actor ip : String)
      (now : Time)
      → begin_with o con h verb actor ip now ≡ ok con'
      → (o ≡ none) × (lookup h.name con'.running ≡ some verb)
  unfolding begin_with
  begin_with-ok (some cur) con con' h verb actor ip now e = absurd (cc e)
  begin_with-ok none con con' h verb actor ip now e =
      (refl, ap (λ r. running_of r h.name) (sym e) ∙ lookup-insert_self h.name verb con.running)
    where
      running_of : Result ActionError (Console V) → String → Option String
      running_of (ok c) k = lookup k c.running
      running_of (err x) k = none

  action_on-ok :
      (o : Option HostConfig) (con con' : Console V) (host verb actor ip : String) (now : Time)
      → action_on o con host verb actor ip now ≡ ok con'
      → (h : HostConfig) × (o ≡ some h)
        × (is_offered verb ≡ true)
        × (lookup h.name con.running ≡ none)
        × (lookup h.name con'.running ≡ some verb)
  unfolding action_on
  action_on-ok none con con' host verb actor ip now e = absurd (cc e)
  action_on-ok (some h) con con' host verb actor ip now e = elim (Bool-cases (is_offered verb)) [
    | inl offered ↦
        let p = begin_with-ok (lookup h.name con.running) con con' h verb actor ip now (
          subst
            (λ b. (if b then begin con h verb actor ip now else err (not_offered verb)) ≡ ok con')
            offered e) in
        (h, refl, offered, p.0, p.1)
    | inr other ↦
        let q =
          subst
            (λ b. (if b then begin con h verb actor ip now else err (not_offered verb)) ≡ ok con')
            other e in
        absurd (cc q)
  ]

  action_on-busy :
      (con : Console V) (h : HostConfig) (host verb other actor ip : String) (now : Time)
      → lookup h.name con.running ≡ some verb
      → action_on (some h) con host other actor ip now
        ≡ (if is_offered other then err (busy h.name verb) else err (not_offered other))
  unfolding action_on begin_with
  action_on-busy con h host verb other actor ip now taken =
      ap
        (λ o.
          if is_offered other
          then begin_with o con h other actor ip now
          else err (not_offered other))
        taken

  -- An operation is accepted only on a configured host, for an offered verb, and while no other
  -- one runs on the host; from then on every request of an offered verb for that host is refused,
  -- with the verb that runs, and every other verb as before.
  pub action-excludes :
      (c : Config) (con con' : Console V) (host verb actor ip verb' actor' ip' : String)
      (now later : Time)
      → action c con host verb actor ip now ≡ ok con'
      → (h : HostConfig) × (find_host c host ≡ some h)
        × (is_offered verb ≡ true)
        × (lookup h.name con.running ≡ none)
        × (action c con' host verb' actor' ip' later
            ≡ (if is_offered verb' then err (busy h.name verb) else err (not_offered verb')))
  unfolding action
  action-excludes c con con' host verb actor ip verb' actor' ip' now later e =
      let (h, found, offered, free, taken) =
        action_on-ok (find_host c host) con con' host verb actor ip now e in
      (
        h,
        found,
        offered,
        free,
        ap (λ o. action_on o con' host verb' actor' ip' later) found
            ∙ action_on-busy con' h host verb verb' actor' ip' later taken,
      )

  refresh-running :
      (c : Config) (h : HostConfig) (now : Time) (a : Answers) (con : Console V)
      → (refresh c h now a con).running ≡ con.running
  unfolding refresh collect_one
  refresh-running c h now a con = refl

  conclude-running :
      (c : Config) (h : HostConfig) (verb actor ip : String) (now : Time) (o : Option String)
      (a : Answers) (con : Console V)
      → (conclude c h verb actor ip now o a con).running ≡ con.running
  unfolding conclude refresh collect_one
  conclude-running c h verb actor ip now (some e) a con = refl
  conclude-running c h verb actor ip now none a con = refl

  -- The end of an operation, whether it succeeded or failed, frees its host and no other one.
  pub finish-frees :
      (c : Config) (h : HostConfig) (verb actor ip other : String) (now : Time)
      (error : Option String) (first second : Answers) (con : Console V)
      → IsMap con.running
      → lookup other (finish c h verb actor ip now error first second con).running
        ≡ (if str_eq other h.name then none else lookup other con.running)
  unfolding finish
  finish-frees c h verb actor ip other now error first second con m =
      elim (Bool-cases (str_eq verb "refresh")) [
        | inl again ↦ rw again (
            ap (λ r. lookup other (erase h.name r))
              (conclude-running c h verb actor ip now none second (refresh c h now first con)
                ∙ refresh-running c h now first con)
            ∙ freed)
        | inr once ↦ rw once (
            ap (λ r. lookup other (erase h.name r))
              (conclude-running c h verb actor ip now error second con)
            ∙ freed)
      ]
    where
      freed :
          lookup other (erase h.name con.running)
          ≡ (if str_eq other h.name then none else lookup other con.running)
      freed = elim (Bool-cases (str_eq other h.name)) [
        | inl same ↦ rw same (
            ap (λ k. lookup k (erase h.name con.running)) ((str_eq_iff other h.name).0 same)
            ∙ lookup-erase_self h.name con.running m)
        | inr apart ↦ rw apart (
            lookup-erase_ne other h.name con.running
              (λ e. cc (apart, (str_eq_iff other h.name).1 e)))
      ]
