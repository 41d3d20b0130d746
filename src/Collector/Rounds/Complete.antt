-- ===== src/Collector/Rounds/Complete.antt =====
-- A round of collections, at every order of its goroutines.
use mathlib.Core.List.{Perm, perm_middle, append-nil}
use mathlib.Core.List.Perm
use amarre.Base.{
  ℕ, true, ◌+◌, ◌≤◌, ◌≡◌, ◌⊎◌, refl, ap, ◌∙◌, subst, inl, inr, Bool-cases, arith, String, List, [],
  ◌∷◌, ◌++◌, some, str_eq, str_eq_iff, All, length, Time, find_by,
}
use amarre.Config.{HostConfig, Config}
use amarre.Store.Checks.{check_host, check_of, row_of, latest_checks}
use amarre.Collector.Collect.{Console, Answers, check_for, collect_one, chosen}
use amarre.Collector.Collect.Outcomes.{collect_one-latest}
use amarre.Collector.Rounds.{
  places, Round, take, end, Step, takes, ends, Reachable, begins, goes_on,
}

-- All goroutines of the round.
abbrev pub all_of : {V : Type 0} → Round V → List HostConfig
all_of s = s.finished ++ (s.inside ++ s.waiting)

-- The last check of the name is one of a collection.
abbrev pub Recorded : {V : Type 0} → Console V → String → Type 0
Recorded con name =
    (h : HostConfig) × (now : Time) × (a : Answers) × (h.name ≡ name)
    × (find_by check_host name (latest_checks con.db)
        ≡ some (check_of (row_of (check_for h now a))))

-- The places that are held are those of the goroutines inside, and no more than there are; each
-- host that was chosen is in one of the three lists, once; a host that is finished has been
-- recorded.
pub record IsRound {V : Type 0} (hosts : List HostConfig) (s : Round V) : Type 0 where
  pub counted : s.held ≡ length s.inside
  pub bounded : s.held ≤ places
  pub whole : Perm (all_of s) hosts
  pub recorded : All (λ h. Recorded s.con h.name) s.finished

length-middle :
    (xs : List HostConfig) (h : HostConfig) (ys : List HostConfig)
    → length (xs ++ h ∷ ys) ≡ length (xs ++ ys) + 1
length-middle [] h ys = omega arith
length-middle (x ∷ xs) h ys = let more = length-middle xs h ys in omega (arith, more)

module _ {V : Type 0} (c : Config) where
  -- A collection keeps what was recorded, and records its host.
  kept-Recorded :
      (con : Console V) (g : HostConfig) (now later : Time) (a : Answers) (name : String)
      → Recorded con name
      → Recorded (collect_one c g now later a con) name
  kept-Recorded con g now later a name (h, t, b, e, f) = elim (Bool-cases (str_eq g.name name)) [
    | inl same ↦ (
      g,
      now,
      a,
      (str_eq_iff g.name name).0 same,
      collect_one-latest c g now later a con name ∙ rw same refl,
    )
    | inr other ↦ (h, t, b, e, collect_one-latest c g now later a con name ∙ rw other f)
  ]

  new-Recorded :
      (con : Console V) (g : HostConfig) (now later : Time) (a : Answers)
      → Recorded (collect_one c g now later a con) g.name
  new-Recorded con g now later a =
      let same : str_eq g.name g.name ≡ true = (str_eq_iff g.name g.name).1 refl in
      (g, now, a, refl, collect_one-latest c g now later a con g.name ∙ rw same refl)

  All-Recorded :
      (con : Console V) (g : HostConfig) (now later : Time) (a : Answers) (hs : List HostConfig)
      → All (λ h. Recorded con h.name) hs
      → All (λ h. Recorded (collect_one c g now later a con) h.name) hs
  All-Recorded con g now later a [] r = tt
  All-Recorded con g now later a (h ∷ hs) (r, rs) =
      (kept-Recorded con g now later a h.name r, All-Recorded con g now later a hs rs)

  step-IsRound :
      (hosts : List HostConfig) (s s' : Round V) → Step c s s' → IsRound hosts s → IsRound hosts s'
  step-IsRound hosts s s' (takes _ before h after e free) ok = record {
    counted = let n = ok.counted in omega (arith, n);
    bounded = omega (arith, free);
    whole =
        Perm.trans
          (Perm.symm (
            Perm.append_left s.finished (
              Perm.trans (Perm.append_left s.inside (perm_middle before after))
                (perm_middle s.inside (before ++ after)))))
          (subst (λ w. Perm (s.finished ++ (s.inside ++ w)) hosts) e ok.whole);
    recorded = ok.recorded;
  }
  step-IsRound hosts s s' (ends _ before h after now later a e) ok =
      let counted : s.held ≡ length (before ++ after) + 1 =
        ok.counted ∙ ap length e ∙ length-middle before h after in
      let bound = ok.bounded in
      record {
        counted = omega (arith, counted);
        bounded = omega (arith, bound);
        whole =
            Perm.trans
              (Perm.symm (
                Perm.trans
                  (Perm.append_left s.finished
                    (Perm.append_right s.waiting (perm_middle before after)))
                  (perm_middle s.finished ((before ++ after) ++ s.waiting))))
              (subst (λ w. Perm (s.finished ++ (w ++ s.waiting)) hosts) e ok.whole);
        recorded = (
          new-Recorded s.con h now later a,
          All-Recorded s.con h now later a s.finished ok.recorded,
        );
      }

  -- At every order of the goroutines of a round, no more collections run than the channel has
  -- places, as many places are held as collections run, each host that was due is waiting, being
  -- collected or finished, once, and the last check of a finished host is one of a collection.
  pub Reachable-IsRound :
      (con : Console V) (now : Time) (s : Round V)
      → Reachable c con now s
      → IsRound (chosen c.hosts con.bo now) s
  Reachable-IsRound con now s begins = record {
    counted = refl;
    bounded = omega arith;
    whole = Perm.rfl;
    recorded = tt;
  }
  Reachable-IsRound con now s' (goes_on {s} r step) =
      step-IsRound (chosen c.hosts con.bo now) s s' step (Reachable-IsRound con now s r)

  -- What is left to do.
  abbrev pub load : Round V → ℕ
  load s = length s.waiting + length s.waiting + length s.inside

  step-load :
      (hosts : List HostConfig) (s s' : Round V)
      → IsRound hosts s
      → Step c s s'
      → load s ≡ load s' + 1
  step-load hosts s s' ok (takes _ before h after e free) =
      let fewer : length s.waiting ≡ length (before ++ after) + 1 =
        ap length e ∙ length-middle before h after in
      omega (arith, fewer)
  step-load hosts s s' ok (ends _ before h after now later a e) =
      let fewer : length s.inside ≡ length (before ++ after) + 1 =
        ap length e ∙ length-middle before h after in
      omega (arith, fewer)

  next :
      (hosts : List HostConfig) (s : Round V) (now later : Time) (a : Answers)
      (w i : List HostConfig)
      → IsRound hosts s
      → s.waiting ≡ w
      → s.inside ≡ i
      → ((s.waiting ≡ []) × (s.inside ≡ [])) ⊎ ((s' : Round V) × Step c s s')
  next hosts s now later a w (h ∷ i) ok e f =
      inr (end c s [] h i now later a, ends s [] h i now later a f)
  next hosts s now later a [] [] ok e f = inl (e, f)
  next hosts s now later a (h ∷ w) [] ok e f =
      let none : s.held ≡ 0 = ok.counted ∙ ap length f in
      inr (take s [] h w, takes s [] h w e (omega (arith, none)))

  whole_end :
      (s : Round V) (hosts : List HostConfig)
      → s.waiting ≡ []
      → s.inside ≡ []
      → Perm (all_of s) hosts
      → Perm s.finished hosts
  whole_end s hosts e f p =
      subst (λ l. Perm l hosts)
        (ap (λ w. s.finished ++ (s.inside ++ w)) e
          ∙ ap (λ i. s.finished ++ (i ++ [])) f
          ∙ append-nil s.finished)
        p

  -- A round always ends: in every state that it reaches, either every host that was due has been
  -- collected, once, and nothing is left, or a goroutine can go on; and each step leaves one thing
  -- less to do, two for a host that waits and one for a host that is being collected.
  pub Reachable-ends :
      (con : Console V) (now later : Time) (a : Answers) (s : Round V)
      → Reachable c con now s
      → (((s.waiting ≡ []) × (s.inside ≡ []) × Perm s.finished (chosen c.hosts con.bo now))
          ⊎ ((s' : Round V) × Step c s s'))
        × ((s' : Round V) → Step c s s' → load s ≡ load s' + 1)
  Reachable-ends con now later a s r =
      let hosts = chosen c.hosts con.bo now in
      let ok = Reachable-IsRound con now s r in
      (
        elim (next hosts s now later a s.waiting s.inside ok refl refl) [
          | inl (e, f) ↦ inl (e, f, whole_end s hosts e f ok.whole)
          | inr more ↦ inr more
        ],
        λ s' step. step-load hosts s s' ok step,
      )
