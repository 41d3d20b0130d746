-- ===== src/Fleet/Calls/Agree.antt =====
-- `Status` and `Snapshots` read the same list of snapshots.
use mathlib.Core.List.{append_assoc, reverse, reverse-cons}
use amarre.Base.{
  ℕ, zero, suc, ◌≡◌, refl, sym, ap, ◌∙◌, String, List, [], ◌∷◌, ◌++◌, map, length, Result, ok, err,
  ◌>>=◌,
}
use amarre.Fleet.Calls.{
  Line, Decode, ResticSnapshot, Snapshot, Status, run, prefixed, last_of, status, snapshot_from,
  one_at, newest_first, snapshots,
}

newest_first-suc :
    (d : Decode) (s : ResticSnapshot) (ss : List ResticSnapshot) (i : ℕ)
    → newest_first d (s ∷ ss) (suc i) ≡ newest_first d ss i ++ snapshot_from d s ∷ []
unfolding newest_first
newest_first-suc d s ss zero = refl
newest_first-suc d s ss (suc i) =
    ap (λ l. one_at d ss i ++ l) (newest_first-suc d s ss i)
    ∙ sym (append_assoc (one_at d ss i) (newest_first d ss i) (snapshot_from d s ∷ []))

-- The first snapshot of the page is the one of the status.
pub record Same (st : Status) (s : Snapshot) : Type 0 where
  pub id : s.id ≡ st.snapshot_id
  pub time : s.time ≡ st.time
  pub size : s.size ≡ st.size_bytes
  pub paths : s.paths ≡ st.paths

last_of-Same :
    (d : Decode) (raw : List ResticSnapshot) (st : Status)
    → last_of d raw ≡ ok st
    → (s : Snapshot) × (rest : List Snapshot) × (newest_first d raw (length raw) ≡ s ∷ rest)
      × Same st s
unfolding last_of newest_first
last_of-Same d [] st h = cc
last_of-Same d (s ∷ []) st h =
    (snapshot_from d s, [], refl, record { id = cc; time = cc; size = cc; paths = cc })
last_of-Same d (s ∷ t ∷ ss) st h =
    let (found, rest, e, same) = last_of-Same d (t ∷ ss) st h in
    (
      found,
      rest ++ snapshot_from d s ∷ [],
      newest_first-suc d s (t ∷ ss) (length (t ∷ ss)) ∙ ap (λ l. l ++ snapshot_from d s ∷ []) e,
      same,
    )

newest_first-reverse :
    (d : Decode) (raw : List ResticSnapshot)
    → newest_first d raw (length raw) ≡ reverse (map (snapshot_from d) raw)
unfolding newest_first
newest_first-reverse d [] = refl
newest_first-reverse d (s ∷ ss) =
    newest_first-suc d s ss (length ss)
    ∙ ap (λ l. l ++ snapshot_from d s ∷ []) (newest_first-reverse d ss)
    ∙ sym (reverse-cons (snapshot_from d s) (map (snapshot_from d) ss))

decoded-Same :
    (d : Decode) (st : Status) (before after : String) (r : Result String (List ResticSnapshot))
    → (prefixed before r >>= last_of d) ≡ ok st
    → (s : Snapshot) × (rest : List Snapshot) × ((prefixed after r >>= λ raw.
          ok (newest_first d raw (length raw)))
        ≡ ok (s ∷ rest))
      × Same st s
decoded-Same d st before after (err e) h = absurd (cc h)
decoded-Same d st before after (ok raw) h =
    let (s, rest, e, same) = last_of-Same d raw st h in (s, rest, ap ok e, same)

-- Where a host answers "status" and "snapshots" alike, and the status is read, the list of
-- snapshots is read too and begins with the snapshot of the status: the same identifier, time,
-- size and paths.
pub snapshots-status :
    (d : Decode) (l : Line) (st : Status)
    → status d l ≡ ok st
    → (s : Snapshot) × (rest : List Snapshot) × (snapshots d l ≡ ok (s ∷ rest)) × Same st s
unfolding status snapshots
snapshots-status d l st h = go (run l) h
  where
    go :
        (r : Result String String)
        → (r >>= λ out. prefixed "réponse illisible de l'hôte : " (d.snapshots out) >>= last_of d)
          ≡ ok st
        → (s : Snapshot) × (rest : List Snapshot) × ((r >>= λ out.
              prefixed "liste de snapshots illisible : " (d.snapshots out) >>= λ raw.
              ok (newest_first d raw (length raw)))
            ≡ ok (s ∷ rest))
          × Same st s
    go (err e) k = absurd (cc k)
    go (ok out) k =
        decoded-Same d st "réponse illisible de l'hôte : " "liste de snapshots illisible : "
          (d.snapshots out) k

-- The list of snapshots is the answer of the host in the opposite order, each with its data.
pub snapshots-reverse :
    (d : Decode) (l : Line) (out : String) (raw : List ResticSnapshot)
    → run l ≡ ok out
    → d.snapshots out ≡ ok raw
    → snapshots d l ≡ ok (reverse (map (snapshot_from d) raw))
unfolding snapshots
snapshots-reverse d l out raw h k = rw (h, k) (ap ok (newest_first-reverse d raw))
