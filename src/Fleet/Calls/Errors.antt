-- ===== src/Fleet/Calls/Errors.antt =====
-- When `run` gives an output, and what its errors say.
use amarre.Base.{
  ◌≡◌, refl, ap, ◌∙◌, ◌⊎◌, inl, inr, ◌↔◌, String, none, some, Result, ok, err, ◌>>=◌, concat, [],
  ◌∷◌,
}
use amarre.Fleet.Calls.{Ending, cancelled, finished, Line, open_session, ended, run}

-- There is a session: at once, or on a second connection.
abbrev pub Connected : Line → Type 0
Connected l =
    (l.connect ≡ ok tt)
    × (l.place ≡ ok tt)
    × ((l.session ≡ ok tt) ⊎ ((l.reconnect ≡ ok tt) × (l.second_session ≡ ok tt)))

unit : (u : Unit {0}) → ◌≡◌ {A = Result String (Unit {0})} (ok u) (ok tt)
unit u = refl

opened-Connected :
    (l : Line) (r : Result String (Unit {0})) (u : Unit {0})
    → open_session l r ≡ ok u
    → (r ≡ ok tt) ⊎ ((l.reconnect ≡ ok tt) × (l.second_session ≡ ok tt))
unfolding open_session
opened-Connected l (ok v) u h = inl (unit v)
opened-Connected l (err e) u h = inr (go l.reconnect l.second_session h)
  where
    go :
        (a b : Result String (Unit {0}))
        → (a >>= λ _. elim b [
          | err x ↦ err (concat ("ouverture de session : " ∷ x ∷ []))
          | ok w ↦ ok w
        ])
          ≡ ok u
        → (a ≡ ok tt) × (b ≡ ok tt)
    go (err x) b k = absurd (cc k)
    go (ok v) (err x) k = absurd (cc k)
    go (ok v) (ok w) k = (unit v, unit w)

ended-ok :
    (e : Ending) (out : String)
    → ended e ≡ ok out
    → (errors : String) × (e ≡ finished out errors none)
unfolding ended
ended-ok (cancelled x) out h = absurd (cc h)
ended-ok (finished o errors none) out h = (errors, cc)
ended-ok (finished o errors (some f)) out h = absurd (cc h)

run-ok :
    (l : Line) (out : String)
    → run l ≡ ok out
    → Connected l × ((errors : String) × (l.ending ≡ finished out errors none))
unfolding run
run-ok l out h = go l.connect l.place (open_session l l.session) refl h
  where
    go :
        (c p s : Result String (Unit {0}))
        → open_session l l.session ≡ s
        → (c >>= λ _. p >>= λ _. s >>= λ _. ended l.ending) ≡ ok out
        → ((c ≡ ok tt)
            × (p ≡ ok tt)
            × ((l.session ≡ ok tt) ⊎ ((l.reconnect ≡ ok tt) × (l.second_session ≡ ok tt))))
          × ((errors : String) × (l.ending ≡ finished out errors none))
    go (err x) p s e k = absurd (cc k)
    go (ok c) (err x) s e k = absurd (cc k)
    go (ok c) (ok p) (err x) e k = absurd (cc k)
    go (ok c) (ok p) (ok s) e k =
        ((unit c, unit p, opened-Connected l l.session s e), ended-ok l.ending out k)

Connected-opens :
    (l : Line)
    → (l.session ≡ ok tt) ⊎ ((l.reconnect ≡ ok tt) × (l.second_session ≡ ok tt))
    → open_session l l.session ≡ ok tt
unfolding open_session
Connected-opens l (inl e) = rw e refl
Connected-opens l (inr (r, s)) = go l.session
  where
    go : (q : Result String (Unit {0})) → open_session l q ≡ ok tt
    go (ok u) = refl
    go (err x) = rw (r, s) refl

-- A connected call ends as its command ends.
Connected-run : (l : Line) → Connected l → run l ≡ ended l.ending
unfolding run
Connected-run l (c, p, s) = rw (c, p, Connected-opens l s) refl

-- A call gives an output exactly where there is a connection, a place on it and a session, at
-- once or on a second connection, and the command ended without an error before the context; it
-- is the output of that command, whatever stands on its error stream.
pub run-ok_iff :
    (l : Line) (out : String)
    → (run l ≡ ok out) ↔ (Connected l × ((errors : String) × (l.ending ≡ finished out errors none)))
unfolding ended
run-ok_iff l out = (run-ok l out, λ h. Connected-run l h.0 ∙ ap ended h.1.1 ∙ done h.1.0)
  where
    done : (errors : String) → ended (finished out errors none) ≡ ok out
    done errors = refl
