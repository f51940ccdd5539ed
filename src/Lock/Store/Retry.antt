-- ===== src/Lock/Store/Retry.antt =====
-- What client-go documents of retry.RetryOnConflict, which internal/lock calls.
use namespace_resizer.Prelude.{◌++◌, ◌≡◌, ap, ◌∙◌, ◌≢◌}
use namespace_resizer.Controller.Effects.{Ran}
use namespace_resizer.Controller.Outside.{Done}
use namespace_resizer.Lock.Store.{Attempt, Reply, err, Refusal, Write}

-- The body runs, again after a conflict, in any world that the wait leaves; the last run's answer is
-- the answer.
pub data Tried {W : Type 0} (body : Attempt W) : W → Ran W Write (Reply Done) → Type 0 where
  last : {w : W} {r : Ran W Write (Reply Done)} → r ≡ body w → Tried body w r
  again :
      {w : W} {r : Ran W Write (Reply Done)} (w' : W) (s : Ran W Write (Reply Done))
      → (body w).value ≡ err Refusal.conflict
      → Tried body w' s
      → r ≡ record s { calls = (body w).calls ++ s.calls }
      → Tried body w r

-- The law of the parameter.
abbrev pub IsRetry : {W : Type 0} → (Attempt W → Attempt W) → Type 0
IsRetry {W} retry = (body : Attempt W) (w : W) → Tried body w (retry body w)

-- The answer of the last run, with the world in which that run began.
pub last_run :
    {W : Type 0} {body : Attempt W} {w : W} {r : Ran W Write (Reply Done)}
    → Tried body w r
    → (u : W) × (r.value ≡ (body u).value) × (r.world ≡ (body u).world)
last_run {w = w} (last e) = (w, ap (λ x. x.value) e, ap (λ x. x.world) e)
last_run (again w' s c t e) =
    let (u, value, world) = last_run t in
    (u, ap (λ x. x.value) e ∙ value, ap (λ x. x.world) e ∙ world)

-- Another answer than a conflict ends it.
pub first_run :
    {W : Type 0} {body : Attempt W} {w : W} {r : Ran W Write (Reply Done)}
    → Tried body w r
    → (body w).value ≢ err Refusal.conflict
    → r ≡ body w
first_run (last e) h = e
first_run (again w' s c t e) h = absurd (h c)
