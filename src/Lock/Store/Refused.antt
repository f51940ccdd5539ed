-- ===== src/Lock/Store/Refused.antt =====
-- Requests that internal/lock gives up on.
use namespace_resizer.Prelude.{
  refl, ◌≡◌, ◌≢◌, ap, ◌∙◌, ◌++◌, true, false, arith, Option, none, some, [],
}
use namespace_resizer.Prelude.Int.{ℤ}
use namespace_resizer.Text.{Str, codes, ◌=s◌}
use namespace_resizer.Lock.State.{Lease, identity}
use namespace_resizer.Controller.Outside.{Done}
use namespace_resizer.Lock.Store.{
  Attempt, Refusal, Reply, err, LeaseClient, get_lease_name, new_lease, held_by_other,
  already_locked, acquire_on, try_acquire, acquire_lock,
}
use namespace_resizer.Lock.Store.Retry.{IsRetry, first_run}

already_locked-ne-conflict :
    (o : Option Str) (r : Reply Done) → r ≡ err (already_locked o) → r ≢ err Refusal.conflict
unfolding already_locked
already_locked-ne-conflict none r e h = cc (e, h)
already_locked-ne-conflict (some s) r e h = cc (e, h)

other_holds :
    (us holder : Str) (o : Option Str)
    → o ≡ some holder
    → (holder =s us) ≡ false
    → held_by_other us o ≡ true
unfolding held_by_other
other_holds us holder none e h = cc e
other_holds us holder (some x) e h = ground (arith, e, h)

names_holder :
    (holder : Str) (o : Option Str)
    → o ≡ some holder
    → ◌≡◌ {A = Reply Done}
        (err (already_locked o))
        (err (Refusal.other (codes "lease is already locked by " ++ holder)))
unfolding already_locked
names_holder holder o e = rw e refl

module _ {W : Type 0} (client : LeaseClient W) where
  -- With a retry of conflicts as client-go documents it: when Get answers with a Lease whose holder is
  -- there and is not the identity of this pull request, AcquireLock returns the error "lease is
  -- already locked by" with that holder in it, and writes nothing.
  pub locked_lem :
      (retry : Attempt W → Attempt W) (law : IsRetry retry) (ns quota : Str) (pr_id : ℤ) (w : W)
      (l : Lease) (holder : Str)
      → (client.get (get_lease_name ns quota) w).0 ≡ Reply.ok l
      → l.holder ≡ some holder
      → (holder =s identity pr_id) ≡ false
      → ((acquire_lock client retry ns quota pr_id w).value
          ≡ err (Refusal.other (codes "lease is already locked by " ++ holder)))
        × ((acquire_lock client retry ns quota pr_id w).calls ≡ [])
  unfolding acquire_lock try_acquire acquire_on new_lease
  locked_lem retry law ns quota pr_id w l holder g some_holder differs =
      let held : held_by_other (identity pr_id) l.holder ≡ true =
        other_holds (identity pr_id) holder l.holder some_holder differs in
      let body = try_acquire client (identity pr_id) (new_lease ns quota) in
      let refused : (body w).value ≡ err (already_locked l.holder) = rw (g, acquire_on, held) in
      let silent : (body w).calls ≡ [] = rw (g, acquire_on, held) in
      let once =
        first_run (law body w) (already_locked-ne-conflict l.holder (body w).value refused) in
      (
        ap (λ r. r.value) once ∙ refused ∙ names_holder holder l.holder some_holder,
        ap (λ r. r.calls) once ∙ silent,
      )
