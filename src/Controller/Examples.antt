-- ===== src/Controller/Examples.antt =====
-- The theorems on internal/controller at a concrete quota and a scripted outside.
use namespace_resizer.Prelude.{
  ℕ, suc, ◌*◌, ◌+◌, ◌≡◌, ◌≢◌, refl, true, false, none, [], ◌∷◌, ◌++◌, All, arith, inl,
}
use namespace_resizer.Prelude.Int.{ℤ, pos, ◌-ℤ◌}
use namespace_resizer.Text.{Str, codes, ◌=s◌}
use namespace_resizer.GoMap.{lookup}
use namespace_resizer.Float.Rational.{Fraction, fraction_float}
use namespace_resizer.Quantity.Exact.{Amount, amount, amount_resource}
use namespace_resizer.Clock.{day_ns, sub_time}
use namespace_resizer.Clock.Unary.{unary, unary-IsCalendar}
use namespace_resizer.Lock.State.{
  State, Lease, state_from_lease, read, parse_stamp, annotation_pr_direction,
}
use namespace_resizer.Lock.State.RoundTrip.{IsWritable, seconds}
use namespace_resizer.Git.{direction_shrink}
use namespace_resizer.Sizing.Policy.{default_policy}
use namespace_resizer.Sizing.Window.{empty_window}
use namespace_resizer.Sizing.Decide.{Direction, Decision, decide, direction_string}
use namespace_resizer.Sizing.Decide.Gates.{within}
use namespace_resizer.Sizing.Decide.Target.{Input}
use namespace_resizer.Controller.Outside.{ok, done, PrStatus, Call, Outside}
use namespace_resizer.Controller.Active.{
  Round, handle_active_pr, can_attempt_merge, opted_out, release_closed, release_merged,
  requeue_now,
}
use namespace_resizer.Controller.Active.Guards.{Allowed, handle_active_pr-Allowed}
use namespace_resizer.Controller.Active.Releases.{Released, Merged, closed_pr_lem, merged_pr_lem}
use namespace_resizer.Controller.Active.Cooldown.{written, closed_shrink_waits}
use namespace_resizer.Controller.Proposal.{handle_new_proposal, is_noop, announce, record_new}
use namespace_resizer.Controller.Proposal.Guards.{
  Proposed, Recorded, handle_new_proposal-Proposed, proposed_shrink_lem,
}
use namespace_resizer.Controller.Dispatch.{act}
use namespace_resizer.Controller.Dispatch.Guards.{Dispatched, act-Dispatched}

-- Ready to merge.
abbrev pub ready : PrStatus
ready = record {
  is_open = true;
  is_merged = false;
  mergeable = true;
  mergeable_state = codes "blocked";
  checks_state = codes "success";
  checks_total_count = pos 2;
  created_at = day_ns;
}

abbrev rejected : PrStatus
rejected = record ready { is_open = false; mergeable = false }

-- A world is a clock; every call takes a step of it and is answered.
abbrev pub scripted : PrStatus → Outside ℕ Amount
scripted status = record {
  now = λ w. (10 * day_ns + w, suc w);
  get_pr_status = λ id w. (ok status, suc w);
  find_open_pr = λ ns quota w. (ok (pos 0, []), suc w);
  merge_pr = λ id method w. (ok done, suc w);
  create_pr = λ quota ns label annotations targets w. (ok (pos 12), suc w);
  update_pr = λ id quota ns annotations targets w. (ok done, suc w);
  close_pr = λ id reason w. (ok done, suc w);
  mutate_state = λ ns quota f w. (ok done, suc w);
  event = λ type reason message w. (done, suc w);
}

abbrev cpu : Str
cpu = codes "requests.cpu"

abbrev decision_to : Direction → ℕ → Decision Amount
decision_to direction limit = record {
  direction = direction;
  targets = (cpu, amount limit) ∷ [];
  shrink_preview = [];
  raw_targets = [];
  reason = codes "usage";
  blocked_by = [];
}

abbrev state_of : ℤ → Str → State
state_of id direction = record {
  pr_id = id;
  pr_direction = direction;
  last_modified = 0;
  last_grow = 0;
  last_shrink = 0;
  window = [];
}

abbrev round : State → Decision Amount → Round Fraction Amount
round state decision = record {
  quota = record {
    namespace = codes "team";
    name = codes "quota";
    spec_hard = (cpu, amount 4000) ∷ [];
    status_hard = (cpu, amount 4000) ∷ [];
  };
  annotations = [];
  policy = default_policy Fraction Amount;
  state = state;
  decision = decision;
  enable_auto_merge = true;
}

-- An open grow, while more is needed; and a shrink to propose.
abbrev open_grow : Round Fraction Amount
open_grow = round (state_of (pos 5) (codes "grow")) (decision_to Direction.grow 5000)

abbrev open_shrink : Round Fraction Amount
open_shrink = round (state_of (pos 5) (codes "shrink")) (decision_to Direction.none_wanted 4000)

abbrev pub to_shrink : Round Fraction Amount
to_shrink = round (state_of (pos 0) []) (decision_to Direction.shrink 3000)

handle_active_pr-Allowed_example :
    All
      (Allowed (scripted ready) open_grow 1 (ok ready))
      (handle_active_pr (scripted ready) open_grow 0).calls
handle_active_pr-Allowed_example = handle_active_pr-Allowed (scripted ready) open_grow 0

handle_new_proposal-Proposed_example :
    All
      (Proposed (scripted ready) to_shrink 1 (ok (pos 0, [])))
      (handle_new_proposal (scripted ready) to_shrink 0).calls
handle_new_proposal-Proposed_example = handle_new_proposal-Proposed (scripted ready) to_shrink 0

act-Dispatched_example :
    All (Dispatched (scripted ready) false to_shrink) (act (scripted ready) false to_shrink 0).calls
act-Dispatched_example = act-Dispatched (scripted ready) false to_shrink 0

closed_pr_lem_example :
    let f = release_closed rejected (10 * day_ns + 1) in
    let run = handle_active_pr (scripted rejected) open_shrink 0 in
    (run.calls ≡ Call.mutate_state (codes "team") (codes "quota") f ∷ [])
    × (run.value ≡ requeue_now)
    × Released
        (scripted rejected)
        open_shrink
        rejected
        (10 * day_ns + 1)
        open_shrink.state
        (f 0 open_shrink.state)
closed_pr_lem_example =
    closed_pr_lem (scripted rejected) open_shrink 0 rejected 0 open_shrink.state refl refl

merged_pr_lem_example :
    let now = 10 * day_ns + 2 in
    let f = release_merged now in
    let run = handle_active_pr (scripted ready) open_grow 0 in
    (run.calls
      ≡ Call.merge_pr (pos 5) (codes "squash")
        ∷ Call.mutate_state (codes "team") (codes "quota") f
        ∷ [])
    × (run.value ≡ requeue_now)
    × Merged (scripted ready) open_grow now open_grow.state (f 7 open_grow.state)
unfolding can_attempt_merge ◌=s◌ opted_out lookup
merged_pr_lem_example =
    merged_pr_lem (scripted ready) open_grow 0 ready 7 open_grow.state refl refl refl refl refl refl
      refl

proposed_shrink_lem_example :
    let f = record_new (pos 12) Direction.shrink in
    let told = announce (scripted ready) to_shrink to_shrink.decision.targets 1 in
    ((handle_new_proposal (scripted ready) to_shrink 0).calls
      ≡ told.calls
        ++ Call.create_pr
            (codes "quota")
            (codes "team")
            (direction_string Direction.shrink)
            []
            to_shrink.decision.targets
          ∷ Call.mutate_state (codes "team") (codes "quota") f
          ∷ [])
    × Recorded
        (scripted ready)
        to_shrink
        (pos 12)
        Direction.shrink
        7
        to_shrink.state
        (f 7 to_shrink.state)
unfolding is_noop lookup ◌=s◌
proposed_shrink_lem_example =
    proposed_shrink_lem (scripted ready) to_shrink 0 [] (pos 12) 7 to_shrink.state refl refl refl
      refl

abbrev lease : Lease
lease = record {
  name = codes "state-team-quota";
  labels = [];
  annotations = [];
  holder = none;
  acquire_time = none;
  resource_version = 3;
}

abbrev shrink_lease : Lease
shrink_lease = record lease { annotations = (annotation_pr_direction, codes "shrink") ∷ [] }

-- What the Lease holds when GitHub reports the shrink as closed.
abbrev left : State
left =
    state_from_lease unary
      (written unary 0 (handle_active_pr (scripted rejected) open_shrink 0).calls shrink_lease)

-- An hour and a bit after the close, with LastShrink as the Lease has it.
abbrev later : Input Fraction Amount
later = record {
  now = 10 * day_ns + 4_000_000_000_000;
  hard = (cpu, amount 4000) ∷ [];
  used = (cpu, amount 1000) ∷ [];
  deficits = [];
  window = empty_window;
  policy = default_policy Fraction Amount;
  last_grow = 0;
  last_shrink = left.last_shrink;
}

shrink_lease_direction :
    ((state_from_lease unary shrink_lease).pr_direction =s direction_shrink) ≡ true
unfolding state_from_lease read lookup ◌=s◌
shrink_lease_direction = refl

shrink_lease-IsWritable : IsWritable (state_from_lease unary shrink_lease)
unfolding state_from_lease read lookup ◌=s◌ parse_stamp
shrink_lease-IsWritable = record {
  id = ground arith;
  modified = omega arith;
  grow = omega arith;
  shrink = omega arith;
}

closed_shrink_waits_example :
    (left.pr_id ≡ pos 0)
    × (left.last_shrink ≡ seconds (10 * day_ns + 1))
    × ((decide unary later).direction ≢ Direction.shrink)
unfolding within sub_time default_policy ◌-ℤ◌ ◌=s◌
closed_shrink_waits_example =
    closed_shrink_waits unary unary-IsCalendar (scripted rejected) open_shrink 0 0 shrink_lease
      rejected (10 * day_ns + 1) later refl refl shrink_lease_direction shrink_lease-IsWritable
      (omega arith) (inl (refl, refl)) refl refl
