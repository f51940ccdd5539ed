-- ===== src/Controller/Reconcile/Examples.antt =====
-- The theorems on Reconcile in concrete surroundings.
use namespace_resizer.Prelude.{ℕ, suc, ◌*◌, ◌+◌, ◌≡◌, refl, true, false, none, some, [], ◌∷◌, All}
use namespace_resizer.Prelude.Int.{pos}
use namespace_resizer.Text.{Str, codes, ◌=s◌}
use namespace_resizer.GoMap.{Map, lookup}
use namespace_resizer.Float.Rational.{Fraction, fraction_float}
use namespace_resizer.Quantity.Exact.{Amount, amount, amount_resource}
use namespace_resizer.Clock.{day_ns}
use namespace_resizer.Clock.Unary.{unary}
use namespace_resizer.Lock.State.{zero_state}
use namespace_resizer.Sizing.Policy.{default_policy}
use namespace_resizer.Sizing.Policy.Parse.Words.{equal_fold}
use namespace_resizer.Controller.Outside.{ok, failed, other, done, Outside}
use namespace_resizer.Controller.Reconcile.{Surroundings, Settings, QuotaObject, found, reconcile}
use namespace_resizer.Controller.Reconcile.OptOut.{IsNoShrink, reconcile-IsNoShrink}

-- Every call takes a step of the clock; the event scan fails.
abbrev out : Outside ℕ Amount
out = record {
  now = λ w. (10 * day_ns + w, suc w);
  get_pr_status = λ id w. (failed (other (codes "down")), suc w);
  find_open_pr = λ ns quota w. (ok (pos 0, []), suc w);
  merge_pr = λ id method w. (ok done, suc w);
  create_pr = λ quota ns label annotations targets w. (ok (pos 12), suc w);
  update_pr = λ id quota ns annotations targets w. (ok done, suc w);
  close_pr = λ id reason w. (ok done, suc w);
  mutate_state = λ ns quota f w. (ok done, suc w);
  event = λ type reason message w. (done, suc w);
}

abbrev quota : QuotaObject Amount
quota = record {
  quota = record {
    namespace = codes "team";
    name = codes "compute";
    spec_hard = (codes "requests.cpu", amount 4000) ∷ [];
    status_hard = (codes "requests.cpu", amount 4000) ∷ [];
  };
  uid = codes "u1";
  status_used = (codes "requests.cpu", amount 1000) ∷ [];
}

abbrev surroundings : Map Str → Surroundings ℕ Amount
surroundings annotations = record {
  out = out;
  get_quota = λ ns name w. (found quota, suc w);
  get_annotations = λ ns w. (ok annotations, suc w);
  get_state = λ ns name w. (ok zero_state, suc w);
  objects = record {
    group_version_parses = λ v. true;
    get_object = λ ref ns w. (true, suc w);
    get_stateful_set = λ ns name w. (none, suc w);
    get_daemon_set = λ ns name w. (none, suc w);
    get_replica_set = λ ns name w. (none, suc w);
  };
  list_events = λ ns w. (failed (other (codes "down")), suc w);
  marshal = λ window. some (codes "{}");
  unmarshal = λ s. none;
  quoted = λ s. s;
}

abbrev settings : Settings Fraction Amount
settings = record { base_policy = default_policy Fraction Amount; enable_auto_merge = true }

abbrev disabled : Map Str
disabled = (codes "resizer.io/enabled", codes "false") ∷ []

abbrev never_shrink : Map Str
never_shrink = (codes "resizer.io/shrink-enabled", codes "no") ∷ []

opted_lem : lookup (codes "resizer.io/shrink-enabled") never_shrink ≡ some (codes "no")
unfolding lookup ◌=s◌
opted_lem = refl

not_true : equal_fold (codes "no") (codes "true") ≡ false
unfolding equal_fold ◌=s◌
not_true = refl

reconcile-IsNoShrink_example :
    All IsNoShrink
      (reconcile unary
        (surroundings never_shrink)
        settings
        (codes "team")
        (codes "compute")
        []
        0).calls
reconcile-IsNoShrink_example =
    reconcile-IsNoShrink unary (surroundings never_shrink) settings (codes "team") (codes "compute")
      [] never_shrink (codes "no") opted_lem not_true 0 refl
