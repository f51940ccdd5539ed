-- ===== src/Git/Provider/Scripted.antt =====
-- An API of GitHub for the examples on internal/git/github.go.
use namespace_resizer.Prelude.{ℕ, suc, true, false, some, [], ◌∷◌}
use namespace_resizer.Prelude.Int.{pos}
use namespace_resizer.Text.{codes}
use namespace_resizer.Quantity.Exact.{amount_resource}
use namespace_resizer.Controller.Outside.{ok, failed, other, done}
use namespace_resizer.Git.Provider.{Pull, GitHub, Setup, listed}
use namespace_resizer.Controller.Outside.{Answer, Done}

abbrev an_open_pull : Pull
an_open_pull = record {
  head_ref = codes "resize/shrink/team/compute/1700000000";
  head_sha = some (codes "c0ffee");
  state = codes "open";
  merged = false;
  mergeable = true;
  mergeable_state = codes "clean";
  created_at = 0;
}

-- The world counts the calls; `label_answer` is the answer for labels.
abbrev pub counting : Answer Done → GitHub ℕ
counting label_answer = record {
  default_branch = λ w. (ok (codes "main"), suc w);
  get_ref = λ ref w. (ok (codes "c0ffee"), suc w);
  list_dir = λ path ref w. (
    listed
        (record { is_file = true; name = codes "quota.yaml"; path = codes "team/quota.yaml" } ∷ []),
    suc w,
  );
  get_file = λ path ref w. (
    ok (record { sha = codes "b1"; content = some (codes "kind: ResourceQuota\nname: compute") }),
    suc w,
  );
  get_pull = λ id w. (ok an_open_pull, suc w);
  combined_status = λ sha w. (failed (other (codes "down")), suc w);
  unix_time = λ w. (1700000000, suc w);
  cancelled = λ w. (false, suc w);
  create_ref = λ ref sha w. (ok done, suc w);
  update_file = λ path message text sha branch w. (ok done, suc w);
  create_pull = λ title branch base body w. (ok (pos 12), suc w);
  add_labels = λ id labels w. (label_answer, suc w);
  comment = λ id text w. (ok done, suc w);
  set_state = λ id state w. (ok done, suc w);
  set_body = λ id body w. (ok done, suc w);
  merge = λ id method w. (ok done, suc w);
}

abbrev pub setup : Setup
setup = record {
  run_template = λ ns. some (codes "team");
  decode = λ text. some [];
  encode = λ docs. some (codes "kind: ResourceQuota");
}
