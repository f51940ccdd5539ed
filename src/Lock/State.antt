-- ===== src/Lock/State.antt =====
-- State and its place on a Lease: internal/lock/state.go, with the annotation names of
-- internal/lock/lease.go.
pub mod RoundTrip
use namespace_resizer.Prelude.{
  ℕ, ◌+◌, Bool, true, false, Option, none, some, List, [], ◌∷◌, ◌++◌, if◌then◌else◌,
}
use namespace_resizer.Prelude.Int.{ℤ, pos, eqb_ℤ}
use namespace_resizer.Text.{Str, codes, has_prefix, trim_prefix}
use namespace_resizer.Text.Decimal.{decimal_ℤ, scan_int}
use namespace_resizer.GoMap.{Map, lookup, insert, remove}
use namespace_resizer.Clock.{Time, Calendar, is_zero}

-- PRID 0 is a free lock.
pub record State : Type 0 where
  pub pr_id : ℤ
  pub pr_direction : Str
  pub last_modified : Time
  pub last_grow : Time
  pub last_shrink : Time
  pub window : Str

-- State{}
abbrev pub zero_state : State
zero_state = record {
  pr_id = pos 0;
  pr_direction = [];
  last_modified = 0;
  last_grow = 0;
  last_shrink = 0;
  window = [];
}

-- What the code touches of a coordination.k8s.io Lease. A nil map of annotations is the empty one.
pub record Lease : Type 0 where
  pub name : Str
  pub labels : Map Str
  pub annotations : Map Str
  pub holder : Option Str
  pub acquire_time : Option Time
  pub resource_version : ℕ

abbrev pub annotation_last_modified : Str
annotation_last_modified = codes "resizer.io/last-modified"

abbrev pub annotation_last_grow : Str
annotation_last_grow = codes "resizer.io/last-grow"

abbrev pub annotation_last_shrink : Str
annotation_last_shrink = codes "resizer.io/last-shrink"

abbrev pub annotation_pr_direction : Str
annotation_pr_direction = codes "resizer.io/pr-direction"

abbrev pub annotation_window : Str
annotation_window = codes "resizer.io/observation-window"

-- m[k], which is "" for a missing key
unfoldable pub read : Str → Map Str → Str
read k m = elim (lookup k m) [ none ↦ [] | some s ↦ s ]

-- fmt.Sprintf("pr-%d", id)
unfoldable pub identity : ℤ → Str
identity id = codes "pr-" ++ decimal_ℤ id

-- fmt.Sscanf(identity, "pr-%d", &id), where `none` is its error
unfoldable pub scan_identity : Str → Option ℤ
scan_identity s =
    if has_prefix s (codes "pr-") then scan_int (trim_prefix s (codes "pr-")) else none

holder_id : Option Str → ℤ
holder_id none = pos 0
holder_id (some s) = elim (scan_identity s) [ none ↦ pos 0 | some id ↦ id ]

module _ (cal : Calendar) where
  unfoldable pub parse_stamp : Str → Time
  parse_stamp [] = 0
  parse_stamp (c ∷ raw) = elim (cal.parse_stamp (c ∷ raw)) [ none ↦ 0 | some t ↦ t ]

  unfoldable pub set_stamp : Str → Time → Map Str → Map Str
  set_stamp key value annotations =
      if is_zero value then remove key annotations else insert key (cal.stamp value) annotations

  unfoldable pub state_from_lease : Lease → State
  unfolding holder_id
  state_from_lease lease = record {
    pr_id = holder_id lease.holder;
    pr_direction = read annotation_pr_direction lease.annotations;
    last_modified = parse_stamp (read annotation_last_modified lease.annotations);
    last_grow = parse_stamp (read annotation_last_grow lease.annotations);
    last_shrink = parse_stamp (read annotation_last_shrink lease.annotations);
    window = read annotation_window lease.annotations;
  }

unfoldable pub set_string : Str → Str → Map Str → Map Str
set_string key [] annotations = remove key annotations
set_string key (c ∷ value) annotations = insert key (c ∷ value) annotations

module _ (cal : Calendar) where
  unfoldable pub annotate : State → Map Str → Map Str
  annotate s annotations = set_string annotation_window s.window (
      set_string annotation_pr_direction s.pr_direction (
        set_stamp cal annotation_last_shrink s.last_shrink (
          set_stamp cal annotation_last_grow s.last_grow
            (set_stamp cal annotation_last_modified s.last_modified annotations))))

  unfoldable pub apply_state_to_lease : State → Lease → Lease
  apply_state_to_lease s lease = record lease {
    annotations = annotate s lease.annotations;
    holder = if eqb_ℤ s.pr_id (pos 0) then none else some (identity s.pr_id);
  }
