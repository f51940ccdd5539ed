-- ===== src/Controller/Outside.antt =====
-- What the reconciler calls: the Provider interface and PRStatus of internal/git/github.go, the
-- locker of internal/lock, the recorder of events and the clock.
use namespace_resizer.Prelude.{Bool}
use namespace_resizer.Prelude.Int.{ℤ}
use namespace_resizer.Text.{Str, codes}
use namespace_resizer.GoMap.{Map}
use namespace_resizer.Clock.{Time, Duration}
use namespace_resizer.Lock.State.{State}

-- ErrFileNotFound is the one error that the reconciler tells from the others.
pub data Error : Type 0 where
  file_not_found other : Str → Error

pub data Answer (A : Type 0) : Type 0 where
  ok : A → Answer A
  failed : Error → Answer A

-- The result of a call that returns no more than an error.
pub data Done : Type 0 where
  done : Done

pub record PrStatus : Type 0 where
  pub is_open : Bool
  pub is_merged : Bool
  pub mergeable : Bool
  pub mergeable_state : Str
  pub checks_state : Str
  pub checks_total_count : ℤ
  pub created_at : Time

abbrev pub mergeable_state_clean : Str
mergeable_state_clean = codes "clean"

abbrev pub mergeable_state_blocked : Str
mergeable_state_blocked = codes "blocked"

abbrev pub checks_state_success : Str
checks_state_success = codes "success"

-- What the code reads of a ResourceQuota.
pub record Quota (Q : Type 0) : Type 0 where
  pub namespace : Str
  pub name : Str
  pub spec_hard : Map Q
  pub status_hard : Map Q

-- The function that MutateState runs on the state it has read; it may read the clock when it runs.
abbrev pub Mutation : Type 0
Mutation = Time → State → State

-- corev1.EventTypeNormal and corev1.EventTypeWarning
pub data EventType : Type 0 where
  normal warning : EventType

-- The calls that write, with their arguments.
pub data Call (Q : Type 0) : Type 0 where
  merge_pr : ℤ → Str → Call Q
  create_pr : Str → Str → Str → Map Str → Map Q → Call Q
  update_pr : ℤ → Str → Str → Map Str → Map Q → Call Q
  close_pr : ℤ → Str → Call Q
  mutate_state : Str → Str → Mutation → Call Q
  event : EventType → Str → Str → Call Q

-- How the outside answers: any functions on any type of worlds.
pub record Outside (W Q : Type 0) : Type 0 where
  pub now : W → Time × W
  pub get_pr_status : ℤ → W → Answer PrStatus × W
  pub find_open_pr : Str → Str → W → Answer (ℤ × Str) × W
  pub merge_pr : ℤ → Str → W → Answer Done × W
  pub create_pr : Str → Str → Str → Map Str → Map Q → W → Answer ℤ × W
  pub update_pr : ℤ → Str → Str → Map Str → Map Q → W → Answer Done × W
  pub close_pr : ℤ → Str → W → Answer Done × W
  pub mutate_state : Str → Str → Mutation → W → Answer Done × W
  pub event : EventType → Str → Str → W → Done × W

-- ctrl.Result
pub record Result : Type 0 where
  pub requeue : Bool
  pub requeue_after : Duration
