-- ===== src/Git/Provider/Calls.antt =====
-- The calls of CreatePR of internal/git/github.go, and how it ends once the labels are on their way.
use namespace_resizer.Prelude.{
  sym, subst, refl, ℕ, zero, suc, ◌≡◌, refl, Bool, true, false, Option, none, some, List, [], ◌∷◌,
  ◌++◌, All, All-append, All-map, Bool-cases, ◌⊎◌, inl, inr,
}
use namespace_resizer.Prelude.Int.{ℤ}
use namespace_resizer.Text.{Str, codes}
use namespace_resizer.Controller.Effects.{Action, perform, observe, ◌>>=◌}
use namespace_resizer.Controller.Outside.{Error, Answer, ok, failed, Done, done}
use namespace_resizer.Git.Provider.{
  FileContent, Entry, Listing, listed, missing, unlisted, Write, GitHub, or_wrap, after_attempt,
  add_labels_from,
}
use namespace_resizer.Git.Provider.Create.{unlabelled_shrink_comment}
use namespace_resizer.Git.Provider.File.{
  after_file, visit, find_in, find_listed, find_quota_file, accept_file, is_yaml,
}

abbrev pub IsOther : Write → Type 0
IsOther (Write.add_labels _ _) = ⊥
IsOther _ = Unit

-- The calls that write before the pull request is there.
abbrev pub IsEarly : Write → Type 0
IsEarly (Write.create_ref _ _) = Unit
IsEarly (Write.update_file _ _ _ _ _) = Unit
IsEarly _ = ⊥

IsEarly-IsOther : (c : Write) → IsEarly c → IsOther c
IsEarly-IsOther (Write.create_ref _ _) h = tt
IsEarly-IsOther (Write.update_file _ _ _ _ _) h = tt
IsEarly-IsOther (Write.create_pull _ _ _ _) h = absurd h
IsEarly-IsOther (Write.add_labels _ _) h = absurd h
IsEarly-IsOther (Write.comment _ _) h = absurd h
IsEarly-IsOther (Write.set_state _ _) h = absurd h
IsEarly-IsOther (Write.set_body _ _) h = absurd h
IsEarly-IsOther (Write.merge _ _) h = absurd h

module _ {W : Type 0} (github : GitHub W) (labels : List Str) where
  -- In some world the labels were added to the pull request without an error.
  abbrev pub IsLabelled : ℤ → Type 0
  IsLabelled id = (w : W) × ((github.add_labels id labels w).0 ≡ ok done)

  abbrev pub Tried : ℤ → Answer Done → Type 0
  Tried id (ok d) = IsLabelled id
  Tried id (failed e) = Unit

  pub after_attempt-Tried :
      (id : ℤ) (left : ℕ) (retry : Action W Write (Answer Done)) (answer : Answer Done) (w v : W)
      → (github.add_labels id labels w).0 ≡ answer
      → ((u : W) → Tried id (retry u).value)
      → Tried id (after_attempt github id labels left retry answer v).value
  unfolding after_attempt
  after_attempt-Tried id left retry (ok done) w v e h = (w, e)
  after_attempt-Tried id zero retry (failed x) w v e h = tt
  after_attempt-Tried id (suc left) retry (failed x) w v e h =
      elim (Bool-cases (github.cancelled v).0) [
        | inl stop ↦ rw stop tt
        | inr go_on ↦ rw go_on (h (github.cancelled v).1)
      ]

  pub add_labels-Tried :
      (id : ℤ) (left : ℕ) (w : W) → Tried id (add_labels_from github id labels left w).value
  unfolding add_labels_from
  add_labels-Tried id zero w = tt
  add_labels-Tried id (suc left) w =
      let (answer, v) = github.add_labels id labels w in
      after_attempt-Tried id left (add_labels_from github id labels left) answer w v refl
        (add_labels-Tried id left)

  -- After the comment on a pull request: it is closed, or GitHub has refused the comment.
  abbrev pub IsShut : ℤ → List Write → Type 0
  IsShut id [] =
      (w : W) × (e : Error) × ((github.comment id unlabelled_shrink_comment w).0 ≡ failed e)
  IsShut id (Write.set_state j state ∷ []) = (j ≡ id) × (state ≡ codes "closed")
  IsShut id _ = ⊥

  -- The calls on a new pull request: attempts to label it, then the comment that says why it is
  -- closed, then its end.
  abbrev pub IsTakenBack : ℤ → List Write → Type 0
  IsTakenBack id (Write.add_labels j names ∷ rest) =
      (j ≡ id) × (names ≡ labels) × IsTakenBack id rest
  IsTakenBack id (Write.comment j text ∷ rest) =
      (j ≡ id) × (text ≡ unlabelled_shrink_comment) × IsShut id rest
  IsTakenBack id _ = ⊥

  -- The calls of a run: after some early ones a pull request is created, and taken back.
  abbrev pub IsWithdrawn : List Write → Type 0
  IsWithdrawn (Write.create_pull title branch base body ∷ rest) =
      (id : ℤ) × (w : W) × ((github.create_pull title branch base body w).0 ≡ ok id)
      × IsTakenBack id rest
  IsWithdrawn (Write.create_ref _ _ ∷ rest) = IsWithdrawn rest
  IsWithdrawn (Write.update_file _ _ _ _ _ ∷ rest) = IsWithdrawn rest
  IsWithdrawn _ = ⊥

  IsWithdrawn-append :
      (before calls : List Write)
      → All IsEarly before
      → IsWithdrawn calls
      → IsWithdrawn (before ++ calls)
  IsWithdrawn-append [] calls early h = h
  IsWithdrawn-append (Write.create_ref _ _ ∷ rest) calls early h =
      IsWithdrawn-append rest calls early.1 h
  IsWithdrawn-append (Write.update_file _ _ _ _ _ ∷ rest) calls early h =
      IsWithdrawn-append rest calls early.1 h
  IsWithdrawn-append (Write.create_pull _ _ _ _ ∷ rest) calls early h = absurd early.0
  IsWithdrawn-append (Write.add_labels _ _ ∷ rest) calls early h = absurd early.0
  IsWithdrawn-append (Write.comment _ _ ∷ rest) calls early h = absurd early.0
  IsWithdrawn-append (Write.set_state _ _ ∷ rest) calls early h = absurd early.0
  IsWithdrawn-append (Write.set_body _ _ ∷ rest) calls early h = absurd early.0
  IsWithdrawn-append (Write.merge _ _ ∷ rest) calls early h = absurd early.0

  -- How CreatePR may end for a shrink.
  abbrev pub Ended : Answer ℤ → List Write → Type 0
  Ended (ok id) calls = IsLabelled id
  Ended (failed e) calls = All IsOther calls ⊎ IsWithdrawn calls

  abbrev pub Ends : Action W Write (Answer ℤ) → Type 0
  Ends m = (w : W) → Ended (m w).value (m w).calls

  abbrev pub IsQuiet : {A : Type 0} → Action W Write A → Type 0
  IsQuiet m = (w : W) → All IsEarly (m w).calls

  pub Ended-append :
      (before : List Write) (answer : Answer ℤ) (calls : List Write)
      → All IsEarly before
      → Ended answer calls
      → Ended answer (before ++ calls)
  Ended-append before (ok id) calls b h = h
  Ended-append before (failed e) calls b (inl others) =
      inl
        (All-append IsOther before calls (All-map IsEarly IsOther before IsEarly-IsOther b) others)
  Ended-append before (failed e) calls b (inr back) = inr (IsWithdrawn-append before calls b back)

  pub Ends-bind :
      {A : Type 0} (m : Action W Write A) (k : A → Action W Write (Answer ℤ))
      → IsQuiet m
      → ((a : A) → Ends (k a))
      → Ends (m >>= k)
  Ends-bind m k quiet h w =
      let first = m w in
      let next = k first.value first.world in
      Ended-append first.calls next.value next.calls (quiet w) (h first.value first.world)

  pub Ends-or_wrap :
      {A : Type 0} (text : Str) (k : A → Action W Write (Answer ℤ)) (answer : Answer A)
      → ((a : A) → Ends (k a))
      → Ends (or_wrap text k answer)
  Ends-or_wrap text k (ok a) h w = h a w
  Ends-or_wrap text k (failed e) h w = inl tt

  pub Ends-perform :
      {A : Type 0} (c : Write) (f : W → Answer A × W) (text : Str)
      (k : A → Action W Write (Answer ℤ))
      → IsEarly c
      → ((a : A) → Ends (k a))
      → Ends (perform c f >>= or_wrap text k)
  Ends-perform c f text k early h =
      Ends-bind (perform c f) (or_wrap text k) (λ w. (early, tt))
        λ answer. Ends-or_wrap text k answer h

  pub Ends-observe :
      {A : Type 0} (f : W → Answer A × W) (text : Str) (k : A → Action W Write (Answer ℤ))
      → ((a : A) → Ends (k a))
      → Ends (observe f >>= or_wrap text k)
  Ends-observe f text k h =
      Ends-bind (observe f) (or_wrap text k) (λ w. tt) λ answer. Ends-or_wrap text k answer h

  -- How the calls on a new pull request may end.
  abbrev pub Closed : ℤ → Answer ℤ → List Write → Type 0
  Closed id (ok returned) calls = (returned ≡ id) × IsLabelled id
  Closed id (failed e) calls = IsTakenBack id calls

  abbrev IsAttempt : ℤ → Write → Type 0
  IsAttempt id (Write.add_labels j names) = (j ≡ id) × (names ≡ labels)
  IsAttempt id _ = ⊥

  after_attempt-calls :
      (id : ℤ) (left : ℕ) (retry : Action W Write (Answer Done)) (answer : Answer Done) (v : W)
      → ((u : W) → All (IsAttempt id) (retry u).calls)
      → All (IsAttempt id) (after_attempt github id labels left retry answer v).calls
  unfolding after_attempt
  after_attempt-calls id left retry (ok d) v h = tt
  after_attempt-calls id zero retry (failed x) v h = tt
  after_attempt-calls id (suc left) retry (failed x) v h =
      elim (Bool-cases (github.cancelled v).0) [
        | inl stop ↦ rw stop tt
        | inr go_on ↦ rw go_on (h (github.cancelled v).1)
      ]

  pub add_labels-calls :
      (id : ℤ) (left : ℕ) (w : W)
      → All (IsAttempt id) (add_labels_from github id labels left w).calls
  unfolding add_labels_from
  add_labels-calls id zero w = tt
  add_labels-calls id (suc left) w =
      let (answer, v) = github.add_labels id labels w in
      (
        (refl, refl),
        after_attempt-calls id left (add_labels_from github id labels left) answer v
            (add_labels-calls id left),
      )

  IsTakenBack-append :
      (id : ℤ) (attempts calls : List Write)
      → All (IsAttempt id) attempts
      → IsTakenBack id calls
      → IsTakenBack id (attempts ++ calls)
  IsTakenBack-append id [] calls h k = k
  IsTakenBack-append id (Write.add_labels j names ∷ rest) calls h k =
      (h.0.0, h.0.1, IsTakenBack-append id rest calls h.1 k)
  IsTakenBack-append id (Write.create_ref _ _ ∷ rest) calls h k = absurd h.0
  IsTakenBack-append id (Write.update_file _ _ _ _ _ ∷ rest) calls h k = absurd h.0
  IsTakenBack-append id (Write.create_pull _ _ _ _ ∷ rest) calls h k = absurd h.0
  IsTakenBack-append id (Write.comment _ _ ∷ rest) calls h k = absurd h.0
  IsTakenBack-append id (Write.set_state _ _ ∷ rest) calls h k = absurd h.0
  IsTakenBack-append id (Write.set_body _ _ ∷ rest) calls h k = absurd h.0
  IsTakenBack-append id (Write.merge _ _ ∷ rest) calls h k = absurd h.0

  pub Closed-append :
      (id : ℤ) (attempts : List Write) (answer : Answer ℤ) (calls : List Write)
      → All (IsAttempt id) attempts
      → Closed id answer calls
      → Closed id answer (attempts ++ calls)
  Closed-append id attempts (ok returned) calls h k = k
  Closed-append id attempts (failed e) calls h k = IsTakenBack-append id attempts calls h k

  pub Closed-Ended :
      (title branch base body : Str) (id : ℤ) (w : W) (answer : Answer ℤ) (calls : List Write)
      → (github.create_pull title branch base body w).0 ≡ ok id
      → Closed id answer calls
      → Ended answer (Write.create_pull title branch base body ∷ calls)
  Closed-Ended title branch base body id w (ok returned) calls e h = subst IsLabelled (sym h.0) h.1
  Closed-Ended title branch base body id w (failed x) calls e h = inr (id, w, e, h)

module _ {W : Type 0} (github : GitHub W) where
  pub after_file-IsQuiet :
      (labels : List Str) (path : Str) (later : Action W Write (Answer (Str × FileContent)))
      (file : Option FileContent)
      → IsQuiet github labels later
      → IsQuiet github labels (after_file path later file)
  unfolding after_file
  after_file-IsQuiet labels path later none quiet w = quiet w
  after_file-IsQuiet labels path later (some file) quiet w = tt

  pub visit-IsQuiet :
      (labels : List Str) (ref quota_name path : Str)
      (later : Action W Write (Answer (Str × FileContent))) (yaml : Bool)
      → IsQuiet github labels later
      → IsQuiet github labels (visit github ref quota_name path later yaml)
  unfolding visit
  visit-IsQuiet labels ref quota_name path later false quiet w = quiet w
  visit-IsQuiet labels ref quota_name path later true quiet w =
      let (answer, v) = github.get_file path ref w in
      after_file-IsQuiet labels path later (accept_file quota_name answer) quiet v

  pub find_in-IsQuiet :
      (labels : List Str) (base_path ref quota_name : Str) (entries : List Entry)
      → IsQuiet github labels (find_in github base_path ref quota_name entries)
  unfolding find_in
  find_in-IsQuiet labels base_path ref quota_name [] w = tt
  find_in-IsQuiet labels base_path ref quota_name (e ∷ rest) w =
      visit-IsQuiet labels ref quota_name e.path (find_in github base_path ref quota_name rest)
        (is_yaml e) (find_in-IsQuiet labels base_path ref quota_name rest) w

  pub find_listed-IsQuiet :
      (labels : List Str) (base_path ref quota_name : Str) (listing : Listing)
      → IsQuiet github labels (find_listed github base_path ref quota_name listing)
  unfolding find_listed
  find_listed-IsQuiet labels base_path ref quota_name (missing e) w = tt
  find_listed-IsQuiet labels base_path ref quota_name (unlisted e) w = tt
  find_listed-IsQuiet labels base_path ref quota_name (listed entries) w =
      find_in-IsQuiet labels base_path ref quota_name entries w

  pub find_quota_file-IsQuiet :
      (labels : List Str) (base_path ref quota_name : Str)
      → IsQuiet github labels (find_quota_file github base_path ref quota_name)
  unfolding find_quota_file
  find_quota_file-IsQuiet labels base_path ref quota_name w =
      let (listing, v) = github.list_dir base_path ref w in
      find_listed-IsQuiet labels base_path ref quota_name listing v
