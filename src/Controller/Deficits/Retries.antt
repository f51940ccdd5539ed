-- ===== src/Controller/Deficits/Retries.antt =====
-- Retries of a workload do not add up in collectDeficits of
-- internal/controller/resourcequota_controller.go.
use namespace_resizer.Prelude.{
  ◌≡◌, refl, sym, ap, ◌∙◌, Bool, true, Option, none, some, List, [], ◌∷◌, ◌++◌, Bool-cases, inl,
  inr, if◌then◌else◌,
}
use namespace_resizer.Prelude.Int.{ℤ}
use namespace_resizer.Text.{Str}
use namespace_resizer.GoMap.{Map}
use namespace_resizer.Quantity.{Resource}
use namespace_resizer.Clock.{Time}
use namespace_resizer.Sizing.Deficit.{parse_event_message, workload_key}
use namespace_resizer.Controller.Outside.{ok, Quota}
use namespace_resizer.Controller.Events.{Event, ObjectReference}
use namespace_resizer.Controller.Events.Workloads.{
  Objects, workload_deficits, calculate_workload_deficit, is_object_alive,
}
use namespace_resizer.Controller.Deficits.{
  PerWorkload, record_all, is_relevant, note_parsed, note_event, note_events, Reads, deficits_of,
  sum_deficits,
}
use namespace_resizer.Controller.Deficits.Maxima.{
  AllHeld, record_all-AllHeld, record_all_holds, record_all_again,
}

-- The answers of the API server do not change while the events are read.
module _ {W Q : Type 0} ⦃rs : Resource Q⦄ (objects : Objects W Q)
    (alive : ObjectReference → Str → Bool) (asked : ObjectReference → Map ℤ → Map ℤ)
    (alive_steady : (ref : ObjectReference) (ns : Str) (w : W)
      → (is_object_alive objects ref ns w).0 ≡ alive ref ns)
    (asked_steady : (ref : ObjectReference) (d : Map ℤ) (w : W)
      → (workload_deficits objects ref d w).0 ≡ asked ref d) where
  -- The loop's body without the world.
  noted : Str → Event → Option (Str × Q) → PerWorkload → PerWorkload
  noted ns e none per = per
  noted ns e (some (res, qty)) per =
      if alive e.involved_object ns
      then (record_all (workload_key e.involved_object.name)
          (asked e.involved_object ((res, rs.milli_value qty) ∷ [])) per)
      else per

  noted_lem :
      (ns : Str) (e : Event) (p : Option (Str × Q)) (per : PerWorkload) (w : W)
      → (note_parsed objects ns e p per w).0 ≡ noted ns e p per
  unfolding note_parsed calculate_workload_deficit noted
  noted_lem ns e none per w = refl
  noted_lem ns e (some (res, qty)) per w =
      let ref = e.involved_object in
      let steady = alive_steady ref ns w in
      let after = (is_object_alive objects ref ns w).1 in
      elim (Bool-cases (alive ref ns)) [
        | inl there ↦
            rw (steady, there)
              (ap (λ d. record_all (workload_key ref.name) d per)
                (asked_steady ref ((res, rs.milli_value qty) ∷ []) after))
        | inr gone ↦ rw (steady, gone) refl
      ]

  noted-AllHeld :
      (ns : Str) (e : Event) (p : Option (Str × Q)) (k : Str) (held : Map ℤ) (per : PerWorkload)
      → AllHeld k held per
      → AllHeld k held (noted ns e p per)
  unfolding noted
  noted-AllHeld ns e none k held per h = h
  noted-AllHeld ns e (some (res, qty)) k held per h =
      let ref = e.involved_object in
      let d = asked ref ((res, rs.milli_value qty) ∷ []) in
      elim (Bool-cases (alive ref ns)) [
        | inl there ↦ rw there (record_all-AllHeld k held (workload_key ref.name) d per h)
        | inr gone ↦ rw gone h
      ]

  -- What the loop does later keeps the maxima that this event has raised.
  noted_again :
      (ns : Str) (e : Event) (p : Option (Str × Q)) (per : PerWorkload)
      (keep : PerWorkload → PerWorkload)
      → ((k : Str) (held : Map ℤ) (m : PerWorkload) → AllHeld k held m → AllHeld k held (keep m))
      → noted ns e p (keep (noted ns e p per)) ≡ keep (noted ns e p per)
  unfolding noted
  noted_again ns e none per keep keeps = refl
  noted_again ns e (some (res, qty)) per keep keeps =
      let ref = e.involved_object in
      let key = workload_key ref.name in
      let d = asked ref ((res, rs.milli_value qty) ∷ []) in
      elim (Bool-cases (alive ref ns)) [
        | inl there ↦ rw there (
            record_all_again key d (keep (record_all key d per))
              (keeps key d (record_all key d per) (record_all_holds key d per)))
        | inr gone ↦ rw gone refl
      ]

  module _ (now since : Time) (quota : Quota Q) where
    body : Event → PerWorkload → PerWorkload
    body e per =
        if is_relevant now since quota.name e
        then noted quota.namespace e (parse_event_message e.message) per
        else per

    body_lem :
        (e : Event) (per : PerWorkload) (w : W)
        → (note_event objects (is_relevant now since quota.name e) quota.namespace e per w).0
          ≡ body e per
    unfolding note_event body
    body_lem e per w = elim (Bool-cases (is_relevant now since quota.name e)) [
      | inl yes_it_is ↦
          rw yes_it_is (noted_lem quota.namespace e (parse_event_message e.message) per w)
      | inr skipped ↦ rw skipped refl
    ]

    all_bodies : List Event → PerWorkload → PerWorkload
    all_bodies [] per = per
    all_bodies (e ∷ rest) per = all_bodies rest (body e per)

    note_events_lem :
        (es : List Event) (per : PerWorkload) (w : W)
        → (note_events objects now since quota es per w).0 ≡ all_bodies es per
    unfolding note_events all_bodies
    note_events_lem [] per w = refl
    note_events_lem (e ∷ rest) per w =
        let relevant = is_relevant now since quota.name e in
        let next = note_event objects relevant quota.namespace e per w in
        note_events_lem rest next.0 next.1 ∙ ap (all_bodies rest) (body_lem e per w)

    all_bodies-append :
        (es later : List Event) (per : PerWorkload)
        → all_bodies (es ++ later) per ≡ all_bodies later (all_bodies es per)
    unfolding all_bodies
    all_bodies-append [] later per = refl
    all_bodies-append (e ∷ rest) later per = all_bodies-append rest later (body e per)

    body-AllHeld :
        (e : Event) (k : Str) (held : Map ℤ) (per : PerWorkload)
        → AllHeld k held per
        → AllHeld k held (body e per)
    unfolding body
    body-AllHeld e k held per h = elim (Bool-cases (is_relevant now since quota.name e)) [
      | inl counts ↦
          rw counts (noted-AllHeld quota.namespace e (parse_event_message e.message) k held per h)
      | inr skipped ↦ rw skipped h
    ]

    all_bodies-AllHeld :
        (es : List Event) (k : Str) (held : Map ℤ) (per : PerWorkload)
        → AllHeld k held per
        → AllHeld k held (all_bodies es per)
    unfolding all_bodies
    all_bodies-AllHeld [] k held per h = h
    all_bodies-AllHeld (e ∷ rest) k held per h =
        all_bodies-AllHeld rest k held (body e per) (body-AllHeld e k held per h)

    body_again :
        (e : Event) (t : Time) (mid : List Event) (per : PerWorkload)
        → is_relevant now since quota.name e ≡ true
        → body (record e { last_timestamp = t }) (all_bodies mid (body e per))
          ≡ all_bodies mid (body e per)
    unfolding body noted
    body_again e t mid per counts =
        let p = parse_event_message e.message in
        let again =
          noted_again quota.namespace e p per (all_bodies mid)
            (λ k held m. all_bodies-AllHeld mid k held m) in
        elim (Bool-cases (is_relevant now since quota.name (record e { last_timestamp = t }))) [
          | inl counts_too ↦ rw (counts, counts_too) again
          | inr skipped ↦ rw (counts, skipped) refl
        ]

    events_again :
        (pre mid : List Event) (e : Event) (t : Time)
        → is_relevant now since quota.name e ≡ true
        → all_bodies (pre ++ e ∷ mid ++ record e { last_timestamp = t } ∷ []) []
          ≡ all_bodies (pre ++ e ∷ mid) []
    unfolding all_bodies
    events_again pre mid e t counts =
        let retry = record e { last_timestamp = t } in
        let first = all_bodies-append pre (e ∷ mid) [] in
        all_bodies-append (pre ++ e ∷ mid) (retry ∷ []) []
        ∙ ap (body retry) first
        ∙ body_again e t mid (all_bodies pre []) counts
        ∙ sym first

module _ {W Q : Type 0} ⦃rs : Resource Q⦄ (reads : Reads W Q) (alive : ObjectReference → Str → Bool)
    (asked : ObjectReference → Map ℤ → Map ℤ)
    (alive_steady : (ref : ObjectReference) (ns : Str) (w : W)
      → (is_object_alive reads.objects ref ns w).0 ≡ alive ref ns)
    (asked_steady : (ref : ObjectReference) (d : Map ℤ) (w : W)
      → (workload_deficits reads.objects ref d w).0 ≡ asked ref d) where
  -- While the answers of the API server to the reads of a scan stay the same, an event that counts
  -- is counted once: the same event again, of any time, changes no deficit of collectDeficits,
  -- whatever events stand before the first and between the two.
  pub retries_lem :
      (quota : Quota Q) (since : Time) (pre mid : List Event) (e : Event) (t : Time) (w : W)
      → is_relevant (reads.now w).0 since quota.name e ≡ true
      → (deficits_of reads quota since
          (ok (pre ++ e ∷ mid ++ record e { last_timestamp = t } ∷ []))
          w).0
        ≡ (deficits_of reads quota since (ok (pre ++ e ∷ mid)) w).0
  unfolding deficits_of
  retries_lem quota since pre mid e t w counts =
      let start = reads.now w in
      let run =
        note_events_lem reads.objects alive asked alive_steady asked_steady start.0 since quota in
      let same =
        events_again reads.objects alive asked alive_steady asked_steady start.0 since quota pre mid
          e t counts in
      ap (λ per. ok (sum_deficits quota per []))
        (run (pre ++ e ∷ mid ++ record e { last_timestamp = t } ∷ []) [] start.1
          ∙ same
          ∙ sym (run (pre ++ e ∷ mid) [] start.1))
