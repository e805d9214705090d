-- ===== src/Outbox/Tests.antt =====
-- The outbox at concrete inputs.
use boiler_reviews.Prelude.{ℕ, ◌≡◌, refl, String, false, none, some, inl, [], ◌∷◌, arith, All}
use boiler_reviews.Prelude.Json.{null}
use boiler_reviews.Prelude.Table.{find, put}
use boiler_reviews.Prelude.Sort.{sorted_by}
use boiler_reviews.Exec.{ok, integrity_error}
use boiler_reviews.Outbox.Model.{OutboxEvent}
use boiler_reviews.Outbox.Events.{
  Handler, Delivery, Surroundings, claim, begin, commit, claimable_rows, claimable_ids, mark,
  claim_events, begin_event, complete, remove_one, step, handle_event, run, process_ids,
  process_events,
}
use boiler_reviews.Outbox.Handled.{IsHandled, process_events-IsHandled}
use boiler_reviews.Outbox.Delivered.{IsDone, process_events-delivers}
use boiler_reviews.Outbox.Projection.{
  Projections, Handlers, claim_projection, apply_projection, projection_result, claimed_for,
  applied_event, applied_audit,
}
use boiler_reviews.Outbox.Applied.{KeepsEvents, apply_projection-once}

abbrev event : ℕ → ℕ → OutboxEvent
event id created_at = record {
  id = id;
  event_key = "review:1";
  event_type = "review.approved";
  payload_json = null;
  claimed_by = none;
  claimed_until = none;
  processed_at = none;
  attempts = 0;
  created_at = created_at;
  updated_at = created_at;
}

abbrev accept : Handler
accept event_type payload = ok tt

abbrev waiting : Delivery
waiting = record { events = event 1 20 ∷ event 2 10 ∷ []; handled = []; in_flight = [] }

-- Another worker tries to claim the events before each session, and to take one up while a handler runs.
abbrev rival : Surroundings
rival = record {
  before = λ id. claim 90 8 5 60 ∷ begin 8 id ∷ commit 95 id ∷ [];
  during = λ id. claim 100 8 5 60 ∷ [];
  failure = λ id. none;
}

process_events_runs : (process_events accept 50 100 7 rival 5 waiting).1.handled ≡ 1 ∷ 2 ∷ []
unfolding process_events process_ids handle_event begin_event complete remove_one run step
    claim_events claimable_rows mark sorted_by find put
process_events_runs = refl

-- The commit of each session fails, and the events are handled again after the claim has run out.
abbrev failing : Surroundings
failing = record {
  before = λ id. [];
  during = λ id. [];
  failure = λ id. some (integrity_error "commit");
}

abbrev single : Delivery
single = record { events = event 1 20 ∷ []; handled = []; in_flight = [] }

handled_twice :
    (run accept
      (claim 200 8 5 60 ∷ begin 8 1 ∷ commit 201 1 ∷ [])
      (process_events accept 50 100 7 failing 5 single).1).handled
    ≡ 1 ∷ 1 ∷ []
unfolding process_events process_ids handle_event begin_event complete remove_one run step
    claim_events claimable_rows mark sorted_by find put
handled_twice = refl

process_events-IsHandled_example : IsHandled (process_events accept 50 100 7 failing 5 waiting).1
process_events-IsHandled_example =
    process_events-IsHandled accept 50 100 7 5 failing waiting
      (λ k. inl (unfold find in ground arith), tt)

process_events-delivers_example :
    (n : ℕ) × (d : Delivery) × (process_events accept 50 100 7 rival 5 waiting ≡ (ok n, d))
    × All (IsDone d) (claimable_ids 50 5 waiting.events)
process_events-delivers_example =
    process_events-delivers accept 50 100 7 5 rival waiting (λ t j. refl) (λ id. refl)
      (unfold find in (refl, (refl, tt))) (λ id. (omega arith, (tt, (tt, tt))))
      (λ id. (omega arith, tt))

abbrev no_handlers : Handlers
no_handlers event_type = none

abbrev tables : Projections
tables = record { events = event 1 20 ∷ []; audits = [] }

abbrev taken : Projections
taken = record { events = claimed_for 7 (event 1 20) ∷ []; audits = [] }

abbrev projected : Projections
projected = record {
  events = applied_event (claimed_for 7 (event 1 20)) ∷ [];
  audits = applied_audit false (event 1 20) ∷ [];
}

no_handlers-KeepsEvents : (event_type : String) → KeepsEvents (no_handlers event_type)
no_handlers-KeepsEvents event_type payload p p' r h = ground arith

apply_projection-once_example :
    (projection_result false false (event 1 20) ≡ projection_result false false (event 1 20))
    × ((other : ℕ) → claim_projection 1 other projected ≡ (ok none, projected))
unfolding claim_projection apply_projection find put
apply_projection-once_example =
    apply_projection-once 1 7 no_handlers tables taken projected (claimed_for 7 (event 1 20))
      (projection_result false false (event 1 20)) no_handlers-KeepsEvents refl refl
