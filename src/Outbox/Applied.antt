-- ===== src/Outbox/Applied.antt =====
-- A projection is applied once.
use mathlib.Core.Path.{subst}
use boiler_reviews.Prelude.{
  ℕ, ◌≡◌, refl, inl, inr, String, true, false, Option, none, some, arith, ◌==◌, nat_eq, option_eq,
  not, ◌||◌, Option-cases, Bool-cases,
}
use boiler_reviews.Prelude.Json.{Json}
use boiler_reviews.Prelude.Table.{is_some, find-put, find-key}
use boiler_reviews.Exec.{Exec, Result, ok, >>=-eq-ok}
use boiler_reviews.Outbox.Model.{OutboxEvent, event_id, get, save, is_processed}
use boiler_reviews.Outbox.Projection.{
  ProjectionResult, Projections, Handlers, claimed_for, is_free_for, claim_projection, call,
  applied_event, finish_apply, apply_projection, projection_result,
}

-- A handler that leaves the table of events alone.
abbrev pub KeepsEvents : Option (Json → Exec Projections (Unit {0})) → Type 0
KeepsEvents handler =
    (payload : Json) (p p' : Projections) (r : Result (Unit {0}))
    → call handler payload p ≡ (r, p')
    → p'.events ≡ p.events

-- What a successful claim returns is the row, which is now claimed by the owner.
claim_projection-found :
    (id owner : ℕ) (p p₁ : Projections) (e : OutboxEvent)
    → claim_projection id owner p ≡ (ok (some e), p₁)
    → (get id p₁.events ≡ some e) × (e.id ≡ id) × (e.claimed_by ≡ some owner)
unfolding claim_projection
claim_projection-found id owner p p₁ e h = elim (Option-cases (get id p.events)) [
  | inl missing ↦ absurd (ground (arith))
  | inr (x, found) ↦ elim (Bool-cases (is_processed x || not (is_free_for owner x.claimed_by))) [
    | inl busy ↦ absurd (ground (arith))
    | inr free ↦
        let key = find-key event_id id x p.events found in
        ground
          (arith, key, nat_eq.beq_iff x.id id, find-put event_id id (claimed_for owner x) p.events)
  ]
]

-- A processed event cannot be claimed.
claim_projection-processed :
    (id owner : ℕ) (p : Projections) (e : OutboxEvent)
    → get id p.events ≡ some e
    → is_processed e ≡ true
    → claim_projection id owner p ≡ (ok none, p)
unfolding claim_projection
claim_projection-processed id owner p e found done = rw (found, done) refl

applied-found :
    (id : ℕ) (e : OutboxEvent) (p p' : Projections)
    → get id p.events ≡ some e
    → e.id ≡ id
    → p'.events ≡ p.events
    → get id (save (applied_event e) p'.events) ≡ some (applied_event e)
applied-found id e p p' found key same =
    ground
      (arith, same, found, nat_eq.beq_iff e.id id, find-put event_id id (applied_event e) p'.events)

-- If `claim_projection` returned an event and `apply_projection` then returned, with a handler that
-- leaves the table of events alone, the projection is no duplicate, and no worker can claim the event
-- again: `claim_projection` returns nothing and changes nothing, for every owner.
pub apply_projection-once :
    (id owner : ℕ) (handlers : Handlers) (p p₁ p₂ : Projections) (e : OutboxEvent)
    (r : ProjectionResult)
    → ((event_type : String) → KeepsEvents (handlers event_type))
    → claim_projection id owner p ≡ (ok (some e), p₁)
    → apply_projection e owner handlers p₁ ≡ (ok r, p₂)
    → (r ≡ projection_result (is_some (handlers e.event_type)) false e)
      × ((other : ℕ) → claim_projection id other p₂ ≡ (ok none, p₂))
unfolding apply_projection
apply_projection-once id owner handlers p p₁ p₂ e r keeps claimed applied =
    let (found, key, mine) = claim_projection-found id owner p p₁ e claimed in
    let same : (e.claimed_by == some owner) ≡ true = ground (arith, mine) in
    let handler = handlers e.event_type in
    let (u, p', called, rest) =
      >>=-eq-ok (call handler e.payload_json) (λ _. finish_apply handler e) p₁
        (rw same at applied) in
    let kept = keeps e.event_type e.payload_json p₁ p' (ok u) called in
    let row = applied-found id e p₁ p' found key kept in
    let written : save (applied_event e) p'.events ≡ p₂.events = ground (arith, rest) in
    (
      ground (arith, rest),
      λ other.
          claim_projection-processed id other p₂ (applied_event e)
            (subst (λ s. get id s ≡ some (applied_event e)) written row) refl,
    )
