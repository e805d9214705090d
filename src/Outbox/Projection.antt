-- ===== src/Outbox/Projection.antt =====
-- `claim_projection` and `apply_projection` of src/boiler_reviews/tasks/projections.py.
use boiler_reviews.Prelude.{
  ℕ, String, Bool, true, false, Option, none, some, List, [], ◌∷◌, ◌++◌, ◌==◌, nat_eq, option_eq,
  if◌then◌else◌, not, ◌||◌,
}
use boiler_reviews.Prelude.Table.{is_some}
use boiler_reviews.Prelude.Json.{Json, bool, str}
use boiler_reviews.Exec.{Exec, pure, gets, modify, ◌>>=◌, ◌>>◌}
use boiler_reviews.Reviews.Model.{AuditEvent}
use boiler_reviews.Outbox.Model.{OutboxEvent, get, save, is_processed}

pub record ProjectionResult : Type 0 where
  pub event_id : ℕ
  pub event_type : String
  pub applied : Bool
  pub duplicate : Bool

-- The tables that the session writes.
pub record Projections : Type 0 where
  pub events : List OutboxEvent
  pub audits : List AuditEvent

abbrev pub write : OutboxEvent → Exec Projections (Unit {0})
write e = modify (λ p. record p { events = save e p.events })

abbrev pub claimed_for : ℕ → OutboxEvent → OutboxEvent
claimed_for owner e = record e { claimed_by = some owner }

-- `event.claimed_by not in {None, owner}`, the other way round.
abbrev pub is_free_for : ℕ → Option ℕ → Bool
is_free_for owner none = true
is_free_for owner (some o) = o == owner

abbrev pub take_event : ℕ → Option OutboxEvent → Exec Projections (Option OutboxEvent)
take_event owner none = pure none
take_event owner (some e) =
    if is_processed e || not (is_free_for owner e.claimed_by)
    then pure none
    else (write (claimed_for owner e) >> pure (some (claimed_for owner e)))

unfoldable pub claim_projection : ℕ → ℕ → Exec Projections (Option OutboxEvent)
claim_projection id owner = do found ← gets (λ p. get id p.events); take_event owner found

abbrev pub Handlers : Type 0
Handlers = String → Option (Json → Exec Projections (Unit {0}))

abbrev pub call : Option (Json → Exec Projections (Unit {0})) → Json → Exec Projections (Unit {0})
call none payload = pure tt
call (some handler) payload = handler payload

abbrev pub applied_event : OutboxEvent → OutboxEvent
applied_event e = record e { processed_at = some e.updated_at; claimed_until = none }

abbrev pub applied_audit : Bool → OutboxEvent → AuditEvent
applied_audit has_handler e = record {
  actor_id = none;
  event_type = "outbox.applied";
  entity_type = "outbox_event";
  entity_id = some e.id;
  payload_json = ("event_type", str e.event_type) ∷ ("handler", bool has_handler) ∷ [];
}

abbrev pub projection_result : Bool → Bool → OutboxEvent → ProjectionResult
projection_result applied duplicate e = record {
  event_id = e.id;
  event_type = e.event_type;
  applied = applied;
  duplicate = duplicate;
}

-- The event is an object of the session, so its columns are written to its row.
abbrev pub finish_apply :
    Option (Json → Exec Projections (Unit {0})) → OutboxEvent → Exec Projections ProjectionResult
finish_apply handler e = do
  write (applied_event e)
  modify (λ p. record p { audits = p.audits ++ applied_audit (is_some handler) e ∷ [] })
  pure (projection_result (is_some handler) false e)

abbrev pub apply_claimed :
    Option (Json → Exec Projections (Unit {0})) → OutboxEvent → Exec Projections ProjectionResult
apply_claimed handler e = call handler e.payload_json >> finish_apply handler e

unfoldable pub apply_projection : OutboxEvent → ℕ → Handlers → Exec Projections ProjectionResult
apply_projection e owner handlers =
    if e.claimed_by == some owner
    then apply_claimed (handlers e.event_type) e
    else pure (projection_result false true e)
