-- ===== src/Outbox/Model.antt =====
-- The rows of `outbox_events` (src/boiler_reviews/db/models.py) with the columns that a claim uses.
use boiler_reviews.Prelude.{ℕ, String, Option, Bool, List, nat_eq}
use boiler_reviews.Prelude.Table
use boiler_reviews.Prelude.Table.{is_some}
use boiler_reviews.Prelude.Json.{Json}

pub record OutboxEvent : Type 0 where
  pub id : ℕ
  pub event_key : String
  pub event_type : String
  pub payload_json : Json
  pub claimed_by : Option ℕ
  pub claimed_until : Option ℕ
  pub processed_at : Option ℕ
  pub attempts : ℕ
  pub created_at : ℕ
  pub updated_at : ℕ

abbrev pub event_id : OutboxEvent → ℕ
event_id e = e.id

-- `session.get(OutboxEvent, id)`
abbrev pub get : ℕ → List OutboxEvent → Option OutboxEvent
get = Table.find event_id

abbrev pub save : OutboxEvent → List OutboxEvent → List OutboxEvent
save = Table.put event_id

abbrev pub is_processed : OutboxEvent → Bool
is_processed e = is_some e.processed_at
