-- ===== src/Reviews/Model.antt =====
-- The review tables of src/boiler_reviews/db/models.py. Row ids (UUID texts that the code only
-- compares) are numbers, times are whole seconds.
use boiler_reviews.Prelude.{ℕ, String, Bool, Option, List, nat_eq, pair_eq}
use boiler_reviews.Prelude.Int.{ℤ}
use boiler_reviews.Prelude.Json.{Json}

pub data ReviewStatus : Type 0 where
  draft submitted published hidden rejected withdrawn : ReviewStatus

abbrev pub status_text : ReviewStatus → String
status_text draft = "draft"
status_text submitted = "submitted"
status_text published = "published"
status_text hidden = "hidden"
status_text rejected = "rejected"
status_text withdrawn = "withdrawn"

pub record Account : Type 0 where
  pub id : ℕ
  pub roles_json : List String

pub record Review : Type 0 where
  pub id : ℕ
  pub account_id : ℕ
  pub course_id : ℕ
  pub term_id : ℕ
  pub status : ReviewStatus
  pub current_revision : ℕ
  pub published_revision : Option ℕ
  pub client_request_id : Option String
  pub created_at : ℕ

pub record ReviewRevision : Type 0 where
  pub review_id : ℕ
  pub revision : ℕ
  pub professor : String
  pub difficulty : ℕ
  pub workload_hours : ℕ
  pub overall : ℕ
  pub would_recommend : Bool
  pub comment : Option String
  pub submitted_at : Option ℕ

pub record ModerationDecision : Type 0 where
  pub review_id : ℕ
  pub revision : ℕ
  pub moderator_id : ℕ
  pub decision : ReviewStatus
  pub reason : String

pub record CourseAggregate : Type 0 where
  pub course_id : ℕ
  pub term_id : ℕ
  pub review_count : ℤ
  pub sum_overall : ℤ
  pub sum_difficulty : ℤ
  pub sum_workload : ℤ
  pub recommend_count : ℤ
  pub revision : ℕ

-- `entity_id` is missing where the code writes "all".
pub record AuditEvent : Type 0 where
  pub actor_id : Option ℕ
  pub event_type : String
  pub entity_type : String
  pub entity_id : Option ℕ
  pub payload_json : List (String × Json)

-- The event key is the review's id with a fresh UUID.
pub record OutboxEvent : Type 0 where
  pub event_key : ℕ × ℕ
  pub event_type : String
  pub review_id : ℕ
  pub source : ReviewStatus
  pub target : ReviewStatus

pub record Store : Type 0 where
  pub accounts : List Account
  pub reviews : List Review
  pub revisions : List ReviewRevision
  pub aggregates : List CourseAggregate
  pub decisions : List ModerationDecision
  pub audits : List AuditEvent
  pub outbox : List OutboxEvent

-- A course and a term.
abbrev pub Group : Type 0
Group = ℕ × ℕ

abbrev pub review_id : Review → ℕ
review_id r = r.id

abbrev pub review_group : Review → Group
review_group r = (r.course_id, r.term_id)

abbrev pub revision_key : ReviewRevision → ℕ × ℕ
revision_key v = (v.review_id, v.revision)

abbrev pub aggregate_group : CourseAggregate → Group
aggregate_group a = (a.course_id, a.term_id)

abbrev pub account_id : Account → ℕ
account_id a = a.id
