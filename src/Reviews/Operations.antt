-- ===== src/Reviews/Operations.antt =====
-- The operations of src/boiler_reviews/reviews/service.py. Ids, the clock and UUIDs are arguments.
use boiler_reviews.Prelude.{
  ℕ, ◌+◌, String, Bool, true, false, Option, none, some, List, [], ◌∷◌, ◌++◌, ◌==◌, nat_eq, pair_eq,
  option_eq, string_eq, if◌then◌else◌, ◌&&◌, not, first, leb,
}
use boiler_reviews.Prelude.Int.{ℤ, pos, negsuc, pos_part, ltb_ℤ}
use boiler_reviews.Prelude.Json.{str, num}
use boiler_reviews.Prelude.Text.{strip, is_empty, or_text}
use boiler_reviews.Prelude.Table.{find, is_some}
use boiler_reviews.Exec.{
  Exec, pure, raise, gets, modify, or_raise, raise_if, ◌>>=◌, ◌>>◌, ok, err, session_scope,
  conflict, not_found, permission_denied, validation, integrity_error,
}
use boiler_reviews.Identity.{require_role}
use boiler_reviews.Reviews.Model.{
  ReviewStatus, draft, submitted, published, hidden, rejected, withdrawn, status_text, Review,
  ReviewRevision, Store, review_id, revision_key, account_id,
}
use boiler_reviews.Reviews.Policy.{default_policy, same_slot, assert_review_contribution_allowed}
use boiler_reviews.Reviews.Service.{audit, save_review, transition}

pub record ReviewInput : Type 0 where
  pub course_id : ℕ
  pub term_id : ℕ
  pub professor : String
  pub difficulty : ℤ
  pub workload_hours : ℤ
  pub overall : ℤ
  pub would_recommend : Bool
  pub comment : Option String

-- `1 <= n <= 5`
abbrev pub in_scale : ℤ → Bool
in_scale (pos n) = leb 1 n && leb n 5
in_scale (negsuc n) = false

abbrev when : Bool → String × String → List (String × String)
when true e = e ∷ []
when false e = []

unfoldable pub field_errors : ReviewInput → List (String × String)
unfolding strip
field_errors d =
    when (is_empty (strip d.professor)) ("professor", "required")
    ++ (when (not (in_scale d.difficulty)) ("difficulty", "must be between 1 and 5")
        ++ (when (ltb_ℤ d.workload_hours (pos 0)) ("workload_hours", "must not be negative")
            ++ when (not (in_scale d.overall)) ("overall", "must be between 1 and 5")))

abbrev raise_if_any : List (String × String) → Exec Store (Unit {0})
raise_if_any [] = pure tt
raise_if_any (e ∷ errors) = raise (validation "Review fields are invalid." (e ∷ errors))

unfoldable pub validate : ReviewInput → Exec Store (Unit {0})
unfolding field_errors
validate d = raise_if_any (field_errors d)

abbrev strip_comment : Option String → Option String
strip_comment none = none
strip_comment (some c) = if is_empty c then none else some (strip c)

-- `validate` has passed, so no number is negative.
abbrev pub revision_of : ℕ → ℕ → Option ℕ → ReviewInput → ReviewRevision
revision_of id number submitted_at d = record {
  review_id = id;
  revision = number;
  professor = strip d.professor;
  difficulty = pos_part d.difficulty;
  workload_hours = pos_part d.workload_hours;
  overall = pos_part d.overall;
  would_recommend = d.would_recommend;
  comment = strip_comment d.comment;
  submitted_at = submitted_at;
}

-- `session.add(review)` and the flush, under the keys of the table.
unfoldable pub insert_review : Review → Exec Store (Unit {0})
insert_review r s =
    if is_some (find review_id r.id s.reviews)
    then (err (integrity_error "reviews.id"), s)
    else if is_some (first (same_slot r.account_id r.course_id r.term_id) s.reviews)
    then (err (integrity_error "uq_review_account_course_term"), s)
    else if is_some r.client_request_id
        && is_some (first (λ x. x.client_request_id == r.client_request_id) s.reviews)
    then (err (integrity_error "reviews.client_request_id"), s)
    else (ok tt, record s { reviews = s.reviews ++ r ∷ [] })

-- `session.add(ReviewRevision(...))`, under `uq_review_revision`.
unfoldable pub add_revision : ReviewRevision → Exec Store (Unit {0})
add_revision v s =
    if is_some (find revision_key (revision_key v) s.revisions)
    then (err (integrity_error "uq_review_revision"), s)
    else (ok tt, record s { revisions = s.revisions ++ v ∷ [] })

abbrev pub new_review : ℕ → ℕ → ℕ → ReviewInput → Option String → Review
new_review id now actor d key = record {
  id = id;
  account_id = actor;
  course_id = d.course_id;
  term_id = d.term_id;
  status = draft;
  current_revision = 1;
  published_revision = none;
  client_request_id = key;
  created_at = now;
}

abbrev pub by_request : Option String → Store → Option Review
by_request none s = none
by_request (some key) s =
    if is_empty key then none else first (λ r. r.client_request_id == some key) s.reviews

abbrev pub first_revision : ℕ → ℕ → ℕ → ReviewInput → Option String → Exec Store Review
first_revision id now actor d key = do
  add_revision (revision_of id 1 none d)
  audit actor "review.created" id (("status", str (status_text draft)) ∷ [])
  pure (new_review id now actor d key)

abbrev pub insert_contribution : ℕ → ℕ → ℕ → ReviewInput → Option String → Exec Store Review
insert_contribution id now actor d key = do
  insert_review (new_review id now actor d key)
  first_revision id now actor d key

-- `create_review` behind the test of the idempotency key.
unfoldable pub contribute : ℕ → ℕ → ℕ → ReviewInput → Option String → Exec Store Review
unfolding insert_review add_revision assert_review_contribution_allowed
contribute id now actor d key = do
  assert_review_contribution_allowed default_policy actor d.course_id d.term_id
  insert_contribution id now actor d key

abbrev pub return_or_contribute :
    ℕ → ℕ → ℕ → ReviewInput → Option String → Option Review → Exec Store Review
return_or_contribute id now actor d key none = contribute id now actor d key
return_or_contribute id now actor d key (some r) = do
  raise_if (not (r.account_id == actor))
      (conflict "The idempotency key belongs to another account.")
  pure r

unfoldable pub create_review : ℕ → ℕ → ℕ → ReviewInput → Option String → Exec Store Review
unfolding validate contribute
create_review id now actor d key = do
  validate d
  existing ← gets (by_request key)
  return_or_contribute id now actor d key existing

-- `_get_review`
unfoldable pub get_review : ℕ → Exec Store Review
get_review id = do
  or_raise (← gets (λ s. find review_id id s.reviews)) (not_found "Review not found.")

-- `_can_edit`
abbrev pub can_edit : Review → ℕ → Exec Store (Unit {0})
can_edit r actor =
    raise_if (not (r.account_id == actor))
      (permission_denied "Only the review owner may edit this review.")

abbrev pub is_withdrawn : ReviewStatus → Bool
is_withdrawn withdrawn = true
is_withdrawn _ = false

-- An edit of a published review sends it back to the moderators.
abbrev pub edited_status : ReviewStatus → ReviewStatus
edited_status published = submitted
edited_status status = status

abbrev pub edited : Review → Review
edited r = record r { current_revision = r.current_revision + 1; status = edited_status r.status }

abbrev pub submission_time : ReviewStatus → ℕ → Option ℕ
submission_time submitted now = some now
submission_time _ now = none

unfoldable pub revise : ℕ → ℕ → Review → ReviewInput → Exec Store Review
unfolding add_revision
revise now actor r d = do
  save_review (edited r)
  add_revision (revision_of r.id (r.current_revision + 1) (submission_time (edited r).status now) d)
  audit actor "review.edited" r.id (("revision", num (pos (r.current_revision + 1))) ∷ [])
  pure (edited r)

unfoldable pub edit_review : ℕ → ℕ → ℕ → ReviewInput → ℕ → Exec Store Review
unfolding validate get_review revise
edit_review now actor id d expected = do
  validate d
  r ← get_review id
  can_edit r actor
  raise_if (not (r.current_revision == expected))
      (conflict "The review changed since it was loaded; refresh before editing.")
  raise_if (is_withdrawn r.status) (conflict "Withdrawn reviews cannot be edited.")
  revise now actor r d

unfoldable pub submit_review : ℕ → ℕ → ℕ → ℕ → Exec Store Review
unfolding get_review transition
submit_review now nonce actor id = do
  r ← get_review id
  can_edit r actor
  transition now nonce actor submitted "owner submission" r

-- `target in {"published", "hidden", "rejected"}`
abbrev pub is_decision : ReviewStatus → Bool
is_decision published = true
is_decision hidden = true
is_decision rejected = true
is_decision _ = false

abbrev pub record_decision : ℕ → ReviewStatus → String → Review → Exec Store Review
record_decision moderator target reason r = do
  modify (λ s. record s {
    decisions =
        s.decisions
        ++ record {
          review_id = r.id;
          revision = r.current_revision;
          moderator_id = moderator;
          decision = target;
          reason = or_text (strip reason) "No reason supplied";
        }
          ∷ [];
  })
  pure r

unfoldable pub decide : ℕ → ℕ → ℕ → ReviewStatus → String → Review → Exec Store Review
unfolding transition
decide now nonce moderator target reason r = do
  r' ← transition now nonce moderator target reason r
  record_decision moderator target reason r'

-- `moderate_review`. A target that is no status at all is refused as `draft` is.
unfoldable pub moderate_review : ℕ → ℕ → ℕ → ℕ → ReviewStatus → String → Exec Store Review
unfolding require_role get_review decide
moderate_review now nonce moderator id target reason = do
  require_role (← gets (λ s. find account_id moderator s.accounts)) "moderator"
  r ← get_review id
  raise_if (not (is_decision target)) (validation "Unsupported moderation decision." [])
  decide now nonce moderator target reason r

-- A request, in a session of its own.
pub data Op : Type 0 where
  create : ℕ → ℕ → ℕ → ReviewInput → Option String → Op
  edit : ℕ → ℕ → ℕ → ReviewInput → ℕ → Op
  submit : ℕ → ℕ → ℕ → ℕ → Op
  moderate : ℕ → ℕ → ℕ → ℕ → ReviewStatus → String → Op

unfoldable pub perform : Op → Exec Store Review
unfolding create_review edit_review submit_review moderate_review
perform (create id now actor d key) = create_review id now actor d key
perform (edit now actor id d expected) = edit_review now actor id d expected
perform (submit now nonce actor id) = submit_review now nonce actor id
perform (moderate now nonce moderator id target reason) =
    moderate_review now nonce moderator id target reason

unfoldable pub run : List Op → Store → Store
unfolding perform session_scope
run [] s = s
run (op ∷ ops) s = run ops (session_scope (perform op) s).1
