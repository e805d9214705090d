-- ===== src/Reviews/Service.antt =====
-- The state machine of src/boiler_reviews/reviews/service.py: `TRANSITIONS` and `_transition`.
use boiler_reviews.Prelude.{
  concat, ℕ, zero, suc, String, Bool, true, false, Option, none, some, List, [], ◌∷◌, ◌++◌, nat_eq,
  pair_eq, option_eq, ◌&&◌, not,
}
use boiler_reviews.Prelude.Json.{Json, str}
use boiler_reviews.Prelude.Table.{find, put}
use boiler_reviews.Exec.{
  Exec, pure, gets, modify, or_raise, raise_if, ◌>>=◌, ◌>>◌, assertion_error, conflict,
}
use boiler_reviews.Reviews.Model.{
  ReviewStatus, draft, submitted, published, hidden, rejected, withdrawn, status_text, Review,
  ReviewRevision, Store, review_group, review_id, revision_key,
}
use boiler_reviews.Reviews.Stats.{adjust_aggregate, remove_empty_aggregate, plus, minus}

-- `target in TRANSITIONS[status]`
abbrev pub allowed : ReviewStatus → ReviewStatus → Bool
allowed draft submitted = true
allowed draft withdrawn = true
allowed submitted draft = true
allowed submitted published = true
allowed submitted rejected = true
allowed submitted withdrawn = true
allowed published hidden = true
allowed published withdrawn = true
allowed published submitted = true
allowed hidden published = true
allowed hidden withdrawn = true
allowed rejected draft = true
allowed rejected submitted = true
allowed rejected withdrawn = true
allowed _ _ = false

-- `status in {"published", "submitted", "rejected"}`
abbrev pub is_public : ReviewStatus → Bool
is_public published = true
is_public submitted = true
is_public rejected = true
is_public _ = false

-- `target in {"hidden", "withdrawn"}`
abbrev pub takes_down : ReviewStatus → Bool
takes_down hidden = true
takes_down withdrawn = true
takes_down _ = false

-- `old_status in {"submitted", "rejected"}`
abbrev pub is_pending : ReviewStatus → Bool
is_pending submitted = true
is_pending rejected = true
is_pending _ = false

abbrev pub is_published : ReviewStatus → Bool
is_published published = true
is_published _ = false

abbrev pub save_review : Review → Exec Store (Unit {0})
save_review r = modify (λ s. record s { reviews = put review_id r s.reviews })

abbrev pub save_revision : ReviewRevision → Exec Store (Unit {0})
save_revision v = modify (λ s. record s { revisions = put revision_key v s.revisions })

-- `_audit`
abbrev pub audit : ℕ → String → ℕ → List (String × Json) → Exec Store (Unit {0})
audit actor event_type review payload = modify λ s. record s {
  audits =
      s.audits
      ++ record {
        actor_id = some actor;
        event_type = event_type;
        entity_type = "review";
        entity_id = some review;
        payload_json = payload;
      }
        ∷ [];
}

-- `_revision`
unfoldable pub revision_row : Review → ℕ → Exec Store ReviewRevision
revision_row r n = do
  or_raise (← gets (λ s. find revision_key (r.id, n) s.revisions))
      (assertion_error "missing review revision")

-- `_revision(...) if review.published_revision else None`
unfoldable pub published_row : Review → Option ℕ → Exec Store (Option ReviewRevision)
unfolding revision_row
published_row r none = pure none
published_row r (some zero) = pure none
published_row r (some (suc n)) = do v ← revision_row r (suc n); pure (some v)

-- Take one approved revision out of its group's aggregate.
unfoldable pub retract : Review → ReviewRevision → Exec Store (Unit {0})
unfolding adjust_aggregate remove_empty_aggregate
retract r v = do a ← adjust_aggregate (review_group r) v minus; remove_empty_aggregate a

unfoldable pub retract_if : Bool → Review → Option ReviewRevision → Exec Store (Unit {0})
unfolding retract
retract_if b r none = pure tt
retract_if true r (some v) = retract r v
retract_if false r (some v) = pure tt

-- The end of the branch `if target == "published"`: the new revision is counted and approved.
unfoldable pub approve : ℕ → Review → ReviewRevision → Exec Store (Unit {0})
unfolding adjust_aggregate
approve now r v = do
  adjust_aggregate (review_group r) v plus
  save_review (record r { status = published; published_revision = some r.current_revision })
  save_revision (record v { submitted_at = some now })

-- A pending revision replaces the old approved one; hidden content was taken out before.
unfoldable pub replace : ℕ → Review → Option ReviewRevision → ReviewRevision → Exec Store (Unit {0})
unfolding retract_if approve
replace now r old v = do retract_if (is_pending r.status) r old; approve now r v

-- The branch `if target == "published"`.
unfoldable pub publish : ℕ → Review → Option ReviewRevision → Exec Store (Unit {0})
unfolding revision_row replace
publish now r old = do v ← revision_row r r.current_revision; replace now r old v

unfoldable pub publish_if : Bool → ℕ → Review → Option ReviewRevision → Exec Store (Unit {0})
unfolding publish
publish_if true now r old = publish now r old
publish_if false now r old = pure tt

abbrev pub emit : ℕ → Review → ReviewStatus → Exec Store (Unit {0})
emit nonce r target = modify λ s. record s {
  outbox =
      s.outbox
      ++ record {
        event_key = (r.id, nonce);
        event_type = "review.status_changed";
        review_id = r.id;
        source = r.status;
        target = target;
      }
        ∷ [];
}

abbrev pub change_payload : Review → ReviewStatus → String → List (String × Json)
change_payload r target reason =
    ("from", str (status_text r.status))
    ∷ ("to", str (status_text target))
    ∷ ("reason", str reason)
    ∷ []

-- The row as the transition leaves it.
abbrev pub moved_to : ReviewStatus → Review → Review
moved_to published r = record r { status = published; published_revision = some r.current_revision }
moved_to target r = record r { status = target }

-- `_audit` and the outbox event, at the end of `_transition`.
abbrev pub announce : ℕ → ℕ → ReviewStatus → String → Review → Exec Store Review
announce nonce actor target reason r = do
  audit actor "review.status_changed" r.id (change_payload r target reason)
  emit nonce r target
  pure (moved_to target r)

-- From `review.status = target` on.
unfoldable pub set_status :
    ℕ → ℕ → ℕ → ReviewStatus → String → Review → Option ReviewRevision → Exec Store Review
unfolding publish_if
set_status now nonce actor target reason r old = do
  save_review (record r { status = target })
  publish_if (is_published target) now r old
  announce nonce actor target reason r

-- From the test of `has_public_approved_revision` on.
unfoldable pub change :
    ℕ → ℕ → ℕ → ReviewStatus → String → Review → Option ReviewRevision → Exec Store Review
unfolding retract_if set_status
change now nonce actor target reason r old = do
  retract_if (takes_down target && is_public r.status) r old
  set_status now nonce actor target reason r old

abbrev pub no_transition : ReviewStatus → ReviewStatus → String
no_transition source target =
    concat (
      "Cannot transition review from "
      ∷ status_text source
      ∷ " to "
      ∷ status_text target
      ∷ "."
      ∷ [])

-- `_transition`; `now` and `nonce` are the clock and the UUID.
unfoldable pub transition : ℕ → ℕ → ℕ → ReviewStatus → String → Review → Exec Store Review
unfolding published_row change
transition now nonce actor target reason r = do
  raise_if (not (allowed r.status target)) (conflict (no_transition r.status target))
  old ← published_row r r.published_revision
  change now nonce actor target reason r old
