-- ===== src/Reviews/Steps.antt =====
-- `_transition` as a whole: what it leaves, when its steps go through.
use boiler_reviews.Prelude.{
  ℕ, ◌≡◌, refl, String, Bool, true, false, Option, some, ◌&&◌, nat_eq, pair_eq,
}
use boiler_reviews.Prelude.Int.{pos}
use boiler_reviews.Prelude.Table.{find, put}
use boiler_reviews.Exec.{ok, err, conflict, ◌>>◌, bind-ok}
use boiler_reviews.Reviews.Model.{
  ReviewStatus, published, Review, ReviewRevision, Store, review_group, review_id, revision_key,
}
use boiler_reviews.Reviews.Stats.{plus, adjust_aggregate, set_aggregates}
use boiler_reviews.Reviews.Service.{
  allowed, is_public, takes_down, is_pending, is_published, no_transition, save_review,
  save_revision, revision_row, published_row, retract_if, approve, replace, publish, publish_if,
  announce, set_status, change, transition,
}
use boiler_reviews.Reviews.Totals.{approved}
use boiler_reviews.Reviews.Sums.{adjusted_rows, adjusted_row}
use boiler_reviews.Reviews.Transition.{
  adjust_aggregate-ok, retract_if-ok, published_row-ok, revision_row-ok, retracted_if, CanRetract,
  HasApproved,
}

abbrev pub as_published : Review → Review
as_published r = record r { status = published; published_revision = some r.current_revision }

abbrev pub stamped : ℕ → ReviewRevision → ReviewRevision
stamped now v = record v { submitted_at = some now }

-- The store after `approve`.
abbrev pub approved_store : ℕ → Review → ReviewRevision → Store → Store
approved_store now r v s = record s {
  aggregates = adjusted_rows plus v (review_group r) s.aggregates;
  reviews = put review_id (as_published r) s.reviews;
  revisions = put revision_key (stamped now v) s.revisions;
}

-- The store after the aggregate has lost the old approved revision.
abbrev pub retracted_store : Bool → Review → Option ReviewRevision → Store → Store
retracted_store b r old s = set_aggregates (retracted_if b (review_group r) old s.aggregates) s

abbrev pub status_store : ReviewStatus → Review → Store → Store
status_store target r s = record s {
  reviews = put review_id (record r { status = target }) s.reviews;
}

pub approve-ok :
    (now : ℕ) (r : Review) (v : ReviewRevision) (s : Store) (n : ℕ)
    → (adjusted_row plus v (review_group r) s.aggregates).review_count ≡ pos n
    → approve now r v s ≡ (ok tt, approved_store now r v s)
unfolding approve
approve-ok now r v s n h =
    bind-ok (adjust_aggregate (review_group r) v plus)
      (λ _. save_review (as_published r) >> save_revision (stamped now v)) s
      (adjust_aggregate-ok (review_group r) v plus s n h) refl

pub publish-ok :
    (now : ℕ) (r : Review) (old : Option ReviewRevision) (v : ReviewRevision) (s : Store) (n : ℕ)
    → find revision_key (r.id, r.current_revision) s.revisions ≡ some v
    → CanRetract (is_pending r.status) (review_group r) old s.aggregates
    → (adjusted_row plus v
        (review_group r)
        (retracted_store (is_pending r.status) r old s).aggregates).review_count
      ≡ pos n
    → publish now r old s
      ≡ (ok tt, approved_store now r v (retracted_store (is_pending r.status) r old s))
unfolding publish replace
publish-ok now r old v s n found can count =
    bind-ok (revision_row r r.current_revision) (replace now r old) s
      (revision_row-ok r r.current_revision s v found)
      (bind-ok (retract_if (is_pending r.status) r old) (λ _. approve now r v) s
        (retract_if-ok (is_pending r.status) r old s can)
        (approve-ok now r v (retracted_store (is_pending r.status) r old s) n count))

-- A refused transition changes nothing.
pub transition-conflict :
    (now nonce actor : ℕ) (target : ReviewStatus) (reason : String) (r : Review) (s : Store)
    → allowed r.status target ≡ false
    → transition now nonce actor target reason r s
      ≡ (err (conflict (no_transition r.status target)), s)
unfolding transition
transition-conflict now nonce actor target reason r s h = rw h

pub transition-ok :
    (now nonce actor : ℕ) (target : ReviewStatus) (reason : String) (r : Review) (s s' : Store)
    → allowed r.status target ≡ true
    → HasApproved s.revisions r r.published_revision
    → CanRetract
        (takes_down target && is_public r.status)
        (review_group r)
        (approved s.revisions r r.published_revision)
        s.aggregates
    → publish_if (is_published target) now r (approved s.revisions r r.published_revision) (
        status_store target r (
          retracted_store
            (takes_down target && is_public r.status)
            r
            (approved s.revisions r r.published_revision)
            s))
      ≡ (ok tt, s')
    → transition now nonce actor target reason r s ≡ announce nonce actor target reason r s'
unfolding transition change set_status
transition-ok now nonce actor target reason r s s' may has can goes =
    let old = approved s.revisions r r.published_revision in
    let b = takes_down target && is_public r.status in
    rw may (
      bind-ok (published_row r r.published_revision) (change now nonce actor target reason r) s
        (published_row-ok r r.published_revision s has)
        (bind-ok (retract_if b r old) (λ _. set_status now nonce actor target reason r old) s
          (retract_if-ok b r old s can)
          (bind-ok (publish_if (is_published target) now r old)
            (λ _. announce nonce actor target reason r)
            (status_store target r (retracted_store b r old s)) goes refl)))
