-- ===== src/Reviews/Moves.antt =====
-- Every allowed transition goes through on a consistent store, and leaves a consistent one.
use mathlib.Core.Path.{subst}
use boiler_reviews.Prelude.{
  ℕ, ◌+◌, ◌≡◌, ◌≢◌, refl, sym, ap, String, true, false, Option, none, some, List, arith, nat_eq,
  pair_eq, ◌&&◌, Bool-cases, Option-cases, inl, inr,
}
use boiler_reviews.Prelude.Table.{find, put, find-put, find-key}
use boiler_reviews.Exec.{ok}
use boiler_reviews.Reviews.Model.{
  ReviewStatus, draft, submitted, published, hidden, rejected, withdrawn, Review, ReviewRevision,
  CourseAggregate, Group, Store, review_group, review_id, revision_key,
}
use boiler_reviews.Reviews.Stats.{plus}
use boiler_reviews.Reviews.Service.{
  allowed, is_public, takes_down, is_pending, is_published, publish_if, transition, announce,
  moved_to,
}
use boiler_reviews.Reviews.Totals.{Column, review_count, amount, approved, contribution, total}
use boiler_reviews.Reviews.Sums.{
  Matches, Adds, unmoved-Matches, published-Matches, raised_count, adjusted_rows,
}
use boiler_reviews.Reviews.Transition.{HasApproved, CanRetract, retracted_if}
use boiler_reviews.Reviews.Steps.{
  as_published, stamped, approved_store, retracted_store, status_store, publish-ok, transition-ok,
}
use boiler_reviews.Reviews.Consistency.{
  IsStored, IsConsistent, All-find, All-put, put-put, stamped-Matches, put-IsStored,
  AddsNothing-not_public, Adds-approved,
}
use boiler_reviews.Reviews.Removal.{taken_out, approved-id, amount_of-unapproved}

-- What an allowed transition leaves.
pub record Moved (target : ReviewStatus) (r : Review) (s s' : Store) : Type 0 where
  pub consistent : IsConsistent s'
  pub reviews : s'.reviews ≡ put review_id (moved_to target r) s.reviews
  pub accounts : s'.accounts ≡ s.accounts

module _ (now nonce actor : ℕ) (reason : String) (s : Store) (r : Review) (inv : IsConsistent s)
    (read : find review_id r.id s.reviews ≡ some r) where
  open inv use {stored, matches}

  row : IsStored s.revisions r
  row = All-find (IsStored s.revisions) s.reviews r.id r stored read

  abbrev old : Option ReviewRevision
  old = approved s.revisions r r.published_revision

  abbrev with_status : ReviewStatus → Review
  with_status t = record r { status = t }

  -- The outcome of a transition.
  abbrev Goes : ReviewStatus → Type 0
  Goes t =
      (s' : Store) × (transition now nonce actor t reason r s ≡ (ok (moved_to t r), s'))
      × Moved t r s s'

  status-IsStored :
      (t : ReviewStatus)
      → (t ≡ draft → r.published_revision ≡ none)
      → IsStored s.revisions (with_status t)
  status-IsStored t h = record {
    numbered = row.numbered;
    current = row.current;
    has_approved = approved_again r.published_revision row.has_approved;
    draft_unapproved = h;
  }
    where
      approved_again :
          (o : Option ℕ) → HasApproved s.revisions r o → HasApproved s.revisions (with_status t) o
      approved_again none a = tt
      approved_again (some n) a = a

  -- A target other than `published`, from the aggregates that it leaves.
  plain-Goes :
      (t : ReviewStatus)
      → allowed r.status t ≡ true
      → is_published t ≡ false
      → moved_to t r ≡ with_status t
      → (t ≡ draft → r.published_revision ≡ none)
      → CanRetract (takes_down t && is_public r.status) (review_group r) old s.aggregates
      → Matches
          (retracted_if (takes_down t && is_public r.status) (review_group r) old s.aggregates)
          s.revisions
          (put review_id (with_status t) s.reviews)
      → Goes t
  unfolding publish_if
  plain-Goes t may plain same drafts can after =
      let b = takes_down t && is_public r.status in
      let last = status_store t r (retracted_store b r old s) in
      (
        (announce nonce actor t reason r last).1,
        transition-ok now nonce actor t reason r s last may row.has_approved can (rw plain),
        record {
          consistent = record {
            stored =
                All-put (IsStored s.revisions) s.reviews (with_status t) stored
                  (status-IsStored t drafts);
            matches = after;
          };
          reviews = ap (λ x. put review_id x s.reviews) (sym same);
          accounts = refl;
        },
      )

  taken_down :
      (t : ReviewStatus)
      → is_public t ≡ false
      → CanRetract (is_public r.status) (review_group r) old s.aggregates
        × Matches
            (retracted_if (is_public r.status) (review_group r) old s.aggregates)
            s.revisions
            (put review_id (with_status t) s.reviews)
  taken_down t private =
      taken_out s.aggregates s.revisions s.reviews r (with_status t) matches read
        (AddsNothing-not_public s.revisions (with_status t) private) (is_public r.status) old refl
        refl

  hidden-Goes : allowed r.status hidden ≡ true → Goes hidden
  hidden-Goes may =
      let (can, after) = taken_down hidden refl in
      plain-Goes hidden may refl refl (λ e. absurd (cc)) can after

  withdrawn-Goes : allowed r.status withdrawn ≡ true → Goes withdrawn
  withdrawn-Goes may =
      let (can, after) = taken_down withdrawn refl in
      plain-Goes withdrawn may refl refl (λ e. absurd (cc)) can after

  no_retraction :
      (rows : List CourseAggregate) (o : Option ReviewRevision)
      → CanRetract false (review_group r) o rows
  no_retraction rows none = tt
  no_retraction rows (some v) = tt

  retracted_not :
      (rows : List CourseAggregate) (o : Option ReviewRevision)
      → retracted_if false (review_group r) o rows ≡ rows
  retracted_not rows none = refl
  retracted_not rows (some v) = refl

  -- A pending status leaves what the review adds as it was.
  pending-contribution :
      (t : ReviewStatus)
      → is_public t ≡ true
      → (is_public r.status ≡ false → r.published_revision ≡ none)
      → (c : Column) (g : Group)
      → contribution c g s.revisions (with_status t) ≡ contribution c g s.revisions r
  unfolding contribution
  pending-contribution t public fresh c g = elim (Bool-cases (is_public r.status)) [
    | inl was ↦
        rw (public, was, approved-id s.revisions (with_status t) r r.published_revision refl)
    | inr was_not ↦
        rw
          (
            public,
            was_not,
            amount_of-unapproved c s.revisions (with_status t) r.published_revision (fresh was_not),
          )
          (ground arith)
  ]

  pending-Goes :
      (t : ReviewStatus)
      → allowed r.status t ≡ true
      → is_pending t ≡ true
      → takes_down t ≡ false
      → moved_to t r ≡ with_status t
      → (is_public r.status ≡ false → r.published_revision ≡ none)
      → Goes t
  pending-Goes t may pending stays same fresh =
      plain-Goes t may (ground arith) same (λ e. absurd (ground arith))
        (rw stays (no_retraction s.aggregates old))
        (rw (stays, retracted_not s.aggregates old)
          (unmoved-Matches s.aggregates s.revisions s.reviews matches r (with_status t) read
            (pending-contribution t (ground arith) fresh)))

  -- `submitted` and `rejected` are reached from a public status or from `draft`.
  submitted_from :
      allowed r.status submitted ≡ true → is_public r.status ≡ false → r.published_revision ≡ none
  submitted_from may private = row.draft_unapproved (ground arith)

  rejected_from :
      allowed r.status rejected ≡ true → is_public r.status ≡ false → r.published_revision ≡ none
  rejected_from may private = absurd (ground arith)

  submitted-Goes : allowed r.status submitted ≡ true → Goes submitted
  submitted-Goes may = pending-Goes submitted may refl refl refl (submitted_from may)

  rejected-Goes : allowed r.status rejected ≡ true → Goes rejected
  rejected-Goes may = pending-Goes rejected may refl refl refl (rejected_from may)

  -- The current revision.
  current_row :
      (v : ReviewRevision) × (find revision_key (r.id, r.current_revision) s.revisions ≡ some v)
  current_row = elim (Option-cases (find revision_key (r.id, r.current_revision) s.revisions)) [
    | inl missing ↦ absurd (ground (arith, missing, row.current))
    | inr found ↦ found
  ]

  hid : Review
  hid = with_status hidden

  -- The tables in front of `publish`.
  abbrev before_publish : Store
  before_publish = status_store published r (retracted_store false r old s)

  pending_taken_out :
      allowed r.status published ≡ true
      → CanRetract (is_pending r.status) (review_group r) old before_publish.aggregates
        × Matches
            (retracted_if (is_pending r.status) (review_group r) old before_publish.aggregates)
            s.revisions
            (put review_id hid s.reviews)
  unfolding hid
  pending_taken_out may =
      taken_out before_publish.aggregates s.revisions s.reviews r hid
        (rw (retracted_not s.aggregates old) matches) read
        (AddsNothing-not_public s.revisions hid refl) (is_pending r.status) old (ground arith) refl

  find-hid : find review_id r.id (put review_id hid s.reviews) ≡ some hid
  unfolding hid
  find-hid = ground (arith, find-put review_id r.id hid s.reviews)

  module _ (v : ReviewRevision)
      (found : find revision_key (r.id, r.current_revision) s.revisions ≡ some v) where
    published-IsStored : IsStored s.revisions (as_published r)
    published-IsStored = record {
      numbered = row.numbered;
      current = row.current;
      has_approved = (row.numbered, row.current);
      draft_unapproved = λ e. absurd (cc);
    }

    published-Adds : Adds s.revisions (as_published r) (review_group r) v
    unfolding approved
    published-Adds = Adds-approved s.revisions (as_published r) v refl found

    published_at :
        (rows : List CourseAggregate)
        → Matches rows s.revisions (put review_id hid s.reviews)
        → Matches
            (adjusted_rows plus v (review_group r) rows)
            s.revisions
            (put review_id (as_published r) s.reviews)
    unfolding hid
    published_at rows m = rw (put-put (as_published r) hid s.reviews refl) at (
        published-Matches rows s.revisions (put review_id hid s.reviews) m hid (as_published r)
          find-hid (review_group r) v (AddsNothing-not_public s.revisions hid refl) published-Adds)

    found_again : find revision_key (revision_key v) s.revisions ≡ some v
    found_again =
        subst (λ k. find revision_key k s.revisions ≡ some v)
          (sym (find-key revision_key (r.id, r.current_revision) v s.revisions found)) found

    published_found : allowed r.status published ≡ true → Goes published
    unfolding publish_if
    published_found may =
        let (can, m) = pending_taken_out may in
        let rows =
          retracted_if (is_pending r.status) (review_group r) old before_publish.aggregates in
        let last =
          approved_store now r v (retracted_store (is_pending r.status) r old before_publish) in
        let once = put-put (as_published r) (with_status published) s.reviews refl in
        (
          (announce nonce actor published reason r last).1,
          transition-ok now nonce actor published reason r s last may row.has_approved
              (no_retraction s.aggregates old)
              (publish-ok now r old v before_publish
                (total review_count (review_group r) s.revisions (put review_id hid s.reviews) + 1)
                found can
                (raised_count rows s.revisions (put review_id hid s.reviews) m (review_group r) v)),
          record {
            consistent = record {
              stored = rw once (
                  put-IsStored s.revisions (stamped now v)
                    (put review_id (as_published r) s.reviews)
                    (All-put (IsStored s.revisions) s.reviews (as_published r) stored
                      published-IsStored));
              matches = rw once (
                  stamped-Matches (adjusted_rows plus v (review_group r) rows) s.revisions v
                    (stamped now v) (put review_id (as_published r) s.reviews) found_again refl
                    (λ c. amount-stamped c) (published_at rows m));
            };
            reviews = once;
            accounts = refl;
          },
        )
      where
        amount-stamped : (c : Column) → amount c (stamped now v) ≡ amount c v
        amount-stamped review_count = refl
        amount-stamped Column.sum_overall = refl
        amount-stamped Column.sum_difficulty = refl
        amount-stamped Column.sum_workload = refl
        amount-stamped Column.recommend_count = refl

  published-Goes : allowed r.status published ≡ true → Goes published
  published-Goes may = published_found current_row.0 current_row.1 may

  -- On a consistent store a transition that `TRANSITIONS` allows, other than back to `draft`, goes
  -- through and leaves a consistent store.
  pub transition-Goes : (t : ReviewStatus) → allowed r.status t ≡ true → t ≢ draft → Goes t
  transition-Goes draft may other = absurd (other refl)
  transition-Goes submitted may other = submitted-Goes may
  transition-Goes published may other = published-Goes may
  transition-Goes hidden may other = hidden-Goes may
  transition-Goes rejected may other = rejected-Goes may
  transition-Goes withdrawn may other = withdrawn-Goes may
