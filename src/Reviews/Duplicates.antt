-- ===== src/Reviews/Duplicates.antt =====
-- A second contribution of an account for a course and a term.
use boiler_reviews.Prelude.{
  ℕ, ◌≡◌, refl, String, Bool, true, false, Option, none, some, inl, inr, Bool-cases, if◌then◌else◌,
  first, nat_eq, string_eq, option_eq,
}
use boiler_reviews.Prelude.Table.{find}
use boiler_reviews.Exec.{Result, Error, ok, err, conflict, integrity_error, bind-ok, bind-err}
use boiler_reviews.Reviews.Model.{Review, Store, review_id}
use boiler_reviews.Reviews.Policy.{
  default_policy, same_slot, is_rejected, assert_review_contribution_allowed,
}
use boiler_reviews.Reviews.Operations.{
  ReviewInput, contribute, insert_review, insert_contribution, first_revision, new_review,
}

-- What the second contribution raises, by the status of the first.
abbrev pub refusal : Bool → Error
refusal true = integrity_error "uq_review_account_course_term"
refusal false = conflict "This account already has a contribution for the course and term."

policy-second :
    (account course term : ℕ) (s : Store) (r : Review)
    → first (same_slot account course term) s.reviews ≡ some r
    → assert_review_contribution_allowed default_policy account course term s
      ≡ (if is_rejected r.status then (ok tt, s) else (err (refusal false), s))
unfolding assert_review_contribution_allowed
policy-second account course term s r found = elim (Bool-cases (is_rejected r.status)) [
  | inl rejected ↦ rw (found, rejected) refl
  | inr other ↦ rw (found, other) refl
]

insert_review-second :
    (r' : Review) (s : Store) (r : Review)
    → first (same_slot r'.account_id r'.course_id r'.term_id) s.reviews ≡ some r
    → find review_id r'.id s.reviews ≡ none
    → insert_review r' s ≡ (err (refusal true), s)
unfolding insert_review
insert_review-second r' s r found fresh = rw (fresh, found) refl

allowed_by : Bool → Store → Result (Unit {0}) × Store
allowed_by b s = if b then (ok tt, s) else (err (refusal false), s)

contribute-refused :
    (id now actor : ℕ) (d : ReviewInput) (key : Option String) (s : Store) (r : Review) (b : Bool)
    → assert_review_contribution_allowed default_policy actor d.course_id d.term_id s
      ≡ allowed_by b s
    → insert_review (new_review id now actor d key) s ≡ (err (refusal true), s)
    → contribute id now actor d key s ≡ (err (refusal b), s)
unfolding contribute allowed_by
contribute-refused id now actor d key s r true policy refused =
    bind-ok (assert_review_contribution_allowed default_policy actor d.course_id d.term_id)
      (λ _. insert_contribution id now actor d key) s policy
      (bind-err (insert_review (new_review id now actor d key))
        (λ _. first_revision id now actor d key) s refused)
contribute-refused id now actor d key s r false policy refused =
    bind-err (assert_review_contribution_allowed default_policy actor d.course_id d.term_id)
      (λ _. insert_contribution id now actor d key) s policy

-- An account that has a review for the course and the term gets no second one. The policy lets it
-- through exactly if the first one is rejected, and then the unique constraint of the table raises.
pub contribute-second :
    (id now actor : ℕ) (d : ReviewInput) (key : Option String) (s : Store) (r : Review)
    → first (same_slot actor d.course_id d.term_id) s.reviews ≡ some r
    → find review_id id s.reviews ≡ none
    → (assert_review_contribution_allowed default_policy actor d.course_id d.term_id s
        ≡ (if is_rejected r.status then (ok tt, s) else (err (refusal false), s)))
      × (contribute id now actor d key s ≡ (err (refusal (is_rejected r.status)), s))
unfolding allowed_by
contribute-second id now actor d key s r found fresh =
    let policy = policy-second actor d.course_id d.term_id s r found in
    (
      policy,
      contribute-refused id now actor d key s r (is_rejected r.status) policy
          (insert_review-second (new_review id now actor d key) s r found fresh),
    )
