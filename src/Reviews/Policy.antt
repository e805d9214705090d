-- ===== src/Reviews/Policy.antt =====
-- src/boiler_reviews/reviews/policy.py: who may contribute again, and the states of an appeal.
use boiler_reviews.Prelude.{
  ℕ, Bool, true, false, Option, none, some, ◌==◌, nat_eq, ◌&&◌, not, first,
}
use boiler_reviews.Exec.{Exec, raise_if, conflict}
use boiler_reviews.Reviews.Model.{ReviewStatus, rejected, Review, Store}

pub data AppealState : Type 0 where
  opened reviewing resolved withdrawn : AppealState

abbrev pub allowed_appeal_transition : AppealState → AppealState → Bool
allowed_appeal_transition opened reviewing = true
allowed_appeal_transition opened withdrawn = true
allowed_appeal_transition reviewing resolved = true
allowed_appeal_transition reviewing withdrawn = true
allowed_appeal_transition _ _ = false

pub record DuplicatePolicy : Type 0 where
  pub one_account_course_term : Bool
  pub allow_resubmission_after_rejection : Bool

abbrev pub default_policy : DuplicatePolicy
default_policy = record {
  one_account_course_term = true;
  allow_resubmission_after_rejection = true;
}

abbrev pub same_slot : ℕ → ℕ → ℕ → Review → Bool
same_slot account course term r =
    r.account_id == account && r.course_id == course && r.term_id == term

abbrev pub is_rejected : ReviewStatus → Bool
is_rejected rejected = true
is_rejected _ = false

abbrev pub blocks : DuplicatePolicy → Option Review → Bool
blocks policy none = false
blocks policy (some r) = not (policy.allow_resubmission_after_rejection && is_rejected r.status)

unfoldable pub assert_review_contribution_allowed :
    DuplicatePolicy → ℕ → ℕ → ℕ → Exec Store (Unit {0})
assert_review_contribution_allowed policy account course term s =
    raise_if
      (policy.one_account_course_term
        && blocks policy (first (same_slot account course term) s.reviews))
      (conflict "This account already has a contribution for the course and term.") s
