-- ===== src/Reviews/Tests.antt =====
-- The reviews at concrete inputs: one review from its draft to an edit after publication.
use boiler_reviews.Prelude.{
  ◌≡◌, refl, true, false, none, some, List, [], ◌∷◌, length, nat_eq, if◌then◌else◌,
}
use boiler_reviews.Prelude.Int.{pos, ◌+ℤ◌}
use boiler_reviews.Prelude.Table.{find, put, delete}
use boiler_reviews.Exec.{err, Outcome, ok, session_scope}
use boiler_reviews.Identity.{require_role}
use boiler_reviews.Reviews.Model.{submitted, published, rejected, Account, Review, Store, review_id}
use boiler_reviews.Reviews.Service.{
  transition, published_row, change, retract_if, retract, set_status, publish_if, publish, replace,
  approve, revision_row, moved_to,
}
use boiler_reviews.Reviews.Totals.{sum_overall, value, total}
use boiler_reviews.Reviews.Consistency.{IsConsistent}
use boiler_reviews.Reviews.Moves.{Moved, transition-Goes}
use boiler_reviews.Reviews.Operations.{
  ReviewInput, Op, perform, run, create_review, edit_review, submit_review, moderate_review,
  validate, field_errors, insert_review, add_revision, contribute, get_review, revise, decide,
}
use boiler_reviews.Reviews.Policy.{assert_review_contribution_allowed, default_policy, is_rejected}
use boiler_reviews.Reviews.Duplicates.{refusal, contribute-second}
use boiler_reviews.Reviews.Stats.{adjust_aggregate, remove_empty_aggregate, with_row, moved}
use boiler_reviews.Prelude.Text.{strip}
use boiler_reviews.Reviews.Reachable.{perform-Outcome, run-IsConsistent}
use boiler_reviews.Reviews.Reconcile.{full_recompute, add_groups, reconcile}
use boiler_reviews.Reviews.Agreement.{tallied, full_recompute-total, reconcile_after_requests}

abbrev moderator : Account
moderator = record { id = 9; roles_json = "moderator" ∷ [] }

abbrev empty_store : Store
empty_store = record {
  accounts = moderator ∷ [];
  reviews = [];
  revisions = [];
  aggregates = [];
  decisions = [];
  audits = [];
  outbox = [];
}

empty-IsConsistent : IsConsistent empty_store
unfolding value total find
empty-IsConsistent = record {
  stored = tt;
  matches = record { unique = tt; sums = λ c g. refl; nonempty = λ g a e. absurd (cc) };
}

abbrev input : ReviewInput
input = record {
  course_id = 3;
  term_id = 4;
  professor = " Knuth ";
  difficulty = pos 4;
  workload_hours = pos 10;
  overall = pos 5;
  would_recommend = true;
  comment = none;
}

-- Account 2 writes review 1, which is published, edited and published again.
abbrev requests : List Op
requests =
    Op.create 1 100 2 input none
    ∷ Op.submit 101 51 2 1
    ∷ Op.moderate 102 52 9 1 published "fine"
    ∷ Op.edit 103 2 1 (record input { overall = pos 2 }) 1
    ∷ []

run-IsConsistent_example : IsConsistent (run requests empty_store)
run-IsConsistent_example = run-IsConsistent requests empty_store empty-IsConsistent

abbrev edited_review : Review
edited_review = record {
  id = 1;
  account_id = 2;
  course_id = 3;
  term_id = 4;
  status = submitted;
  current_revision = 2;
  published_revision = some 1;
  client_request_id = none;
  created_at = 100;
}

-- The state after the four requests: the old revision still counts while the new one waits.
run-requests : (run requests empty_store).reviews ≡ edited_review ∷ []
unfolding run perform create_review edit_review submit_review moderate_review validate field_errors
    strip insert_review add_revision contribute assert_review_contribution_allowed get_review revise
    decide require_role transition published_row change retract_if retract set_status publish_if
    publish replace approve revision_row adjust_aggregate remove_empty_aggregate with_row
    session_scope find put delete moved ◌+ℤ◌
run-requests = refl

edited_found : find review_id 1 (run requests empty_store).reviews ≡ some edited_review
unfolding find
edited_found = rw run-requests refl

perform-Outcome_example :
    Outcome IsConsistent
      (perform (Op.moderate 104 60 9 1 published "better") (run requests empty_store))
perform-Outcome_example =
    perform-Outcome (Op.moderate 104 60 9 1 published "better") (run requests empty_store)
      (run-IsConsistent requests empty_store empty-IsConsistent)

transition-Goes_example :
    (s' : Store) × (transition 104 60 9 published "better" edited_review (run requests empty_store)
      ≡ (ok (moved_to published edited_review), s'))
    × Moved published edited_review (run requests empty_store) s'
transition-Goes_example =
    transition-Goes 104 60 9 "better" (run requests empty_store) edited_review
      (run-IsConsistent requests empty_store empty-IsConsistent) edited_found published refl
      (λ e. cc)

reconcile_after_requests_example : reconcile true (run requests empty_store) ≡ (
  ok (record {
    groups_checked = length (
        add_groups
          (full_recompute (run requests empty_store))
          (run requests empty_store).aggregates);
    mismatches = 0;
    repaired = 0;
  }),
  run requests empty_store,
)
reconcile_after_requests_example =
    reconcile_after_requests requests true empty_store empty-IsConsistent

full_recompute-total_example :
    tallied sum_overall (3, 4) (full_recompute (run requests empty_store))
    ≡ total sum_overall
        (3, 4)
        (run requests empty_store).revisions
        (run requests empty_store).reviews
full_recompute-total_example = full_recompute-total sum_overall (3, 4) (run requests empty_store)

abbrev refused_store : Store
refused_store = record empty_store { reviews = record edited_review { status = rejected } ∷ [] }

contribute-second_example :
    (assert_review_contribution_allowed default_policy 2 3 4 refused_store ≡ (
      if is_rejected rejected
      then (ok tt, refused_store)
      else (err (refusal false), refused_store)))
    × (contribute 5 200 2 input none refused_store
        ≡ (err (refusal (is_rejected rejected)), refused_store))
unfolding find
contribute-second_example =
    contribute-second 5 200 2 input none refused_store (record edited_review { status = rejected })
      refl refl
