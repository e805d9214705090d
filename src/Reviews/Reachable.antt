-- ===== src/Reviews/Reachable.antt =====
-- Every request keeps the invariant and raises no `AssertionError`; so does every sequence of them.
use mathlib.Core.Path.{subst}
use boiler_reviews.Prelude.{
  ℕ, ◌+◌, ◌≡◌, ◌≢◌, refl, sym, String, Option, none, some, List, [], ◌∷◌, ◌++◌, arith, ◌==◌, nat_eq,
  not,
}
use boiler_reviews.Prelude.Int.{pos}
use boiler_reviews.Prelude.Json.{str, num}
use boiler_reviews.Prelude.Table.{find, put}
use boiler_reviews.Exec.{
  pure, raise_if, gets, ◌>>=◌, ◌>>◌, session_scope, Outcome, Outcome-bind, Outcome-ok,
  session_scope-keeps, conflict, validation,
}
use boiler_reviews.Identity.{require_role}
use boiler_reviews.Reviews.Model.{
  ReviewStatus, draft, submitted, status_text, Review, Store, review_id,
}
use boiler_reviews.Reviews.Policy.{assert_review_contribution_allowed}
use boiler_reviews.Reviews.Service.{transition, audit}
use boiler_reviews.Reviews.Consistency.{IsConsistent}
use boiler_reviews.Reviews.Operations.{
  ReviewInput, insert_review, add_revision, new_review, revision_of, contribute, by_request,
  return_or_contribute, create_review, get_review, can_edit, edited, submission_time, revise,
  edit_review, submit_review, is_decision, record_decision, decide, moderate_review, is_withdrawn,
  Op, perform, run,
}
use boiler_reviews.Reviews.Inserts.{
  created-IsStored, created-Matches, edited-IsStored, edited-Matches,
}
use boiler_reviews.Reviews.Guards.{
  guarded, validated, insert_review-ok, insert_review-err, add_revision-ok, add_revision-err,
  transition-Outcome, on_review,
}

submit_review-Outcome :
    (now nonce actor id : ℕ) (s : Store)
    → IsConsistent s
    → Outcome IsConsistent (submit_review now nonce actor id s)
unfolding submit_review
submit_review-Outcome now nonce actor id s inv =
    let go = λ (r : Review). transition now nonce actor submitted "owner submission" r in
    on_review id (λ r. can_edit r actor >> go r) s
      λ r read.
        guarded _ _ (go r) s refl λ _.
          transition-Outcome now nonce actor submitted "owner submission" s r inv read (λ e. cc)

-- The decision is recorded beside the tables that the invariant is about.
record_decision-Outcome :
    (moderator : ℕ) (target : ReviewStatus) (reason : String) (r : Review) (s : Store)
    → IsConsistent s
    → Outcome IsConsistent (record_decision moderator target reason r s)
record_decision-Outcome moderator target reason r s inv = record {
  stored = inv.stored;
  matches = inv.matches;
}

decide-Outcome :
    (now nonce moderator : ℕ) (target : ReviewStatus) (reason : String) (r : Review) (s : Store)
    → IsConsistent s
    → find review_id r.id s.reviews ≡ some r
    → target ≢ draft
    → Outcome IsConsistent (decide now nonce moderator target reason r s)
unfolding decide
decide-Outcome now nonce moderator target reason r s inv read other =
    let whole = transition-Outcome now nonce moderator target reason s r inv read other in
    Outcome-bind IsConsistent (transition now nonce moderator target reason r)
      (record_decision moderator target reason) s (λ e t h. subst (Outcome IsConsistent) h whole)
      λ r' t h.
        record_decision-Outcome moderator target reason r' t
          (Outcome-ok IsConsistent _ r' t whole h)

moderate_review-Outcome :
    (now nonce moderator id : ℕ) (target : ReviewStatus) (reason : String) (s : Store)
    → IsConsistent s
    → Outcome IsConsistent (moderate_review now nonce moderator id target reason s)
unfolding moderate_review require_role
moderate_review-Outcome now nonce moderator id target reason s inv =
    let go = λ (r : Review). decide now nonce moderator target reason r in
    let checked = λ (r : Review).
      raise_if (not (is_decision target)) (validation "Unsupported moderation decision." [])
      >> go r in
    guarded _ _ (get_review id >>= checked) s refl λ _. on_review id checked s λ r read.
      guarded _ _ (go r) s refl λ decision.
        decide-Outcome now nonce moderator target reason r s inv read (λ e. ground arith)

revise-Outcome :
    (now actor : ℕ) (r : Review) (d : ReviewInput) (s : Store)
    → IsConsistent s
    → find review_id r.id s.reviews ≡ some r
    → Outcome IsConsistent (revise now actor r d s)
unfolding revise
revise-Outcome now actor r d s inv read =
    let w = revision_of r.id (r.current_revision + 1) (submission_time (edited r).status now) d in
    let s₁ = record s { reviews = put review_id (edited r) s.reviews } in
    let rest = λ (_ : Unit {0}).
      audit actor "review.edited" r.id (("revision", num (pos (r.current_revision + 1))) ∷ [])
      >> pure (edited r) in
    Outcome-bind IsConsistent (add_revision w) rest s₁ (λ e t. add_revision-err w s₁ t e)
      λ a t added.
        subst (λ u. Outcome IsConsistent (rest a u)) (sym (add_revision-ok w s₁ t a added))
          (record {
            stored = edited-IsStored s inv r read w refl;
            matches = edited-Matches s inv r read w refl;
          })

edit_review-Outcome :
    (now actor id : ℕ) (d : ReviewInput) (expected : ℕ) (s : Store)
    → IsConsistent s
    → Outcome IsConsistent (edit_review now actor id d expected s)
unfolding edit_review
edit_review-Outcome now actor id d expected s inv =
    let go = λ (r : Review). revise now actor r d in
    let live = λ (r : Review).
      raise_if (is_withdrawn r.status) (conflict "Withdrawn reviews cannot be edited.") >> go r in
    let fresh = λ (r : Review).
      raise_if (not (r.current_revision == expected))
        (conflict "The review changed since it was loaded; refresh before editing.")
      >> live r in
    let mine = λ (r : Review). can_edit r actor >> fresh r in
    validated d (get_review id >>= mine) s (
      on_review id mine s λ r read. guarded _ _ (fresh r) s refl λ _.
        guarded _ _ (live r) s refl
          λ _. guarded _ _ (go r) s refl λ _. revise-Outcome now actor r d s inv read)

contribute-Outcome :
    (id now actor : ℕ) (d : ReviewInput) (key : Option String) (s : Store)
    → IsConsistent s
    → Outcome IsConsistent (contribute id now actor d key s)
unfolding contribute assert_review_contribution_allowed
contribute-Outcome id now actor d key s inv =
    let r = new_review id now actor d key in
    let w = revision_of id 1 none d in
    let s₁ = record s { reviews = s.reviews ++ r ∷ [] } in
    let last = λ (_ : Unit {0}).
      audit actor "review.created" id (("status", str (status_text draft)) ∷ []) >> pure r in
    let filled = λ (_ : Unit {0}). add_revision w >>= last in
    guarded _ _ (insert_review r >>= filled) s refl λ _.
      Outcome-bind IsConsistent (insert_review r) filled s (λ e t. insert_review-err r s t e)
        λ a t added.
          subst (λ u. Outcome IsConsistent (filled a u)) (sym (insert_review-ok r s t a added))
            (Outcome-bind IsConsistent (add_revision w) last s₁ (λ e t'. add_revision-err w s₁ t' e)
              λ b t' written.
                subst (λ u. Outcome IsConsistent (last b u))
                  (sym (add_revision-ok w s₁ t' b written))
                  (record {
                    stored = created-IsStored s inv id now actor d key;
                    matches = created-Matches s inv id now actor d key;
                  }))

return_or_contribute-Outcome :
    (id now actor : ℕ) (d : ReviewInput) (key : Option String) (o : Option Review) (s : Store)
    → IsConsistent s
    → Outcome IsConsistent (return_or_contribute id now actor d key o s)
return_or_contribute-Outcome id now actor d key none s inv =
    contribute-Outcome id now actor d key s inv
return_or_contribute-Outcome id now actor d key (some r) s inv =
    guarded _ _ (pure r) s refl (λ _. inv)

create_review-Outcome :
    (id now actor : ℕ) (d : ReviewInput) (key : Option String) (s : Store)
    → IsConsistent s
    → Outcome IsConsistent (create_review id now actor d key s)
unfolding create_review
create_review-Outcome id now actor d key s inv =
    validated d (gets (by_request key) >>= return_or_contribute id now actor d key) s
      (return_or_contribute-Outcome id now actor d key (by_request key s) s inv)

-- On a consistent store a request leaves a consistent store or raises, and never an
-- `AssertionError`: no aggregate count falls below zero and no revision is missing.
pub perform-Outcome : (op : Op) (s : Store) → IsConsistent s → Outcome IsConsistent (perform op s)
unfolding perform
perform-Outcome (Op.create id now actor d key) s inv =
    create_review-Outcome id now actor d key s inv
perform-Outcome (Op.edit now actor id d expected) s inv =
    edit_review-Outcome now actor id d expected s inv
perform-Outcome (Op.submit now nonce actor id) s inv =
    submit_review-Outcome now nonce actor id s inv
perform-Outcome (Op.moderate now nonce moderator id target reason) s inv =
    moderate_review-Outcome now nonce moderator id target reason s inv

-- After any sequence of requests from a consistent store, each in its own session, the stored
-- aggregates are the totals over the public approved revisions, and every review has its revisions.
pub run-IsConsistent : (ops : List Op) (s : Store) → IsConsistent s → IsConsistent (run ops s)
unfolding run
run-IsConsistent [] s inv = inv
run-IsConsistent (op ∷ ops) s inv = run-IsConsistent ops (session_scope (perform op) s).1 (
    session_scope-keeps IsConsistent (perform op) s inv
      λ a s' h. Outcome-ok IsConsistent (perform op s) a s' (perform-Outcome op s inv) h)
