-- ===== src/Reviews/Guards.antt =====
-- The steps that the requests share: guards, reads, inserts and the transition, as outcomes.
use mathlib.Core.Path.{subst}
use boiler_reviews.Prelude.{
  ℕ, ◌≡◌, ◌≢◌, refl, sym, String, Bool, true, false, some, [], ◌∷◌, ◌++◌, arith, nat_eq, Bool-cases,
  inl, inr,
}
use boiler_reviews.Prelude.Table.{find, find-key}
use boiler_reviews.Exec.{
  Exec, ok, err, Error, is_assertion, raise_if, ◌>>=◌, ◌>>◌, Outcome, Outcome-bind,
}
use boiler_reviews.Reviews.Model.{ReviewStatus, draft, Review, ReviewRevision, Store, review_id}
use boiler_reviews.Reviews.Service.{allowed, transition}
use boiler_reviews.Reviews.Steps.{transition-conflict}
use boiler_reviews.Reviews.Consistency.{IsConsistent}
use boiler_reviews.Reviews.Moves.{transition-Goes}
use boiler_reviews.Reviews.Operations.{
  ReviewInput, validate, insert_review, add_revision, get_review,
}

pub validate-err :
    (d : ReviewInput) (s t : Store) (e : Error) → validate d s ≡ (err e, t) → is_assertion e ≡ false
unfolding validate
validate-err d s t e h = ground arith

pub validate-ok : (d : ReviewInput) (s t : Store) (a : Unit {0}) → validate d s ≡ (ok a, t) → t ≡ s
unfolding validate
validate-ok d s t a h = ground arith

-- A guard that passes.
pub guarded :
    {A : Type 0} (b : Bool) (e : Error) (k : Exec Store A) (s : Store)
    → is_assertion e ≡ false
    → (b ≡ false → Outcome IsConsistent (k s))
    → Outcome IsConsistent ((raise_if b e >> k) s)
guarded true e k s plain go = plain
guarded false e k s plain go = go refl

pub validated :
    {A : Type 0} (d : ReviewInput) (k : Exec Store A) (s : Store)
    → Outcome IsConsistent (k s)
    → Outcome IsConsistent ((validate d >> k) s)
validated d k s h =
    Outcome-bind IsConsistent (validate d) (λ _. k) s (λ e t. validate-err d s t e)
      λ a t e. subst (λ u. Outcome IsConsistent (k u)) (sym (validate-ok d s t a e)) h

pub get_review-ok :
    (id : ℕ) (s t : Store) (r : Review)
    → get_review id s ≡ (ok r, t)
    → (find review_id id s.reviews ≡ some r) × (t ≡ s)
unfolding get_review
get_review-ok id s t r h = ground arith

pub get_review-err :
    (id : ℕ) (s t : Store) (e : Error) → get_review id s ≡ (err e, t) → is_assertion e ≡ false
unfolding get_review
get_review-err id s t e h = ground arith

pub insert_review-ok :
    (r : Review) (s t : Store) (a : Unit {0})
    → insert_review r s ≡ (ok a, t)
    → t ≡ record s { reviews = s.reviews ++ r ∷ [] }
unfolding insert_review
insert_review-ok r s t a h = ground arith

pub insert_review-err :
    (r : Review) (s t : Store) (e : Error) → insert_review r s ≡ (err e, t) → is_assertion e ≡ false
unfolding insert_review
insert_review-err r s t e h = ground arith

pub add_revision-ok :
    (v : ReviewRevision) (s t : Store) (a : Unit {0})
    → add_revision v s ≡ (ok a, t)
    → t ≡ record s { revisions = s.revisions ++ v ∷ [] }
unfolding add_revision
add_revision-ok v s t a h = ground arith

pub add_revision-err :
    (v : ReviewRevision) (s t : Store) (e : Error)
    → add_revision v s ≡ (err e, t)
    → is_assertion e ≡ false
unfolding add_revision
add_revision-err v s t e h = ground arith

-- A transition of a stored review, to a status other than `draft`.
pub transition-Outcome :
    (now nonce actor : ℕ) (target : ReviewStatus) (reason : String) (s : Store) (r : Review)
    → IsConsistent s
    → find review_id r.id s.reviews ≡ some r
    → target ≢ draft
    → Outcome IsConsistent (transition now nonce actor target reason r s)
transition-Outcome now nonce actor target reason s r inv read other =
    elim (Bool-cases (allowed r.status target)) [
      | inl may ↦
          let (s', goes, moved) =
            transition-Goes now nonce actor reason s r inv read target may other in
          subst (Outcome IsConsistent) (sym goes) moved.consistent
      | inr not_allowed ↦
          subst (Outcome IsConsistent)
            (sym (transition-conflict now nonce actor target reason r s not_allowed)) refl
    ]

-- A request on a review that is there.
pub on_review :
    {A : Type 0} (id : ℕ) (k : Review → Exec Store A) (s : Store)
    → ((r : Review) → find review_id r.id s.reviews ≡ some r → Outcome IsConsistent (k r s))
    → Outcome IsConsistent ((get_review id >>= k) s)
on_review id k s h =
    Outcome-bind IsConsistent (get_review id) k s (λ e t. get_review-err id s t e)
      λ r t got.
        let (found, same) = get_review-ok id s t r got in
        let key = find-key review_id id r s.reviews found in
        subst (λ u. Outcome IsConsistent (k r u)) (sym same)
          (h r (subst (λ k'. find review_id k' s.reviews ≡ some r) (sym key) found))
