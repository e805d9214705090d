-- ===== src/Reviews/Votes.antt =====
-- One vote per account and review, never on one's own, and one open report.
use boiler_reviews.Prelude.{
  ℕ, ◌≡◌, refl, String, Bool, true, false, Option, none, some, List, [], ◌∷◌, ◌++◌, arith, ◌==◌,
  nat_eq, pair_eq, if◌then◌else◌, first, ◌⊎◌, inl, inr, Bool-cases, Option-cases,
}
use boiler_reviews.Prelude.Classes.{pair_beq_iff}
use boiler_reviews.Prelude.Text.{strip, is_empty}
use boiler_reviews.Prelude.Table.{
  find, find-put, find-append, HasUniqueKeys, put-HasUniqueKeys, append-HasUniqueKeys,
}
use boiler_reviews.Exec.{Error, ok, err, not_found, conflict}
use boiler_reviews.Reviews.Model.{Review, review_id}
use boiler_reviews.Reviews.Moderation.{
  HelpfulVote, ReviewReport, Board, vote_key, cast, new_vote, vote_helpful, is_open_report,
  new_report, report_review,
}

cast-find :
    (v : HelpfulVote) (b : Board) (k : ℕ × ℕ)
    → find vote_key k (cast v (find vote_key (vote_key v) b.votes) b).1.votes
      ≡ (if vote_key v == k then some v else find vote_key k b.votes)
cast-find v b k = elim (Option-cases (find vote_key (vote_key v) b.votes)) [
  | inl missing ↦ rw missing (
      unfold find in
      ground (arith, missing, pair_beq_iff (vote_key v) k, find-append vote_key k b.votes (v ∷ [])))
  | inr (old, found) ↦
      rw found (ground (arith, found, pair_beq_iff (vote_key v) k, find-put vote_key k v b.votes))
]

cast-HasUniqueKeys :
    (v : HelpfulVote) (b : Board)
    → HasUniqueKeys vote_key b.votes
    → HasUniqueKeys vote_key (cast v (find vote_key (vote_key v) b.votes) b).1.votes
cast-HasUniqueKeys v b u = elim (Option-cases (find vote_key (vote_key v) b.votes)) [
  | inl missing ↦ rw missing (append-HasUniqueKeys vote_key b.votes v u missing)
  | inr (old, found) ↦ rw found (put-HasUniqueKeys vote_key v b.votes u)
]

cast-ok :
    (v : HelpfulVote) (o : Option HelpfulVote) (b : Board) → cast v o b ≡ (ok v, (cast v o b).1)
cast-ok v none b = refl
cast-ok v (some old) b = refl

-- `vote_helpful` raises and changes nothing if the review is missing or the account's own. Otherwise
-- the account's vote on the review is the new one, every other vote is as before, and there is still
-- one vote for an account and a review.
pub vote_helpful_lem :
    (account review : ℕ) (helpful : Bool) (b : Board)
    → HasUniqueKeys vote_key b.votes
    → ((e : Error) × (vote_helpful account review helpful b ≡ (err e, b))
        × ((r : Review) → find review_id review b.reviews ≡ some r → r.account_id ≡ account))
      ⊎ ((b' : Board) × ((r : Review) × (find review_id review b.reviews ≡ some r)
            × ((r.account_id == account) ≡ false))
          × (vote_helpful account review helpful b ≡ (ok (new_vote account review helpful), b'))
          × HasUniqueKeys vote_key b'.votes
          × ((k : ℕ × ℕ)
              → find vote_key k b'.votes ≡ (
                  if (account, review) == k
                  then some (new_vote account review helpful)
                  else find vote_key k b.votes)))
unfolding vote_helpful
vote_helpful_lem account review helpful b u =
    let v = new_vote account review helpful in
    elim (Option-cases (find review_id review b.reviews)) [
      | inl missing ↦ inl (not_found "Review not found.", rw missing refl, λ r h. absurd (cc))
      | inr (r, found) ↦ elim (Bool-cases (r.account_id == account)) [
        | inl own ↦ inl (
          conflict "Authors cannot vote on their own review.",
          rw (found, own) refl,
          λ r' h. ground arith,
        )
        | inr other ↦ inr (
          (cast v (find vote_key (vote_key v) b.votes) b).1,
          (r, found, other),
          rw (found, other) (cast-ok v (find vote_key (vote_key v) b.votes) b),
          cast-HasUniqueKeys v b u,
          cast-find v b,
        )
      ]
    ]

first-append :
    (p : ReviewReport → Bool) (xs : List ReviewReport) (x : ReviewReport)
    → first p xs ≡ none
    → p x ≡ true
    → first p (xs ++ x ∷ []) ≡ some x
first-append p [] x h fits = ground arith
first-append p (y ∷ xs) x h fits = ground (arith, first-append p xs x)

-- A second report of the same account on the same review, whatever its reason if it is not blank,
-- returns the open report and changes nothing, after a first one that succeeded.
pub report_review-again :
    (account review : ℕ) (reason again : String) (b b' : Board) (x : ReviewReport)
    → report_review account review reason b ≡ (ok x, b')
    → is_empty (strip again) ≡ false
    → report_review account review again b' ≡ (ok x, b')
unfolding report_review
report_review-again account review reason again b b' x done given =
    elim (Option-cases (find review_id review b.reviews)) [
      | inl missing ↦ absurd (ground arith)
      | inr (r, found) ↦ elim (Bool-cases (is_empty (strip reason))) [
        | inl blank ↦ absurd (ground arith)
        | inr given' ↦ elim (Option-cases (first (is_open_report account review) b.reports)) [
          | inl none_open ↦ ground (
            arith,
            first-append (is_open_report account review) b.reports
                (new_report account review (strip reason)) none_open,
          )
          | inr (existing, old) ↦ ground arith
        ]
      ]
    ]
