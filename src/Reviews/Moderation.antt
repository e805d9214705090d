-- ===== src/Reviews/Moderation.antt =====
-- `vote_helpful` and `report_review` of src/boiler_reviews/reviews/moderation.py.
use boiler_reviews.Prelude.{
  ℕ, String, Bool, true, Option, none, some, List, [], ◌∷◌, ◌++◌, ◌==◌, nat_eq, pair_eq, ◌&&◌,
  first,
}
use boiler_reviews.Prelude.Text.{strip, is_empty}
use boiler_reviews.Prelude.Table.{find, put}
use boiler_reviews.Exec.{
  Exec, pure, gets, or_raise, modify, raise_if, ◌>>=◌, ◌>>◌, not_found, conflict,
}
use boiler_reviews.Reviews.Model.{Review, review_id}

pub record HelpfulVote : Type 0 where
  pub account_id : ℕ
  pub review_id : ℕ
  pub helpful : Bool

-- `open` says whether the status is "open".
pub record ReviewReport : Type 0 where
  pub account_id : ℕ
  pub review_id : ℕ
  pub reason : String
  pub is_open : Bool

-- The tables that the two operations use.
pub record Board : Type 0 where
  pub reviews : List Review
  pub votes : List HelpfulVote
  pub reports : List ReviewReport

abbrev pub vote_key : HelpfulVote → ℕ × ℕ
vote_key v = (v.account_id, v.review_id)

abbrev pub set_votes : List HelpfulVote → Board → Board
set_votes votes b = record b { votes = votes }

abbrev pub cast : HelpfulVote → Option HelpfulVote → Exec Board HelpfulVote
cast v none = do modify (λ b. set_votes (b.votes ++ v ∷ []) b); pure v
cast v (some old) = do modify (λ b. set_votes (put vote_key v b.votes) b); pure v

abbrev pub new_vote : ℕ → ℕ → Bool → HelpfulVote
new_vote account review helpful = record {
  account_id = account;
  review_id = review;
  helpful = helpful;
}

-- The vote of the account on the review is added, or its `helpful` replaced.
unfoldable pub vote_helpful : ℕ → ℕ → Bool → Exec Board HelpfulVote
vote_helpful account review helpful = do
  r ← or_raise (← gets (λ b. find review_id review b.reviews)) (not_found "Review not found.")
  raise_if (r.account_id == account) (conflict "Authors cannot vote on their own review.")
  old ← gets (λ b. find vote_key (account, review) b.votes)
  cast (new_vote account review helpful) old

abbrev pub is_open_report : ℕ → ℕ → ReviewReport → Bool
is_open_report account review x = x.account_id == account && x.review_id == review && x.is_open

abbrev pub new_report : ℕ → ℕ → String → ReviewReport
new_report account review reason = record {
  account_id = account;
  review_id = review;
  reason = reason;
  is_open = true;
}

abbrev pub file_report : ReviewReport → Option ReviewReport → Exec Board ReviewReport
file_report x (some existing) = pure existing
file_report x none = do modify (λ b. record b { reports = b.reports ++ x ∷ [] }); pure x

unfoldable pub report_review : ℕ → ℕ → String → Exec Board ReviewReport
unfolding strip
report_review account review reason = do
  or_raise (← gets (λ b. find review_id review b.reviews)) (not_found "Review not found.")
  raise_if (is_empty (strip reason)) (conflict "A moderation report needs a reason.")
  existing ← gets (λ b. first (is_open_report account review) b.reports)
  file_report (new_report account review (strip reason)) existing
