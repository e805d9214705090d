-- ===== src/Reviews/VoteTests.antt =====
-- Votes and reports at concrete inputs.
use boiler_reviews.Prelude.{
  ℕ, ◌≡◌, refl, true, false, none, some, [], ◌∷◌, ◌==◌, nat_eq, pair_eq, ◌⊎◌, if◌then◌else◌,
}
use boiler_reviews.Prelude.Table.{find, HasUniqueKeys}
use boiler_reviews.Prelude.Text.{strip, is_space, lstrip, rstrip}
use boiler_reviews.Exec.{Error, ok, err}
use boiler_reviews.Reviews.Model.{Review, published, review_id}
use boiler_reviews.Reviews.Moderation.{
  Board, vote_key, new_vote, vote_helpful, new_report, report_review,
}
use boiler_reviews.Reviews.Votes.{vote_helpful_lem, report_review-again}

abbrev review : Review
review = record {
  id = 1;
  account_id = 2;
  course_id = 3;
  term_id = 4;
  status = published;
  current_revision = 1;
  published_revision = some 1;
  client_request_id = none;
  created_at = 100;
}

abbrev board : Board
board = record {
  reviews = review ∷ [];
  votes = new_vote 5 1 true ∷ [];
  reports = new_report 5 1 "spam" ∷ [];
}

vote_helpful_lem_example :
    ((e : Error) × (vote_helpful 5 1 false board ≡ (err e, board))
      × ((r : Review) → find review_id 1 board.reviews ≡ some r → r.account_id ≡ 5))
    ⊎ ((b' : Board) × ((r : Review) × (find review_id 1 board.reviews ≡ some r)
          × ((r.account_id == 5) ≡ false))
        × (vote_helpful 5 1 false board ≡ (ok (new_vote 5 1 false), b'))
        × HasUniqueKeys vote_key b'.votes
        × ((k : ℕ × ℕ)
            → find vote_key k b'.votes
              ≡ (if (5, 1) == k then some (new_vote 5 1 false) else find vote_key k board.votes)))
unfolding find
vote_helpful_lem_example = vote_helpful_lem 5 1 false board (refl, tt)

report_review-again_example :
    report_review 5 1 "still spam" board ≡ (ok (new_report 5 1 "spam"), board)
unfolding report_review strip lstrip rstrip is_space find
report_review-again_example =
    report_review-again 5 1 "rude" "still spam" board board (new_report 5 1 "spam") refl refl
