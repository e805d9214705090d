-- ===== src/Reviews.antt =====
-- src/boiler_reviews/reviews: reviews with their revisions and states, the aggregates that are kept
-- beside them, and the work of the moderators.
pub mod Model
pub mod Stats
pub mod Service
pub mod Totals
pub mod Sums
pub mod Transition
pub mod Steps
pub mod Consistency
pub mod Removal
pub mod Moves
pub mod Policy
pub mod Operations
pub mod Inserts
pub mod Guards
pub mod Reachable
pub mod Reconcile
pub mod Agreement
pub mod Moderation
pub mod Query
pub mod Order
mod Pages
mod Votes
mod Duplicates
mod Tests
mod VoteTests
mod PageTests
