-- ===== src/Outbox.antt =====
-- src/boiler_reviews/tasks/outbox.py and tasks/projections.py: the events that wait to be handled.
pub mod Model
pub mod Events
pub mod Projection
pub mod Marks
pub mod Handled
pub mod Claimed
mod Delivered
mod Applied
mod Tests
