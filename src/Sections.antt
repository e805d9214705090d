-- ===== src/Sections.antt =====
-- Section schedules: src/boiler_reviews/sections/scheduler.py and linked.py.
pub mod Scheduler
pub mod Linked
mod Search
mod Choice
mod Blocked
mod Tests
