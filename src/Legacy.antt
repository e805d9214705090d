-- ===== src/Legacy.antt =====
-- The import of the first release's SQLite database: src/boiler_reviews/db/legacy.py.
pub mod Model
pub mod Inspect
pub mod Import
mod Settles
mod Rows
mod Reviews
mod Complete
mod Twice
mod Tests
