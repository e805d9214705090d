-- ===== src/Planning.antt =====
-- Degree planning: model.py, validator.py, oracle.py, audit.py and alternatives.py of
-- src/boiler_reviews/planning.
pub mod Model
pub mod Validator
pub mod Oracle
mod Met
mod Constraints
mod Entries
mod Groups
mod Sound
mod Turns
mod Optimum
pub mod Audit
mod Allocation
pub mod Alternatives
mod Dominance
mod Frontier
mod FrontierTests
mod Exclusive
mod AuditTests
mod Tests
