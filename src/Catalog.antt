-- ===== src/Catalog.antt =====
-- Catalogs of src/boiler_reviews/catalog: the prerequisites (ast.py, parser.py and graph.py) and the
-- active snapshot (service.py).
pub mod Ast
pub mod Codec
pub mod Tokens
pub mod Parser
pub mod Prerequisites
pub mod Grammar
pub mod Evaluate
pub mod Graph
pub mod Paths
mod Dependencies
mod GraphTests
mod RoundTrip
mod Kleene
pub mod Snapshots
mod Active
pub mod Reads
pub mod Derives
mod Accepts
mod Grades
mod ParserTests
mod Tests
mod SnapshotTests
