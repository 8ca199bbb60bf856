-- ===== src/Extraction.antt =====
-- app/services/extraction: the task-wide budget of unpacked files and bytes, and the selection of an
-- archive's members.
pub mod Budget
pub mod Patterns
pub mod Selection
pub mod Matching
mod Tests
