-- ===== src/Assessment.antt =====
-- The assessment application (assessment/): timed tests of the support engineers' knowledge.
pub mod Constants
pub mod Grading
pub mod Validation
pub mod Random
pub mod Questions
pub mod Snapshot
pub mod Blueprint
pub mod Selection
pub mod Exam
pub mod Tests
