-- ===== src/Assessment/Tests.antt =====
-- Runs on concrete data: a generator that draws in order, a small question bank, and an exam on it.
pub mod Generator
pub mod Samples
pub mod Grading
pub mod Questions
pub mod Exam
pub mod Results
pub mod Life
