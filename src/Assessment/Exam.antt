-- ===== src/Assessment/Exam.antt =====
-- The life of one attempt: started from an assignment, its questions opened and answered one by
-- one, then completed with a result.
pub mod Records
pub mod Answers
pub mod Flow
pub mod Results
pub mod Attempts
pub mod Life
