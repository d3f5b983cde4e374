-- ===== src/Sandbox.antt =====
-- The app sandbox: attempts at training tasks, their technical evidence and the progress in a queue.
pub mod Records
pub mod Evidence
pub mod Access
pub mod Progress
pub mod Tests
