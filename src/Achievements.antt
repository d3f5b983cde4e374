-- ===== src/Achievements.antt =====
-- The achievements application (achievements/): awards that are earned, upgraded and revoked, with
-- an append-only log, and their notifications.
pub mod Errors
pub mod Catalog
pub mod Records
pub mod Grants
pub mod Notifications
pub mod Life
pub mod Tests
