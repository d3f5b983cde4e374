-- ===== src/Achievements/Tests.antt =====
-- Runs on concrete data: two users, one definition with two tiers, and a digest that spells its value.
pub mod Samples
pub mod Life
pub mod Notices
