-- ===== src/Tests.antt =====
-- Concrete instances of what the program takes from elsewhere, and each law at work on them.
pub mod Setup
pub mod Vote
pub mod Node
pub mod Start
pub mod Layout
pub mod Wire
pub mod Runs
pub mod View
