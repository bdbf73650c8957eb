-- ===== src/Constraints.antt =====
-- constraints.py: the constraints that artifacts are to meet, and the cross validation of artifacts.
pub mod Data
pub mod Kinds
pub mod Extract
pub mod Index
pub mod Structure
pub mod Presence
pub mod Checks
pub mod Coverage
pub mod Cross
pub mod Toml
mod Tests
