-- ===== src/Forge.antt =====
-- The mock forge, src/blizzard_mock/forge: issues, pulls, checks, levers and rate windows over a git
-- backend.
pub mod Models
pub mod Levers
pub mod Rate
pub mod State
pub mod Git
pub mod Service
pub mod Landing
pub mod Merges
pub mod Labels
pub mod Numbers
pub mod Windows
pub mod Armed
mod Tests
