-- ===== src/Runner.antt =====
-- The mock runner, src/blizzard_mock/mock_runner/domain: the driver that claims chunks from a hub and
-- reports on them, under levers that distort its calls.
pub mod Models
pub mod Gateway
pub mod Service
pub mod Drive
pub mod Numbering
pub mod Selecting
pub mod Holding
mod Tests
