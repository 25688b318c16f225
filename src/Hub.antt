-- ===== src/Hub.antt =====
-- The mock hub, src/blizzard_mock/mock_hub: the chunk state machine and the service over it.
pub mod Models
pub mod Chunk
pub mod State
pub mod Levers
pub mod Matching
pub mod Service
pub mod Api
pub mod Coherent
pub mod Moves
pub mod Frames
pub mod Handlers
pub mod FactWrites
pub mod Evolution
pub mod Passing
pub mod Facts
pub mod Transcripts
pub mod Registry
pub mod Questions
pub mod Peek
pub mod Routes
pub mod Retiring
pub mod Recorded
pub mod Fence
pub mod Claims
pub mod Refusals
pub mod Run
pub mod Lock
mod Tests
