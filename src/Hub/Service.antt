-- ===== src/Hub/Service.antt =====
-- `MockHubService`, src/blizzard_mock/mock_hub/domain/service.py: claiming a chunk's route, moving it
-- through its graph, and the fence. A method is an action on the hub's state; what was written stays
-- written after a raise. `fnmatchcase` is the standard library's.
pub mod Guards
pub mod Route
pub mod Apply
pub mod Facts
pub mod Retire
