-- ===== src/Runner/Service.antt =====
-- `MockRunnerService`, src/blizzard_mock/mock_runner/domain/service.py, over any gateway. A verb runs on
-- the driver's state and the gateway's. `time.sleep` only takes time, and is left out.
pub mod Base
pub mod Leases
pub mod Reports
