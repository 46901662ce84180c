-- ===== src/Tests.antt =====
-- Runs of the program on concrete inputs, with concrete functions for the code that is not its own.
pub mod Fixture
pub mod Rooms
pub mod StartRuns
pub mod Platform
pub mod DouyuRuns
pub mod BilibiliRuns
pub mod CommentRuns
pub mod YyRuns
pub mod HuajiaoRuns
pub mod Views
pub mod LockRuns
pub mod ProxyRuns
pub mod DeliveryRuns
