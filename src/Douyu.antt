-- ===== src/Douyu.antt =====
-- platforms/douyu/: the client of the Douyu barrage server.
pub mod Stt
pub mod Wire
pub mod Client
pub mod Reading
pub mod Messages
pub mod Life
