-- ===== src/Yy.antt =====
-- platforms/YY/: the client of the YY web socket.
pub mod Client
pub mod Comments
pub mod Timer
