-- ===== src/Huajiao.antt =====
-- platforms/huajiao/: the client of the Huajiao web socket.
pub mod Protocol
pub mod Client
pub mod Packets
pub mod Parsing
pub mod Session
pub mod Events
