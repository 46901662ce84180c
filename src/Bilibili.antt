-- ===== src/Bilibili.antt =====
-- platforms/bilibili/: the client of the Bilibili barrage server, from the HTTP request that asks
-- for its address to the messages that it sends.
pub mod Client
pub mod Packets
pub mod Http
pub mod Barrage
pub mod Life
