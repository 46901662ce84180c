-- ===== src/Utils.antt =====
-- The helpers of utils/.
pub mod Numbers
pub mod Gzip
pub mod Digests
pub mod Random
