-- ===== src/Acceptor.antt =====
-- acceptor.rs and its folder: the workers that accept clients and carry their bytes to the processor.
pub mod Bridge
pub mod Accept
pub mod Drain
pub mod Upgrade
