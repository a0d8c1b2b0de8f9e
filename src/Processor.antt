-- ===== src/Processor.antt =====
-- processor.rs and its folder: the worker that echoes lines, and that hands its sessions to a new image
-- of itself.
pub mod Codec
pub mod Session
pub mod Registry
pub mod Upgrade
