-- ===== src/Worker.antt =====
-- The control client that every worker runs: processor/control.rs, scanner/control.rs,
-- acceptor/control.rs, and the dialling of worker_common/dial.rs.
pub mod Control
mod Dial
