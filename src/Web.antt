-- ===== src/Web.antt =====
-- apps/web/src: the part of the interface's server that has rules of its own.
pub mod Proxy
pub mod Entry
pub mod Positions
