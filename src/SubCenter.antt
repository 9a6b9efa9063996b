-- ===== src/SubCenter.antt =====
pub mod Tree
pub mod Core
pub mod Match
pub mod Center
mod Examples
