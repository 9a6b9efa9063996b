-- ===== src/Wire/Accepts.antt =====
-- What the decoder accepts: how much it reads, what a packet that it returns is like, and that it
-- always comes to an end.
pub mod Frame
pub mod ConnAck
pub mod Layout
pub mod Packets
pub mod Reads
pub mod Sections
pub mod Ends
pub mod Termination
