-- ===== src/Wire/RoundTrip.antt =====
-- What an encoder accepts, its decoder reads back: the packets one by one, and whole frames.
pub mod Parts
pub mod Publish
pub mod Acks
pub mod Frame
pub mod Lists
pub mod Connect
pub mod Stream
