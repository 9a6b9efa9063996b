-- ===== src/Wire.antt =====
-- pkg/mqtt5/wire: the MQTT 5 packets on the wire.
pub mod Errors
pub mod Utf8
pub mod Bytes
pub mod Vbi
pub mod Properties
pub mod Reason
pub mod FixedHeader
pub mod Decode
pub mod Encode
pub mod Frame
pub mod RoundTrip
pub mod Accepts
mod Examples
