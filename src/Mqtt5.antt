-- ===== src/Mqtt5.antt =====
-- pkg/mqtt5: the packet types, the properties, the reason codes and the packets in memory.
pub mod Prop
pub mod PacketTypes
pub mod Properties
pub mod Packet
