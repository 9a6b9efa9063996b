-- ===== src/Mqtt5/Packet.antt =====
-- pkg/mqtt5/packet.go: the control packets. `Content` and `Packet` of a `ControlPacket` are one
-- field here, `content`: every constructor and setter keeps them the same.
use sky_tree.Common.{ℕ, ◌*◌, ◌%◌, Bool, Option, List, bit_or, if◌then◌else◌}
use sky_tree.Mqtt5.PacketTypes
use sky_tree.Mqtt5.PacketTypes.{PacketType}
use sky_tree.Mqtt5.Properties.{
  Bytes, PublishProperties, ConnectProperties, ConnAckProperties, SubscribeProperties,
  ReasonProperties, UnsubscribeProperties, DisconnectProperties, AuthProperties,
}

pub record Connect : Type 0 where
  pub will_message : Bytes
  pub password : Bytes
  pub username : Bytes
  pub protocol_name : Bytes
  pub client_id : Bytes
  pub will_topic : Bytes
  pub properties : Option ConnectProperties
  pub will_properties : Option PublishProperties
  pub keep_alive : ℕ
  pub protocol_version : ℕ
  pub will_qos : ℕ
  pub password_flag : Bool
  pub username_flag : Bool
  pub will_retain : Bool
  pub will_flag : Bool
  pub clean_start : Bool

pub record ConnAck : Type 0 where
  pub properties : Option ConnAckProperties
  pub reason_code : ℕ
  pub session_present : Bool

pub record Publish : Type 0 where
  pub payload : Bytes
  pub topic : Bytes
  pub properties : Option PublishProperties
  pub packet_id : ℕ
  pub qos : ℕ
  pub duplicate : Bool
  pub retain : Bool

-- PUBACK, PUBREC, PUBREL and PUBCOMP.
pub record Ack : Type 0 where
  pub properties : Option ReasonProperties
  pub packet_id : ℕ
  pub reason_code : ℕ

pub record SubOptions : Type 0 where
  pub topic : Bytes
  pub qos : ℕ
  pub retain_handling : ℕ
  pub no_local : Bool
  pub retain_as_published : Bool

pub record Subscribe : Type 0 where
  pub properties : Option SubscribeProperties
  pub subscriptions : List SubOptions
  pub packet_id : ℕ

-- SUBACK and UNSUBACK.
pub record CodeList : Type 0 where
  pub properties : Option ReasonProperties
  pub reasons : Bytes
  pub packet_id : ℕ

pub record Unsubscribe : Type 0 where
  pub topics : List Bytes
  pub properties : Option UnsubscribeProperties
  pub packet_id : ℕ

pub record Disconnect : Type 0 where
  pub properties : Option DisconnectProperties
  pub reason_code : ℕ

pub record Auth : Type 0 where
  pub properties : Option AuthProperties
  pub reason_code : ℕ

-- The interface `Packet` with the types that implement it.
pub data Packet : Type 0 where
  connect : Connect → Packet
  connack : ConnAck → Packet
  publish : Publish → Packet
  puback : Ack → Packet
  pubrec : Ack → Packet
  pubrel : Ack → Packet
  pubcomp : Ack → Packet
  subscribe : Subscribe → Packet
  suback : CodeList → Packet
  unsubscribe : Unsubscribe → Packet
  unsuback : CodeList → Packet
  pingreq : Packet
  pingresp : Packet
  disconnect : Disconnect → Packet
  auth : Auth → Packet

abbrev pub packet_type : Packet → PacketType
packet_type (connect _) = PacketTypes.connect
packet_type (connack _) = PacketTypes.connack
packet_type (publish _) = PacketTypes.publish
packet_type (puback _) = PacketTypes.puback
packet_type (pubrec _) = PacketTypes.pubrec
packet_type (pubrel _) = PacketTypes.pubrel
packet_type (pubcomp _) = PacketTypes.pubcomp
packet_type (subscribe _) = PacketTypes.subscribe
packet_type (suback _) = PacketTypes.suback
packet_type (unsubscribe _) = PacketTypes.unsubscribe
packet_type (unsuback _) = PacketTypes.unsuback
packet_type pingreq = PacketTypes.pingreq
packet_type pingresp = PacketTypes.pingresp
packet_type (disconnect _) = PacketTypes.disconnect
packet_type (auth _) = PacketTypes.auth

-- `(*Connect).PackFlags`; `WillQOS << 3` is a byte.
unfoldable pub pack_flags : Connect → ℕ
pack_flags c =
    let user = if c.username_flag then 0x80 else 0 in
    let pass = if c.password_flag then bit_or user 0x40 else user in
    let qos = bit_or (bit_or pass 0x04) (c.will_qos * 8 % 256) in
    let will = if c.will_flag then (if c.will_retain then bit_or qos 0x20 else qos) else pass in
    if c.clean_start then bit_or will 0x02 else will

-- `(*SubOptions).Pack`.
unfoldable pub pack : SubOptions → ℕ
pack s =
    let qos = s.qos % 4 in
    let local = if s.no_local then bit_or qos 0x04 else qos in
    let published = if s.retain_as_published then bit_or local 0x08 else local in
    bit_or published (s.retain_handling % 4 * 16)

-- `FixedHeader` is the embedded part of `ControlPacket`.
pub record FixedHeader : Type 0 where
  pub type : PacketType
  pub flags : ℕ
  pub remaining_length : ℕ

pub record ControlPacket : Type 0 where
  pub content : Option Packet
  pub header : FixedHeader
