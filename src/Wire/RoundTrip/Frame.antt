-- ===== src/Wire/RoundTrip/Frame.antt =====
-- The body of a packet of any type is read back.
use sky_tree.Common.{ℕ, ◌<◌, ◌≡◌, refl, subst, [], arith}
use sky_tree.Mqtt5.PacketTypes
use sky_tree.Mqtt5.PacketTypes.{PacketType}
use sky_tree.Mqtt5.Properties.{Bytes}
use sky_tree.Mqtt5.Packet.{Packet, Publish as PublishPacket, packet_type}
use sky_tree.Topic.Levels.{is_empty}
use sky_tree.Wire.Errors.{ok}
use sky_tree.Wire.Decode.{decode_content, decode_empty}
use sky_tree.Wire.Encode.{encode_packet}
use sky_tree.Wire.FixedHeader.{fixed_header_flags, publish_flags}
use sky_tree.Wire.Properties.RoundTrip.{ConnAckFits, DisconnectFits, AuthFits}
use sky_tree.Wire.Properties.Structs.{connack_properties, disconnect_properties, auth_properties}
use sky_tree.Wire.RoundTrip.Parts.{AllOf}
use sky_tree.Wire.RoundTrip.Publish.{IsPublish, decode_publish-encode_publish}
use sky_tree.Wire.RoundTrip.Publish
use sky_tree.Wire.RoundTrip.Connect.{IsConnect, decode_connect-encode_connect}
use sky_tree.Wire.RoundTrip.Connect
use sky_tree.Wire.RoundTrip.Acks.{
  received_connack, received_ack, received_disconnect, received_auth, decode_connack-encode_connack,
  decode_ack-encode_ack, decode_disconnect-encode_reason_packet, decode_auth-encode_reason_packet,
}
use sky_tree.Wire.RoundTrip.Lists.{
  received_subscribe, received_unsubscribe, received_codes, decode_subscribe-encode_subscribe,
  decode_unsubscribe-encode_unsubscribe, decode_code_list-encode_code_list,
}

-- The ranges of the Go types, binary properties that are not empty, and a QoS of PUBLISH that MQTT
-- has.
abbrev pub IsPacket : Packet → Type 0
IsPacket (Packet.connect p) = IsConnect p
IsPacket (Packet.connack p) = AllOf ConnAckFits p.properties
IsPacket (Packet.publish p) = IsPublish p
IsPacket (Packet.puback p) = p.packet_id < 65536
IsPacket (Packet.pubrec p) = p.packet_id < 65536
IsPacket (Packet.pubrel p) = p.packet_id < 65536
IsPacket (Packet.pubcomp p) = p.packet_id < 65536
IsPacket (Packet.subscribe p) = p.packet_id < 65536
IsPacket (Packet.suback p) = p.packet_id < 65536
IsPacket (Packet.unsubscribe p) = p.packet_id < 65536
IsPacket (Packet.unsuback p) = p.packet_id < 65536
IsPacket Packet.pingreq = Unit
IsPacket Packet.pingresp = Unit
IsPacket (Packet.disconnect p) = AllOf DisconnectFits p.properties
IsPacket (Packet.auth p) = AllOf AuthFits p.properties

-- The packet as it is read: properties that are not there are empty ones, and what a flag of CONNECT
-- leaves out is the zero value.
abbrev pub received : Packet → Packet
received (Packet.connect p) = Packet.connect (Connect.received p)
received (Packet.connack p) = Packet.connack (received_connack p)
received (Packet.publish p) = Packet.publish (Publish.received p)
received (Packet.puback p) = Packet.puback (received_ack p)
received (Packet.pubrec p) = Packet.pubrec (received_ack p)
received (Packet.pubrel p) = Packet.pubrel (received_ack p)
received (Packet.pubcomp p) = Packet.pubcomp (received_ack p)
received (Packet.subscribe p) = Packet.subscribe (received_subscribe p)
received (Packet.suback p) = Packet.suback (received_codes p)
received (Packet.unsubscribe p) = Packet.unsubscribe (received_unsubscribe p)
received (Packet.unsuback p) = Packet.unsuback (received_codes p)
received Packet.pingreq = Packet.pingreq
received Packet.pingresp = Packet.pingresp
received (Packet.disconnect p) = Packet.disconnect (received_disconnect p)
received (Packet.auth p) = Packet.auth (received_auth p)

pub fixed_header_flags-publish :
    (p : PublishPacket) (flags : ℕ)
    → fixed_header_flags (Packet.publish p) ≡ ok flags
    → publish_flags p ≡ flags
unfolding fixed_header_flags
fixed_header_flags-publish p flags h = ground arith

empty_body :
    (body : Bytes) (packet : PacketType) (p : Packet)
    → ok [] ≡ ok body
    → decode_empty packet p body ≡ ok (p, [])
unfolding decode_empty is_empty
empty_body body packet p h =
    let nil : [] ≡ body = cc in subst (λ xs. decode_empty packet p xs ≡ ok (p, [])) nil refl

-- The body of a packet is read back by the decoder that the fixed header selects.
pub decode_content-encode_packet :
    (p : Packet) (flags : ℕ) (body : Bytes)
    → IsPacket p
    → fixed_header_flags p ≡ ok flags
    → encode_packet p ≡ ok body
    → decode_content (packet_type p) flags body ≡ ok (received p, [])
unfolding decode_content encode_packet
decode_content-encode_packet (Packet.connect p) flags body fits f h =
    rw (decode_connect-encode_connect p body fits h)
decode_content-encode_packet (Packet.connack p) flags body fits f h =
    rw (decode_connack-encode_connack p body fits h)
decode_content-encode_packet (Packet.publish p) flags body fits f h =
    rw (← fixed_header_flags-publish p flags f, decode_publish-encode_publish p body fits h)
decode_content-encode_packet (Packet.puback p) flags body fits f h =
    rw (decode_ack-encode_ack PacketTypes.puback p body fits h)
decode_content-encode_packet (Packet.pubrec p) flags body fits f h =
    rw (decode_ack-encode_ack PacketTypes.pubrec p body fits h)
decode_content-encode_packet (Packet.pubrel p) flags body fits f h =
    rw (decode_ack-encode_ack PacketTypes.pubrel p body fits h)
decode_content-encode_packet (Packet.pubcomp p) flags body fits f h =
    rw (decode_ack-encode_ack PacketTypes.pubcomp p body fits h)
decode_content-encode_packet (Packet.subscribe p) flags body fits f h =
    rw (decode_subscribe-encode_subscribe p body fits h)
decode_content-encode_packet (Packet.suback p) flags body fits f h =
    rw (decode_code_list-encode_code_list PacketTypes.suback p body fits h)
decode_content-encode_packet (Packet.unsubscribe p) flags body fits f h =
    rw (decode_unsubscribe-encode_unsubscribe p body fits h)
decode_content-encode_packet (Packet.unsuback p) flags body fits f h =
    rw (decode_code_list-encode_code_list PacketTypes.unsuback p body fits h)
decode_content-encode_packet Packet.pingreq flags body fits f h =
    empty_body body PacketTypes.pingreq Packet.pingreq h
decode_content-encode_packet Packet.pingresp flags body fits f h =
    empty_body body PacketTypes.pingresp Packet.pingresp h
decode_content-encode_packet (Packet.disconnect p) flags body fits f h =
    rw (decode_disconnect-encode_reason_packet p body fits h)
decode_content-encode_packet (Packet.auth p) flags body fits f h =
    rw (decode_auth-encode_reason_packet p body fits h)
