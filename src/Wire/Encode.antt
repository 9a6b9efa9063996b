-- ===== src/Wire/Encode.antt =====
-- The encoders of pkg/mqtt5/wire/codec.go: each returns the bytes of the buffer.
use sky_tree.Common.{
  ℕ, Bool, false, not, ◌&&◌, Option, none, some, List, [], ◌∷◌, ◌++◌, ltb, ◌==◌, ◌!=◌, same_bytes,
  if◌then◌else◌, length,
}
use sky_tree.Mqtt5.PacketTypes
use sky_tree.Mqtt5.PacketTypes.{PacketType}
use sky_tree.Mqtt5.Properties.{Bytes, PublishProperties}
use sky_tree.Mqtt5.Packet.{
  Packet, Connect, ConnAck, Publish, Ack, SubOptions, Subscribe, CodeList, Unsubscribe, pack_flags,
  pack,
}
use sky_tree.Topic.Levels.{codes, is_empty}
use sky_tree.Wire.Errors.{Result, ok, malformed, unsupported_version, reject, ◌>>=◌, ◌>>◌}
use sky_tree.Wire.Bytes.{write_uint16, write_string, write_binary}
use sky_tree.Wire.Decode.{is_none, validate_topic_filter}
use sky_tree.Wire.Properties.{PropertyStruct, encode_properties, validate_topic_name}
use sky_tree.Wire.Properties.Append.{◌⨾◌}
use sky_tree.Wire.Properties.Structs.{
  publish_properties, connect_properties, connack_properties, subscribe_properties,
  reason_properties, unsubscribe_properties, disconnect_properties, auth_properties,
}
use sky_tree.Wire.Reason.{validate_reason, validate_reasons}

unfoldable pub validate_connect_for_encode : Connect → Result (Unit {0})
validate_connect_for_encode p = do
  let packet = PacketTypes.connect
  reject (ltb 2 p.will_qos) (malformed packet "connect flags" "will QoS must be 0, 1, or 2")
  reject (not p.will_flag && p.will_qos != 0)
      (malformed packet "connect flags" "will QoS must be zero when will flag is false")
  reject (not p.will_flag && p.will_retain)
      (malformed packet "connect flags" "will retain must be false when will flag is false")
  reject (p.password_flag && not p.username_flag)
      (malformed packet "connect flags" "password flag requires username flag")

unfoldable pub encode_will : Connect → Result Bytes
encode_will p =
    if p.will_flag
    then encode_properties PacketTypes.will_properties p.will_properties
      ⨾ (do
        validate_topic_name PacketTypes.connect "will topic" p.will_topic
        write_string PacketTypes.connect "will topic" p.will_topic)
      ⨾ write_binary PacketTypes.connect "will message" p.will_message
    else ok []

unfoldable pub encode_connect : Connect → Result Bytes
encode_connect p = do
  let packet = PacketTypes.connect
  validate_connect_for_encode p
  reject (not (same_bytes p.protocol_name (codes "MQTT")))
      (malformed packet "protocol name" "protocol name must be MQTT")
  reject (p.protocol_version != 5) unsupported_version
  write_string packet "protocol name" p.protocol_name
      ⨾ ok (p.protocol_version ∷ pack_flags p ∷ write_uint16 p.keep_alive)
      ⨾ encode_properties packet p.properties
      ⨾ write_string packet "client id" p.client_id
      ⨾ encode_will p
      ⨾ (if p.username_flag then write_string packet "username" p.username else ok [])
      ⨾ (if p.password_flag then write_binary packet "password" p.password else ok [])

unfoldable pub encode_connack : ConnAck → Result Bytes
encode_connack p = do
  let packet = PacketTypes.connack
  validate_reason packet p.reason_code
  reject (p.reason_code != 0 && p.session_present)
      (malformed packet "session present" "session present must be false for unsuccessful CONNACK")
  props ← encode_properties packet p.properties
  ok ((if p.session_present then 1 else 0) ∷ p.reason_code ∷ props)

abbrev pub has_alias : Option PublishProperties → Bool
has_alias none = false
has_alias (some props) = not (is_none props.topic_alias)

unfoldable pub encode_publish : Publish → Result Bytes
encode_publish p = do
  let packet = PacketTypes.publish
  reject (p.qos == 3) (malformed packet "qos" "PUBLISH QoS 3 is reserved")
  reject (p.qos == 0 && p.packet_id != 0)
      (malformed packet "packet identifier" "QoS 0 PUBLISH must not carry a packet identifier")
  reject (p.qos != 0 && p.packet_id == 0)
      (malformed packet "packet identifier" "packet identifier must be non-zero")
  (if is_empty p.topic
      then reject (not (has_alias p.properties))
          (malformed packet "topic name" "topic name is required unless topic alias is present")
      else validate_topic_name packet "topic name" p.topic)
  write_string packet "topic name" p.topic
      ⨾ ok (if p.qos == 0 then [] else write_uint16 p.packet_id)
      ⨾ encode_properties packet p.properties
      ⨾ ok p.payload

-- The properties are the length byte alone where there are none.
abbrev pub has_properties : Bytes → Bool
has_properties props = ltb 1 (length props)

unfoldable pub encode_ack : PacketType → Ack → Result Bytes
encode_ack packet p = do
  reject (p.packet_id == 0)
      (malformed packet "packet identifier" "packet identifier must be non-zero")
  validate_reason packet p.reason_code
  props ← encode_properties packet p.properties
  ok (
      if p.reason_code == 0 && length props == 1
      then write_uint16 p.packet_id
      else write_uint16 p.packet_id ++ p.reason_code ∷ (if has_properties props then props else []))

unfoldable pub validate_sub_options_for_encode : SubOptions → Result (Unit {0})
validate_sub_options_for_encode sub = do
  reject (ltb 2 sub.qos)
      (malformed PacketTypes.subscribe "subscription options" "QoS must be between 0 and 2")
  reject (ltb 2 sub.retain_handling) (
      malformed PacketTypes.subscribe "subscription options"
        "retain handling must be between 0 and 2")

unfoldable pub encode_sub_options : SubOptions → Result Bytes
encode_sub_options sub = do
  validate_topic_filter PacketTypes.subscribe "topic filter" sub.topic
  validate_sub_options_for_encode sub
  topic ← write_string PacketTypes.subscribe "topic filter" sub.topic
  ok (topic ++ pack sub ∷ [])

unfoldable pub encode_subscriptions : List SubOptions → Result Bytes
encode_subscriptions [] = ok []
encode_subscriptions (sub ∷ subs) = encode_sub_options sub ⨾ encode_subscriptions subs

unfoldable pub encode_subscribe : Subscribe → Result Bytes
encode_subscribe p = do
  let packet = PacketTypes.subscribe
  reject (p.packet_id == 0)
      (malformed packet "packet identifier" "packet identifier must be non-zero")
  reject (is_empty p.subscriptions)
      (malformed packet "topic filters" "at least one topic filter is required")
  ok (write_uint16 p.packet_id)
      ⨾ encode_properties packet p.properties
      ⨾ encode_subscriptions p.subscriptions

unfoldable pub encode_code_list : PacketType → CodeList → Result Bytes
encode_code_list packet p = do
  reject (p.packet_id == 0)
      (malformed packet "packet identifier" "packet identifier must be non-zero")
  reject (is_empty p.reasons)
      (malformed packet "reason codes" "at least one reason code is required")
  validate_reasons packet p.reasons
  ok (write_uint16 p.packet_id) ⨾ encode_properties packet p.properties ⨾ ok p.reasons

unfoldable pub encode_topic : Bytes → Result Bytes
encode_topic topic = do
  validate_topic_filter PacketTypes.unsubscribe "topic filter" topic
  write_string PacketTypes.unsubscribe "topic filter" topic

unfoldable pub encode_topics : List Bytes → Result Bytes
encode_topics [] = ok []
encode_topics (topic ∷ topics) = encode_topic topic ⨾ encode_topics topics

unfoldable pub encode_unsubscribe : Unsubscribe → Result Bytes
encode_unsubscribe p = do
  let packet = PacketTypes.unsubscribe
  reject (p.packet_id == 0)
      (malformed packet "packet identifier" "packet identifier must be non-zero")
  reject (is_empty p.topics)
      (malformed packet "topic filters" "at least one topic filter is required")
  ok (write_uint16 p.packet_id) ⨾ encode_properties packet p.properties ⨾ encode_topics p.topics

-- DISCONNECT and AUTH: the reason code, with the properties of either struct.
module _ {S : Type 0} ⦃struct : PropertyStruct S⦄ where
  unfoldable pub encode_reason_packet : PacketType → ℕ → Option S → Result Bytes
  encode_reason_packet packet reason props = do
    validate_reason packet reason
    bytes ← encode_properties packet props
    ok (
        if reason == 0 && length bytes == 1
        then []
        else reason ∷ (if has_properties bytes then bytes else []))

unfoldable pub encode_packet : Packet → Result Bytes
encode_packet (Packet.connect p) = encode_connect p
encode_packet (Packet.connack p) = encode_connack p
encode_packet (Packet.publish p) = encode_publish p
encode_packet (Packet.puback p) = encode_ack PacketTypes.puback p
encode_packet (Packet.pubrec p) = encode_ack PacketTypes.pubrec p
encode_packet (Packet.pubrel p) = encode_ack PacketTypes.pubrel p
encode_packet (Packet.pubcomp p) = encode_ack PacketTypes.pubcomp p
encode_packet (Packet.subscribe p) = encode_subscribe p
encode_packet (Packet.suback p) = encode_code_list PacketTypes.suback p
encode_packet (Packet.unsubscribe p) = encode_unsubscribe p
encode_packet (Packet.unsuback p) = encode_code_list PacketTypes.unsuback p
encode_packet Packet.pingreq = ok []
encode_packet Packet.pingresp = ok []
encode_packet (Packet.disconnect p) =
    encode_reason_packet PacketTypes.disconnect p.reason_code p.properties
encode_packet (Packet.auth p) = encode_reason_packet PacketTypes.auth p.reason_code p.properties
