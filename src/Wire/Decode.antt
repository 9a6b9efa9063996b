-- ===== src/Wire/Decode.antt =====
-- The decoders of pkg/mqtt5/wire/codec.go. Each takes the bytes of the cursor and returns the rest.
use sky_tree.Common.{
  ℕ, zero, suc, ◌/◌, ◌%◌, String, Bool, true, false, not, ◌&&◌, Option, none, some, List, [], ◌∷◌,
  ◌==◌, ◌!=◌, same_bytes, if◌then◌else◌, length,
}
use sky_tree.Mqtt5.PacketTypes
use sky_tree.Mqtt5.PacketTypes.{PacketType}
use sky_tree.Mqtt5.Properties.{Bytes}
use sky_tree.Mqtt5.Packet.{
  Packet, Connect, ConnAck, Publish, Ack, SubOptions, Subscribe, CodeList, Unsubscribe, Disconnect,
  Auth,
}
use sky_tree.Topic.{validate_topic_filter_syntax, filter_message}
use sky_tree.Topic.Levels.{codes, is_empty}
use sky_tree.Wire.Errors.{
  out_of_fuel, Result, ok, err, malformed, unsupported_version, reject, ◌>>=◌, ◌>>◌,
}
use sky_tree.Wire.Bytes.{read_byte, read_uint16, read_string, read_binary}
use sky_tree.Wire.FixedHeader.{bit}
use sky_tree.Wire.Properties.{decode_properties, validate_topic_name}
use sky_tree.Wire.Properties.Structs.{
  publish_properties, connect_properties, connack_properties, subscribe_properties,
  reason_properties, unsubscribe_properties, disconnect_properties, auth_properties,
  empty_disconnect_properties, empty_auth_properties, empty_reason_properties,
}
use sky_tree.Wire.Reason.{validate_reason, validate_reasons}

unfoldable pub validate_topic_filter : PacketType → String → Bytes → Result (Unit {0})
validate_topic_filter packet field topic = elim (validate_topic_filter_syntax topic) [
  | none ↦ ok tt
  | some e ↦ err (malformed packet field (filter_message e))
]

-- A two byte packet identifier that is not zero.
unfoldable pub read_packet_id : PacketType → Bytes → Result (ℕ × Bytes)
read_packet_id packet bs = do
  (id, rest) ← read_uint16 packet "packet identifier" bs
  reject (id == 0) (malformed packet "packet identifier" "packet identifier must be non-zero")
  ok (id, rest)

-- The zero value of the struct.
abbrev pub empty_connect : Connect
empty_connect = record {
  will_message = [];
  password = [];
  username = [];
  protocol_name = [];
  client_id = [];
  will_topic = [];
  properties = none;
  will_properties = none;
  keep_alive = 0;
  protocol_version = 0;
  will_qos = 0;
  password_flag = false;
  username_flag = false;
  will_retain = false;
  will_flag = false;
  clean_start = false;
}

unfoldable pub unpack_connect_flags : Connect → ℕ → Result Connect
unpack_connect_flags out flags = do
  let packet = PacketTypes.connect
  reject (bit 0 flags) (malformed packet "connect flags" "reserved bit must be zero")
  let will = bit 2 flags
  let qos = flags / 8 % 4
  reject (not will && qos != 0)
      (malformed packet "connect flags" "will QoS must be zero when will flag is false")
  reject (not will && bit 5 flags)
      (malformed packet "connect flags" "will retain must be false when will flag is false")
  reject (qos == 3) (malformed packet "connect flags" "will QoS 3 is reserved")
  reject (bit 6 flags && not (bit 7 flags))
      (malformed packet "connect flags" "password flag requires username flag")
  ok (record out {
    clean_start = bit 1 flags;
    will_flag = will;
    will_qos = qos;
    will_retain = bit 5 flags;
    password_flag = bit 6 flags;
    username_flag = bit 7 flags;
  })

-- The parts of the payload that stand there if their flag is set.
unfoldable pub decode_will : Connect → Bytes → Result (Connect × Bytes)
decode_will out bs =
    if out.will_flag
    then (do
      (props, b₁) ← decode_properties PacketTypes.will_properties bs
      (topic, b₂) ← read_string PacketTypes.connect "will topic" b₁
      validate_topic_name PacketTypes.connect "will topic" topic
      (message, b₃) ← read_binary PacketTypes.connect "will message" b₂
      ok (
        record out { will_properties = some props; will_topic = topic; will_message = message },
        b₃,
      ))
    else ok (out, bs)

unfoldable pub decode_username : Connect → Bytes → Result (Connect × Bytes)
decode_username out bs =
    if out.username_flag
    then (do
      (name, rest) ← read_string PacketTypes.connect "username" bs
      ok (record out { username = name }, rest))
    else ok (out, bs)

unfoldable pub decode_password : Connect → Bytes → Result (Connect × Bytes)
decode_password out bs =
    if out.password_flag
    then (do
      (password, rest) ← read_binary PacketTypes.connect "password" bs
      ok (record out { password = password }, rest))
    else ok (out, bs)

unfoldable pub decode_connect : Bytes → Result (Connect × Bytes)
decode_connect bs = do
  let packet = PacketTypes.connect
  (name, b₁) ← read_string packet "protocol name" bs
  reject (not (same_bytes name (codes "MQTT")))
      (malformed packet "protocol name" "protocol name must be MQTT")
  (version, b₂) ← read_byte packet "protocol version" b₁
  reject (version != 5) unsupported_version
  (flags, b₃) ← read_byte packet "connect flags" b₂
  out ←
      unpack_connect_flags
        (record empty_connect { protocol_name = name; protocol_version = version }) flags
  (keep_alive, b₄) ← read_uint16 packet "keep alive" b₃
  (props, b₅) ← decode_properties packet b₄
  (client_id, b₆) ← read_string packet "client id" b₅
  (out₁, b₇) ←
      decode_will
        (record out { keep_alive = keep_alive; properties = some props; client_id = client_id }) b₆
  (out₂, b₈) ← decode_username out₁ b₇
  decode_password out₂ b₈

unfoldable pub decode_connack : Bytes → Result (ConnAck × Bytes)
decode_connack bs = do
  let packet = PacketTypes.connack
  (flags, b₁) ← read_byte packet "acknowledge flags" bs
  reject (flags / 2 != 0) (malformed packet "acknowledge flags" "reserved bits must be zero")
  (reason, b₂) ← read_byte packet "reason code" b₁
  validate_reason packet reason
  reject (reason != 0 && bit 0 flags)
      (malformed packet "session present" "session present must be false for unsuccessful CONNACK")
  (props, rest) ← decode_properties packet b₂
  ok (record { properties = some props; reason_code = reason; session_present = bit 0 flags }, rest)

-- The packet identifier of a PUBLISH, which QoS 0 lacks.
unfoldable pub decode_publish_id : ℕ → Bytes → Result (ℕ × Bytes)
decode_publish_id qos bs = if qos == 0 then ok (0, bs) else read_packet_id PacketTypes.publish bs

abbrev pub is_none {ℓ} : {A : Type ℓ} → Option A → Bool
is_none none = true
is_none (some _) = false

-- The topic may be empty where the packet has a topic alias.
unfoldable pub validate_publish_topic : Bytes → Option ℕ → Result (Unit {0})
validate_publish_topic topic alias =
    if is_empty topic
    then reject (is_none alias) (
        malformed PacketTypes.publish "topic name"
          "topic name is required unless topic alias is present")
    else validate_topic_name PacketTypes.publish "topic name" topic

-- The payload is the rest of the body.
unfoldable pub decode_publish : ℕ → Bytes → Result (Publish × Bytes)
decode_publish flags bs = do
  let packet = PacketTypes.publish
  let qos = flags / 2 % 4
  reject (qos == 3) (malformed packet "qos" "PUBLISH QoS 3 is reserved")
  (topic, b₁) ← read_string packet "topic name" bs
  (id, b₂) ← decode_publish_id qos b₁
  (props, payload) ← decode_properties packet b₂
  validate_publish_topic topic props.topic_alias
  ok (
    record {
      payload = payload;
      topic = topic;
      properties = some props;
      packet_id = id;
      qos = qos;
      duplicate = bit 3 flags;
      retain = bit 0 flags;
    },
    [],
  )

-- The reason code and the properties may be missing.
unfoldable pub decode_ack_reason : PacketType → Bytes → Result (ℕ × Bytes)
decode_ack_reason packet [] = ok (0, [])
decode_ack_reason packet (b ∷ bs) = do
  (reason, rest) ← read_byte packet "reason code" (b ∷ bs)
  validate_reason packet reason
  ok (reason, rest)

unfoldable pub decode_ack : PacketType → Bytes → Result (Ack × Bytes)
decode_ack packet bs = do
  (id, b₁) ← read_packet_id packet bs
  (reason, b₂) ← decode_ack_reason packet b₁
  (props, rest) ←
      (if is_empty b₂ then ok (empty_reason_properties, b₂) else decode_properties packet b₂)
  ok (record { properties = some props; packet_id = id; reason_code = reason }, rest)

unfoldable pub decode_sub_options : Bytes → Result (SubOptions × Bytes)
decode_sub_options bs = do
  let packet = PacketTypes.subscribe
  (topic, b₁) ← read_string packet "topic filter" bs
  (opts, rest) ← read_byte packet "subscription options" b₁
  reject (opts % 4 == 3) (malformed packet "subscription options" "QoS 3 is reserved")
  reject (opts / 16 % 4 == 3)
      (malformed packet "subscription options" "retain handling 3 is reserved")
  reject (opts / 64 % 4 != 0) (malformed packet "subscription options" "reserved bits must be zero")
  validate_topic_filter packet "topic filter" topic
  ok (
    record {
      topic = topic;
      qos = opts % 4;
      retain_handling = opts / 16 % 4;
      no_local = bit 2 opts;
      retain_as_published = bit 3 opts;
    },
    rest,
  )

-- As many rounds as there are bytes are enough: each round reads a byte at least.
unfoldable pub decode_subscriptions : ℕ → Bytes → Result (List SubOptions)
decode_subscriptions _ [] = ok []
decode_subscriptions zero (b ∷ bs) = err out_of_fuel
decode_subscriptions (suc rounds) (b ∷ bs) = do
  (sub, rest) ← decode_sub_options (b ∷ bs)
  subs ← decode_subscriptions rounds rest
  ok (sub ∷ subs)

unfoldable pub decode_subscribe : Bytes → Result (Subscribe × Bytes)
decode_subscribe bs = do
  let packet = PacketTypes.subscribe
  (id, b₁) ← read_packet_id packet bs
  (props, b₂) ← decode_properties packet b₁
  subs ← decode_subscriptions (length b₂) b₂
  reject (is_empty subs) (malformed packet "topic filters" "at least one topic filter is required")
  ok (record { properties = some props; subscriptions = subs; packet_id = id }, [])

-- SUBACK and UNSUBACK.
unfoldable pub decode_code_list : PacketType → Bytes → Result (CodeList × Bytes)
decode_code_list packet bs = do
  (id, b₁) ← read_packet_id packet bs
  (props, reasons) ← decode_properties packet b₁
  reject (is_empty reasons) (malformed packet "reason codes" "at least one reason code is required")
  validate_reasons packet reasons
  ok (record { properties = some props; reasons = reasons; packet_id = id }, [])

unfoldable pub decode_topic : Bytes → Result (Bytes × Bytes)
decode_topic bs = do
  (topic, rest) ← read_string PacketTypes.unsubscribe "topic filter" bs
  validate_topic_filter PacketTypes.unsubscribe "topic filter" topic
  ok (topic, rest)

unfoldable pub decode_topics : ℕ → Bytes → Result (List Bytes)
decode_topics _ [] = ok []
decode_topics zero (b ∷ bs) = err out_of_fuel
decode_topics (suc rounds) (b ∷ bs) = do
  (topic, rest) ← decode_topic (b ∷ bs)
  topics ← decode_topics rounds rest
  ok (topic ∷ topics)

unfoldable pub decode_unsubscribe : Bytes → Result (Unsubscribe × Bytes)
decode_unsubscribe bs = do
  let packet = PacketTypes.unsubscribe
  (id, b₁) ← read_packet_id packet bs
  (props, b₂) ← decode_properties packet b₁
  topics ← decode_topics (length b₂) b₂
  reject (is_empty topics)
      (malformed packet "topic filters" "at least one topic filter is required")
  ok (record { topics = topics; properties = some props; packet_id = id }, [])

unfoldable pub decode_empty : PacketType → Packet → Bytes → Result (Packet × Bytes)
decode_empty packet out bs = do
  reject (not (is_empty bs)) (malformed packet "remaining length" "remaining length must be zero")
  ok (out, bs)

unfoldable pub decode_disconnect : Bytes → Result (Disconnect × Bytes)
decode_disconnect [] =
    ok (record { properties = some empty_disconnect_properties; reason_code = 0 }, [])
decode_disconnect (b ∷ bs) = do
  let packet = PacketTypes.disconnect
  (reason, b₁) ← read_byte packet "reason code" (b ∷ bs)
  validate_reason packet reason
  (props, rest) ←
      (if is_empty b₁ then ok (empty_disconnect_properties, b₁) else decode_properties packet b₁)
  ok (record { properties = some props; reason_code = reason }, rest)

unfoldable pub decode_auth : Bytes → Result (Auth × Bytes)
decode_auth [] = ok (record { properties = some empty_auth_properties; reason_code = 0 }, [])
decode_auth (b ∷ bs) = do
  let packet = PacketTypes.auth
  (reason, b₁) ← read_byte packet "reason code" (b ∷ bs)
  validate_reason packet reason
  (props, rest) ←
      (if is_empty b₁ then ok (empty_auth_properties, b₁) else decode_properties packet b₁)
  ok (record { properties = some props; reason_code = reason }, rest)

abbrev pub as_packet {ℓ} :
    {A : Type ℓ} → (A → Packet) → Result (A × Bytes) → Result (Packet × Bytes)
as_packet f (ok (a, rest)) = ok (f a, rest)
as_packet f (err e) = err e

-- The switch of `decodePacket`.
unfoldable pub decode_content : PacketType → ℕ → Bytes → Result (Packet × Bytes)
decode_content packet flags bs =
    if packet == PacketTypes.connect
    then as_packet Packet.connect (decode_connect bs)
    else if packet == PacketTypes.connack
    then as_packet Packet.connack (decode_connack bs)
    else if packet == PacketTypes.publish
    then as_packet Packet.publish (decode_publish flags bs)
    else if packet == PacketTypes.puback
    then as_packet Packet.puback (decode_ack packet bs)
    else if packet == PacketTypes.pubrec
    then as_packet Packet.pubrec (decode_ack packet bs)
    else if packet == PacketTypes.pubrel
    then as_packet Packet.pubrel (decode_ack packet bs)
    else if packet == PacketTypes.pubcomp
    then as_packet Packet.pubcomp (decode_ack packet bs)
    else if packet == PacketTypes.subscribe
    then as_packet Packet.subscribe (decode_subscribe bs)
    else if packet == PacketTypes.suback
    then as_packet Packet.suback (decode_code_list packet bs)
    else if packet == PacketTypes.unsubscribe
    then as_packet Packet.unsubscribe (decode_unsubscribe bs)
    else if packet == PacketTypes.unsuback
    then as_packet Packet.unsuback (decode_code_list packet bs)
    else if packet == PacketTypes.pingreq
    then decode_empty packet Packet.pingreq bs
    else if packet == PacketTypes.pingresp
    then decode_empty packet Packet.pingresp bs
    else if packet == PacketTypes.disconnect
    then as_packet Packet.disconnect (decode_disconnect bs)
    else if packet == PacketTypes.auth
    then as_packet Packet.auth (decode_auth bs)
    else err (malformed packet "packet type" "unknown packet type")

unfoldable pub decode_packet : PacketType → ℕ → Bytes → Result Packet
decode_packet packet flags body = do
  (content, rest) ← decode_content packet flags body
  reject (not (is_empty rest)) (malformed packet "body" "packet body has trailing bytes")
  ok content
