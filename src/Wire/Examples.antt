-- ===== src/Wire/Examples.antt =====
-- The theorems on the codec at concrete packets.
use sky_tree.Common.{
  ℕ, ◌+◌, ◌*◌, ◌≤◌, ◌<◌, ◌≡◌, ◌≢◌, ◌↔◌, refl, true, false, none, some, [], ◌∷◌, ◌++◌, arith, length,
  take, same_bytes,
}
use sky_tree.Mqtt5.Properties.{Bytes, PublishProperties}
use sky_tree.Mqtt5.Packet.{Packet, Publish, Subscribe, ConnAck, ControlPacket}
use sky_tree.Topic.Levels.{
  codes, is_empty, contains_wildcard, contains_byte, trim_prefix, split_topic_levels, split,
}
use sky_tree.Topic.{validate_topic_filter_syntax, check_levels}
use sky_tree.Wire.Properties.{
  validate_topic_name, validate_property_value, encode_properties, decode_properties,
  decode_section, decode_loop,
}
use sky_tree.Wire.Properties.Append.{
  ◌⨾◌, append_opt, append_nonempty, append_prop_byte, append_prop_string, append_property_header,
  append_user_properties, append_user_property, append_subscription_identifiers,
}
use sky_tree.Wire.Properties.Structs.{
  append_publish_properties, empty_publish_properties, empty_subscribe_properties,
  empty_connack_properties, empty_reason_properties,
}
use sky_tree.Wire.Properties.Spec.{property_spec, property_specs, packet_allowed}
use sky_tree.Wire.Bytes.{
  write_string, write_uint16, read_string, read_binary, read_uint16, read_bytes, read_byte,
}
use sky_tree.Wire.Utf8.{utf8_valid}
use sky_tree.Wire.Errors.{malformed}
use sky_tree.Wire.Errors.{ok, err, out_of_fuel}
use sky_tree.Wire.Decode.{
  decode_publish, decode_subscribe, decode_connack, decode_packet, decode_content, decode_ack,
  decode_ack_reason, decode_publish_id, read_packet_id, validate_publish_topic,
  decode_subscriptions, decode_sub_options, validate_topic_filter,
}
use sky_tree.Wire.FixedHeader.{bit, fixed_header_flags, publish_flags, validate_fixed_header_flags}
use sky_tree.Wire.Frame.{decode, decode_frame, read_full, encode, encode_content}
use sky_tree.Wire.Encode.{encode_packet, encode_publish}
use sky_tree.Wire.Reason.{validate_reason, is_member, valid_reason_codes}
use sky_tree.Wire.Vbi.{
  minimal_vbi_bytes, max_remaining_length, read_remaining_length, read_vbi, vbi_digits,
  encode_remaining_length, write_vbi, vbi_loop,
}
use sky_tree.Wire.Accepts.ConnAck.{IsConnAck, decode_connack_iff}
use sky_tree.Wire.Accepts.Layout.{IsLayout}
use sky_tree.Wire.Accepts.Frame.{length-decode, read_remaining_length-IsMinimal}
use sky_tree.Wire.Accepts.Packets.{
  IsAccepted, AllSubscriptions, decode_publish-IsAccepted, decode_subscribe-AllSubscriptions,
}
use sky_tree.Wire.Accepts.Termination.{decode-ends}
use sky_tree.Wire.Properties.RoundTrip.{PublishFits}
use sky_tree.Wire.RoundTrip.Stream.{decode-encode, length-encode}

-- QoS 1 to "a/b" with a user property.
abbrev note_properties : PublishProperties
note_properties = record {
  payload_format = some 1;
  message_expiry = none;
  will_delay_interval = none;
  content_type = [];
  response_topic = [];
  correlation_data = none;
  topic_alias = none;
  subscription_identifier = [];
  user = record { key = codes "k"; value = codes "v" } ∷ [];
}

abbrev note : Publish
note = record {
  payload = codes "hi";
  topic = codes "a/b";
  properties = some note_properties;
  packet_id = 7;
  qos = 1;
  duplicate = true;
  retain = true;
}

abbrev note_body : Bytes
note_body =
    0 ∷ 3 ∷ 97 ∷ 47 ∷ 98 ∷ 0 ∷ 7 ∷ 9 ∷ 1 ∷ 1 ∷ 38 ∷ 0 ∷ 1 ∷ 107 ∷ 0 ∷ 1 ∷ 118 ∷ 104 ∷ 105 ∷ []

abbrev note_bytes : Bytes
note_bytes = 59 ∷ 19 ∷ note_body

note_encodes :
    encode 64 (record {
      content = some (Packet.publish note);
      header = record { type = 0; flags = 0; remaining_length = 0 };
    })
    ≡ ok note_bytes
unfolding encode encode_content fixed_header_flags validate_fixed_header_flags publish_flags
    encode_packet encode_publish is_empty validate_topic_name contains_wildcard contains_byte ◌⨾◌
    write_string write_uint16 utf8_valid encode_properties append_publish_properties append_opt
    append_nonempty append_prop_byte append_prop_string append_property_header property_spec
    property_specs packet_allowed append_user_properties append_user_property
    append_subscription_identifiers write_vbi encode_remaining_length vbi_digits malformed
    validate_property_value
note_encodes = refl

note_fits : PublishFits note_properties
note_fits = record {
  payload_format = omega arith;
  message_expiry = tt;
  will_delay_interval = tt;
  correlation_data = tt;
  topic_alias = tt;
}

decode-encode_example :
    (flags : ℕ) × (n : ℕ) × (fixed_header_flags (Packet.publish note) ≡ ok flags)
    × (length note_bytes ≡ 1 + minimal_vbi_bytes n + n)
    × (decode 64 (note_bytes ++ (208 ∷ 0 ∷ []))
        ≡ ok (
          record {
            content = some (Packet.publish note);
            header = record { type = 3; flags = flags; remaining_length = n };
          },
          208 ∷ 0 ∷ [],
        ))
decode-encode_example =
    decode-encode 64 (Packet.publish note) (record { type = 0; flags = 0; remaining_length = 0 })
      note_bytes (208 ∷ 0 ∷ [])
      (record { qos = omega arith; packet_id = omega arith; properties = note_fits }) note_encodes

length-encode_example :
    (length note_bytes ≤ 5 + max_remaining_length) × ((0 < 64) → length note_bytes ≤ 64)
length-encode_example =
    length-encode 64 (Packet.publish note) (record { type = 0; flags = 0; remaining_length = 0 })
      note_bytes note_encodes

decode-ends_example : decode 0 (130 ∷ 3 ∷ 0 ∷ 1 ∷ 0 ∷ []) ≢ err out_of_fuel
decode-ends_example = decode-ends 0 (130 ∷ 3 ∷ 0 ∷ 1 ∷ 0 ∷ [])

read_remaining_length-IsMinimal_example :
    (321 ≤ max_remaining_length)
    × (2 ≡ minimal_vbi_bytes 321)
    × ((193 ∷ 2 ∷ 9 ∷ []) ≡ vbi_digits 4 321 ++ (9 ∷ []))
unfolding read_remaining_length vbi_loop minimal_vbi_bytes
read_remaining_length-IsMinimal_example =
    read_remaining_length-IsMinimal (193 ∷ 2 ∷ 9 ∷ []) 321 2 (9 ∷ [])
      (omega arith, (omega arith, (omega arith, tt))) refl

-- PUBACK of packet 5, and a byte of the next packet.
abbrev acknowledged : Packet
acknowledged =
    Packet.puback
      (record { properties = some empty_reason_properties; packet_id = 5; reason_code = 0 })

abbrev puback_packet : ControlPacket
puback_packet = record {
  content = some acknowledged;
  header = record { type = 4; flags = 0; remaining_length = 2 };
}

abbrev puback_bytes : Bytes
puback_bytes = 64 ∷ 2 ∷ 0 ∷ 5 ∷ 7 ∷ []

puback_decodes : decode 4 puback_bytes ≡ ok (puback_packet, 7 ∷ [])
unfolding decode decode_frame validate_fixed_header_flags read_remaining_length vbi_loop
    minimal_vbi_bytes read_full decode_packet decode_content decode_ack decode_ack_reason
    read_packet_id read_uint16 is_empty
puback_decodes = refl

length-decode_example :
    (5 ≡ 1 + minimal_vbi_bytes 2 + 2 + 1)
    × (2 ≤ max_remaining_length)
    × ((0 < 4) → 1 + minimal_vbi_bytes 2 + 2 ≤ 4)
    × (1 ≤ 4)
    × (4 ≤ 15)
    × (take 1 puback_bytes ≡ (4 * 16 + 0) ∷ [])
    × ((body : Bytes) × (content : Packet) × (puback_bytes
          ≡ (4 * 16 + 0) ∷ (vbi_digits 4 2 ++ (body ++ (7 ∷ []))))
        × (length body ≡ 2)
        × (decode_packet 4 0 body ≡ ok content)
        × (some acknowledged ≡ some content))
length-decode_example =
    length-decode 4 puback_bytes puback_packet (7 ∷ [])
      (omega arith, (omega arith, (omega arith, (omega arith, (omega arith, tt))))) puback_decodes

abbrev plain_publish : Publish
plain_publish = record {
  payload = 33 ∷ [];
  topic = 97 ∷ [];
  properties = some empty_publish_properties;
  packet_id = 258;
  qos = 2;
  duplicate = false;
  retain = true;
}

plain_decodes : decode_publish 5 (0 ∷ 1 ∷ 97 ∷ 1 ∷ 2 ∷ 0 ∷ 33 ∷ []) ≡ ok (plain_publish, [])
unfolding decode_publish read_string read_binary read_uint16 read_bytes utf8_valid contains_byte
    decode_publish_id read_packet_id decode_properties read_vbi vbi_loop minimal_vbi_bytes
    decode_section decode_loop validate_publish_topic is_empty validate_topic_name contains_wildcard
plain_decodes = refl

decode_publish-IsAccepted_example :
    IsAccepted 5 plain_publish
    × (◌≡◌ {A = Bytes} [] [])
    × (false ≡ bit 3 5)
    × (true ≡ bit 0 5)
    × IsLayout (0 ∷ 1 ∷ 97 ∷ 1 ∷ 2 ∷ 0 ∷ 33 ∷ []) plain_publish
decode_publish-IsAccepted_example =
    decode_publish-IsAccepted 5 (0 ∷ 1 ∷ 97 ∷ 1 ∷ 2 ∷ 0 ∷ 33 ∷ []) plain_publish [] plain_decodes

abbrev one_filter : Subscribe
one_filter = record {
  properties = some empty_subscribe_properties;
  subscriptions =
      record {
        topic = codes "a/#";
        qos = 1;
        retain_handling = 2;
        no_local = true;
        retain_as_published = false;
      }
      ∷ [];
  packet_id = 1;
}

one_filter_decodes :
    decode_subscribe (0 ∷ 1 ∷ 0 ∷ 0 ∷ 3 ∷ 97 ∷ 47 ∷ 35 ∷ 37 ∷ []) ≡ ok (one_filter, [])
unfolding decode_subscribe read_packet_id read_string read_binary read_uint16 read_bytes utf8_valid
    contains_byte decode_properties read_vbi vbi_loop minimal_vbi_bytes decode_section decode_loop
    decode_subscriptions decode_sub_options read_byte is_empty validate_topic_filter
    validate_topic_filter_syntax trim_prefix check_levels split_topic_levels split same_bytes
one_filter_decodes = refl

decode_subscribe-AllSubscriptions_example :
    (one_filter.packet_id ≢ 0)
    × (one_filter.subscriptions ≢ [])
    × AllSubscriptions one_filter.subscriptions
decode_subscribe-AllSubscriptions_example =
    decode_subscribe-AllSubscriptions (0 ∷ 1 ∷ 0 ∷ 0 ∷ 3 ∷ 97 ∷ 47 ∷ 35 ∷ 37 ∷ []) one_filter []
      one_filter_decodes

abbrev resumed : ConnAck
resumed = record {
  properties = some empty_connack_properties;
  reason_code = 0;
  session_present = true;
}

resumed_decodes : decode_connack (1 ∷ 0 ∷ 0 ∷ []) ≡ ok (resumed, [])
unfolding decode_connack read_byte validate_reason is_member valid_reason_codes decode_properties
    read_vbi vbi_loop minimal_vbi_bytes decode_section decode_loop
resumed_decodes = refl

decode_connack_iff_example :
    (decode_connack (1 ∷ 0 ∷ 0 ∷ []) ≡ ok (resumed, [])) ↔ IsConnAck (1 ∷ 0 ∷ 0 ∷ []) resumed []
decode_connack_iff_example = decode_connack_iff (1 ∷ 0 ∷ 0 ∷ []) resumed []

resumed-IsConnAck : IsConnAck (1 ∷ 0 ∷ 0 ∷ []) resumed []
resumed-IsConnAck = (decode_connack_iff (1 ∷ 0 ∷ 0 ∷ []) resumed []).0 resumed_decodes
