-- ===== src/Wire/Properties/Spec.antt =====
-- The table of the properties of pkg/mqtt5/wire/properties.go.
use Prim.Native.Nat.{bit_and}
use sky_tree.Common.{
  ℕ, ◌^◌, String, Bool, true, false, ◌&&◌, ◌||◌, Option, none, some, List, [], ◌∷◌, ◌==◌, ◌!=◌,
  bit_or, if◌then◌else◌,
}
use sky_tree.Mqtt5.Prop
use sky_tree.Mqtt5.PacketTypes.{
  PacketType, connect, connack, publish, puback, pubrec, pubrel, pubcomp, subscribe, suback,
  unsubscribe, unsuback, disconnect, auth, will_properties,
}

pub data PropertyValueType : Type 0 where
  byte two_byte_integer four_byte_integer variable_byte_integer : PropertyValueType
  binary_data utf8_string string_pair : PropertyValueType

-- `allowed` is a bit map of packet types; `repeats` is `repeatAllowed`.
pub record PropertySpec : Type 0 where
  pub id : ℕ
  pub name : String
  pub type : PropertyValueType
  pub allowed : ℕ
  pub repeats : Bool

abbrev pub mask : List PacketType → ℕ
mask [] = 0
mask (packet ∷ packets) = bit_or (2 ^ packet) (mask packets)

abbrev singleton : ℕ → String → PropertyValueType → List PacketType → PropertySpec
singleton id name type packets = record {
  id = id;
  name = name;
  type = type;
  allowed = mask packets;
  repeats = false;
}

unfoldable pub property_specs : List PropertySpec
property_specs =
    singleton Prop.payload_format "Payload Format Indicator" byte (publish ∷ will_properties ∷ [])
    ∷ singleton Prop.message_expiry "Message Expiry Interval" four_byte_integer
        (publish ∷ will_properties ∷ [])
    ∷ singleton Prop.content_type "Content Type" utf8_string (publish ∷ will_properties ∷ [])
    ∷ singleton Prop.response_topic "Response Topic" utf8_string (publish ∷ will_properties ∷ [])
    ∷ singleton Prop.correlation_data "Correlation Data" binary_data
        (publish ∷ will_properties ∷ [])
    ∷ singleton Prop.subscription_identifier "Subscription Identifier" variable_byte_integer
        (publish ∷ subscribe ∷ [])
    ∷ singleton Prop.session_expiry_interval "Session Expiry Interval" four_byte_integer
        (connect ∷ connack ∷ disconnect ∷ [])
    ∷ singleton Prop.assigned_client_id "Assigned Client Identifier" utf8_string (connack ∷ [])
    ∷ singleton Prop.server_keep_alive "Server Keep Alive" two_byte_integer (connack ∷ [])
    ∷ singleton Prop.auth_method "Authentication Method" utf8_string (connect ∷ connack ∷ auth ∷ [])
    ∷ singleton Prop.auth_data "Authentication Data" binary_data (connect ∷ connack ∷ auth ∷ [])
    ∷ singleton Prop.request_problem_info "Request Problem Information" byte (connect ∷ [])
    ∷ singleton Prop.will_delay_interval "Will Delay Interval" four_byte_integer
        (will_properties ∷ [])
    ∷ singleton Prop.request_response_info "Request Response Information" byte (connect ∷ [])
    ∷ singleton Prop.response_info "Response Information" utf8_string (connack ∷ [])
    ∷ singleton Prop.server_reference "Server Reference" utf8_string (connack ∷ disconnect ∷ [])
    ∷ singleton Prop.reason_string "Reason String" utf8_string
        (connack ∷ puback ∷ pubrec ∷ pubrel ∷ pubcomp ∷ suback ∷ unsuback ∷ disconnect ∷ auth ∷ [])
    ∷ singleton Prop.receive_maximum "Receive Maximum" two_byte_integer (connect ∷ connack ∷ [])
    ∷ singleton Prop.topic_alias_maximum "Topic Alias Maximum" two_byte_integer
        (connect ∷ connack ∷ [])
    ∷ singleton Prop.topic_alias "Topic Alias" two_byte_integer (publish ∷ [])
    ∷ singleton Prop.maximum_qos "Maximum QoS" byte (connack ∷ [])
    ∷ singleton Prop.retain_available "Retain Available" byte (connack ∷ [])
    ∷ record {
      id = Prop.user;
      name = "User Property";
      type = string_pair;
      allowed = mask (
          connect ∷ connack ∷ publish ∷ will_properties ∷ puback ∷ pubrec ∷ pubrel ∷ pubcomp
          ∷ subscribe ∷ suback ∷ unsubscribe ∷ unsuback ∷ disconnect ∷ auth ∷ []);
      repeats = true;
    }
    ∷ singleton Prop.maximum_packet_size "Maximum Packet Size" four_byte_integer
        (connect ∷ connack ∷ [])
    ∷ singleton Prop.wildcard_sub_available "Wildcard Subscription Available" byte (connack ∷ [])
    ∷ singleton Prop.sub_id_available "Subscription Identifier Available" byte (connack ∷ [])
    ∷ singleton Prop.shared_sub_available "Shared Subscription Available" byte (connack ∷ [])
    ∷ []

abbrev find_spec : ℕ → List PropertySpec → Option PropertySpec
find_spec id [] = none
find_spec id (spec ∷ specs) = if spec.id == id then some spec else find_spec id specs

-- `propertySpecs[id]`
unfoldable pub property_spec : ℕ → Option PropertySpec
unfolding property_specs
property_spec id = find_spec id property_specs

unfoldable pub packet_allowed : PropertySpec → PacketType → Bool
packet_allowed spec packet = bit_and spec.allowed (2 ^ packet) != 0

unfoldable pub property_repeat_allowed : PropertySpec → PacketType → Bool
property_repeat_allowed spec packet =
    spec.repeats || ((spec.id == Prop.subscription_identifier) && (packet == publish))
