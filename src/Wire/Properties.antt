-- ===== src/Wire/Properties.antt =====
-- pkg/mqtt5/wire/properties.go: the property section of a packet. The type switches of
-- `assignProperty` and `appendProperties` are the instances of `PropertyStruct`, one for each struct.
pub mod Spec
pub mod Append
pub mod Structs
pub mod Reads
pub mod Loads
pub mod RoundTrip
pub mod Section
use sky_tree.Common.{
  ℕ, zero, suc, String, Bool, true, false, not, ◌&&◌, ◌||◌, Option, none, some, List, [], ◌∷◌, ◌++◌,
  ltb, ◌==◌, if◌then◌else◌, length, take, drop,
}
use Prim.Native.String.{◌++◌ as str_append}
use sky_tree.Mqtt5.Prop
use sky_tree.Mqtt5.PacketTypes.{PacketType}
use sky_tree.Mqtt5.Properties.{Bytes, User}
use sky_tree.Topic.Levels.{is_empty, contains_wildcard}
use sky_tree.Wire.Errors.{Error, out_of_fuel, Result, ok, err, malformed, reject, ◌>>=◌, ◌>>◌}
use sky_tree.Wire.Bytes.{
  read_byte, read_uint16, read_uint32, read_binary, read_string, write_uint16, write_uint32,
  write_binary, write_string,
}
use sky_tree.Wire.Vbi.{read_vbi, write_vbi}
use Spec.{
  PropertySpec, PropertyValueType, byte, two_byte_integer, four_byte_integer, variable_byte_integer,
  binary_data, utf8_string, string_pair, property_spec, packet_allowed, property_repeat_allowed,
}

pub record PropertyValue : Type 0 where
  pub byte_value : ℕ
  pub uint16_value : ℕ
  pub uint32_value : ℕ
  pub vbi_value : ℕ
  pub binary_value : Bytes
  pub string_value : Bytes
  pub user_value : User

abbrev pub zero_value : PropertyValue
zero_value = record {
  byte_value = 0;
  uint16_value = 0;
  uint32_value = 0;
  vbi_value = 0;
  binary_value = [];
  string_value = [];
  user_value = record { key = []; value = [] };
}

-- `empty` is the struct that a decoder starts from.
pub record PropertyStruct (S : Type 0) : Type 0 where
  pub empty : S
  pub assign : S → ℕ → PropertyValue → S
  pub append : PacketType → S → Result Bytes

-- The switch of `readPropertyValue` over the type of the property.
unfoldable pub read_typed :
    PacketType → String → PropertyValueType → Bytes → Result (PropertyValue × Bytes)
read_typed packet name byte bs = do
  (v, rest) ← read_byte packet name bs
  ok (record zero_value { byte_value = v }, rest)
read_typed packet name two_byte_integer bs = do
  (v, rest) ← read_uint16 packet name bs
  ok (record zero_value { uint16_value = v }, rest)
read_typed packet name four_byte_integer bs = do
  (v, rest) ← read_uint32 packet name bs
  ok (record zero_value { uint32_value = v }, rest)
read_typed packet name variable_byte_integer bs = do
  (v, rest) ← read_vbi packet name bs
  ok (record zero_value { vbi_value = v }, rest)
read_typed packet name binary_data bs = do
  (v, rest) ← read_binary packet name bs
  ok (record zero_value { binary_value = v }, rest)
read_typed packet name utf8_string bs = do
  (v, rest) ← read_string packet name bs
  ok (record zero_value { string_value = v }, rest)
read_typed packet name string_pair bs = do
  (k, bs₁) ← read_string packet (str_append name " key") bs
  (v, rest) ← read_string packet (str_append name " value") bs₁
  ok (record zero_value { user_value = record { key = k; value = v } }, rest)

unfoldable pub read_property_value :
    PacketType → PropertySpec → Bytes → Result (PropertyValue × Bytes)
read_property_value packet spec bs = read_typed packet spec.name spec.type bs

-- wire/codec.go; both callers pass allowEmpty as false.
unfoldable pub validate_topic_name : PacketType → String → Bytes → Result (Unit {0})
validate_topic_name packet field topic = do
  reject (is_empty topic) (malformed packet field "topic name must be non-empty")
  reject (contains_wildcard topic) (malformed packet field "topic name must not contain wildcards")

abbrev pub is_boolean : ℕ → Bool
is_boolean id =
    id == Prop.payload_format
    || id == Prop.request_problem_info
    || id == Prop.request_response_info
    || id == Prop.retain_available
    || id == Prop.wildcard_sub_available
    || id == Prop.sub_id_available
    || id == Prop.shared_sub_available

unfoldable pub validate_property_value :
    PacketType → PropertySpec → PropertyValue → Result (Unit {0})
validate_property_value packet spec value =
    if is_boolean spec.id
    then reject (ltb 1 value.byte_value)
        (malformed packet spec.name "boolean byte property must be 0 or 1")
    else if spec.id == Prop.maximum_qos
    then reject (ltb 1 value.byte_value) (malformed packet spec.name "maximum QoS must be 0 or 1")
    else if spec.id == Prop.receive_maximum
    then reject (value.uint16_value == 0)
        (malformed packet spec.name "receive maximum must be non-zero")
    else if spec.id == Prop.topic_alias
    then reject (value.uint16_value == 0)
        (malformed packet spec.name "topic alias must be non-zero")
    else if spec.id == Prop.maximum_packet_size
    then reject (value.uint32_value == 0)
        (malformed packet spec.name "maximum packet size must be non-zero")
    else if spec.id == Prop.subscription_identifier
    then reject (value.vbi_value == 0)
        (malformed packet spec.name "subscription identifier must be non-zero")
    else if spec.id == Prop.response_topic
    then validate_topic_name packet spec.name value.string_value
    else ok tt

unfoldable pub mem : ℕ → List ℕ → Bool
mem id [] = false
mem id (x ∷ xs) = x == id || mem id xs

abbrev pub or_unknown : PacketType → Option PropertySpec → Result PropertySpec
or_unknown packet none = err (malformed packet "property id" "unknown property")
or_unknown packet (some spec) = ok spec

-- The set of singletons seen, with `id` added.
abbrev pub mark : Bool → ℕ → List ℕ → List ℕ
mark true id seen = seen
mark false id seen = id ∷ seen

module _ {S : Type 0} ⦃struct : PropertyStruct S⦄ (packet : PacketType) where
  -- One round of the loop of `decodeProperties`: the identifiers seen, the struct and the rest.
  unfoldable pub decode_property : List ℕ → S → Bytes → Result (List ℕ × S × Bytes)
  decode_property seen props bs = do
    (id, bs₁) ← read_byte packet "property id" bs
    spec ← or_unknown packet (property_spec id)
    reject (not (packet_allowed spec packet))
        (malformed packet spec.name "property is not allowed for packet")
    let repeats = property_repeat_allowed spec packet
    reject (not repeats && mem id seen) (malformed packet spec.name "duplicate singleton property")
    (value, rest) ← read_property_value packet spec bs₁
    validate_property_value packet spec value
    ok (mark repeats id seen, struct.assign props id value, rest)

  -- Each round reads a byte at least, so as many rounds as there are bytes are enough.
  unfoldable pub decode_loop : ℕ → List ℕ → S → Bytes → Result S
  decode_loop _ seen props [] = ok props
  decode_loop zero seen props (b ∷ bs) = err out_of_fuel
  decode_loop (suc rounds) seen props (b ∷ bs) = do
    (seen', props', rest) ← decode_property seen props (b ∷ bs)
    decode_loop rounds seen' props' rest

  -- The section, its length read.
  unfoldable pub decode_section : ℕ → Bytes → Result (S × Bytes)
  decode_section n rest = do
    reject (ltb (length rest) n)
        (malformed packet "property length" "property length exceeds remaining packet body")
    props ← decode_loop n [] struct.empty (take n rest)
    ok (props, drop n rest)

  unfoldable pub decode_properties : Bytes → Result (S × Bytes)
  decode_properties bs = do (n, rest) ← read_vbi packet "property length" bs; decode_section n rest

  abbrev pub append_properties : Option S → Result Bytes
  append_properties none = ok []
  append_properties (some props) = struct.append packet props

  unfoldable pub encode_properties : Option S → Result Bytes
  encode_properties props = do
    body ← append_properties props
    size ← write_vbi packet "property length" (length body)
    ok (size ++ body)
