-- ===== src/Wire/Properties/Append.antt =====
-- The writers of one property in pkg/mqtt5/wire/properties.go.
use sky_tree.Common.{ℕ, not, Option, none, some, List, [], ◌∷◌, ◌++◌}
use sky_tree.Mqtt5.Prop
use sky_tree.Mqtt5.PacketTypes.{PacketType}
use sky_tree.Mqtt5.Properties.{Bytes, User}
use sky_tree.Wire.Errors.{Result, ok, malformed, reject, ◌>>=◌, ◌>>◌}
use sky_tree.Wire.Bytes.{write_uint16, write_uint32, write_binary, write_string}
use sky_tree.Wire.Vbi.{write_vbi}
use sky_tree.Wire.Properties.{zero_value, validate_property_value, or_unknown}
use sky_tree.Wire.Properties.Spec.{PropertySpec, property_spec, packet_allowed}

-- One write after another to the same buffer.
infixr 20 ◌⨾◌
unfoldable pub ◌⨾◌ : Result Bytes → Result Bytes → Result Bytes
w ⨾ w' = do bs ← w; cs ← w'; ok (bs ++ cs)

-- `if v != nil { … }`
unfoldable pub append_opt : {A : Type 0} → (A → Result Bytes) → Option A → Result Bytes
append_opt write none = ok []
append_opt write (some a) = write a

-- `if s != "" { … }`
unfoldable pub append_nonempty : (Bytes → Result Bytes) → Bytes → Result Bytes
append_nonempty write [] = ok []
append_nonempty write (b ∷ bs) = write (b ∷ bs)

module _ (packet : PacketType) where
  -- The specification of a property that may be written, which the callers look up again.
  unfoldable pub append_property_header : ℕ → Result PropertySpec
  append_property_header id = do
    spec ← or_unknown packet (property_spec id)
    reject (not (packet_allowed spec packet))
        (malformed packet spec.name "property is not allowed for packet")
    ok spec

  unfoldable pub append_prop_byte : ℕ → ℕ → Result Bytes
  append_prop_byte id value = do
    spec ← append_property_header id
    validate_property_value packet spec (record zero_value { byte_value = value })
    ok (id ∷ value ∷ [])

  unfoldable pub append_prop_uint16 : ℕ → ℕ → Result Bytes
  append_prop_uint16 id value = do
    spec ← append_property_header id
    validate_property_value packet spec (record zero_value { uint16_value = value })
    ok (id ∷ write_uint16 value)

  unfoldable pub append_prop_uint32 : ℕ → ℕ → Result Bytes
  append_prop_uint32 id value = do
    spec ← append_property_header id
    validate_property_value packet spec (record zero_value { uint32_value = value })
    ok (id ∷ write_uint32 value)

  unfoldable pub append_prop_vbi : ℕ → ℕ → Result Bytes
  append_prop_vbi id value = do
    spec ← append_property_header id
    validate_property_value packet spec (record zero_value { vbi_value = value })
    bs ← write_vbi packet spec.name value
    ok (id ∷ bs)

  unfoldable pub append_prop_binary : ℕ → Bytes → Result Bytes
  append_prop_binary id value = do
    spec ← append_property_header id
    bs ← write_binary packet spec.name value
    ok (id ∷ bs)

  unfoldable pub append_prop_string : ℕ → Bytes → Result Bytes
  append_prop_string id value = do
    spec ← append_property_header id
    validate_property_value packet spec (record zero_value { string_value = value })
    bs ← write_string packet spec.name value
    ok (id ∷ bs)

  unfoldable pub append_user_property : User → Result Bytes
  append_user_property user = do
    spec ← append_property_header Prop.user
    key ← write_string packet "User Property key" user.key
    value ← write_string packet "User Property value" user.value
    ok (Prop.user ∷ (key ++ value))

  unfoldable pub append_user_properties : List User → Result Bytes
  append_user_properties [] = ok []
  append_user_properties (user ∷ users) = append_user_property user ⨾ append_user_properties users

  -- The loop over `SubscriptionIdentifier` of PUBLISH.
  unfoldable pub append_subscription_identifiers : List ℕ → Result Bytes
  append_subscription_identifiers [] = ok []
  append_subscription_identifiers (id ∷ ids) =
      append_prop_vbi Prop.subscription_identifier id ⨾ append_subscription_identifiers ids
