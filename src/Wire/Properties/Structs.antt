-- ===== src/Wire/Properties/Structs.antt =====
-- The property structs of pkg/mqtt5/wire/properties.go: how a decoded property is assigned to each
-- (`assignPublishProperty` and its likes), and how each is written (`appendPublishProperties` and
-- its likes). The properties of one kind are written in the order of the source.
use sky_tree.Common.{ℕ, none, some, [], ◌∷◌, ◌++◌, ◌==◌, if◌then◌else◌}
use sky_tree.Mqtt5.Prop
use sky_tree.Mqtt5.PacketTypes.{PacketType}
use sky_tree.Mqtt5.Properties.{
  Bytes, PublishProperties, ConnectProperties, ConnAckProperties, SubscribeProperties,
  ReasonProperties, UnsubscribeProperties, DisconnectProperties, AuthProperties,
}
use sky_tree.Wire.Errors.{Result}
use sky_tree.Wire.Bytes.{slice_of}
use sky_tree.Wire.Properties.{PropertyValue, PropertyStruct}
use sky_tree.Wire.Properties.Append.{
  ◌⨾◌, append_opt, append_nonempty, append_prop_byte, append_prop_uint16, append_prop_uint32,
  append_prop_vbi, append_prop_binary, append_prop_string, append_user_properties,
  append_subscription_identifiers,
}

unfoldable pub assign_publish_property : PublishProperties → ℕ → PropertyValue → PublishProperties
assign_publish_property p id v =
    if id == Prop.payload_format
    then record p { payload_format = some v.byte_value }
    else if id == Prop.message_expiry
    then record p { message_expiry = some v.uint32_value }
    else if id == Prop.will_delay_interval
    then record p { will_delay_interval = some v.uint32_value }
    else if id == Prop.content_type
    then record p { content_type = v.string_value }
    else if id == Prop.response_topic
    then record p { response_topic = v.string_value }
    else if id == Prop.correlation_data
    then record p { correlation_data = slice_of v.binary_value }
    else if id == Prop.topic_alias
    then record p { topic_alias = some v.uint16_value }
    else if id == Prop.subscription_identifier
    then record p { subscription_identifier = p.subscription_identifier ++ v.vbi_value ∷ [] }
    else if id == Prop.user
    then record p { user = p.user ++ v.user_value ∷ [] }
    else p

unfoldable pub append_publish_properties : PacketType → PublishProperties → Result Bytes
append_publish_properties packet p =
    append_opt (append_prop_byte packet Prop.payload_format) p.payload_format
    ⨾ append_opt (append_prop_uint32 packet Prop.message_expiry) p.message_expiry
    ⨾ append_opt (append_prop_uint32 packet Prop.will_delay_interval) p.will_delay_interval
    ⨾ append_nonempty (append_prop_string packet Prop.content_type) p.content_type
    ⨾ append_nonempty (append_prop_string packet Prop.response_topic) p.response_topic
    ⨾ append_opt (append_prop_binary packet Prop.correlation_data) p.correlation_data
    ⨾ append_opt (append_prop_uint16 packet Prop.topic_alias) p.topic_alias
    ⨾ append_subscription_identifiers packet p.subscription_identifier
    ⨾ append_user_properties packet p.user

abbrev pub empty_publish_properties : PublishProperties
empty_publish_properties = record {
  payload_format = none;
  message_expiry = none;
  will_delay_interval = none;
  content_type = [];
  response_topic = [];
  correlation_data = none;
  topic_alias = none;
  subscription_identifier = [];
  user = [];
}

instance abbrev pub publish_properties : PropertyStruct PublishProperties
publish_properties = record {
  empty = empty_publish_properties;
  assign = assign_publish_property;
  append = append_publish_properties;
}

unfoldable pub assign_connect_property : ConnectProperties → ℕ → PropertyValue → ConnectProperties
assign_connect_property p id v =
    if id == Prop.session_expiry_interval
    then record p { session_expiry_interval = some v.uint32_value }
    else if id == Prop.auth_method
    then record p { auth_method = v.string_value }
    else if id == Prop.auth_data
    then record p { auth_data = slice_of v.binary_value }
    else if id == Prop.request_problem_info
    then record p { request_problem_info = some v.byte_value }
    else if id == Prop.request_response_info
    then record p { request_response_info = some v.byte_value }
    else if id == Prop.receive_maximum
    then record p { receive_maximum = some v.uint16_value }
    else if id == Prop.topic_alias_maximum
    then record p { topic_alias_maximum = some v.uint16_value }
    else if id == Prop.maximum_packet_size
    then record p { maximum_packet_size = some v.uint32_value }
    else if id == Prop.user
    then record p { user = p.user ++ v.user_value ∷ [] }
    else p

unfoldable pub append_connect_properties : PacketType → ConnectProperties → Result Bytes
append_connect_properties packet p =
    append_opt (append_prop_uint32 packet Prop.session_expiry_interval) p.session_expiry_interval
    ⨾ append_nonempty (append_prop_string packet Prop.auth_method) p.auth_method
    ⨾ append_opt (append_prop_binary packet Prop.auth_data) p.auth_data
    ⨾ append_opt (append_prop_byte packet Prop.request_problem_info) p.request_problem_info
    ⨾ append_opt (append_prop_byte packet Prop.request_response_info) p.request_response_info
    ⨾ append_opt (append_prop_uint16 packet Prop.receive_maximum) p.receive_maximum
    ⨾ append_opt (append_prop_uint16 packet Prop.topic_alias_maximum) p.topic_alias_maximum
    ⨾ append_opt (append_prop_uint32 packet Prop.maximum_packet_size) p.maximum_packet_size
    ⨾ append_user_properties packet p.user

abbrev pub empty_connect_properties : ConnectProperties
empty_connect_properties = record {
  session_expiry_interval = none;
  auth_method = [];
  auth_data = none;
  request_problem_info = none;
  request_response_info = none;
  receive_maximum = none;
  topic_alias_maximum = none;
  maximum_packet_size = none;
  user = [];
}

instance abbrev pub connect_properties : PropertyStruct ConnectProperties
connect_properties = record {
  empty = empty_connect_properties;
  assign = assign_connect_property;
  append = append_connect_properties;
}

unfoldable pub assign_connack_property : ConnAckProperties → ℕ → PropertyValue → ConnAckProperties
assign_connack_property p id v =
    if id == Prop.session_expiry_interval
    then record p { session_expiry_interval = some v.uint32_value }
    else if id == Prop.assigned_client_id
    then record p { assigned_client_id = v.string_value }
    else if id == Prop.auth_method
    then record p { auth_method = v.string_value }
    else if id == Prop.response_info
    then record p { response_info = v.string_value }
    else if id == Prop.server_reference
    then record p { server_reference = v.string_value }
    else if id == Prop.reason_string
    then record p { reason_string = v.string_value }
    else if id == Prop.server_keep_alive
    then record p { server_keep_alive = some v.uint16_value }
    else if id == Prop.auth_data
    then record p { auth_data = slice_of v.binary_value }
    else if id == Prop.receive_maximum
    then record p { receive_maximum = some v.uint16_value }
    else if id == Prop.topic_alias_maximum
    then record p { topic_alias_maximum = some v.uint16_value }
    else if id == Prop.maximum_qos
    then record p { maximum_qos = some v.byte_value }
    else if id == Prop.retain_available
    then record p { retain_available = some v.byte_value }
    else if id == Prop.wildcard_sub_available
    then record p { wildcard_sub_available = some v.byte_value }
    else if id == Prop.sub_id_available
    then record p { sub_id_available = some v.byte_value }
    else if id == Prop.shared_sub_available
    then record p { shared_sub_available = some v.byte_value }
    else if id == Prop.maximum_packet_size
    then record p { maximum_packet_size = some v.uint32_value }
    else if id == Prop.user
    then record p { user = p.user ++ v.user_value ∷ [] }
    else p

unfoldable pub append_connack_properties : PacketType → ConnAckProperties → Result Bytes
append_connack_properties packet p =
    append_opt (append_prop_uint32 packet Prop.session_expiry_interval) p.session_expiry_interval
    ⨾ append_nonempty (append_prop_string packet Prop.assigned_client_id) p.assigned_client_id
    ⨾ append_nonempty (append_prop_string packet Prop.auth_method) p.auth_method
    ⨾ append_nonempty (append_prop_string packet Prop.response_info) p.response_info
    ⨾ append_nonempty (append_prop_string packet Prop.server_reference) p.server_reference
    ⨾ append_nonempty (append_prop_string packet Prop.reason_string) p.reason_string
    ⨾ append_opt (append_prop_uint16 packet Prop.server_keep_alive) p.server_keep_alive
    ⨾ append_opt (append_prop_binary packet Prop.auth_data) p.auth_data
    ⨾ append_opt (append_prop_uint16 packet Prop.receive_maximum) p.receive_maximum
    ⨾ append_opt (append_prop_uint16 packet Prop.topic_alias_maximum) p.topic_alias_maximum
    ⨾ append_opt (append_prop_byte packet Prop.maximum_qos) p.maximum_qos
    ⨾ append_opt (append_prop_byte packet Prop.retain_available) p.retain_available
    ⨾ append_opt (append_prop_byte packet Prop.wildcard_sub_available) p.wildcard_sub_available
    ⨾ append_opt (append_prop_byte packet Prop.sub_id_available) p.sub_id_available
    ⨾ append_opt (append_prop_byte packet Prop.shared_sub_available) p.shared_sub_available
    ⨾ append_opt (append_prop_uint32 packet Prop.maximum_packet_size) p.maximum_packet_size
    ⨾ append_user_properties packet p.user

abbrev pub empty_connack_properties : ConnAckProperties
empty_connack_properties = record {
  session_expiry_interval = none;
  assigned_client_id = [];
  auth_method = [];
  response_info = [];
  server_reference = [];
  reason_string = [];
  server_keep_alive = none;
  auth_data = none;
  receive_maximum = none;
  topic_alias_maximum = none;
  maximum_qos = none;
  retain_available = none;
  wildcard_sub_available = none;
  sub_id_available = none;
  shared_sub_available = none;
  maximum_packet_size = none;
  user = [];
}

instance abbrev pub connack_properties : PropertyStruct ConnAckProperties
connack_properties = record {
  empty = empty_connack_properties;
  assign = assign_connack_property;
  append = append_connack_properties;
}

unfoldable pub assign_subscribe_property :
    SubscribeProperties → ℕ → PropertyValue → SubscribeProperties
assign_subscribe_property p id v =
    if id == Prop.subscription_identifier
    then record p { subscription_identifier = some v.vbi_value }
    else if id == Prop.user
    then record p { user = p.user ++ v.user_value ∷ [] }
    else p

unfoldable pub append_subscribe_properties : PacketType → SubscribeProperties → Result Bytes
append_subscribe_properties packet p =
    append_opt (append_prop_vbi packet Prop.subscription_identifier) p.subscription_identifier
    ⨾ append_user_properties packet p.user

abbrev pub empty_subscribe_properties : SubscribeProperties
empty_subscribe_properties = record { subscription_identifier = none; user = [] }

instance abbrev pub subscribe_properties : PropertyStruct SubscribeProperties
subscribe_properties = record {
  empty = empty_subscribe_properties;
  assign = assign_subscribe_property;
  append = append_subscribe_properties;
}

unfoldable pub assign_reason_property : ReasonProperties → ℕ → PropertyValue → ReasonProperties
assign_reason_property p id v =
    if id == Prop.reason_string
    then record p { reason_string = v.string_value }
    else if id == Prop.user
    then record p { user = p.user ++ v.user_value ∷ [] }
    else p

unfoldable pub append_reason_properties : PacketType → ReasonProperties → Result Bytes
append_reason_properties packet p =
    append_nonempty (append_prop_string packet Prop.reason_string) p.reason_string
    ⨾ append_user_properties packet p.user

abbrev pub empty_reason_properties : ReasonProperties
empty_reason_properties = record { reason_string = []; user = [] }

instance abbrev pub reason_properties : PropertyStruct ReasonProperties
reason_properties = record {
  empty = empty_reason_properties;
  assign = assign_reason_property;
  append = append_reason_properties;
}

unfoldable pub assign_unsubscribe_property :
    UnsubscribeProperties → ℕ → PropertyValue → UnsubscribeProperties
assign_unsubscribe_property p id v =
    if id == Prop.user then record p { user = p.user ++ v.user_value ∷ [] } else p

unfoldable pub append_unsubscribe_properties : PacketType → UnsubscribeProperties → Result Bytes
append_unsubscribe_properties packet p = append_user_properties packet p.user

abbrev pub empty_unsubscribe_properties : UnsubscribeProperties
empty_unsubscribe_properties = record { user = [] }

instance abbrev pub unsubscribe_properties : PropertyStruct UnsubscribeProperties
unsubscribe_properties = record {
  empty = empty_unsubscribe_properties;
  assign = assign_unsubscribe_property;
  append = append_unsubscribe_properties;
}

unfoldable pub assign_disconnect_property :
    DisconnectProperties → ℕ → PropertyValue → DisconnectProperties
assign_disconnect_property p id v =
    if id == Prop.session_expiry_interval
    then record p { session_expiry_interval = some v.uint32_value }
    else if id == Prop.server_reference
    then record p { server_reference = v.string_value }
    else if id == Prop.reason_string
    then record p { reason_string = v.string_value }
    else if id == Prop.user
    then record p { user = p.user ++ v.user_value ∷ [] }
    else p

unfoldable pub append_disconnect_properties : PacketType → DisconnectProperties → Result Bytes
append_disconnect_properties packet p =
    append_opt (append_prop_uint32 packet Prop.session_expiry_interval) p.session_expiry_interval
    ⨾ append_nonempty (append_prop_string packet Prop.server_reference) p.server_reference
    ⨾ append_nonempty (append_prop_string packet Prop.reason_string) p.reason_string
    ⨾ append_user_properties packet p.user

abbrev pub empty_disconnect_properties : DisconnectProperties
empty_disconnect_properties = record {
  session_expiry_interval = none;
  server_reference = [];
  reason_string = [];
  user = [];
}

instance abbrev pub disconnect_properties : PropertyStruct DisconnectProperties
disconnect_properties = record {
  empty = empty_disconnect_properties;
  assign = assign_disconnect_property;
  append = append_disconnect_properties;
}

unfoldable pub assign_auth_property : AuthProperties → ℕ → PropertyValue → AuthProperties
assign_auth_property p id v =
    if id == Prop.auth_method
    then record p { auth_method = v.string_value }
    else if id == Prop.auth_data
    then record p { auth_data = slice_of v.binary_value }
    else if id == Prop.reason_string
    then record p { reason_string = v.string_value }
    else if id == Prop.user
    then record p { user = p.user ++ v.user_value ∷ [] }
    else p

unfoldable pub append_auth_properties : PacketType → AuthProperties → Result Bytes
append_auth_properties packet p =
    append_nonempty (append_prop_string packet Prop.auth_method) p.auth_method
    ⨾ append_opt (append_prop_binary packet Prop.auth_data) p.auth_data
    ⨾ append_nonempty (append_prop_string packet Prop.reason_string) p.reason_string
    ⨾ append_user_properties packet p.user

abbrev pub empty_auth_properties : AuthProperties
empty_auth_properties = record { auth_method = []; auth_data = none; reason_string = []; user = [] }

instance abbrev pub auth_properties : PropertyStruct AuthProperties
auth_properties = record {
  empty = empty_auth_properties;
  assign = assign_auth_property;
  append = append_auth_properties;
}
