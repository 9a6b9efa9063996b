-- ===== src/Wire/Properties/RoundTrip/ConnAck.antt =====
-- ConnAckProperties are read back as they were written.
use sky_tree.Common.{ℕ, List, refl, [], ◌∷◌}
use sky_tree.Mqtt5.Prop
use sky_tree.Mqtt5.PacketTypes.{PacketType}
use sky_tree.Mqtt5.Properties.{ConnAckProperties}
use sky_tree.Wire.Properties.{zero_value, mem, validate_property_value}
use sky_tree.Wire.Properties.Loads.{Loads, Loads-opt, Loads-nonempty, Loads-users}
use sky_tree.Wire.Properties.Reads.{
  append_prop_byte-Reads, append_prop_uint16-Reads, append_prop_uint32-Reads,
  append_prop_binary-Reads, append_prop_string-Reads,
}
use sky_tree.Wire.Properties.Spec.{property_spec}
use sky_tree.Wire.Properties.Structs.{
  publish_properties, connect_properties, assign_connack_property, append_connack_properties,
  connack_properties, empty_connack_properties, subscribe_properties, reason_properties,
  unsubscribe_properties, disconnect_properties, auth_properties,
}
use sky_tree.Wire.Properties.RoundTrip.Ranges.{Below, IsSolid, below_some, slice_of_solid}

pub record ConnAckFits (p : ConnAckProperties) : Type 0 where
  pub session_expiry_interval : Below 4294967296 p.session_expiry_interval
  pub server_keep_alive : Below 65536 p.server_keep_alive
  pub auth_data : IsSolid p.auth_data
  pub receive_maximum : Below 65536 p.receive_maximum
  pub topic_alias_maximum : Below 65536 p.topic_alias_maximum
  pub maximum_qos : Below 256 p.maximum_qos
  pub retain_available : Below 256 p.retain_available
  pub wildcard_sub_available : Below 256 p.wildcard_sub_available
  pub sub_id_available : Below 256 p.sub_id_available
  pub shared_sub_available : Below 256 p.shared_sub_available
  pub maximum_packet_size : Below 4294967296 p.maximum_packet_size

-- The properties read so far, and the struct with them.
abbrev upto_session_expiry_interval : List ℕ
upto_session_expiry_interval = Prop.session_expiry_interval ∷ []

abbrev with_session_expiry_interval : ConnAckProperties → ConnAckProperties
with_session_expiry_interval p = record empty_connack_properties {
  session_expiry_interval = p.session_expiry_interval;
}

abbrev upto_assigned_client_id : List ℕ
upto_assigned_client_id = Prop.assigned_client_id ∷ upto_session_expiry_interval

abbrev with_assigned_client_id : ConnAckProperties → ConnAckProperties
with_assigned_client_id p = record (with_session_expiry_interval p) {
  assigned_client_id = p.assigned_client_id;
}

abbrev upto_auth_method : List ℕ
upto_auth_method = Prop.auth_method ∷ upto_assigned_client_id

abbrev with_auth_method : ConnAckProperties → ConnAckProperties
with_auth_method p = record (with_assigned_client_id p) { auth_method = p.auth_method }

abbrev upto_response_info : List ℕ
upto_response_info = Prop.response_info ∷ upto_auth_method

abbrev with_response_info : ConnAckProperties → ConnAckProperties
with_response_info p = record (with_auth_method p) { response_info = p.response_info }

abbrev upto_server_reference : List ℕ
upto_server_reference = Prop.server_reference ∷ upto_response_info

abbrev with_server_reference : ConnAckProperties → ConnAckProperties
with_server_reference p = record (with_response_info p) { server_reference = p.server_reference }

abbrev upto_reason_string : List ℕ
upto_reason_string = Prop.reason_string ∷ upto_server_reference

abbrev with_reason_string : ConnAckProperties → ConnAckProperties
with_reason_string p = record (with_server_reference p) { reason_string = p.reason_string }

abbrev upto_server_keep_alive : List ℕ
upto_server_keep_alive = Prop.server_keep_alive ∷ upto_reason_string

abbrev with_server_keep_alive : ConnAckProperties → ConnAckProperties
with_server_keep_alive p = record (with_reason_string p) { server_keep_alive = p.server_keep_alive }

abbrev upto_auth_data : List ℕ
upto_auth_data = Prop.auth_data ∷ upto_server_keep_alive

abbrev with_auth_data : ConnAckProperties → ConnAckProperties
with_auth_data p = record (with_server_keep_alive p) { auth_data = p.auth_data }

abbrev upto_receive_maximum : List ℕ
upto_receive_maximum = Prop.receive_maximum ∷ upto_auth_data

abbrev with_receive_maximum : ConnAckProperties → ConnAckProperties
with_receive_maximum p = record (with_auth_data p) { receive_maximum = p.receive_maximum }

abbrev upto_topic_alias_maximum : List ℕ
upto_topic_alias_maximum = Prop.topic_alias_maximum ∷ upto_receive_maximum

abbrev with_topic_alias_maximum : ConnAckProperties → ConnAckProperties
with_topic_alias_maximum p = record (with_receive_maximum p) {
  topic_alias_maximum = p.topic_alias_maximum;
}

abbrev upto_maximum_qos : List ℕ
upto_maximum_qos = Prop.maximum_qos ∷ upto_topic_alias_maximum

abbrev with_maximum_qos : ConnAckProperties → ConnAckProperties
with_maximum_qos p = record (with_topic_alias_maximum p) { maximum_qos = p.maximum_qos }

abbrev upto_retain_available : List ℕ
upto_retain_available = Prop.retain_available ∷ upto_maximum_qos

abbrev with_retain_available : ConnAckProperties → ConnAckProperties
with_retain_available p = record (with_maximum_qos p) { retain_available = p.retain_available }

abbrev upto_wildcard_sub_available : List ℕ
upto_wildcard_sub_available = Prop.wildcard_sub_available ∷ upto_retain_available

abbrev with_wildcard_sub_available : ConnAckProperties → ConnAckProperties
with_wildcard_sub_available p = record (with_retain_available p) {
  wildcard_sub_available = p.wildcard_sub_available;
}

abbrev upto_sub_id_available : List ℕ
upto_sub_id_available = Prop.sub_id_available ∷ upto_wildcard_sub_available

abbrev with_sub_id_available : ConnAckProperties → ConnAckProperties
with_sub_id_available p = record (with_wildcard_sub_available p) {
  sub_id_available = p.sub_id_available;
}

abbrev upto_shared_sub_available : List ℕ
upto_shared_sub_available = Prop.shared_sub_available ∷ upto_sub_id_available

abbrev with_shared_sub_available : ConnAckProperties → ConnAckProperties
with_shared_sub_available p = record (with_sub_id_available p) {
  shared_sub_available = p.shared_sub_available;
}

abbrev upto_maximum_packet_size : List ℕ
upto_maximum_packet_size = Prop.maximum_packet_size ∷ upto_shared_sub_available

abbrev with_maximum_packet_size : ConnAckProperties → ConnAckProperties
with_maximum_packet_size p = record (with_shared_sub_available p) {
  maximum_packet_size = p.maximum_packet_size;
}

pub append_connack_properties-Loads :
    (packet : PacketType) (p : ConnAckProperties)
    → ConnAckFits p
    → Loads packet [] empty_connack_properties (append_connack_properties packet p) p
unfolding append_connack_properties assign_connack_property property_spec mem
    validate_property_value
append_connack_properties-Loads packet p fits =
    Loads-opt packet [] empty_connack_properties (with_session_expiry_interval p) p
      p.session_expiry_interval _ _ Prop.session_expiry_interval
      (λ a. record zero_value { uint32_value = a }) refl
      (λ a bs q e.
        append_prop_uint32-Reads packet Prop.session_expiry_interval _ refl a bs
          (below_some _ p.session_expiry_interval a fits.session_expiry_interval q) refl e)
      (λ e. rw e) (λ a q. rw q)
      (Loads-nonempty packet upto_session_expiry_interval (with_session_expiry_interval p)
        (with_assigned_client_id p) p p.assigned_client_id _ _ Prop.assigned_client_id refl
        (λ bs e.
          append_prop_string-Reads packet Prop.assigned_client_id _ refl p.assigned_client_id bs
            refl e)
        (λ e. rw e) refl
        (Loads-nonempty packet upto_assigned_client_id (with_assigned_client_id p)
          (with_auth_method p) p p.auth_method _ _ Prop.auth_method refl
          (λ bs e. append_prop_string-Reads packet Prop.auth_method _ refl p.auth_method bs refl e)
          (λ e. rw e) refl
          (Loads-nonempty packet upto_auth_method (with_auth_method p) (with_response_info p) p
            p.response_info _ _ Prop.response_info refl
            (λ bs e.
              append_prop_string-Reads packet Prop.response_info _ refl p.response_info bs refl e)
            (λ e. rw e) refl
            (Loads-nonempty packet upto_response_info (with_response_info p)
              (with_server_reference p) p p.server_reference _ _ Prop.server_reference refl
              (λ bs e.
                append_prop_string-Reads packet Prop.server_reference _ refl p.server_reference bs
                  refl e)
              (λ e. rw e) refl
              (Loads-nonempty packet upto_server_reference (with_server_reference p)
                (with_reason_string p) p p.reason_string _ _ Prop.reason_string refl
                (λ bs e.
                  append_prop_string-Reads packet Prop.reason_string _ refl p.reason_string bs refl
                    e)
                (λ e. rw e) refl
                (Loads-opt packet upto_reason_string (with_reason_string p)
                  (with_server_keep_alive p) p p.server_keep_alive _ _ Prop.server_keep_alive
                  (λ a. record zero_value { uint16_value = a }) refl
                  (λ a bs q e.
                    append_prop_uint16-Reads packet Prop.server_keep_alive _ refl a bs
                      (below_some _ p.server_keep_alive a fits.server_keep_alive q) refl e)
                  (λ e. rw e) (λ a q. rw q)
                  (Loads-opt packet upto_server_keep_alive (with_server_keep_alive p)
                    (with_auth_data p) p p.auth_data _ _ Prop.auth_data
                    (λ a. record zero_value { binary_value = a }) refl
                    (λ a bs q e.
                      append_prop_binary-Reads packet Prop.auth_data _ refl a bs refl refl e)
                    (λ e. rw e) (λ a q. rw (slice_of_solid p.auth_data a fits.auth_data q))
                    (Loads-opt packet upto_auth_data (with_auth_data p) (with_receive_maximum p) p
                      p.receive_maximum _ _ Prop.receive_maximum
                      (λ a. record zero_value { uint16_value = a }) refl
                      (λ a bs q e.
                        append_prop_uint16-Reads packet Prop.receive_maximum _ refl a bs
                          (below_some _ p.receive_maximum a fits.receive_maximum q) refl e)
                      (λ e. rw e) (λ a q. rw q)
                      (Loads-opt packet upto_receive_maximum (with_receive_maximum p)
                        (with_topic_alias_maximum p) p p.topic_alias_maximum _ _
                        Prop.topic_alias_maximum (λ a. record zero_value { uint16_value = a }) refl
                        (λ a bs q e.
                          append_prop_uint16-Reads packet Prop.topic_alias_maximum _ refl a bs
                            (below_some _ p.topic_alias_maximum a fits.topic_alias_maximum q) refl
                            e)
                        (λ e. rw e) (λ a q. rw q)
                        (Loads-opt packet upto_topic_alias_maximum (with_topic_alias_maximum p)
                          (with_maximum_qos p) p p.maximum_qos _ _ Prop.maximum_qos
                          (λ a. record zero_value { byte_value = a }) refl
                          (λ a bs q e.
                            append_prop_byte-Reads packet Prop.maximum_qos _ refl a bs refl e)
                          (λ e. rw e) (λ a q. rw q)
                          (Loads-opt packet upto_maximum_qos (with_maximum_qos p)
                            (with_retain_available p) p p.retain_available _ _ Prop.retain_available
                            (λ a. record zero_value { byte_value = a }) refl
                            (λ a bs q e.
                              append_prop_byte-Reads packet Prop.retain_available _ refl a bs refl
                                e)
                            (λ e. rw e) (λ a q. rw q)
                            (Loads-opt packet upto_retain_available (with_retain_available p)
                              (with_wildcard_sub_available p) p p.wildcard_sub_available _ _
                              Prop.wildcard_sub_available
                              (λ a. record zero_value { byte_value = a }) refl
                              (λ a bs q e.
                                append_prop_byte-Reads packet Prop.wildcard_sub_available _ refl a
                                  bs refl e)
                              (λ e. rw e) (λ a q. rw q)
                              (Loads-opt packet upto_wildcard_sub_available
                                (with_wildcard_sub_available p) (with_sub_id_available p) p
                                p.sub_id_available _ _ Prop.sub_id_available
                                (λ a. record zero_value { byte_value = a }) refl
                                (λ a bs q e.
                                  append_prop_byte-Reads packet Prop.sub_id_available _ refl a bs
                                    refl e)
                                (λ e. rw e) (λ a q. rw q)
                                (Loads-opt packet upto_sub_id_available (with_sub_id_available p)
                                  (with_shared_sub_available p) p p.shared_sub_available _ _
                                  Prop.shared_sub_available
                                  (λ a. record zero_value { byte_value = a }) refl
                                  (λ a bs q e.
                                    append_prop_byte-Reads packet Prop.shared_sub_available _ refl a
                                      bs refl e)
                                  (λ e. rw e) (λ a q. rw q)
                                  (Loads-opt packet upto_shared_sub_available
                                    (with_shared_sub_available p) (with_maximum_packet_size p) p
                                    p.maximum_packet_size _ _ Prop.maximum_packet_size
                                    (λ a. record zero_value { uint32_value = a }) refl
                                    (λ a bs q e.
                                      append_prop_uint32-Reads packet Prop.maximum_packet_size _
                                        refl a bs
                                        (below_some _ p.maximum_packet_size a
                                          fits.maximum_packet_size q)
                                        refl e)
                                    (λ e. rw e) (λ a q. rw q)
                                    (Loads-users packet upto_maximum_packet_size
                                      (λ us. record (with_maximum_packet_size p) { user = us }) []
                                      p.user (λ us v. refl)))))))))))))))))
