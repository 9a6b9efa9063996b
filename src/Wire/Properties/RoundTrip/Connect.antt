-- ===== src/Wire/Properties/RoundTrip/Connect.antt =====
-- ConnectProperties are read back as they were written.
use sky_tree.Common.{refl, [], ◌∷◌}
use sky_tree.Mqtt5.Prop
use sky_tree.Mqtt5.PacketTypes.{PacketType}
use sky_tree.Mqtt5.Properties.{ConnectProperties}
use sky_tree.Wire.Properties.{zero_value, mem, validate_property_value}
use sky_tree.Wire.Properties.Loads.{Loads, Loads-opt, Loads-nonempty, Loads-users}
use sky_tree.Wire.Properties.Reads.{
  append_prop_byte-Reads, append_prop_uint16-Reads, append_prop_uint32-Reads,
  append_prop_binary-Reads, append_prop_string-Reads,
}
use sky_tree.Wire.Properties.Spec.{property_spec}
use sky_tree.Wire.Properties.Structs.{
  publish_properties, assign_connect_property, append_connect_properties, connect_properties,
  empty_connect_properties, connack_properties, subscribe_properties, reason_properties,
  unsubscribe_properties, disconnect_properties, auth_properties,
}
use sky_tree.Wire.Properties.RoundTrip.Ranges.{Below, IsSolid, below_some, slice_of_solid}

pub record ConnectFits (p : ConnectProperties) : Type 0 where
  pub session_expiry_interval : Below 4294967296 p.session_expiry_interval
  pub auth_data : IsSolid p.auth_data
  pub request_problem_info : Below 256 p.request_problem_info
  pub request_response_info : Below 256 p.request_response_info
  pub receive_maximum : Below 65536 p.receive_maximum
  pub topic_alias_maximum : Below 65536 p.topic_alias_maximum
  pub maximum_packet_size : Below 4294967296 p.maximum_packet_size

pub append_connect_properties-Loads :
    (packet : PacketType) (p : ConnectProperties)
    → ConnectFits p
    → Loads packet [] empty_connect_properties (append_connect_properties packet p) p
unfolding append_connect_properties assign_connect_property property_spec mem
    validate_property_value
append_connect_properties-Loads packet p fits =
    Loads-opt packet [] empty_connect_properties
      (record empty_connect_properties { session_expiry_interval = p.session_expiry_interval }) p
      p.session_expiry_interval _ _ Prop.session_expiry_interval
      (λ a. record zero_value { uint32_value = a }) refl
      (λ a bs q e.
        append_prop_uint32-Reads packet Prop.session_expiry_interval _ refl a bs
          (below_some _ p.session_expiry_interval a fits.session_expiry_interval q) refl e)
      (λ e. rw e) (λ a q. rw q)
      (Loads-nonempty packet (Prop.session_expiry_interval ∷ [])
        (record empty_connect_properties { session_expiry_interval = p.session_expiry_interval })
        (record empty_connect_properties {
          session_expiry_interval = p.session_expiry_interval;
          auth_method = p.auth_method;
        })
        p p.auth_method _ _ Prop.auth_method refl
        (λ bs e. append_prop_string-Reads packet Prop.auth_method _ refl p.auth_method bs refl e)
        (λ e. rw e) refl
        (Loads-opt packet (Prop.auth_method ∷ Prop.session_expiry_interval ∷ [])
          (record empty_connect_properties {
            session_expiry_interval = p.session_expiry_interval;
            auth_method = p.auth_method;
          })
          (record empty_connect_properties {
            session_expiry_interval = p.session_expiry_interval;
            auth_method = p.auth_method;
            auth_data = p.auth_data;
          })
          p p.auth_data _ _ Prop.auth_data (λ a. record zero_value { binary_value = a }) refl
          (λ a bs q e. append_prop_binary-Reads packet Prop.auth_data _ refl a bs refl refl e)
          (λ e. rw e) (λ a q. rw (slice_of_solid p.auth_data a fits.auth_data q))
          (Loads-opt packet (Prop.auth_data ∷ Prop.auth_method ∷ Prop.session_expiry_interval ∷ [])
            (record empty_connect_properties {
              session_expiry_interval = p.session_expiry_interval;
              auth_method = p.auth_method;
              auth_data = p.auth_data;
            })
            (record empty_connect_properties {
              session_expiry_interval = p.session_expiry_interval;
              auth_method = p.auth_method;
              auth_data = p.auth_data;
              request_problem_info = p.request_problem_info;
            })
            p p.request_problem_info _ _ Prop.request_problem_info
            (λ a. record zero_value { byte_value = a }) refl
            (λ a bs q e. append_prop_byte-Reads packet Prop.request_problem_info _ refl a bs refl e)
            (λ e. rw e) (λ a q. rw q)
            (Loads-opt packet
              (Prop.request_problem_info ∷ Prop.auth_data ∷ Prop.auth_method
                ∷ Prop.session_expiry_interval ∷ [])
              (record empty_connect_properties {
                session_expiry_interval = p.session_expiry_interval;
                auth_method = p.auth_method;
                auth_data = p.auth_data;
                request_problem_info = p.request_problem_info;
              })
              (record empty_connect_properties {
                session_expiry_interval = p.session_expiry_interval;
                auth_method = p.auth_method;
                auth_data = p.auth_data;
                request_problem_info = p.request_problem_info;
                request_response_info = p.request_response_info;
              })
              p p.request_response_info _ _ Prop.request_response_info
              (λ a. record zero_value { byte_value = a }) refl
              (λ a bs q e.
                append_prop_byte-Reads packet Prop.request_response_info _ refl a bs refl e)
              (λ e. rw e) (λ a q. rw q)
              (Loads-opt packet
                (Prop.request_response_info ∷ Prop.request_problem_info ∷ Prop.auth_data
                  ∷ Prop.auth_method ∷ Prop.session_expiry_interval ∷ [])
                (record empty_connect_properties {
                  session_expiry_interval = p.session_expiry_interval;
                  auth_method = p.auth_method;
                  auth_data = p.auth_data;
                  request_problem_info = p.request_problem_info;
                  request_response_info = p.request_response_info;
                })
                (record empty_connect_properties {
                  session_expiry_interval = p.session_expiry_interval;
                  auth_method = p.auth_method;
                  auth_data = p.auth_data;
                  request_problem_info = p.request_problem_info;
                  request_response_info = p.request_response_info;
                  receive_maximum = p.receive_maximum;
                })
                p p.receive_maximum _ _ Prop.receive_maximum
                (λ a. record zero_value { uint16_value = a }) refl
                (λ a bs q e.
                  append_prop_uint16-Reads packet Prop.receive_maximum _ refl a bs
                    (below_some _ p.receive_maximum a fits.receive_maximum q) refl e)
                (λ e. rw e) (λ a q. rw q)
                (Loads-opt packet
                  (Prop.receive_maximum ∷ Prop.request_response_info ∷ Prop.request_problem_info
                    ∷ Prop.auth_data ∷ Prop.auth_method ∷ Prop.session_expiry_interval ∷ [])
                  (record empty_connect_properties {
                    session_expiry_interval = p.session_expiry_interval;
                    auth_method = p.auth_method;
                    auth_data = p.auth_data;
                    request_problem_info = p.request_problem_info;
                    request_response_info = p.request_response_info;
                    receive_maximum = p.receive_maximum;
                  })
                  (record empty_connect_properties {
                    session_expiry_interval = p.session_expiry_interval;
                    auth_method = p.auth_method;
                    auth_data = p.auth_data;
                    request_problem_info = p.request_problem_info;
                    request_response_info = p.request_response_info;
                    receive_maximum = p.receive_maximum;
                    topic_alias_maximum = p.topic_alias_maximum;
                  })
                  p p.topic_alias_maximum _ _ Prop.topic_alias_maximum
                  (λ a. record zero_value { uint16_value = a }) refl
                  (λ a bs q e.
                    append_prop_uint16-Reads packet Prop.topic_alias_maximum _ refl a bs
                      (below_some _ p.topic_alias_maximum a fits.topic_alias_maximum q) refl e)
                  (λ e. rw e) (λ a q. rw q)
                  (Loads-opt packet
                    (Prop.topic_alias_maximum ∷ Prop.receive_maximum ∷ Prop.request_response_info
                      ∷ Prop.request_problem_info ∷ Prop.auth_data ∷ Prop.auth_method
                      ∷ Prop.session_expiry_interval ∷ [])
                    (record empty_connect_properties {
                      session_expiry_interval = p.session_expiry_interval;
                      auth_method = p.auth_method;
                      auth_data = p.auth_data;
                      request_problem_info = p.request_problem_info;
                      request_response_info = p.request_response_info;
                      receive_maximum = p.receive_maximum;
                      topic_alias_maximum = p.topic_alias_maximum;
                    })
                    (record empty_connect_properties {
                      session_expiry_interval = p.session_expiry_interval;
                      auth_method = p.auth_method;
                      auth_data = p.auth_data;
                      request_problem_info = p.request_problem_info;
                      request_response_info = p.request_response_info;
                      receive_maximum = p.receive_maximum;
                      topic_alias_maximum = p.topic_alias_maximum;
                      maximum_packet_size = p.maximum_packet_size;
                    })
                    p p.maximum_packet_size _ _ Prop.maximum_packet_size
                    (λ a. record zero_value { uint32_value = a }) refl
                    (λ a bs q e.
                      append_prop_uint32-Reads packet Prop.maximum_packet_size _ refl a bs
                        (below_some _ p.maximum_packet_size a fits.maximum_packet_size q) refl e)
                    (λ e. rw e) (λ a q. rw q)
                    (Loads-users packet
                      (Prop.maximum_packet_size ∷ Prop.topic_alias_maximum ∷ Prop.receive_maximum
                        ∷ Prop.request_response_info ∷ Prop.request_problem_info ∷ Prop.auth_data
                        ∷ Prop.auth_method ∷ Prop.session_expiry_interval ∷ [])
                      (λ us. record empty_connect_properties {
                        session_expiry_interval = p.session_expiry_interval;
                        auth_method = p.auth_method;
                        auth_data = p.auth_data;
                        request_problem_info = p.request_problem_info;
                        request_response_info = p.request_response_info;
                        receive_maximum = p.receive_maximum;
                        topic_alias_maximum = p.topic_alias_maximum;
                        maximum_packet_size = p.maximum_packet_size;
                        user = us;
                      })
                      [] p.user (λ us v. refl)))))))))
