-- ===== src/Wire/Properties/RoundTrip/Publish.antt =====
-- PublishProperties are read back as they were written.
use sky_tree.Common.{◌≡◌, ◌⊎◌, refl, [], ◌∷◌}
use sky_tree.Mqtt5.Prop
use sky_tree.Mqtt5.PacketTypes.{PacketType, publish, will_properties}
use sky_tree.Mqtt5.Properties.{PublishProperties}
use sky_tree.Wire.Properties.{zero_value, mem, validate_property_value}
use sky_tree.Wire.Properties.Loads.{Loads, Loads-opt, Loads-nonempty, Loads-users, Loads-ids}
use sky_tree.Wire.Properties.Reads.{
  append_prop_byte-Reads, append_prop_uint16-Reads, append_prop_uint32-Reads,
  append_prop_binary-Reads, append_prop_string-Reads,
}
use sky_tree.Wire.Properties.Spec.{property_spec}
use sky_tree.Wire.Properties.Structs.{
  assign_publish_property, append_publish_properties, publish_properties, empty_publish_properties,
  connect_properties, connack_properties, subscribe_properties, reason_properties,
  unsubscribe_properties, disconnect_properties, auth_properties,
}
use sky_tree.Wire.Properties.RoundTrip.Ranges.{Below, IsSolid, below_some, slice_of_solid}

pub record PublishFits (p : PublishProperties) : Type 0 where
  pub payload_format : Below 256 p.payload_format
  pub message_expiry : Below 4294967296 p.message_expiry
  pub will_delay_interval : Below 4294967296 p.will_delay_interval
  pub correlation_data : IsSolid p.correlation_data
  pub topic_alias : Below 65536 p.topic_alias

pub append_publish_properties-Loads :
    (packet : PacketType) (p : PublishProperties)
    → (packet ≡ publish) ⊎ (packet ≡ will_properties)
    → PublishFits p
    → Loads packet [] empty_publish_properties (append_publish_properties packet p) p
unfolding append_publish_properties assign_publish_property property_spec mem
    validate_property_value
append_publish_properties-Loads packet p carrier fits =
    Loads-opt packet [] empty_publish_properties
      (record empty_publish_properties { payload_format = p.payload_format }) p p.payload_format _ _
      Prop.payload_format (λ a. record zero_value { byte_value = a }) refl
      (λ a bs q e. append_prop_byte-Reads packet Prop.payload_format _ refl a bs refl e) (λ e. rw e)
      (λ a q. rw q)
      (Loads-opt packet (Prop.payload_format ∷ [])
        (record empty_publish_properties { payload_format = p.payload_format })
        (record empty_publish_properties {
          payload_format = p.payload_format;
          message_expiry = p.message_expiry;
        })
        p p.message_expiry _ _ Prop.message_expiry (λ a. record zero_value { uint32_value = a })
        refl
        (λ a bs q e.
          append_prop_uint32-Reads packet Prop.message_expiry _ refl a bs
            (below_some _ p.message_expiry a fits.message_expiry q) refl e)
        (λ e. rw e) (λ a q. rw q)
        (Loads-opt packet (Prop.message_expiry ∷ Prop.payload_format ∷ [])
          (record empty_publish_properties {
            payload_format = p.payload_format;
            message_expiry = p.message_expiry;
          })
          (record empty_publish_properties {
            payload_format = p.payload_format;
            message_expiry = p.message_expiry;
            will_delay_interval = p.will_delay_interval;
          })
          p p.will_delay_interval _ _ Prop.will_delay_interval
          (λ a. record zero_value { uint32_value = a }) refl
          (λ a bs q e.
            append_prop_uint32-Reads packet Prop.will_delay_interval _ refl a bs
              (below_some _ p.will_delay_interval a fits.will_delay_interval q) refl e)
          (λ e. rw e) (λ a q. rw q)
          (Loads-nonempty packet
            (Prop.will_delay_interval ∷ Prop.message_expiry ∷ Prop.payload_format ∷ [])
            (record empty_publish_properties {
              payload_format = p.payload_format;
              message_expiry = p.message_expiry;
              will_delay_interval = p.will_delay_interval;
            })
            (record empty_publish_properties {
              payload_format = p.payload_format;
              message_expiry = p.message_expiry;
              will_delay_interval = p.will_delay_interval;
              content_type = p.content_type;
            })
            p p.content_type _ _ Prop.content_type refl
            (λ bs e.
              append_prop_string-Reads packet Prop.content_type _ refl p.content_type bs refl e)
            (λ e. rw e) refl
            (Loads-nonempty packet
              (Prop.content_type ∷ Prop.will_delay_interval ∷ Prop.message_expiry
                ∷ Prop.payload_format ∷ [])
              (record empty_publish_properties {
                payload_format = p.payload_format;
                message_expiry = p.message_expiry;
                will_delay_interval = p.will_delay_interval;
                content_type = p.content_type;
              })
              (record empty_publish_properties {
                payload_format = p.payload_format;
                message_expiry = p.message_expiry;
                will_delay_interval = p.will_delay_interval;
                content_type = p.content_type;
                response_topic = p.response_topic;
              })
              p p.response_topic _ _ Prop.response_topic refl
              (λ bs e.
                append_prop_string-Reads packet Prop.response_topic _ refl p.response_topic bs refl
                  e)
              (λ e. rw e) refl
              (Loads-opt packet
                (Prop.response_topic ∷ Prop.content_type ∷ Prop.will_delay_interval
                  ∷ Prop.message_expiry ∷ Prop.payload_format ∷ [])
                (record empty_publish_properties {
                  payload_format = p.payload_format;
                  message_expiry = p.message_expiry;
                  will_delay_interval = p.will_delay_interval;
                  content_type = p.content_type;
                  response_topic = p.response_topic;
                })
                (record empty_publish_properties {
                  payload_format = p.payload_format;
                  message_expiry = p.message_expiry;
                  will_delay_interval = p.will_delay_interval;
                  content_type = p.content_type;
                  response_topic = p.response_topic;
                  correlation_data = p.correlation_data;
                })
                p p.correlation_data _ _ Prop.correlation_data
                (λ a. record zero_value { binary_value = a }) refl
                (λ a bs q e.
                  append_prop_binary-Reads packet Prop.correlation_data _ refl a bs refl refl e)
                (λ e. rw e)
                (λ a q. rw (slice_of_solid p.correlation_data a fits.correlation_data q))
                (Loads-opt packet
                  (Prop.correlation_data ∷ Prop.response_topic ∷ Prop.content_type
                    ∷ Prop.will_delay_interval ∷ Prop.message_expiry ∷ Prop.payload_format ∷ [])
                  (record empty_publish_properties {
                    payload_format = p.payload_format;
                    message_expiry = p.message_expiry;
                    will_delay_interval = p.will_delay_interval;
                    content_type = p.content_type;
                    response_topic = p.response_topic;
                    correlation_data = p.correlation_data;
                  })
                  (record empty_publish_properties {
                    payload_format = p.payload_format;
                    message_expiry = p.message_expiry;
                    will_delay_interval = p.will_delay_interval;
                    content_type = p.content_type;
                    response_topic = p.response_topic;
                    correlation_data = p.correlation_data;
                    topic_alias = p.topic_alias;
                  })
                  p p.topic_alias _ _ Prop.topic_alias (λ a. record zero_value { uint16_value = a })
                  refl
                  (λ a bs q e.
                    append_prop_uint16-Reads packet Prop.topic_alias _ refl a bs
                      (below_some _ p.topic_alias a fits.topic_alias q) refl e)
                  (λ e. rw e) (λ a q. rw q)
                  (Loads-ids packet
                    (Prop.topic_alias ∷ Prop.correlation_data ∷ Prop.response_topic
                      ∷ Prop.content_type ∷ Prop.will_delay_interval ∷ Prop.message_expiry
                      ∷ Prop.payload_format ∷ [])
                    (λ is. record empty_publish_properties {
                      payload_format = p.payload_format;
                      message_expiry = p.message_expiry;
                      will_delay_interval = p.will_delay_interval;
                      content_type = p.content_type;
                      response_topic = p.response_topic;
                      correlation_data = p.correlation_data;
                      topic_alias = p.topic_alias;
                      subscription_identifier = is;
                    })
                    [] p.subscription_identifier p _ carrier (λ is j. refl)
                    (Loads-users packet
                      (Prop.topic_alias ∷ Prop.correlation_data ∷ Prop.response_topic
                        ∷ Prop.content_type ∷ Prop.will_delay_interval ∷ Prop.message_expiry
                        ∷ Prop.payload_format ∷ [])
                      (λ us. record empty_publish_properties {
                        payload_format = p.payload_format;
                        message_expiry = p.message_expiry;
                        will_delay_interval = p.will_delay_interval;
                        content_type = p.content_type;
                        response_topic = p.response_topic;
                        correlation_data = p.correlation_data;
                        topic_alias = p.topic_alias;
                        subscription_identifier = p.subscription_identifier;
                        user = us;
                      })
                      [] p.user (λ us v. refl)))))))))
