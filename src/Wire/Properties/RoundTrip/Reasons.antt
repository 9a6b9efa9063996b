-- ===== src/Wire/Properties/RoundTrip/Reasons.antt =====
-- The smaller property structs are read back as they were written.
use sky_tree.Common.{refl, [], ◌∷◌}
use sky_tree.Mqtt5.Prop
use sky_tree.Mqtt5.PacketTypes.{PacketType}
use sky_tree.Mqtt5.Properties.{
  SubscribeProperties, ReasonProperties, UnsubscribeProperties, DisconnectProperties,
  AuthProperties,
}
use sky_tree.Wire.Properties.{zero_value, mem, validate_property_value}
use sky_tree.Wire.Properties.Loads.{Loads, Loads-opt, Loads-nonempty, Loads-users}
use sky_tree.Wire.Properties.Reads.{
  append_prop_uint32-Reads, append_prop_vbi-Reads, append_prop_binary-Reads,
  append_prop_string-Reads,
}
use sky_tree.Wire.Properties.Spec.{property_spec}
use sky_tree.Wire.Properties.Structs.{
  publish_properties, connect_properties, connack_properties, assign_subscribe_property,
  append_subscribe_properties, subscribe_properties, empty_subscribe_properties,
  assign_reason_property, append_reason_properties, reason_properties, empty_reason_properties,
  assign_unsubscribe_property, append_unsubscribe_properties, unsubscribe_properties,
  empty_unsubscribe_properties, assign_disconnect_property, append_disconnect_properties,
  disconnect_properties, empty_disconnect_properties, assign_auth_property, append_auth_properties,
  auth_properties, empty_auth_properties,
}
use sky_tree.Wire.Properties.RoundTrip.Ranges.{Below, IsSolid, below_some, slice_of_solid}

pub append_subscribe_properties-Loads :
    (packet : PacketType) (p : SubscribeProperties)
    → Loads packet [] empty_subscribe_properties (append_subscribe_properties packet p) p
unfolding append_subscribe_properties assign_subscribe_property property_spec mem
    validate_property_value
append_subscribe_properties-Loads packet p =
    Loads-opt packet [] empty_subscribe_properties
      (record empty_subscribe_properties { subscription_identifier = p.subscription_identifier }) p
      p.subscription_identifier _ _ Prop.subscription_identifier
      (λ a. record zero_value { vbi_value = a }) refl
      (λ a bs q e. append_prop_vbi-Reads packet Prop.subscription_identifier _ refl a bs refl e)
      (λ e. rw e) (λ a q. rw q)
      (Loads-users packet (Prop.subscription_identifier ∷ [])
        (λ us. record empty_subscribe_properties {
          subscription_identifier = p.subscription_identifier;
          user = us;
        })
        [] p.user (λ us v. refl))

pub append_reason_properties-Loads :
    (packet : PacketType) (p : ReasonProperties)
    → Loads packet [] empty_reason_properties (append_reason_properties packet p) p
unfolding append_reason_properties assign_reason_property property_spec mem validate_property_value
append_reason_properties-Loads packet p =
    Loads-nonempty packet [] empty_reason_properties
      (record empty_reason_properties { reason_string = p.reason_string }) p p.reason_string _ _
      Prop.reason_string refl
      (λ bs e. append_prop_string-Reads packet Prop.reason_string _ refl p.reason_string bs refl e)
      (λ e. rw e) refl
      (Loads-users packet (Prop.reason_string ∷ [])
        (λ us. record empty_reason_properties { reason_string = p.reason_string; user = us }) []
        p.user (λ us v. refl))

pub append_unsubscribe_properties-Loads :
    (packet : PacketType) (p : UnsubscribeProperties)
    → Loads packet [] empty_unsubscribe_properties (append_unsubscribe_properties packet p) p
unfolding append_unsubscribe_properties assign_unsubscribe_property property_spec mem
    validate_property_value
append_unsubscribe_properties-Loads packet p =
    Loads-users packet [] (λ us. record empty_unsubscribe_properties { user = us }) [] p.user
      (λ us v. refl)

pub record DisconnectFits (p : DisconnectProperties) : Type 0 where
  pub session_expiry_interval : Below 4294967296 p.session_expiry_interval

pub append_disconnect_properties-Loads :
    (packet : PacketType) (p : DisconnectProperties)
    → DisconnectFits p
    → Loads packet [] empty_disconnect_properties (append_disconnect_properties packet p) p
unfolding append_disconnect_properties assign_disconnect_property property_spec mem
    validate_property_value
append_disconnect_properties-Loads packet p fits =
    Loads-opt packet [] empty_disconnect_properties
      (record empty_disconnect_properties { session_expiry_interval = p.session_expiry_interval }) p
      p.session_expiry_interval _ _ Prop.session_expiry_interval
      (λ a. record zero_value { uint32_value = a }) refl
      (λ a bs q e.
        append_prop_uint32-Reads packet Prop.session_expiry_interval _ refl a bs
          (below_some _ p.session_expiry_interval a fits.session_expiry_interval q) refl e)
      (λ e. rw e) (λ a q. rw q)
      (Loads-nonempty packet (Prop.session_expiry_interval ∷ [])
        (record empty_disconnect_properties { session_expiry_interval = p.session_expiry_interval })
        (record empty_disconnect_properties {
          session_expiry_interval = p.session_expiry_interval;
          server_reference = p.server_reference;
        })
        p p.server_reference _ _ Prop.server_reference refl
        (λ bs e.
          append_prop_string-Reads packet Prop.server_reference _ refl p.server_reference bs refl e)
        (λ e. rw e) refl
        (Loads-nonempty packet (Prop.server_reference ∷ Prop.session_expiry_interval ∷ [])
          (record empty_disconnect_properties {
            session_expiry_interval = p.session_expiry_interval;
            server_reference = p.server_reference;
          })
          (record empty_disconnect_properties {
            session_expiry_interval = p.session_expiry_interval;
            server_reference = p.server_reference;
            reason_string = p.reason_string;
          })
          p p.reason_string _ _ Prop.reason_string refl
          (λ bs e.
            append_prop_string-Reads packet Prop.reason_string _ refl p.reason_string bs refl e)
          (λ e. rw e) refl
          (Loads-users packet
            (Prop.reason_string ∷ Prop.server_reference ∷ Prop.session_expiry_interval ∷ [])
            (λ us. record empty_disconnect_properties {
              session_expiry_interval = p.session_expiry_interval;
              server_reference = p.server_reference;
              reason_string = p.reason_string;
              user = us;
            })
            [] p.user (λ us v. refl))))

pub record AuthFits (p : AuthProperties) : Type 0 where
  pub auth_data : IsSolid p.auth_data

pub append_auth_properties-Loads :
    (packet : PacketType) (p : AuthProperties)
    → AuthFits p
    → Loads packet [] empty_auth_properties (append_auth_properties packet p) p
unfolding append_auth_properties assign_auth_property property_spec mem validate_property_value
append_auth_properties-Loads packet p fits =
    Loads-nonempty packet [] empty_auth_properties
      (record empty_auth_properties { auth_method = p.auth_method }) p p.auth_method _ _
      Prop.auth_method refl
      (λ bs e. append_prop_string-Reads packet Prop.auth_method _ refl p.auth_method bs refl e)
      (λ e. rw e) refl
      (Loads-opt packet (Prop.auth_method ∷ [])
        (record empty_auth_properties { auth_method = p.auth_method })
        (record empty_auth_properties { auth_method = p.auth_method; auth_data = p.auth_data }) p
        p.auth_data _ _ Prop.auth_data (λ a. record zero_value { binary_value = a }) refl
        (λ a bs q e. append_prop_binary-Reads packet Prop.auth_data _ refl a bs refl refl e)
        (λ e. rw e) (λ a q. rw (slice_of_solid p.auth_data a fits.auth_data q))
        (Loads-nonempty packet (Prop.auth_data ∷ Prop.auth_method ∷ [])
          (record empty_auth_properties { auth_method = p.auth_method; auth_data = p.auth_data })
          (record empty_auth_properties {
            auth_method = p.auth_method;
            auth_data = p.auth_data;
            reason_string = p.reason_string;
          })
          p p.reason_string _ _ Prop.reason_string refl
          (λ bs e.
            append_prop_string-Reads packet Prop.reason_string _ refl p.reason_string bs refl e)
          (λ e. rw e) refl
          (Loads-users packet (Prop.reason_string ∷ Prop.auth_data ∷ Prop.auth_method ∷ [])
            (λ us. record empty_auth_properties {
              auth_method = p.auth_method;
              auth_data = p.auth_data;
              reason_string = p.reason_string;
              user = us;
            })
            [] p.user (λ us v. refl))))
