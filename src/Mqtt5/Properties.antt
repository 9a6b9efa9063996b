-- ===== src/Mqtt5/Properties.antt =====
-- pkg/mqtt5/properties.go: the property identifiers and the property structs. A Go string or slice
-- is its list of bytes; a pointer, and a slice whose nil the code asks for, is an `Option`.
use sky_tree.Common.{ℕ, Option, List}

abbrev pub Bytes : Type 0
Bytes = List ℕ

pub record User : Type 0 where
  pub key : Bytes
  pub value : Bytes

pub record PublishProperties : Type 0 where
  pub payload_format : Option ℕ
  pub message_expiry : Option ℕ
  pub will_delay_interval : Option ℕ
  pub content_type : Bytes
  pub response_topic : Bytes
  pub correlation_data : Option Bytes
  pub topic_alias : Option ℕ
  pub subscription_identifier : List ℕ
  pub user : List User

pub record ConnectProperties : Type 0 where
  pub session_expiry_interval : Option ℕ
  pub auth_method : Bytes
  pub auth_data : Option Bytes
  pub request_problem_info : Option ℕ
  pub request_response_info : Option ℕ
  pub receive_maximum : Option ℕ
  pub topic_alias_maximum : Option ℕ
  pub maximum_packet_size : Option ℕ
  pub user : List User

pub record ConnAckProperties : Type 0 where
  pub session_expiry_interval : Option ℕ
  pub assigned_client_id : Bytes
  pub server_keep_alive : Option ℕ
  pub auth_method : Bytes
  pub auth_data : Option Bytes
  pub response_info : Bytes
  pub server_reference : Bytes
  pub reason_string : Bytes
  pub receive_maximum : Option ℕ
  pub topic_alias_maximum : Option ℕ
  pub maximum_qos : Option ℕ
  pub retain_available : Option ℕ
  pub wildcard_sub_available : Option ℕ
  pub sub_id_available : Option ℕ
  pub shared_sub_available : Option ℕ
  pub maximum_packet_size : Option ℕ
  pub user : List User

pub record SubscribeProperties : Type 0 where
  pub subscription_identifier : Option ℕ
  pub user : List User

-- SUBACK, UNSUBACK, PUBACK, PUBREC, PUBREL and PUBCOMP have six structs with these two fields.
pub record ReasonProperties : Type 0 where
  pub reason_string : Bytes
  pub user : List User

pub record UnsubscribeProperties : Type 0 where
  pub user : List User

pub record DisconnectProperties : Type 0 where
  pub session_expiry_interval : Option ℕ
  pub server_reference : Bytes
  pub reason_string : Bytes
  pub user : List User

pub record AuthProperties : Type 0 where
  pub auth_method : Bytes
  pub auth_data : Option Bytes
  pub reason_string : Bytes
  pub user : List User
