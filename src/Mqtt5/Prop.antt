-- ===== src/Mqtt5/Prop.antt =====
-- The property identifiers of pkg/mqtt5/properties.go.
use sky_tree.Common.{ℕ}

abbrev pub payload_format : ℕ
payload_format = 1

abbrev pub message_expiry : ℕ
message_expiry = 2

abbrev pub content_type : ℕ
content_type = 3

abbrev pub response_topic : ℕ
response_topic = 8

abbrev pub correlation_data : ℕ
correlation_data = 9

abbrev pub subscription_identifier : ℕ
subscription_identifier = 11

abbrev pub session_expiry_interval : ℕ
session_expiry_interval = 17

abbrev pub assigned_client_id : ℕ
assigned_client_id = 18

abbrev pub server_keep_alive : ℕ
server_keep_alive = 19

abbrev pub auth_method : ℕ
auth_method = 21

abbrev pub auth_data : ℕ
auth_data = 22

abbrev pub request_problem_info : ℕ
request_problem_info = 23

abbrev pub will_delay_interval : ℕ
will_delay_interval = 24

abbrev pub request_response_info : ℕ
request_response_info = 25

abbrev pub response_info : ℕ
response_info = 26

abbrev pub server_reference : ℕ
server_reference = 28

abbrev pub reason_string : ℕ
reason_string = 31

abbrev pub receive_maximum : ℕ
receive_maximum = 33

abbrev pub topic_alias_maximum : ℕ
topic_alias_maximum = 34

abbrev pub topic_alias : ℕ
topic_alias = 35

abbrev pub maximum_qos : ℕ
maximum_qos = 36

abbrev pub retain_available : ℕ
retain_available = 37

abbrev pub user : ℕ
user = 38

abbrev pub maximum_packet_size : ℕ
maximum_packet_size = 39

abbrev pub wildcard_sub_available : ℕ
wildcard_sub_available = 40

abbrev pub sub_id_available : ℕ
sub_id_available = 41

abbrev pub shared_sub_available : ℕ
shared_sub_available = 42
