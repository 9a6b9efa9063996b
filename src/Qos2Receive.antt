-- ===== src/Qos2Receive.antt =====
-- internal/broker/client/qos2receive/qos2_receiver.go: the QoS 2 messages that a client has sent and
-- not yet released, with the Message of pkg/brokerapi/publish. Times are nanoseconds as natural
-- numbers; `now` and `later` are what two calls of time.Now return. The mutex makes each operation
-- one step. `GetPublish` also keeps what it finds in the control packet, which changes no later
-- result, and is a function here. The field RetryInfo of a message, which no function here reads, is
-- left out.
pub mod Invariant
pub mod Once
mod Examples
use sky_tree.Common.{
  ℕ, zero, suc, ◌+◌, ◌*◌, String, Bool, true, false, Option, none, some, List, [], ◌∷◌, leb, ◌==◌,
  if◌then◌else◌, find, insert, remove, number_key, length,
}
use sky_tree.Mqtt5.Properties.{Bytes}
use sky_tree.Mqtt5.Packet.{Packet, Publish, ControlPacket}

pub record Message : Type 0 where
  pub send_or_receive : Bool
  pub send_client_id : Bytes
  pub owner_token : Bytes
  pub message_id : Bytes
  pub packet_id : Bytes
  pub ack_reason_code : ℕ
  pub control_packet : Option ControlPacket
  pub publish : Option Publish
  pub has_send_once : Bool
  pub pub_received : Bool
  pub created_time : ℕ
  pub expired_time : ℕ
  pub will : Bool
  pub will_delay : ℕ
  pub from_session : Bool
  pub share_topic : Bytes
  pub subscribe_topic : Bytes
  pub owner_client_id : Bytes
  pub duplicate : Bool
  pub retain : Bool
  pub retain_as_publish : Bool
  pub encode_data : Bytes

abbrev publish_in : Option Packet → Option Publish
publish_in (some (Packet.publish p)) = some p
publish_in _ = none

abbrev content_of : Option ControlPacket → Option Publish
content_of none = none
content_of (some cp) = publish_in cp.content

abbrev or_content : Option Publish → Option ControlPacket → Option Publish
or_content (some p) cp = some p
or_content none cp = content_of cp

unfoldable pub get_publish : Message → Option Publish
get_publish m = or_content m.publish m.control_packet

pub record QoS2ReceiveStore : Type 0 where
  pub waiting : List (ℕ × Message)
  pub first_seen : List (ℕ × ℕ)
  pub last_seen : List (ℕ × ℕ)

abbrev pub new_qos2_receive_store : QoS2ReceiveStore
new_qos2_receive_store = record { waiting = []; first_seen = []; last_seen = [] }

-- 10 minutes.
abbrev pub default_qos2_waiting_ttl : ℕ
default_qos2_waiting_ttl = 600000000000

unfoldable pub forget : ℕ → QoS2ReceiveStore → QoS2ReceiveStore
unfolding remove
forget id q = record {
  waiting = remove id q.waiting;
  first_seen = remove id q.first_seen;
  last_seen = remove id q.last_seen;
}

-- The loop over the entries that `lastSeen` had, with the number of those removed.
unfoldable pub cleanup_loop : ℕ → ℕ → List (ℕ × ℕ) → QoS2ReceiveStore → QoS2ReceiveStore × ℕ
unfolding forget
cleanup_loop ttl now [] q = (q, 0)
cleanup_loop ttl now ((id, last) ∷ rest) q =
    let kept = cleanup_loop ttl now rest q in
    let dropped = cleanup_loop ttl now rest (forget id q) in
    if leb now (last + ttl) then kept else (dropped.0, suc dropped.1)

unfoldable pub cleanup_expired : ℕ → ℕ → QoS2ReceiveStore → QoS2ReceiveStore × ℕ
unfolding cleanup_loop
cleanup_expired ttl now q = if ttl == 0 then (q, 0) else cleanup_loop ttl now q.last_seen q

unfoldable pub keep : ℕ → Message → ℕ → QoS2ReceiveStore → QoS2ReceiveStore × Bool
unfolding find insert
keep id message later q = elim (find id q.waiting) [
  | some _ ↦ (record q { last_seen = insert id later q.last_seen }, true)
  | none ↦ (
    record {
      waiting = insert id message q.waiting;
      first_seen = insert id later q.first_seen;
      last_seen = insert id later q.last_seen;
    },
    false,
  )
]

-- Whether the identifier was waiting already; `none` is a nil message.
unfoldable pub store : Option Message → ℕ → ℕ → QoS2ReceiveStore → QoS2ReceiveStore × Bool
unfolding get_publish keep cleanup_expired
store none now later q = (q, false)
store (some message) now later q = elim (get_publish message) [
  | none ↦ (q, false)
  | some publish ↦
      keep publish.packet_id message later (cleanup_expired default_qos2_waiting_ttl now q).0
]

unfoldable pub read : ℕ → QoS2ReceiveStore → Option Message
unfolding find
read id q = find id q.waiting

unfoldable pub delete : ℕ → QoS2ReceiveStore → QoS2ReceiveStore × Option Message
unfolding find forget
delete id q = elim (find id q.waiting) [
  | none ↦ (q, none)
  | some message ↦ (forget id q, some message)
]

unfoldable pub clear : QoS2ReceiveStore → QoS2ReceiveStore
clear q = new_qos2_receive_store

unfoldable pub count : ℕ → QoS2ReceiveStore → QoS2ReceiveStore × ℕ
unfolding cleanup_expired
count now q =
    let cleaned = (cleanup_expired default_qos2_waiting_ttl now q).0 in
    (cleaned, length cleaned.waiting)
