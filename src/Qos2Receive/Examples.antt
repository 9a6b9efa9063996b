-- ===== src/Qos2Receive/Examples.antt =====
-- The theorems on the QoS 2 store at a concrete message.
use sky_tree.Common.{ℕ, ◌≡◌, refl, subst, true, false, none, some, [], ◌∷◌, arith, find, number_key}
use sky_tree.Mqtt5.Packet.{Publish}
use sky_tree.Qos2Receive.{
  Message, QoS2ReceiveStore, new_qos2_receive_store, get_publish, store, delete,
}
use sky_tree.Qos2Receive.Invariant.{IsTracked, new-IsTracked, store-IsTracked}
use sky_tree.Qos2Receive.Once.{IsRecent, Steps, Step, Steps-once, delete-once}

abbrev published : ℕ → Publish
published id = record {
  payload = 1 ∷ [];
  topic = 97 ∷ [];
  properties = none;
  packet_id = id;
  qos = 2;
  duplicate = false;
  retain = false;
}

abbrev message : ℕ → Message
message id = record {
  send_or_receive = false;
  send_client_id = [];
  owner_token = [];
  message_id = [];
  packet_id = [];
  ack_reason_code = 0;
  control_packet = none;
  publish = some (published id);
  has_send_once = false;
  pub_received = false;
  created_time = 0;
  expired_time = 0;
  will = false;
  will_delay = 0;
  from_session = false;
  share_topic = [];
  subscribe_topic = [];
  owner_client_id = [];
  duplicate = false;
  retain = false;
  retain_as_publish = false;
  encode_data = [];
}

abbrev one_waiting : QoS2ReceiveStore
one_waiting = record {
  waiting = (5, message 5) ∷ [];
  first_seen = (5, 100) ∷ [];
  last_seen = (5, 100) ∷ [];
}

one_waiting-stored : (store (some (message 5)) 90 100 new_qos2_receive_store).0 ≡ one_waiting
unfolding store
one_waiting-stored = refl

one_waiting-IsTracked : IsTracked one_waiting
one_waiting-IsTracked =
    subst (λ q. IsTracked q) one_waiting-stored
      (store-IsTracked (some (message 5)) 90 100 new_qos2_receive_store new-IsTracked)

waits : find 5 one_waiting.waiting ≡ some (message 5)
unfolding find
waits = refl

found : find 5 one_waiting.last_seen ≡ some 100
unfolding find
found = refl

recent : IsRecent 5 200 one_waiting
recent last h = ground (arith, found)

unchanged : (delete 6 one_waiting).0 ≡ one_waiting
unfolding delete
unchanged = refl

given : get_publish (message 5) ≡ some (published 5)
unfolding get_publish
given = refl

Steps-once_example :
    (find 5 one_waiting.waiting ≡ some (message 5))
    × ((store (some (message 5)) 200 201 one_waiting).1 ≡ true)
    × (find 5 (store (some (message 5)) 200 201 one_waiting).0.waiting ≡ some (message 5))
Steps-once_example =
    Steps-once 5 one_waiting one_waiting (message 5) (message 5) (published 5) 200 201
      one_waiting-IsTracked waits
      (subst (λ q. Steps 5 one_waiting q) unchanged
        (Steps.next Steps.start (Step.release one_waiting 6 (λ h. omega arith))))
      given refl recent

delete-once_example :
    ((delete 5 one_waiting).1 ≡ some (message 5)) × ((delete 5 (delete 5 one_waiting).0).1 ≡ none)
delete-once_example = delete-once 5 one_waiting (message 5) waits

store-IsTracked_example : IsTracked (store (some (message 5)) 90 100 new_qos2_receive_store).0
store-IsTracked_example =
    store-IsTracked (some (message 5)) 90 100 new_qos2_receive_store new-IsTracked
