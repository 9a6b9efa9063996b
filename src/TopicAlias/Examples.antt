-- ===== src/TopicAlias/Examples.antt =====
-- The theorems on topic aliases at concrete packets.
use sky_tree.Common.{◌≤◌, ◌≡◌, refl, true, false, none, some, List, [], ◌∷◌, arith}
use sky_tree.Mqtt5.Properties.{PublishProperties}
use sky_tree.Mqtt5.Packet.{Publish}
use sky_tree.Topic.Levels.{is_empty}
use sky_tree.TopicAlias.{
  TopicAliasManager, new_topic_alias_manager, alias_of, reuse, allocate, apply_downlink, alias_in,
  apply_uplink, without_alias, resolved,
}
use sky_tree.TopicAlias.Calls.{Call, run_calls, AllKeep}
use sky_tree.TopicAlias.Laws.{apply_downlink-InRange, apply_uplink-resolved}

abbrev aliased : PublishProperties
aliased = record {
  payload_format = none;
  message_expiry = none;
  will_delay_interval = none;
  content_type = [];
  response_topic = [];
  correlation_data = none;
  topic_alias = some 9;
  subscription_identifier = [];
  user = [];
}

abbrev sent : Publish
sent = record {
  payload = 1 ∷ [];
  topic = 97 ∷ [];
  properties = some aliased;
  packet_id = 0;
  qos = 0;
  duplicate = false;
  retain = false;
}

abbrev two_aliases : TopicAliasManager
two_aliases = record new_topic_alias_manager { downlink_max = 2 }

given_alias : alias_in (apply_downlink two_aliases sent).1 ≡ some 1
unfolding apply_downlink alias_of is_empty reuse allocate alias_in
given_alias = refl

apply_downlink-InRange_example : (1 ≤ 1) × (1 ≤ two_aliases.downlink_max)
apply_downlink-InRange_example = apply_downlink-InRange two_aliases sent (omega arith) 1 given_alias

abbrev later : Publish
later = record sent { topic = []; payload = 2 ∷ [] }

sent_alias : alias_in sent ≡ some 9
unfolding alias_in
sent_alias = refl

later_alias : alias_in later ≡ some 9
unfolding alias_in
later_alias = refl

-- Another alias is given a topic, then the packet that has alias 9 comes without a topic and with
-- one alias that the server does not accept, among calls for the downlink.
abbrev other : PublishProperties
other = record aliased { topic_alias = some 4 }

abbrev refused : PublishProperties
refused = record aliased { topic_alias = some 77 }

abbrev between : List Call
between =
    Call.set_max 2
    ∷ (Call.uplink (record sent { topic = 98 ∷ []; properties = some other }) 10
        ∷ (Call.downlink sent
            ∷ (Call.uplink later 10
                ∷ (Call.uplink (record sent { properties = some refused }) 10
                    ∷ (Call.revert (97 ∷ []) ∷ (Call.reset ∷ []))))))

between-AllKeep : AllKeep 9 between
unfolding alias_in
between-AllKeep = (tt, (λ e. cc e, (tt, (λ _. refl, (λ e. cc e, (tt, (tt, tt)))))))

apply_uplink-resolved_example :
    let now = run_calls between (apply_uplink new_topic_alias_manager sent 10).0 in
    apply_uplink now later 10
    ≡ (now, record (without_alias later) { topic = 97 ∷ [] }, resolved (97 ∷ []) true)
apply_uplink-resolved_example =
    apply_uplink-resolved new_topic_alias_manager sent later 10 9 between (omega arith)
      (omega arith) sent_alias (λ h. cc) between-AllKeep later_alias refl
