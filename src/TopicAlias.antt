-- ===== src/TopicAlias.antt =====
-- internal/broker/client/internal/topicalias/manager.go: the topic aliases of one connection. A map
-- is an association list whose first entry for a key counts, and the free list is a stack whose
-- last element comes first. The mutexes let one operation run at a time, so each is one step.
mod Calls
mod Laws
mod Examples
use sky_tree.Common.{
  ℕ, ◌+◌, ◌%◌, Bool, true, false, not, ◌&&◌, ◌||◌, Option, none, some, List, [], ◌∷◌, ltb, leb,
  ◌==◌, ◌!=◌, same_bytes, if◌then◌else◌,
}
use sky_tree.Mqtt5.Properties.{Bytes, PublishProperties}
use sky_tree.Mqtt5.Packet.{Publish}
use sky_tree.Topic.Levels.{is_empty}

pub record TopicAliasManager : Type 0 where
  pub uplink_alias_to_topic : List (ℕ × Bytes)
  pub downlink_topic_to_alias : List (Bytes × ℕ)
  pub downlink_next : ℕ
  pub downlink_free : List ℕ
  pub downlink_max : ℕ

abbrev pub new_topic_alias_manager : TopicAliasManager
new_topic_alias_manager = record {
  uplink_alias_to_topic = [];
  downlink_topic_to_alias = [];
  downlink_next = 0;
  downlink_free = [];
  downlink_max = 0;
}

unfoldable pub set_downlink_max : ℕ → TopicAliasManager → TopicAliasManager
set_downlink_max max m = record m { downlink_max = max }

unfoldable pub reset_downlink : TopicAliasManager → TopicAliasManager
reset_downlink m = record m { downlink_topic_to_alias = []; downlink_next = 0; downlink_free = [] }

unfoldable pub alias_of : Bytes → List (Bytes × ℕ) → Option ℕ
alias_of topic [] = none
alias_of topic ((t, alias) ∷ rest) =
    let later = alias_of topic rest in if same_bytes t topic then some alias else later

unfoldable pub remove : Bytes → List (Bytes × ℕ) → List (Bytes × ℕ)
remove topic [] = []
remove topic ((t, alias) ∷ rest) =
    let later = remove topic rest in if same_bytes t topic then later else (t, alias) ∷ later

-- A missing key is the empty string.
unfoldable pub topic_of : ℕ → List (ℕ × Bytes) → Bytes
topic_of alias [] = []
topic_of alias ((a, topic) ∷ rest) =
    let later = topic_of alias rest in if a == alias then topic else later

abbrev empty_properties : PublishProperties
empty_properties = record {
  payload_format = none;
  message_expiry = none;
  will_delay_interval = none;
  content_type = [];
  response_topic = [];
  correlation_data = none;
  topic_alias = none;
  subscription_identifier = [];
  user = [];
}

-- `p.Properties.TopicAlias = nil` where there are properties.
abbrev pub without_alias : Publish → Publish
without_alias p = record p {
  properties = elim p.properties [
    | none ↦ none
    | some props ↦ some (record props { topic_alias = none })
  ];
}

abbrev pub with_alias : ℕ → Publish → Publish
with_alias alias p = record p {
  properties = elim p.properties [
    | none ↦ some (record empty_properties { topic_alias = some alias })
    | some props ↦ some (record props { topic_alias = some alias })
  ];
}

unfoldable pub revert_downlink_alias : Bytes → TopicAliasManager → TopicAliasManager
unfolding is_empty alias_of
revert_downlink_alias topic m =
    if is_empty topic then m else elim (alias_of topic m.downlink_topic_to_alias) [
      | none ↦ m
      | some alias ↦ record m {
        downlink_topic_to_alias = remove topic m.downlink_topic_to_alias;
        downlink_free = if ltb 0 alias then alias ∷ m.downlink_free else m.downlink_free;
      }
    ]

-- The topic has an alias: the alias alone is sent.
unfoldable pub announced : TopicAliasManager → ℕ → Publish → TopicAliasManager × Publish
announced m alias p =
    if alias == 0 || ltb m.downlink_max alias
    then (m, p)
    else (m, record (with_alias alias p) { topic = [] })

abbrev pub store : ℕ → TopicAliasManager → Publish → TopicAliasManager × Publish
store alias m p = (
  record m { downlink_topic_to_alias = (p.topic, alias) ∷ m.downlink_topic_to_alias },
  with_alias alias p,
)

-- The next alias of 1 to the maximum.
unfoldable pub allocate : TopicAliasManager → Publish → TopicAliasManager × Publish
allocate m p =
    let alias = (m.downlink_next + 1) % 65536 in
    if leb m.downlink_max m.downlink_next
    then (m, p)
    else store alias (record m { downlink_next = alias }) p

unfoldable pub reuse : TopicAliasManager → List ℕ → Publish → TopicAliasManager × Publish
unfolding allocate
reuse m [] p = allocate m p
reuse m (alias ∷ free) p =
    let m' : TopicAliasManager = record m { downlink_free = free } in
    if alias != 0 && leb alias m.downlink_max then store alias m' p else allocate m' p

unfoldable pub apply_downlink : TopicAliasManager → Publish → TopicAliasManager × Publish
apply_downlink m p =
    let q = without_alias p in
    if m.downlink_max == 0 || is_empty q.topic
    then (m, q)
    else elim (alias_of q.topic m.downlink_topic_to_alias) [
      | some alias ↦ announced m alias q
      | none ↦ reuse m m.downlink_free q
    ]

pub data AliasError : Type 0 where
  invalid not_found : AliasError

pub data Uplink : Type 0 where
  resolved : Bytes → Bool → Uplink
  failed : AliasError → Uplink

unfoldable pub resolve : TopicAliasManager → Publish → Bytes → TopicAliasManager × Publish × Uplink
unfolding is_empty
resolve m p topic =
    if is_empty topic
    then (m, p, failed not_found)
    else (m, record (without_alias p) { topic = topic }, resolved topic true)

unfoldable pub apply_alias :
    TopicAliasManager → Publish → ℕ → ℕ → TopicAliasManager × Publish × Uplink
apply_alias m p server_max alias =
    if alias == 0 || (server_max == 0 || ltb server_max alias)
    then (m, p, failed invalid)
    else if not (is_empty p.topic)
    then (
      record m { uplink_alias_to_topic = (alias, p.topic) ∷ m.uplink_alias_to_topic },
      without_alias p,
      resolved p.topic false,
    )
    else resolve m p (topic_of alias m.uplink_alias_to_topic)

unfoldable pub alias_in : Publish → Option ℕ
alias_in p = elim p.properties [ none ↦ none | some props ↦ props.topic_alias ]

-- The manager, the packet, and the topic with whether it was filled in, or the error.
unfoldable pub apply_uplink : TopicAliasManager → Publish → ℕ → TopicAliasManager × Publish × Uplink
apply_uplink m p server_max = elim (alias_in p) [
  | none ↦ (m, p, resolved p.topic false)
  | some alias ↦ apply_alias m p server_max alias
]
