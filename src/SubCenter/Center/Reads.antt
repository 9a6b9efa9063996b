-- ===== src/SubCenter/Center/Reads.antt =====
-- GetAllMatchClientV2 of internal/broker/subcenter/memory/read_ops.go: the subscriptions that a
-- published topic is for, from all the shards that it looks in.
pub mod Complete
use sky_tree.Common.{
  ℕ, Bool, true, false, Option, none, some, List, [], ◌∷◌, ◌++◌, ltb, if◌then◌else◌, find, insert,
  bytes_key,
}
use sky_tree.Mqtt5.Properties.{Bytes}
use sky_tree.Topic.Levels.{is_empty}
use sky_tree.SubCenter.Core.{SubCore}
use sky_tree.SubCenter.Match.{MatchedSubscription, Matched, match_topic_client_v2}
use sky_tree.SubCenter.Center.{MemorySubCenter, shard_keys_for_match}

pub record Agg : Type 0 where
  pub max_qos : ℕ
  pub matched : List MatchedSubscription

abbrev pub agg_of : Option Agg → Agg
agg_of none = record { max_qos = 0; matched = [] }
agg_of (some a) = a

unfoldable pub add_all : List MatchedSubscription → Agg → Agg
add_all [] a = a
add_all (m ∷ ms) a = add_all ms (record {
  max_qos = if ltb a.max_qos m.qos then m.qos else a.max_qos;
  matched = a.matched ++ (m ∷ []);
})

unfoldable pub add_clients : Matched → List (Bytes × Agg) → List (Bytes × Agg)
unfolding add_all find insert is_empty
add_clients [] acc = acc
add_clients ((client, subs) ∷ rest) acc =
    add_clients rest
      (if is_empty subs then acc else insert client (add_all subs (agg_of (find client acc))) acc)

unfoldable pub add_shards :
    Bytes → List Bytes → List (Bytes × SubCore) → List (Bytes × Agg) → List (Bytes × Agg)
unfolding find match_topic_client_v2 add_clients
add_shards topic [] shards acc = acc
add_shards topic (key ∷ keys) shards acc = add_shards topic keys shards (elim (find key shards) [
  | none ↦ acc
  | some s ↦ add_clients (match_topic_client_v2 topic s) acc
])

pub record ClientMatch : Type 0 where
  pub client_id : Bytes
  pub max_qos : ℕ
  pub matched : List MatchedSubscription

unfoldable pub client_matches : List (Bytes × Agg) → List ClientMatch
client_matches [] = []
client_matches ((client, a) ∷ rest) =
    record { client_id = client; max_qos = a.max_qos; matched = a.matched } ∷ client_matches rest

unfoldable pub get_all_match_client_v2 : Bytes → MemorySubCenter → List ClientMatch
unfolding add_shards client_matches shard_keys_for_match
get_all_match_client_v2 topic t =
    client_matches (add_shards topic (shard_keys_for_match topic) t.shards [])
