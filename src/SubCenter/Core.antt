-- ===== src/SubCenter/Core.antt =====
-- SubCore of internal/broker/subcenter/memory/sub_core.go: the tree of subscriptions and the index
-- from clients to their subscriptions. The maps of SubCore's proto.SubCore are the same objects.
-- `NewSubCoreFromProto` is not here.
pub mod Paths
pub mod Index
pub mod Agreement
pub mod Requests
pub mod Refinement
pub mod Uniqueness
use sky_tree.Common.{
  ℕ, Bool, true, false, not, ◌&&◌, ◌||◌, Option, none, some, List, [], ◌∷◌, ◌++◌, map, same_bytes,
  if◌then◌else◌, find, insert, remove, bytes_key,
}
use sky_tree.Mqtt5.Properties.{Bytes}
use sky_tree.Topic.Levels.{codes, is_empty, contains_byte, split_topic_levels}
use sky_tree.SubCenter.Tree.{
  SubOption, Clients, TreeNode, node, ChildNodes, nil, clients_of, create_at, change_at, node_at,
}

-- The map of a ClientSubTopic, from topics to options.
abbrev pub Topics : Type 0
Topics = List (Bytes × SubOption)

pub record SubCore : Type 0 where
  pub root : TreeNode
  pub clients : List (Bytes × Topics)

unfoldable pub new_sub_core : SubCore
new_sub_core = record { root = node (codes "/") (codes "/") [] nil; clients = [] }

pub data SubError : Type 0 where
  empty hash_last hash_level plus_level empty_topic wildcard_topic : SubError

unfoldable pub check_filter_levels : List Bytes → Option SubError
unfolding is_empty contains_byte
check_filter_levels [] = none
check_filter_levels (l ∷ ls) =
    let rest = check_filter_levels ls in
    if same_bytes l (codes "#")
    then if is_empty ls then rest else some hash_last
    else if contains_byte b'#' l
    then some hash_level
    else if not (same_bytes l (codes "+")) && contains_byte b'+' l
    then some plus_level
    else rest

-- `none` is Go's nil error.
unfoldable pub validate_topic_filter : Bytes → Option SubError
unfolding check_filter_levels split_topic_levels is_empty
validate_topic_filter filter =
    if is_empty filter then some empty else check_filter_levels (split_topic_levels filter)

abbrev pub topics_of : Option Topics → Topics
topics_of none = []
topics_of (some topics) = topics

-- The index with a new option under its client and topic.
unfoldable pub put_topic : Bytes → SubOption → List (Bytes × Topics) → List (Bytes × Topics)
unfolding insert find
put_topic client option m = insert client (insert option.topic option (topics_of (find client m))) m

-- The index without a client's topic; a client with no topics left goes.
unfoldable pub drop_topic : Bytes → Bytes → List (Bytes × Topics) → List (Bytes × Topics)
unfolding insert find remove is_empty
drop_topic client topic m = elim (find client m) [
  | none ↦ m
  | some topics ↦
      let left = remove topic topics in
      if is_empty left then remove client m else insert client left m
]

-- The error, if any, and the core.
unfoldable pub create_sub : Bytes → SubOption → SubCore → Option SubError × SubCore
unfolding validate_topic_filter split_topic_levels is_empty create_at put_topic
create_sub client option s = elim (validate_topic_filter option.topic) [
  | some e ↦ (some e, s)
  | none ↦
      let levels = split_topic_levels option.topic in
      if is_empty levels then (some empty, s) else (
        none,
        record {
          root = create_at client option levels s.root;
          clients = put_topic client option s.clients;
        },
      )
]

unfoldable pub delete_sub : Bytes → Bytes → SubCore → SubCore
unfolding split_topic_levels node_at change_at remove drop_topic
delete_sub topic client s = elim (node_at (split_topic_levels topic) s.root) [
  | none ↦ s
  | some _ ↦ record {
    root = change_at (remove client) (split_topic_levels topic) s.root;
    clients = drop_topic client topic s.clients;
  }
]

abbrev pub keys : Clients → List Bytes
keys [] = []
keys ((k, _) ∷ m) = k ∷ keys m

unfoldable pub drop_topic_all : List Bytes → Bytes → List (Bytes × Topics) → List (Bytes × Topics)
unfolding drop_topic
drop_topic_all [] topic m = m
drop_topic_all (client ∷ more) topic m = drop_topic_all more topic (drop_topic client topic m)

abbrev pub no_clients : Clients → Clients
no_clients _ = []

-- The clients that had a subscription, and the core.
unfoldable pub delete_topic : Bytes → SubCore → List Bytes × SubCore
unfolding split_topic_levels node_at change_at drop_topic_all
delete_topic topic s = elim (node_at (split_topic_levels topic) s.root) [
  | none ↦ ([], s)
  | some n ↦
      let gone = keys (clients_of n) in
      (
        gone,
        record {
          root = change_at no_clients (split_topic_levels topic) s.root;
          clients = drop_topic_all gone topic s.clients;
        },
      )
]

unfoldable pub delete_subs : Topics → Bytes → SubCore → SubCore
unfolding delete_sub
delete_subs [] client s = s
delete_subs ((_, option) ∷ more) client s =
    delete_subs more client (delete_sub option.topic client s)

unfoldable pub delete_client : Bytes → SubCore → SubCore
unfolding find delete_subs
delete_client client s = elim (find client s.clients) [
  | none ↦ s
  | some topics ↦ delete_subs topics client s
]

-- A copy of the client's subscriptions.
unfoldable pub get_client_subscriptions : Bytes → SubCore → Topics
unfolding find
get_client_subscriptions client s = topics_of (find client s.clients)
