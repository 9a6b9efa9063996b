-- ===== src/SubCenter/Match.antt =====
-- Matching in internal/broker/subcenter/memory/sub_core.go: the nodes of the tree that a published
-- topic visits, and the clients and filters that the three `matchTopic` functions collect from them.
-- A `visit` that changes a map is a fold over the visited nodes, in the order of the visits. Lists
-- stand for the orders in which Go may visit maps.
pub mod Walk
pub mod Collect
pub mod Delivery
pub mod Agreement
use sky_tree.Common.{
  ℕ, Bool, true, false, not, ◌&&◌, ◌||◌, ◌+◌, Option, none, some, List, [], ◌∷◌, ◌++◌, length, ltb,
  ◌==◌, ◌!=◌, same_bytes, if◌then◌else◌, find, insert, bytes_key,
}
use sky_tree.Mqtt5.Properties.{Bytes}
use sky_tree.Topic.{starts_with_dollar}
use sky_tree.Topic.Levels.{bytes_before, codes, is_empty, contains_byte, split_topic_levels}
use sky_tree.SubCenter.Tree.{
  SubOption, Clients, TreeNode, node, ChildNodes, nil, more, topic_of, clients_of, children_of,
  child_at,
}
use sky_tree.SubCenter.Core.{SubCore, SubError, empty_topic, wildcard_topic}

unfoldable pub check_topic_levels : List Bytes → Option SubError
unfolding contains_byte
check_topic_levels [] = none
check_topic_levels (l ∷ ls) =
    let rest = check_topic_levels ls in
    if same_bytes l (codes "+")
      || (same_bytes l (codes "#") || (contains_byte b'+' l || contains_byte b'#' l))
    then some wildcard_topic
    else rest

-- `none` is Go's nil error.
unfoldable pub validate_publish_topic : Bytes → Option SubError
unfolding check_topic_levels split_topic_levels is_empty
validate_publish_topic topic =
    if is_empty topic then some empty_topic else check_topic_levels (split_topic_levels topic)

abbrev pub allow_root_wildcards_for_publish : List Bytes → Bool
allow_root_wildcards_for_publish [] = true
allow_root_wildcards_for_publish (l ∷ _) = not (starts_with_dollar l)

abbrev pub one : Option TreeNode → List TreeNode
one none = []
one (some n) = n ∷ []

-- `allowed` is false at depth 0 of a topic that root wildcards may not match.
unfoldable pub matching_hash_child : Bool → ChildNodes → Option TreeNode
unfolding child_at
matching_hash_child allowed children = if allowed then child_at (codes "#") children else none

-- The nodes that `match` visits from a node on, with the levels that are left.
unfoldable pub matches : Bool → List Bytes → TreeNode → List TreeNode
unfolding matching_hash_child child_at
matches allowed [] n = one (matching_hash_child allowed (children_of n)) ++ (n ∷ [])
matches allowed (l ∷ ls) n =
    one (matching_hash_child allowed (children_of n))
    ++ ((elim (child_at l (children_of n)) [ none ↦ [] | some c ↦ matches true ls c ])
        ++ (if allowed
            then elim (child_at (codes "+") (children_of n)) [
              | none ↦ []
              | some c ↦ matches true ls c
            ]
            else []))

unfoldable pub matches_all : Bool → List Bytes → ChildNodes → List TreeNode
unfolding matches
matches_all allowed ls nil = []
matches_all allowed ls (more _ n rest) = matches allowed ls n ++ matches_all allowed ls rest

-- The groups under "$share", each matched from its own node on.
unfoldable pub walk_shared_subscription_roots : Bool → List Bytes → TreeNode → List TreeNode
unfolding matches_all child_at
walk_shared_subscription_roots allowed ls root =
    elim (child_at (codes "$share") (children_of root)) [
      | none ↦ []
      | some share ↦ matches_all allowed ls (children_of share)
    ]

-- The nodes in the order of their visits.
unfoldable pub walk_matching_topic_nodes : Bytes → SubCore → List TreeNode
unfolding validate_publish_topic split_topic_levels walk_shared_subscription_roots matches
walk_matching_topic_nodes topic s = elim (validate_publish_topic topic) [
  | some _ ↦ []
  | none ↦
      let ls = split_topic_levels topic in
      let allowed = allow_root_wildcards_for_publish ls in
      if is_empty ls
      then []
      else walk_shared_subscription_roots allowed ls s.root ++ matches allowed ls s.root
]

pub record MatchedSubscription : Type 0 where
  pub topic_filter : Bytes
  pub qos : ℕ
  pub retain_as_published : Bool
  pub no_local : Bool
  pub retain_handling : ℕ
  pub subscription_identifier : ℕ

unfoldable pub matched_subscription_from_option : SubOption → MatchedSubscription
matched_subscription_from_option o = record {
  topic_filter = o.topic;
  qos = o.qos;
  retain_as_published = o.retain_as_published;
  no_local = o.no_local;
  retain_handling = o.retain_handling;
  subscription_identifier = o.subscription_identifier;
}

abbrev pub Matched : Type 0
Matched = List (Bytes × List MatchedSubscription)

abbrev pub matched_of : Option (List MatchedSubscription) → List MatchedSubscription
matched_of none = []
matched_of (some l) = l

unfoldable pub append_matched_node_clients : Clients → Matched → Matched
unfolding insert find matched_subscription_from_option
append_matched_node_clients [] result = result
append_matched_node_clients ((client, option) ∷ rest) result = append_matched_node_clients rest (
    insert client
      (matched_of (find client result) ++ (matched_subscription_from_option option ∷ [])) result)

unfoldable pub append_matched_nodes : List TreeNode → Matched → Matched
unfolding append_matched_node_clients
append_matched_nodes [] result = result
append_matched_nodes (n ∷ ns) result =
    append_matched_nodes ns (append_matched_node_clients (clients_of n) result)

unfoldable pub match_topic_client_v2 : Bytes → SubCore → Matched
unfolding walk_matching_topic_nodes append_matched_nodes
match_topic_client_v2 topic s = append_matched_nodes (walk_matching_topic_nodes topic s) []

unfoldable pub max_qos_from : ℕ → Clients → ℕ
max_qos_from m [] = m
max_qos_from m ((_, c) ∷ rest) = max_qos_from (if ltb m c.qos then c.qos else m) rest

unfoldable pub node_max_qos : TreeNode → ℕ
unfolding max_qos_from
node_max_qos n = max_qos_from 0 (clients_of n)

abbrev pub qos_or_zero : Option ℕ → ℕ
qos_or_zero none = 0
qos_or_zero (some q) = q

unfoldable pub match_nodes : List TreeNode → List (Bytes × ℕ) → List (Bytes × ℕ)
unfolding node_max_qos find insert is_empty
match_nodes [] result = result
match_nodes (n ∷ ns) result =
    let qos = node_max_qos n in
    match_nodes ns (
      if is_empty (topic_of n)
      then result
      else if ltb (qos_or_zero (find (topic_of n) result)) qos
      then insert (topic_of n) qos result
      else result)

unfoldable pub match_topic : Bytes → SubCore → List (Bytes × ℕ)
unfolding walk_matching_topic_nodes match_nodes
match_topic topic s = match_nodes (walk_matching_topic_nodes topic s) []

unfoldable pub wildcards : List Bytes → ℕ
wildcards [] = 0
wildcards (l ∷ ls) =
    let n = wildcards ls in
    if same_bytes l (codes "+") || same_bytes l (codes "#") then 1 + n else n

unfoldable pub is_more_specific_filter : Bytes → Bytes → Bool
unfolding wildcards bytes_before split_topic_levels
is_more_specific_filter a b =
    let al = split_topic_levels a in
    let bl = split_topic_levels b in
    if wildcards al != wildcards bl
    then ltb (wildcards al) (wildcards bl)
    else if length al != length bl
    then ltb (length bl) (length al)
    else bytes_before a b

-- An incoming option against the one in the result.
unfoldable pub is_better : SubOption → Option SubOption → Bool
unfolding is_more_specific_filter
is_better incoming none = true
is_better incoming (some existing) =
    if ltb existing.qos incoming.qos
    then true
    else (incoming.qos == existing.qos) && is_more_specific_filter incoming.topic existing.topic

unfoldable pub merge_matched_node_clients : Clients → Clients → Clients
unfolding is_better find insert
merge_matched_node_clients [] result = result
merge_matched_node_clients ((client, incoming) ∷ rest) result =
    merge_matched_node_clients rest
      (if is_better incoming (find client result) then insert client incoming result else result)

unfoldable pub merge_matched_nodes : List TreeNode → Clients → Clients
unfolding merge_matched_node_clients
merge_matched_nodes [] result = result
merge_matched_nodes (n ∷ ns) result =
    merge_matched_nodes ns (merge_matched_node_clients (clients_of n) result)

unfoldable pub match_topic_client : Bytes → SubCore → Clients
unfolding walk_matching_topic_nodes merge_matched_nodes
match_topic_client topic s = merge_matched_nodes (walk_matching_topic_nodes topic s) []
