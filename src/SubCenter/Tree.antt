-- ===== src/SubCenter/Tree.antt =====
-- The tree of internal/broker/subcenter/memory/sub_core.go, with SubOption and TreeNode of
-- proto/proto_topic. A node owns its children, so an update in place is a new tree. A nil map is an
-- empty one. QoS and retain handling are natural numbers.
pub mod Laws
pub mod Uniqueness
use sky_tree.Common.{
  ℕ, Bool, true, false, ◌&&◌, Option, none, some, List, [], ◌∷◌, same_bytes, if◌then◌else◌, find,
  insert, bytes_key,
}
use sky_tree.Mqtt5.Properties.{Bytes}
use sky_tree.Topic.Levels.{codes}

pub record SubOption : Type 0 where
  pub topic : Bytes
  pub qos : ℕ
  pub retain_as_published : Bool
  pub no_local : Bool
  pub retain_handling : ℕ
  pub subscription_identifier : ℕ

abbrev pub Clients : Type 0
Clients = List (Bytes × SubOption)

-- A node has its section, its topic, its clients and its children by their sections.
mutual
  pub data TreeNode : Type 0 where
    node : Bytes → Bytes → Clients → ChildNodes → TreeNode

  pub data ChildNodes : Type 0 where
    nil : ChildNodes
    more : Bytes → TreeNode → ChildNodes → ChildNodes

abbrev pub topic_of : TreeNode → Bytes
topic_of (node section topic clients children) = topic

abbrev pub clients_of : TreeNode → Clients
clients_of (node section topic clients children) = clients

abbrev pub children_of : TreeNode → ChildNodes
children_of (node section topic clients children) = children

unfoldable pub child_at : Bytes → ChildNodes → Option TreeNode
child_at level nil = none
child_at level (more l n rest) =
    let later = child_at level rest in if same_bytes l level then some n else later

unfoldable pub set_child : Bytes → TreeNode → ChildNodes → ChildNodes
set_child level m nil = more level m nil
set_child level m (more l n rest) =
    let later = set_child level m rest in
    if same_bytes l level then more l m rest else more l n later

-- The child for the level, or a new one.
abbrev pub child_or_new : Bytes → Option TreeNode → TreeNode
child_or_new level (some n) = n
child_or_new level none = node level [] [] nil

-- The loop of `createSub` over the levels, and what it does at the last node.
unfoldable pub create_at : Bytes → SubOption → List Bytes → TreeNode → TreeNode
unfolding insert child_at set_child
create_at client option [] (node section topic clients children) =
    node section option.topic (insert client option clients) children
create_at client option (l ∷ ls) (node section topic clients children) =
    node section topic clients
      (set_child l (create_at client option ls (child_or_new l (child_at l children))) children)

-- The loops of `deleteSub` and `deleteTopic` and their change to the clients of the last node; a path
-- that is not there changes nothing.
unfoldable pub change_at : (Clients → Clients) → List Bytes → TreeNode → TreeNode
unfolding child_at set_child
change_at f [] (node section topic clients children) = node section topic (f clients) children
change_at f (l ∷ ls) (node section topic clients children) = elim (child_at l children) [
  | none ↦ node section topic clients children
  | some n ↦ node section topic clients (set_child l (change_at f ls n) children)
]

-- The node at the end of a path.
unfoldable pub node_at : List Bytes → TreeNode → Option TreeNode
unfolding child_at
node_at [] n = some n
node_at (l ∷ ls) n = elim (child_at l (children_of n)) [ none ↦ none | some c ↦ node_at ls c ]

abbrev pub find_client : Bytes → Option TreeNode → Option SubOption
find_client client none = none
find_client client (some n) = find client (clients_of n)

-- The tree as a map from paths and clients to options.
unfoldable pub sub_at : List Bytes → Bytes → TreeNode → Option SubOption
unfolding node_at find
sub_at path client n = find_client client (node_at path n)

unfoldable pub same_levels : List Bytes → List Bytes → Bool
same_levels [] [] = true
same_levels [] (_ ∷ _) = false
same_levels (_ ∷ _) [] = false
same_levels (a ∷ s) (b ∷ t) = same_bytes a b && same_levels s t
