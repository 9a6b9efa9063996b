-- ===== src/SubCenter/Tree/Uniqueness.antt =====
-- Uniqueness of the sections and of the clients of a node.
use sky_tree.Common.{
  none, some, List, [], ◌∷◌, same_bytes, same_bytes_iff, bytes_key, IsMap, insert-IsMap, ◌≡◌, refl,
  sym, subst, ◌∙◌, arith, Bool-cases, Option-cases, inl, inr,
}
use sky_tree.Mqtt5.Properties.{Bytes}
use sky_tree.SubCenter.Tree.{
  SubOption, Clients, TreeNode, node, ChildNodes, nil, more, clients_of, children_of, child_at,
  set_child, child_or_new, create_at, change_at, node_at,
}
use sky_tree.SubCenter.Tree.Laws.{child_at-set_child, child-node_at, node_at-here, some-inj}

unfoldable mutual
  unfolding child_at

  pub IsTree : TreeNode → Type 0
  IsTree (node s t cs ch) = IsMap cs × AreTrees ch

  pub AreTrees : ChildNodes → Type 0
  AreTrees nil = Unit
  AreTrees (more l n rest) = (child_at l rest ≡ none) × (IsTree n × AreTrees rest)

pub child_at-IsTree :
    (l : Bytes) (n : TreeNode) (ch : ChildNodes) → AreTrees ch → child_at l ch ≡ some n → IsTree n
unfolding IsTree AreTrees child_at
child_at-IsTree l n nil h e = absurd (cc e)
child_at-IsTree l n (more k m rest) (a, (b, c)) e = elim (Bool-cases (same_bytes k l)) [
  | inl q ↦ let same : m ≡ n = ground arith in subst IsTree same b
  | inr q ↦ child_at-IsTree l n rest c (ground arith)
]

set_child-AreTrees :
    (l : Bytes) (n : TreeNode) (ch : ChildNodes)
    → IsTree n
    → AreTrees ch
    → AreTrees (set_child l n ch)
unfolding IsTree AreTrees child_at set_child
set_child-AreTrees l n nil h k = (refl, (h, tt))
set_child-AreTrees l n (more j m rest) h (a, (b, c)) = elim (Bool-cases (same_bytes j l)) [
  | inl q ↦ rw q (a, (h, c))
  | inr q ↦ rw q (
    ground (arith, child_at-set_child l j n rest, same_bytes_iff l j, same_bytes_iff j l),
    (b, set_child-AreTrees l n rest h c),
  )
]

child_or_new-IsTree :
    (l : Bytes) (ch : ChildNodes) → AreTrees ch → IsTree (child_or_new l (child_at l ch))
unfolding IsTree AreTrees
child_or_new-IsTree l ch h = elim (Option-cases (child_at l ch)) [
  | inl e ↦ rw e (tt, tt)
  | inr (c, e) ↦ rw e (child_at-IsTree l c ch h e)
]

pub create_at-IsTree :
    (client : Bytes) (option : SubOption) (path : List Bytes) (n : TreeNode)
    → IsTree n
    → IsTree (create_at client option path n)
unfolding IsTree create_at
create_at-IsTree client option [] (node s t cs ch) (m, h) = (insert-IsMap client option cs m, h)
create_at-IsTree client option (l ∷ ls) (node s t cs ch) (m, h) = (
  m,
  set_child-AreTrees l _ ch (create_at-IsTree client option ls _ (child_or_new-IsTree l ch h)) h,
)

pub change_at-IsTree :
    (f : Clients → Clients)
    → ((cs : Clients) → IsMap cs → IsMap (f cs))
    → (path : List Bytes) (n : TreeNode) → IsTree n
    → IsTree (change_at f path n)
unfolding IsTree change_at
change_at-IsTree f k [] (node s t cs ch) (m, h) = (k cs m, h)
change_at-IsTree f k (l ∷ ls) (node s t cs ch) (m, h) = elim (Option-cases (child_at l ch)) [
  | inl e ↦ rw (e, change_at) (m, h)
  | inr (c, e) ↦
      rw (e, change_at)
        (m, set_child-AreTrees l _ ch (change_at-IsTree f k ls c (child_at-IsTree l c ch h e)) h)
]

pub children_of-AreTrees : (n : TreeNode) → IsTree n → AreTrees (children_of n)
unfolding IsTree
children_of-AreTrees (node s t cs ch) h = h.1

pub clients_of-IsMap : (n : TreeNode) → IsTree n → IsMap (clients_of n)
unfolding IsTree
clients_of-IsMap (node s t cs ch) h = h.0

pub node_at-IsTree :
    (path : List Bytes) (r n : TreeNode) → IsTree r → node_at path r ≡ some n → IsTree n
node_at-IsTree [] r n h e =
    let same = some-inj r n (sym (node_at-here r) ∙ e) in subst IsTree same h
node_at-IsTree (l ∷ ls) r n h e =
    let (c, f, k) = child-node_at l ls r n e in
    node_at-IsTree ls c n (child_at-IsTree l c (children_of r) (children_of-AreTrees r h) f) k
