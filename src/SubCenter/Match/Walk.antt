-- ===== src/SubCenter/Match/Walk.antt =====
-- The nodes that a walk visits, against the filters that match the topic's levels.
use mathlib.Core.List.{Memᴰ}
use sky_tree.Common.{
  Bool, true, false, Option, none, some, List, [], ◌∷◌, same_bytes, same_bytes_iff, same_bytes_refl,
  ◌≡◌, ◌≢◌, refl, sym, ap, subst, ◌∙◌, arith, Bool-cases, inl, inr, ◌⊎◌, mem_left, mem_right,
  mem_split,
}
use sky_tree.Mqtt5.Properties.{Bytes}
use sky_tree.Topic.Levels.{codes}
use sky_tree.Topic.Matching.{Matches}
use sky_tree.SubCenter.Tree.{TreeNode, ChildNodes, nil, more, children_of, child_at, node_at}
use sky_tree.SubCenter.Tree.Laws.{node_at-some, child-node_at, node_at-here, some-inj}
use sky_tree.SubCenter.Tree.Uniqueness.{IsTree, AreTrees, child_at-IsTree, children_of-AreTrees}
use sky_tree.SubCenter.Match.{
  one, matching_hash_child, matches, matches_all, walk_shared_subscription_roots,
}

-- A level that is no wildcard.
abbrev pub Literal : Bytes → Type 0
Literal l = (l ≢ codes "#") × (l ≢ codes "+")

abbrev pub Literals : List Bytes → Type 0
Literals [] = Unit
Literals (l ∷ ls) = Literal l × Literals ls

abbrev pub LiteralFirst : List Bytes → Type 0
LiteralFirst [] = Unit
LiteralFirst (l ∷ _) = Literal l

-- A filter that matches a topic; where root wildcards are not allowed, none stands in its first level.
abbrev pub Selects : Bool → List Bytes → List Bytes → Type 0
Selects allowed fs ts = Matches fs ts × (allowed ≡ false → LiteralFirst fs)

-- A node at the end of a filter that selects a topic.
abbrev pub Found : Bool → List Bytes → TreeNode → TreeNode → Type 0
Found allowed ts r n = (fs : List Bytes) × (node_at fs r ≡ some n) × Selects allowed fs ts

one-mem : (o : Option TreeNode) (n : TreeNode) → Memᴰ n (one o) → o ≡ some n
one-mem none n m = elim m [ ]
one-mem (some k) n (Memᴰ.head e) = rw e refl
one-mem (some k) n (Memᴰ.tail m) = elim m [ ]

mem-one : (o : Option TreeNode) (n : TreeNode) → o ≡ some n → Memᴰ n (one o)
mem-one o n e = rw e (Memᴰ.head refl)

below-mem :
    (o : Option TreeNode) (ls : List Bytes) (n : TreeNode)
    → Memᴰ n (elim o [ none ↦ [] | some c ↦ matches true ls c ])
    → (c : TreeNode) × (o ≡ some c) × Memᴰ n (matches true ls c)
below-mem none ls n m = elim m [ ]
below-mem (some c) ls n m = (c, refl, m)

mem-below :
    (o : Option TreeNode) (ls : List Bytes) (n c : TreeNode)
    → o ≡ some c
    → Memᴰ n (matches true ls c)
    → Memᴰ n (elim o as (λ _. List TreeNode) [ none ↦ [] | some c ↦ matches true ls c ])
mem-below o ls n c e m = rw e m

hash-Found :
    (allowed : Bool) (ts : List Bytes) (r n : TreeNode)
    → Memᴰ n (one (matching_hash_child allowed (children_of r)))
    → Found allowed ts r n
unfolding matching_hash_child
hash-Found true ts r n m = (
  codes "#" ∷ [],
  node_at-some (codes "#") [] r n (one-mem (child_at (codes "#") (children_of r)) n m)
      ∙ node_at-here n,
  (Matches.multi ts, λ e. absurd (cc e)),
)
hash-Found false ts r n m = elim m [ ]

-- From a child for the level on.
level-Found :
    (allowed : Bool) (t : Bytes) (ts : List Bytes) (r c n : TreeNode)
    → Literal t
    → child_at t (children_of r) ≡ some c
    → Found true ts c n
    → Found allowed (t ∷ ts) r n
level-Found allowed t ts r c n h e (fs, at, (m, _)) =
    (t ∷ fs, node_at-some t fs r c e ∙ at, (Matches.level t h.0 h.1 m, λ _. h))

plus-Found :
    (t : Bytes) (ts : List Bytes) (r c n : TreeNode)
    → child_at (codes "+") (children_of r) ≡ some c
    → Found true ts c n
    → Found true (t ∷ ts) r n
plus-Found t ts r c n e (fs, at, (m, _)) =
    (codes "+" ∷ fs, node_at-some (codes "+") fs r c e ∙ at, (Matches.single m, λ e. absurd (cc e)))

pub matches-Found :
    (allowed : Bool) (ts : List Bytes) (r n : TreeNode)
    → Literals ts
    → Memᴰ n (matches allowed ts r)
    → Found allowed ts r n
unfolding matches
matches-Found allowed [] r n h m =
    elim (mem_split n (one (matching_hash_child allowed (children_of r))) (r ∷ []) m) [
      | inl k ↦ hash-Found allowed [] r n k
      | inr (Memᴰ.head e) ↦ ([], node_at-here r ∙ rw e refl, (Matches.end, λ _. tt))
      | inr (Memᴰ.tail k) ↦ elim k [ ]
    ]
matches-Found true (t ∷ ts) r n h m =
    elim (mem_split n (one (matching_hash_child true (children_of r))) _ m) [
      | inl k ↦ hash-Found true (t ∷ ts) r n k
      | inr k ↦
          elim (mem_split n
            (elim (child_at t (children_of r)) [ none ↦ [] | some c ↦ matches true ts c ]) _ k) [
              | inl j ↦
                  let (c, e, i) = below-mem (child_at t (children_of r)) ts n j in
                  level-Found true t ts r c n h.0 e (matches-Found true ts c n h.1 i)
              | inr j ↦
                  let (c, e, i) = below-mem (child_at (codes "+") (children_of r)) ts n j in
                  plus-Found t ts r c n e (matches-Found true ts c n h.1 i)
            ]
    ]
matches-Found false (t ∷ ts) r n h m =
    elim (mem_split n (one (matching_hash_child false (children_of r))) _ m) [
      | inl k ↦ hash-Found false (t ∷ ts) r n k
      | inr k ↦
          elim (mem_split n
            (elim (child_at t (children_of r)) [ none ↦ [] | some c ↦ matches true ts c ]) _ k) [
              | inl j ↦
                  let (c, e, i) = below-mem (child_at t (children_of r)) ts n j in
                  level-Found false t ts r c n h.0 e (matches-Found true ts c n h.1 i)
              | inr j ↦ elim j [ ]
            ]
    ]

matches-hash :
    (ts : List Bytes) (r n : TreeNode)
    → child_at (codes "#") (children_of r) ≡ some n
    → Memᴰ n (matches true ts r)
unfolding matches matching_hash_child
matches-hash [] r n e = mem_left n _ _ (mem-one (child_at (codes "#") (children_of r)) n e)
matches-hash (t ∷ ts) r n e = mem_left n _ _ (mem-one (child_at (codes "#") (children_of r)) n e)

matches-level :
    (allowed : Bool) (t : Bytes) (ts : List Bytes) (r c n : TreeNode)
    → child_at t (children_of r) ≡ some c
    → Memᴰ n (matches true ts c)
    → Memᴰ n (matches allowed (t ∷ ts) r)
unfolding matches
matches-level allowed t ts r c n e m =
    mem_right n (one (matching_hash_child allowed (children_of r))) _
      (mem_left n _ _ (mem-below (child_at t (children_of r)) ts n c e m))

matches-plus :
    (t : Bytes) (ts : List Bytes) (r c n : TreeNode)
    → child_at (codes "+") (children_of r) ≡ some c
    → Memᴰ n (matches true ts c)
    → Memᴰ n (matches true (t ∷ ts) r)
unfolding matches
matches-plus t ts r c n e m = mem_right n (one (matching_hash_child true (children_of r))) _ (
    mem_right n (elim (child_at t (children_of r)) [ none ↦ [] | some c ↦ matches true ts c ]) _
      (mem-below (child_at (codes "+") (children_of r)) ts n c e m))

matches-here : (allowed : Bool) (r : TreeNode) → Memᴰ r (matches allowed [] r)
unfolding matches
matches-here allowed r =
    mem_right r (one (matching_hash_child allowed (children_of r))) (r ∷ []) (Memᴰ.head refl)

pub Found-matches :
    (allowed : Bool) {fs : List Bytes} {ts : List Bytes} (r n : TreeNode)
    → Matches fs ts
    → (allowed ≡ false → LiteralFirst fs)
    → node_at fs r ≡ some n
    → Memᴰ n (matches allowed ts r)
Found-matches allowed r n Matches.end h at =
    subst (λ x. Memᴰ x (matches allowed [] r)) (some-inj r n (sym (node_at-here r) ∙ at))
      (matches-here allowed r)
Found-matches true r n (Matches.multi ts) h at =
    let (c, e, k) = child-node_at (codes "#") [] r n at in
    matches-hash ts r n (rw e (ap some (some-inj c n (sym (node_at-here c) ∙ k))))
Found-matches false r n (Matches.multi ts) h at = absurd ((h refl).0 refl)
Found-matches true r n (Matches.single {fs} {t} {ts} m) h at =
    let (c, e, k) = child-node_at (codes "+") fs r n at in
    matches-plus t ts r c n e (Found-matches true c n m (λ q. absurd (cc q)) k)
Found-matches false r n (Matches.single m) h at = absurd ((h refl).1 refl)
Found-matches allowed r n (Matches.level {fs} {ts} l p q m) h at =
    let (c, e, k) = child-node_at l fs r n at in
    matches-level allowed l ts r c n e (Found-matches true c n m (λ q. absurd (cc q)) k)

-- The groups' nodes.
matches_all-Found :
    (allowed : Bool) (ts : List Bytes) (ch : ChildNodes) (n : TreeNode)
    → AreTrees ch
    → Literals ts
    → Memᴰ n (matches_all allowed ts ch)
    → (g : Bytes) × (c : TreeNode) × (child_at g ch ≡ some c) × Found allowed ts c n
unfolding AreTrees matches_all child_at
matches_all-Found allowed ts nil n h k m = elim m [ ]
matches_all-Found allowed ts (more g c rest) n (a, (b, t)) k m =
    elim (mem_split n (matches allowed ts c) _ m) [
      | inl i ↦ (g, c, rw (same_bytes_refl g) refl, matches-Found allowed ts c n k i)
      | inr i ↦
          let (g', c', e, f) = matches_all-Found allowed ts rest n t k i in
          (g', c', ground (arith, same_bytes_iff g g'), f)
    ]

Found-matches_all :
    (allowed : Bool) (ts : List Bytes) (ch : ChildNodes) (g : Bytes) (c n : TreeNode)
    → child_at g ch ≡ some c
    → Memᴰ n (matches allowed ts c)
    → Memᴰ n (matches_all allowed ts ch)
unfolding matches_all child_at
Found-matches_all allowed ts nil g c n e m = absurd (cc e)
Found-matches_all allowed ts (more k d rest) g c n e m = elim (Bool-cases (same_bytes k g)) [
  | inl q ↦
      let same : d ≡ c = ground arith in
      mem_left n _ _ (subst (λ x. Memᴰ n (matches allowed ts x)) (sym same) m)
  | inr q ↦
      mem_right n (matches allowed ts d) _
        (Found-matches_all allowed ts rest g c n (ground arith) m)
]

-- A path that a topic chooses: a filter that selects it, or such a filter under "$share" and a group.
abbrev pub Chooses : Bool → List Bytes → List Bytes → Type 0
Chooses allowed path ts =
    Selects allowed path ts
    ⊎ ((g : Bytes) × (fs : List Bytes) × (path ≡ codes "$share" ∷ (g ∷ fs)) × Selects allowed fs ts)

abbrev pub Visited : Bool → List Bytes → TreeNode → TreeNode → Type 0
Visited allowed ts r n = (path : List Bytes) × (node_at path r ≡ some n) × Chooses allowed path ts

shares-mem :
    (allowed : Bool) (o : Option TreeNode) (ls : List Bytes) (n : TreeNode)
    → Memᴰ n (elim o [ none ↦ [] | some share ↦ matches_all allowed ls (children_of share) ])
    → (s : TreeNode) × (o ≡ some s) × Memᴰ n (matches_all allowed ls (children_of s))
shares-mem allowed none ls n m = elim m [ ]
shares-mem allowed (some s) ls n m = (s, refl, m)

pub shared-Visited :
    (allowed : Bool) (ts : List Bytes) (r n : TreeNode)
    → IsTree r
    → Literals ts
    → Memᴰ n (walk_shared_subscription_roots allowed ts r)
    → Visited allowed ts r n
unfolding walk_shared_subscription_roots
shared-Visited allowed ts r n h k m =
    let (s, e, i) = shares-mem allowed (child_at (codes "$share") (children_of r)) ts n m in
    let trees =
      children_of-AreTrees s
        (child_at-IsTree (codes "$share") s (children_of r) (children_of-AreTrees r h) e) in
    let (g, c, f, (fs, at, sel)) = matches_all-Found allowed ts (children_of s) n trees k i in
    (
      codes "$share" ∷ (g ∷ fs),
      node_at-some (codes "$share") (g ∷ fs) r s e ∙ (node_at-some g fs s c f ∙ at),
      inr (g, fs, refl, sel),
    )

pub Visited-shared :
    (allowed : Bool) (ts : List Bytes) (r n : TreeNode) (g : Bytes) (fs : List Bytes)
    → node_at (codes "$share" ∷ (g ∷ fs)) r ≡ some n
    → Selects allowed fs ts
    → Memᴰ n (walk_shared_subscription_roots allowed ts r)
unfolding walk_shared_subscription_roots
Visited-shared allowed ts r n g fs at (m, h) =
    let (s, e, k) = child-node_at (codes "$share") (g ∷ fs) r n at in
    let (c, f, j) = child-node_at g fs s n k in
    rw (e, walk_shared_subscription_roots)
      (Found-matches_all allowed ts (children_of s) g c n f (Found-matches allowed c n m h j))
