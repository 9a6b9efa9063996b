-- ===== src/SubCenter/Tree/Laws.antt =====
-- The tree as a map from paths and clients to options.
use sky_tree.Common.{
  Bool, true, false, ◌&&◌, Option, none, some, List, [], ◌∷◌, same_bytes, same_bytes_iff,
  same_bytes-eq, if◌then◌else◌, find, insert, bytes_key, find-insert, ◌≡◌, refl, sym, ap, ◌∙◌,
  subst, arith, Bool-cases, Option-cases, inl, inr,
}
use sky_tree.Mqtt5.Properties.{Bytes}
use sky_tree.SubCenter.Tree.{
  SubOption, Clients, TreeNode, node, ChildNodes, nil, more, children_of, child_at, set_child,
  child_or_new, create_at, change_at, node_at, sub_at, same_levels,
}

pub some-inj : (a b : TreeNode) → some a ≡ some b → a ≡ b
some-inj a b h = cc

pub node_at-here : (n : TreeNode) → node_at [] n ≡ some n
unfolding node_at
node_at-here n = refl

pub node_at-some :
    (l : Bytes) (fs : List Bytes) (r c : TreeNode)
    → child_at l (children_of r) ≡ some c
    → node_at (l ∷ fs) r ≡ node_at fs c
unfolding node_at
node_at-some l fs r c e = rw (e, node_at) refl

node_at-none :
    (l : Bytes) (fs : List Bytes) (r : TreeNode)
    → child_at l (children_of r) ≡ none
    → node_at (l ∷ fs) r ≡ none
unfolding node_at
node_at-none l fs r e = rw (e, node_at) refl

pub child-node_at :
    (l : Bytes) (fs : List Bytes) (r n : TreeNode)
    → node_at (l ∷ fs) r ≡ some n
    → (c : TreeNode) × (child_at l (children_of r) ≡ some c) × (node_at fs c ≡ some n)
child-node_at l fs r n h = elim (Option-cases (child_at l (children_of r))) [
  | inl e ↦ absurd (cc (sym (node_at-none l fs r e) ∙ h))
  | inr (c, e) ↦ (c, e, sym (node_at-some l fs r c e) ∙ h)
]

pub child_at-set_child :
    (k j : Bytes) (n : TreeNode) (ch : ChildNodes)
    → child_at j (set_child k n ch) ≡ (if same_bytes k j then some n else child_at j ch)
unfolding child_at set_child
child_at-set_child k j n nil = refl
child_at-set_child k j n (more l m rest) = ground (
  arith,
  child_at-set_child k j n rest,
  same_bytes_iff l k,
  same_bytes_iff l j,
  same_bytes_iff k j,
)

sub_at-new :
    (path : List Bytes) (client level : Bytes) → sub_at path client (node level [] [] nil) ≡ none
unfolding sub_at child_at
sub_at-new [] client level = refl
sub_at-new (l ∷ ls) client level = refl

sub_at-child_or_new :
    (path : List Bytes) (client level : Bytes) (o : Option TreeNode)
    → sub_at path client (child_or_new level o)
      ≡ (elim o [ none ↦ none | some c ↦ sub_at path client c ])
sub_at-child_or_new path client level none = sub_at-new path client level
sub_at-child_or_new path client level (some c) = refl

sub_at-step :
    (l : Bytes) (ls : List Bytes) (client s t : Bytes) (cs : Clients) (ch : ChildNodes)
    → sub_at (l ∷ ls) client (node s t cs ch)
      ≡ (elim (child_at l ch) [ none ↦ none | some c ↦ sub_at ls client c ])
unfolding sub_at node_at
sub_at-step l ls client s t cs ch = elim (Option-cases (child_at l ch)) [
  | inl e ↦ rw (e, node_at)
  | inr (c, e) ↦ rw (e, node_at)
]

sub_at-same :
    (l m : Bytes) (ms : List Bytes) (client s t : Bytes) (cs : Clients) (ch : ChildNodes)
    → same_bytes l m ≡ true
    → sub_at (m ∷ ms) client (node s t cs ch)
      ≡ (elim (child_at l ch) [ none ↦ none | some c ↦ sub_at ms client c ])
sub_at-same l m ms client s t cs ch e =
    subst
      (λ x.
        sub_at (x ∷ ms) client (node s t cs ch)
        ≡ (elim (child_at l ch) [ none ↦ none | some c ↦ sub_at ms client c ]))
      (same_bytes-eq l m e) (sub_at-step l ms client s t cs ch)

sub_at-set_child :
    (l m : Bytes) (ms : List Bytes) (client s t : Bytes) (cs : Clients) (ch : ChildNodes)
    (n : TreeNode)
    → sub_at (m ∷ ms) client (node s t cs (set_child l n ch))
      ≡ (if same_bytes l m then sub_at ms client n else sub_at (m ∷ ms) client (node s t cs ch))
sub_at-set_child l m ms client s t cs ch n =
    let after = sub_at-step m ms client s t cs (set_child l n ch) in
    let before = sub_at-step m ms client s t cs ch in
    let child = child_at-set_child l m n ch in
    elim (Bool-cases (same_bytes l m)) [
      | inl e ↦ rw (after, child, e) refl
      | inr e ↦ rw (after, child, e) (sym before)
    ]

-- Only a node's children and clients count.
sub_at-here :
    (client s t s' t' : Bytes) (cs : Clients) (ch ch' : ChildNodes)
    → sub_at [] client (node s t cs ch) ≡ sub_at [] client (node s' t' cs ch')
unfolding sub_at node_at
sub_at-here client s t s' t' cs ch ch' = refl

sub_at-topic :
    (client s t t' m : Bytes) (ms : List Bytes) (cs cs' : Clients) (ch : ChildNodes)
    → sub_at (m ∷ ms) client (node s t cs ch) ≡ sub_at (m ∷ ms) client (node s t' cs' ch)
unfolding sub_at node_at
sub_at-topic client s t t' m ms cs cs' ch = refl

sub_at-inserted :
    (client other s t t' : Bytes) (option : SubOption) (cs : Clients) (ch : ChildNodes)
    → sub_at [] other (node s t' (insert client option cs) ch)
      ≡ (if same_bytes client other then some option else sub_at [] other (node s t cs ch))
unfolding sub_at node_at
sub_at-inserted client other s t t' option cs ch = find-insert client other option cs

-- `createSub` on the tree: a new option at its path and client, and nothing else changes.
pub sub_at-create_at :
    (client : Bytes) (option : SubOption) (path at : List Bytes) (other : Bytes) (n : TreeNode)
    → sub_at at other (create_at client option path n)
      ≡ (if same_levels path at && same_bytes client other then some option else sub_at at other n)
unfolding create_at same_levels
sub_at-create_at client option [] [] other (node s t cs ch) =
    sub_at-inserted client other s t option.topic option cs ch
sub_at-create_at client option [] (m ∷ ms) other (node s t cs ch) =
    sub_at-topic other s option.topic t m ms (insert client option cs) cs ch
sub_at-create_at client option (l ∷ ls) [] other (node s t cs ch) =
    sub_at-here other s t s t cs
      (set_child l (create_at client option ls (child_or_new l (child_at l ch))) ch) ch
sub_at-create_at client option (l ∷ ls) (m ∷ ms) other (node s t cs ch) =
    let child = child_or_new l (child_at l ch) in
    let step = sub_at-set_child l m ms other s t cs ch (create_at client option ls child) in
    let later = sub_at-create_at client option ls ms other child in
    let before = sub_at-child_or_new ms other l (child_at l ch) in
    elim (Bool-cases (same_bytes l m)) [
      | inl e ↦
          rw (step, e, later, before)
            (ap (λ z. if same_levels ls ms && same_bytes client other then some option else z)
              (sym (sub_at-same l m ms other s t cs ch e)))
      | inr e ↦ rw (step, e) refl
    ]

-- What a change of a node's clients does to each client's option.
abbrev pub Changes : (Clients → Clients) → (Bytes → Option SubOption → Option SubOption) → Type 0
Changes f g =
    (other : Bytes)
    → (g other none ≡ none) × ((cs : Clients) → find other (f cs) ≡ g other (find other cs))

module _ (f : Clients → Clients) (g : Bytes → Option SubOption → Option SubOption)
    (h : Changes f g) where
  sub_at-changed :
      (other s t : Bytes) (cs : Clients) (ch : ChildNodes)
      → sub_at [] other (node s t (f cs) ch) ≡ g other (sub_at [] other (node s t cs ch))
  unfolding sub_at node_at
  sub_at-changed other s t cs ch = (h other).1 cs

  same_none : (b : Bool) (other : Bytes) → none ≡ (if b then g other none else none)
  same_none true other = sym (h other).0
  same_none false other = refl

  -- A change at a path: the options of its clients change as the clients do, and nothing else changes.
  pub sub_at-change_at :
      (path at : List Bytes) (other : Bytes) (n : TreeNode)
      → sub_at at other (change_at f path n)
        ≡ (if same_levels path at then g other (sub_at at other n) else sub_at at other n)
  unfolding change_at same_levels
  sub_at-change_at [] [] other (node s t cs ch) = sub_at-changed other s t cs ch
  sub_at-change_at [] (m ∷ ms) other (node s t cs ch) = sub_at-topic other s t t m ms (f cs) cs ch
  sub_at-change_at (l ∷ ls) [] other (node s t cs ch) = elim (Option-cases (child_at l ch)) [
    | inl e ↦ rw (e, change_at) refl
    | inr (c, e) ↦
        rw (e, change_at) (sub_at-here other s t s t cs (set_child l (change_at f ls c) ch) ch)
  ]
  sub_at-change_at (l ∷ ls) (m ∷ ms) other (node s t cs ch) = elim (Option-cases (child_at l ch)) [
    | inl e ↦
        rw (e, change_at)
          (elim (Bool-cases (same_bytes l m)) [
            | inl q ↦
                let gone : sub_at (m ∷ ms) other (node s t cs ch) ≡ none =
                  rw (sub_at-same l m ms other s t cs ch q, e) refl in
                rw gone (same_none (same_bytes l m && same_levels ls ms) other)
            | inr q ↦ rw q refl
          ])
    | inr (c, e) ↦
        rw (e, change_at)
          (elim (Bool-cases (same_bytes l m)) [
            | inl q ↦
                let here : sub_at (m ∷ ms) other (node s t cs ch) ≡ sub_at ms other c =
                  rw (sub_at-same l m ms other s t cs ch q, e) refl in
                rw
                  (
                    sub_at-set_child l m ms other s t cs ch (change_at f ls c),
                    q,
                    here,
                    sub_at-change_at ls ms other c,
                  )
                  refl
            | inr q ↦ rw (sub_at-set_child l m ms other s t cs ch (change_at f ls c), q) refl
          ])
  ]
