-- ===== src/SubCenter/Core/Agreement.antt =====
-- The tree and the index of a SubCore against each other.
use sky_tree.Common.{
  Bool, true, false, ◌&&◌, Option, none, some, List, [], ◌∷◌, same_bytes, same_bytes-eq,
  if◌then◌else◌, find, remove, bytes_key, find-remove, ◌≡◌, refl, sym, subst, ◌∙◌, arith,
  Bool-cases, Option-cases, inl, inr,
}
use sky_tree.Mqtt5.Properties.{Bytes}
use sky_tree.Topic.Levels.{is_empty, split_topic_levels}
use sky_tree.SubCenter.Tree.{
  SubOption, Clients, TreeNode, clients_of, create_at, change_at, node_at, find_client, sub_at,
  same_levels,
}
use sky_tree.SubCenter.Tree.Laws.{sub_at-create_at, sub_at-change_at, Changes}
use sky_tree.SubCenter.Core.{
  Topics, SubCore, SubError, new_sub_core, validate_topic_filter, create_sub, delete_sub,
  delete_topic, delete_subs, delete_client, put_topic, drop_topic, drop_topic_all, keys, no_clients,
}
use sky_tree.SubCenter.Core.Paths.{is_empty-split_topic_levels, same_levels-eq, same_levels-split}
use sky_tree.SubCenter.Core.Index.{
  lookup, lookup-put_topic, lookup-drop_topic, lookup-drop_topic_all,
}

-- The option of a client for a topic by the index, and by the tree.
abbrev pub indexed : Bytes → Bytes → SubCore → Option SubOption
indexed client topic s = lookup client topic s.clients

abbrev pub planted : Bytes → Bytes → SubCore → Option SubOption
planted client topic s = sub_at (split_topic_levels topic) client s.root

-- Index and tree agree, and an option in the tree stands at its own topic's path.
abbrev pub Agrees : SubCore → Type 0
Agrees s =
    ((client topic : Bytes) → indexed client topic s ≡ planted client topic s)
    × ((path : List Bytes) (client : Bytes) (o : SubOption)
        → sub_at path client s.root ≡ some o
        → split_topic_levels o.topic ≡ path)

no_option : (path : List Bytes) (client : Bytes) → sub_at path client new_sub_core.root ≡ none
unfolding new_sub_core sub_at node_at find
no_option [] client = refl
no_option (l ∷ ls) client = refl

pub new_sub_core-Agrees : Agrees new_sub_core
unfolding new_sub_core lookup find
new_sub_core-Agrees = (
  λ client topic. sym (no_option (split_topic_levels topic) client),
  λ path client o e. absurd (cc (sym (no_option path client) ∙ e)),
)

-- The core after a subscription that is accepted.
abbrev subscribed : Bytes → SubOption → SubCore → SubCore
subscribed client option s = record {
  root = create_at client option (split_topic_levels option.topic) s.root;
  clients = put_topic client option s.clients;
}

valid-is_empty :
    (topic : Bytes)
    → validate_topic_filter topic ≡ none
    → is_empty (split_topic_levels topic) ≡ false
unfolding validate_topic_filter is_empty
valid-is_empty [] h = cc
valid-is_empty (c ∷ s) h = is_empty-split_topic_levels c s

pub create_sub-accepted :
    (client : Bytes) (option : SubOption) (s : SubCore)
    → validate_topic_filter option.topic ≡ none
    → create_sub client option s ≡ (none, subscribed client option s)
unfolding create_sub
create_sub-accepted client option s h = rw (h, create_sub, valid-is_empty option.topic h) refl

pub create_sub-refused :
    (client : Bytes) (option : SubOption) (s : SubCore) (e : SubError)
    → validate_topic_filter option.topic ≡ some e
    → create_sub client option s ≡ (some e, s)
unfolding create_sub
create_sub-refused client option s e h = rw (h, create_sub) refl

and_first : (a b : Bool) → (a && b) ≡ true → a ≡ true
and_first a b h = ground arith

placed_if :
    (b : Bool) (new o : SubOption) (path : List Bytes) (old : Option SubOption)
    → (b ≡ true → split_topic_levels new.topic ≡ path)
    → (old ≡ some o → split_topic_levels o.topic ≡ path)
    → (if b then some new else old) ≡ some o
    → split_topic_levels o.topic ≡ path
placed_if true new o path old h k e =
    let q : new ≡ o = cc in subst (λ x. split_topic_levels x.topic ≡ path) q (h refl)
placed_if false new o path old h k e = k e

subscribed-Agrees :
    (client : Bytes) (option : SubOption) (s : SubCore)
    → Agrees s
    → Agrees (subscribed client option s)
subscribed-Agrees client option s (same, placed) = (still, stays)
  where
    still :
        (other topic : Bytes)
        → indexed other topic (subscribed client option s)
          ≡ planted other topic (subscribed client option s)
    still other topic =
        rw
          (
            lookup-put_topic client option other topic s.clients,
            sub_at-create_at client option (split_topic_levels option.topic)
                (split_topic_levels topic) other s.root,
            same_levels-split option.topic topic,
            same other topic,
          )
          (ground arith)

    stays :
        (path : List Bytes) (other : Bytes) (o : SubOption)
        → sub_at path other (create_at client option (split_topic_levels option.topic) s.root)
          ≡ some o
        → split_topic_levels o.topic ≡ path
    stays path other o e =
        placed_if (same_levels (split_topic_levels option.topic) path && same_bytes client other)
          option o path (sub_at path other s.root) (λ q. same_levels-eq _ _ (and_first _ _ q))
          (placed path other o)
          (sym (sub_at-create_at client option (split_topic_levels option.topic) path other s.root)
            ∙ e)

pub create_sub-Agrees :
    (client : Bytes) (option : SubOption) (s : SubCore)
    → Agrees s
    → Agrees (create_sub client option s).1
create_sub-Agrees client option s h = elim (Option-cases (validate_topic_filter option.topic)) [
  | inl e ↦ rw (create_sub-accepted client option s e) (subscribed-Agrees client option s h)
  | inr (x, e) ↦ rw (create_sub-refused client option s x e) h
]

-- A change that only takes options away.
abbrev Removes : (Bytes → Option SubOption → Option SubOption) → Type 0
Removes g = (other : Bytes) (x : Option SubOption) (o : SubOption) → g other x ≡ some o → x ≡ some o

removed_if :
    (g : Bytes → Option SubOption → Option SubOption) (b : Bool) (other : Bytes)
    (x : Option SubOption) (o : SubOption)
    → Removes g
    → (if b then g other x else x) ≡ some o
    → x ≡ some o
removed_if g true other x o h e = h other x o e
removed_if g false other x o h e = e

-- A change at a topic's path, with an index that follows it.
changed-Agrees :
    (f : Clients → Clients) (g : Bytes → Option SubOption → Option SubOption) (s : SubCore)
    (at : Bytes) (m : List (Bytes × Topics))
    → Changes f g
    → Removes g
    → ((other topic : Bytes)
        → lookup other topic m ≡ (
            if same_bytes at topic then g other (indexed other topic s) else indexed other topic s))
    → Agrees s
    → Agrees (record { root = change_at f (split_topic_levels at) s.root; clients = m })
changed-Agrees f g s at m c r follows (same, placed) = (
  λ other topic.
      rw
        (
          follows other topic,
          sub_at-change_at f g c (split_topic_levels at) (split_topic_levels topic) other s.root,
          same_levels-split at topic,
          same other topic,
        )
        refl,
  λ path other o e. placed path other o (
      removed_if g (same_levels (split_topic_levels at) path) other (sub_at path other s.root) o r
        (sym (sub_at-change_at f g c (split_topic_levels at) path other s.root) ∙ e)),
)

abbrev without : Bytes → Bytes → Option SubOption → Option SubOption
without client other x = if same_bytes client other then none else x

remove-Changes : (client : Bytes) → Changes (remove client) (without client)
remove-Changes client other = (ground arith, find-remove client other)

without-Removes : (client : Bytes) → Removes (without client)
without-Removes client other x o e = ground arith

none_at : Bytes → Option SubOption → Option SubOption
none_at other x = none

no_clients-Changes : Changes no_clients none_at
unfolding none_at find
no_clients-Changes other = (refl, λ cs. refl)

none_at-Removes : Removes none_at
unfolding none_at
none_at-Removes other x o e = cc

pub delete_sub-Agrees :
    (topic client : Bytes) (s : SubCore) → Agrees s → Agrees (delete_sub topic client s)
unfolding delete_sub
delete_sub-Agrees topic client s h =
    elim (Option-cases (node_at (split_topic_levels topic) s.root)) [
      | inl e ↦ rw (e, delete_sub) h
      | inr (n, e) ↦
          rw (e, delete_sub)
            (changed-Agrees (remove client) (without client) s topic
              (drop_topic client topic s.clients) (remove-Changes client) (without-Removes client)
              (λ other t. rw (lookup-drop_topic client topic other t s.clients) (ground arith)) h)
    ]

-- A client with no option at a node has none for its topic in the index.
find-indexed :
    (topic other : Bytes) (n : TreeNode) (s : SubCore)
    → node_at (split_topic_levels topic) s.root ≡ some n
    → Agrees s
    → find other (clients_of n) ≡ none
    → indexed other topic s ≡ none
unfolding sub_at
find-indexed topic other n s e h f =
    h.0 other topic ∙ subst (λ x. find_client other x ≡ none) (sym e) f

pub dropped-follows :
    (topic : Bytes) (n : TreeNode) (s : SubCore)
    → node_at (split_topic_levels topic) s.root ≡ some n
    → Agrees s
    → (other t : Bytes)
    → lookup other t (drop_topic_all (keys (clients_of n)) topic s.clients)
      ≡ (if same_bytes topic t then none else indexed other t s)
dropped-follows topic n s e h other t =
    let step = lookup-drop_topic_all (clients_of n) topic other t s.clients in
    elim (Bool-cases (same_bytes topic t)) [
      | inr q ↦ rw (step, q) refl
      | inl q ↦ elim (Option-cases (find other (clients_of n))) [
        | inl f ↦
            rw (step, q, f)
              (subst (λ x. indexed other x s ≡ none) (same_bytes-eq topic t q)
                (find-indexed topic other n s e h f))
        | inr (o, f) ↦ rw (step, q, f) refl
      ]
    ]

pub delete_topic-Agrees : (topic : Bytes) (s : SubCore) → Agrees s → Agrees (delete_topic topic s).1
unfolding delete_topic none_at
delete_topic-Agrees topic s h = elim (Option-cases (node_at (split_topic_levels topic) s.root)) [
  | inl e ↦ rw (e, delete_topic) h
  | inr (n, e) ↦
      rw (e, delete_topic)
        (changed-Agrees no_clients none_at s topic
          (drop_topic_all (keys (clients_of n)) topic s.clients) no_clients-Changes none_at-Removes
          (dropped-follows topic n s e h) h)
]

pub delete_subs-Agrees :
    (topics : Topics) (client : Bytes) (s : SubCore)
    → Agrees s
    → Agrees (delete_subs topics client s)
unfolding delete_subs
delete_subs-Agrees [] client s h = h
delete_subs-Agrees ((_, option) ∷ more) client s h =
    delete_subs-Agrees more client _ (delete_sub-Agrees option.topic client s h)

pub delete_client-Agrees :
    (client : Bytes) (s : SubCore) → Agrees s → Agrees (delete_client client s)
unfolding delete_client
delete_client-Agrees client s h = elim (Option-cases (find client s.clients)) [
  | inl e ↦ rw (e, delete_client) h
  | inr (topics, e) ↦ rw (e, delete_client) (delete_subs-Agrees topics client s h)
]
