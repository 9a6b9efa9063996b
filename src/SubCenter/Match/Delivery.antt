-- ===== src/SubCenter/Match/Delivery.antt =====
-- The subscriptions that a published topic reaches, against the subscriptions that requests leave.
use mathlib.Core.List.{Memᴰ}
use sky_tree.Common.{
  false, none, some, List, [], ◌∷◌, ◌++◌, same_bytes_iff, find, bytes_key, ◌≡◌, ◌↔◌, refl, sym,
  subst, ◌∙◌, arith, Option-cases, inl, inr, mem_left, mem_right, mem_split,
}
use sky_tree.Mqtt5.Properties.{Bytes}
use sky_tree.Topic.Levels.{codes, is_empty, split_topic_levels}
use sky_tree.SubCenter.Tree.{SubOption, TreeNode, clients_of, node_at, find_client, sub_at}
use sky_tree.SubCenter.Tree.Uniqueness.{IsTree, node_at-IsTree, clients_of-IsMap}
use sky_tree.SubCenter.Core.{SubCore, SubError, new_sub_core}
use sky_tree.SubCenter.Core.Paths.{is_empty-split_topic_levels}
use sky_tree.SubCenter.Core.Uniqueness.{run_all-IsTree}
use sky_tree.SubCenter.Core.Requests.{Request, run_all, spec_all}
use sky_tree.SubCenter.Core.Refinement.{run_all-Agrees, run_all-spec}
use sky_tree.SubCenter.Match.{
  check_topic_levels, validate_publish_topic, allow_root_wildcards_for_publish, matches,
  walk_shared_subscription_roots, walk_matching_topic_nodes, MatchedSubscription,
  matched_subscription_from_option, matched_of, match_topic_client_v2,
}
use sky_tree.SubCenter.Match.Walk.{
  Literals, Chooses, Visited, shared-Visited, Visited-shared, matches-Found, Found-matches,
}
use sky_tree.SubCenter.Match.Collect.{entries, collected, entries-mem, mem-entries}

check_topic_levels-Literals : (ls : List Bytes) → check_topic_levels ls ≡ none → Literals ls
unfolding check_topic_levels
check_topic_levels-Literals [] h = tt
check_topic_levels-Literals (l ∷ ls) h = (
  (ground (arith, same_bytes_iff l (codes "#")), ground (arith, same_bytes_iff l (codes "+"))),
  check_topic_levels-Literals ls (ground arith),
)

pub validate_publish_topic-Literals :
    (topic : Bytes) → validate_publish_topic topic ≡ none → Literals (split_topic_levels topic)
unfolding validate_publish_topic is_empty
validate_publish_topic-Literals [] h = cc
validate_publish_topic-Literals (c ∷ s) h =
    check_topic_levels-Literals (split_topic_levels (c ∷ s)) h

validate_publish_topic-is_empty :
    (topic : Bytes)
    → validate_publish_topic topic ≡ none
    → is_empty (split_topic_levels topic) ≡ false
unfolding validate_publish_topic is_empty
validate_publish_topic-is_empty [] h = cc
validate_publish_topic-is_empty (c ∷ s) h = is_empty-split_topic_levels c s

walk-valid :
    (topic : Bytes) (s : SubCore)
    → validate_publish_topic topic ≡ none
    → walk_matching_topic_nodes topic s
      ≡ walk_shared_subscription_roots
          (allow_root_wildcards_for_publish (split_topic_levels topic))
          (split_topic_levels topic)
          s.root
        ++ matches
            (allow_root_wildcards_for_publish (split_topic_levels topic))
            (split_topic_levels topic)
            s.root
unfolding walk_matching_topic_nodes
walk-valid topic s h =
    rw (h, walk_matching_topic_nodes, validate_publish_topic-is_empty topic h) refl

walk-invalid :
    (topic : Bytes) (s : SubCore) (e : SubError)
    → validate_publish_topic topic ≡ some e
    → walk_matching_topic_nodes topic s ≡ []
unfolding walk_matching_topic_nodes
walk-invalid topic s e h = rw (h, walk_matching_topic_nodes) refl

walk-Visited :
    (topic : Bytes) (s : SubCore) (n : TreeNode)
    → IsTree s.root
    → Memᴰ n (walk_matching_topic_nodes topic s)
    → (validate_publish_topic topic ≡ none)
      × Visited
          (allow_root_wildcards_for_publish (split_topic_levels topic))
          (split_topic_levels topic)
          s.root
          n
walk-Visited topic s n h m = elim (Option-cases (validate_publish_topic topic)) [
  | inr (x, e) ↦ elim (subst (λ l. Memᴰ n l) (walk-invalid topic s x e) m) [ ]
  | inl e ↦
      let lits = validate_publish_topic-Literals topic e in
      let allowed = allow_root_wildcards_for_publish (split_topic_levels topic) in
      (
        e,
        elim (mem_split n _ _ (subst (λ l. Memᴰ n l) (walk-valid topic s e) m)) [
          | inl k ↦ shared-Visited allowed (split_topic_levels topic) s.root n h lits k
          | inr k ↦
              let (fs, at, sel) =
                matches-Found allowed (split_topic_levels topic) s.root n lits k in
              (fs, at, inl sel)
        ],
      )
]

Visited-walk :
    (topic : Bytes) (s : SubCore) (n : TreeNode) (path : List Bytes)
    → validate_publish_topic topic ≡ none
    → node_at path s.root ≡ some n
    → Chooses
        (allow_root_wildcards_for_publish (split_topic_levels topic))
        path
        (split_topic_levels topic)
    → Memᴰ n (walk_matching_topic_nodes topic s)
Visited-walk topic s n path e at c =
    subst (λ l. Memᴰ n l) (sym (walk-valid topic s e))
      (elim c [
        | inl (m, h) ↦
            mem_right n
              (walk_shared_subscription_roots
                (allow_root_wildcards_for_publish (split_topic_levels topic))
                (split_topic_levels topic) s.root)
              _
              (Found-matches (allow_root_wildcards_for_publish (split_topic_levels topic)) s.root n
                m h at)
        | inr (g, fs, q, sel) ↦ mem_left n _ _ (
            Visited-shared (allow_root_wildcards_for_publish (split_topic_levels topic))
              (split_topic_levels topic) s.root n g fs (subst (λ p. node_at p s.root ≡ some n) q at)
              sel)
      ])

-- What a client is given is one entry for each visited node that has the client.
match_topic_client_v2-entries :
    (topic client : Bytes) (s : SubCore)
    → IsTree s.root
    → matched_of (find client (match_topic_client_v2 topic s))
      ≡ entries client (walk_matching_topic_nodes topic s)
unfolding match_topic_client_v2 find
match_topic_client_v2-entries topic client s h =
    collected (walk_matching_topic_nodes topic s) client [] (λ n m.
      let (_, (path, at, _)) = walk-Visited topic s n h m in
      clients_of-IsMap n (node_at-IsTree path s.root n h at))

sub_at-node :
    (path : List Bytes) (client : Bytes) (r n : TreeNode)
    → node_at path r ≡ some n
    → sub_at path client r ≡ find client (clients_of n)
unfolding sub_at
sub_at-node path client r n e = rw e refl

node-sub_at :
    (path : List Bytes) (client : Bytes) (r : TreeNode) (o : SubOption)
    → sub_at path client r ≡ some o
    → (n : TreeNode) × (node_at path r ≡ some n) × (find client (clients_of n) ≡ some o)
unfolding sub_at
node-sub_at path client r o h = elim (Option-cases (node_at path r)) [
  | inl e ↦ absurd (cc (sym (subst (λ x. find_client client x ≡ none) (sym e) refl) ∙ h))
  | inr (n, e) ↦ (n, e, subst (λ x. find_client client x ≡ some o) e h)
]

-- The subscription of a client to a filter that the published topic is for.
abbrev pub IsDue : List Request → Bytes → Bytes → MatchedSubscription → Type 0
IsDue rs topic client m =
    (validate_publish_topic topic ≡ none)
    × (filter : Bytes) × (o : SubOption) × (spec_all rs (λ _ _. none) client filter ≡ some o)
    × (m ≡ matched_subscription_from_option o)
    × Chooses (allow_root_wildcards_for_publish (split_topic_levels topic))
        (split_topic_levels filter) (split_topic_levels topic)

given-IsDue :
    (rs : List Request) (topic client : Bytes) (m : MatchedSubscription)
    → Memᴰ m (entries client (walk_matching_topic_nodes topic (run_all rs new_sub_core)))
    → IsDue rs topic client m
given-IsDue rs topic client m i =
    let s = run_all rs new_sub_core in
    let (n, x, j, f, q) = entries-mem client (walk_matching_topic_nodes topic s) m i in
    let (valid, (path, at, chosen)) = walk-Visited topic s n (run_all-IsTree rs) j in
    let there = sub_at-node path client s.root n at ∙ f in
    let own = (run_all-Agrees rs).1 path client x there in
    let left = subst (λ p. sub_at p client s.root ≡ some x) (sym own) there in
    (
      valid,
      x.topic,
      x,
      sym (run_all-spec rs client x.topic).1 ∙ left,
      q,
      subst
          (λ p.
            Chooses (allow_root_wildcards_for_publish (split_topic_levels topic)) p
              (split_topic_levels topic))
          (sym own) chosen,
    )

IsDue-given :
    (rs : List Request) (topic client : Bytes) (m : MatchedSubscription)
    → IsDue rs topic client m
    → Memᴰ m (entries client (walk_matching_topic_nodes topic (run_all rs new_sub_core)))
IsDue-given rs topic client m (valid, filter, o, left, q, chosen) =
    let s = run_all rs new_sub_core in
    let (n, at, f) =
      node-sub_at (split_topic_levels filter) client s.root o
        ((run_all-spec rs client filter).1 ∙ left) in
    let visited = Visited-walk topic s n (split_topic_levels filter) valid at chosen in
    subst (λ k. Memᴰ k (entries client (walk_matching_topic_nodes topic s))) (sym q)
      (mem-entries client (walk_matching_topic_nodes topic s) n o visited f)

-- After any requests on a new core, `matchTopicClientV2` gives a client a subscription for a
-- published topic if and only if the topic is valid, the client has the subscription by the
-- requests, and its filter, or the filter after "$share" and a group, matches the topic's levels by
-- the rules of MQTT, with no wildcard in its first level where the topic starts with "$".
pub match_topic_client_v2_iff :
    (rs : List Request) (topic client : Bytes) (m : MatchedSubscription)
    → Memᴰ m (matched_of (find client (match_topic_client_v2 topic (run_all rs new_sub_core)))) ↔ (
        (validate_publish_topic topic ≡ none)
        × (filter : Bytes) × (o : SubOption) × (spec_all rs (λ _ _. none) client filter ≡ some o)
        × (m ≡ matched_subscription_from_option o)
        × Chooses
            (allow_root_wildcards_for_publish (split_topic_levels topic))
            (split_topic_levels filter)
            (split_topic_levels topic))
match_topic_client_v2_iff rs topic client m =
    let same =
      match_topic_client_v2-entries topic client (run_all rs new_sub_core) (run_all-IsTree rs) in
    (
      λ i. given-IsDue rs topic client m (subst (λ l. Memᴰ m l) same i),
      λ d. subst (λ l. Memᴰ m l) (sym same) (IsDue-given rs topic client m d),
    )
