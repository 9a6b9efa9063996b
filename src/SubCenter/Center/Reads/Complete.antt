-- ===== src/SubCenter/Center/Reads/Complete.antt =====
-- The answer of GetAllMatchClientV2 against the subscriptions of the shards.
use mathlib.Core.List.{Memᴰ}
use sky_tree.Common.{
  true, false, none, some, List, [], ◌∷◌, ◌++◌, append_assoc, append-nil, same_bytes, same_bytes-eq,
  if◌then◌else◌, ltb, find, insert, bytes_key, find-insert, find-insert_self, mem_left, mem_right,
  ◌≡◌, refl, sym, subst, ◌∙◌, Bool-cases, Option-cases, inl, inr,
}
use sky_tree.Mqtt5.Properties.{Bytes}
use sky_tree.Topic.Levels.{is_empty, split_topic_levels}
use sky_tree.SubCenter.Tree.{SubOption}
use sky_tree.SubCenter.Core.{SubCore, new_sub_core}
use sky_tree.SubCenter.Core.Requests.{Request, run_all, spec_all}
use sky_tree.SubCenter.Match.{
  MatchedSubscription, Matched, matched_of, matched_subscription_from_option, match_topic_client_v2,
  validate_publish_topic, allow_root_wildcards_for_publish,
}
use sky_tree.SubCenter.Match.Walk.{Chooses}
use sky_tree.SubCenter.Match.Delivery.{match_topic_client_v2_iff}
use sky_tree.SubCenter.Center.{MemorySubCenter, shard_key_from_topic, shard_keys_for_match}
use sky_tree.SubCenter.Center.Sharding.{shard_keys_for_match-covers}
use sky_tree.SubCenter.Center.Reads.{
  Agg, agg_of, add_all, add_clients, add_shards, ClientMatch, client_matches,
  get_all_match_client_v2,
}

abbrev Has : Bytes → MatchedSubscription → List (Bytes × Agg) → Type 0
Has client m acc = Memᴰ m (agg_of (find client acc)).matched

add_all-matched :
    (ms : List MatchedSubscription) (a : Agg) → (add_all ms a).matched ≡ a.matched ++ ms
unfolding add_all
add_all-matched [] a = sym (append-nil a.matched)
add_all-matched (m ∷ ms) a =
    add_all-matched ms (record {
      max_qos = if ltb a.max_qos m.qos then m.qos else a.max_qos;
      matched = a.matched ++ (m ∷ []);
    })
    ∙ append_assoc a.matched (m ∷ []) ms

-- Storing a larger entry for a client keeps what each client has.
insert-Has :
    (client other : Bytes) (subs : List MatchedSubscription) (m : MatchedSubscription)
    (acc : List (Bytes × Agg))
    → Has other m acc
    → Has other m (insert client (add_all subs (agg_of (find client acc))) acc)
insert-Has client other subs m acc h = elim (Bool-cases (same_bytes client other)) [
  | inr q ↦ rw (find-insert client other (add_all subs (agg_of (find client acc))) acc, q) h
  | inl q ↦
      let here : Has client m acc =
        subst (λ x. Has x m acc) (sym (same_bytes-eq client other q)) h in
      rw (find-insert client other (add_all subs (agg_of (find client acc))) acc, q)
        (subst (λ l. Memᴰ m l) (sym (add_all-matched subs (agg_of (find client acc))))
          (mem_left m (agg_of (find client acc)).matched subs here))
]

inserted-Has :
    (client : Bytes) (subs : List MatchedSubscription) (m : MatchedSubscription)
    (acc : List (Bytes × Agg))
    → Memᴰ m subs
    → Has client m (insert client (add_all subs (agg_of (find client acc))) acc)
inserted-Has client subs m acc h =
    rw (find-insert_self client (add_all subs (agg_of (find client acc))) acc) (
      subst (λ l. Memᴰ m l) (sym (add_all-matched subs (agg_of (find client acc))))
        (mem_right m (agg_of (find client acc)).matched subs h))

add_clients-keeps :
    (mc : Matched) (client : Bytes) (m : MatchedSubscription) (acc : List (Bytes × Agg))
    → Has client m acc
    → Has client m (add_clients mc acc)
unfolding add_clients
add_clients-keeps [] client m acc h = h
add_clients-keeps ((k, subs) ∷ rest) client m acc h = elim (Bool-cases (is_empty subs)) [
  | inl e ↦ rw e (add_clients-keeps rest client m acc h)
  | inr e ↦ rw e (add_clients-keeps rest client m _ (insert-Has k client subs m acc h))
]

mem-is_empty :
    (m : MatchedSubscription) (subs : List MatchedSubscription)
    → Memᴰ m subs
    → is_empty subs ≡ false
unfolding is_empty
mem-is_empty m [] h = elim h [ ]
mem-is_empty m (x ∷ xs) h = refl

find-head :
    {V : Type 0} (k client : Bytes) (subs : V) (rest : List (Bytes × V))
    → same_bytes k client ≡ true
    → find client ((k, subs) ∷ rest) ≡ some subs
unfolding find
find-head k client subs rest q = rw q refl

find-tail :
    {V : Type 0} (k client : Bytes) (subs : V) (rest : List (Bytes × V))
    → same_bytes k client ≡ false
    → find client ((k, subs) ∷ rest) ≡ find client rest
unfolding find
find-tail k client subs rest q = rw q refl

add_clients-Has :
    (mc : Matched) (client : Bytes) (m : MatchedSubscription) (acc : List (Bytes × Agg))
    → Memᴰ m (matched_of (find client mc))
    → Has client m (add_clients mc acc)
unfolding add_clients find
add_clients-Has [] client m acc h = elim h [ ]
add_clients-Has ((k, subs) ∷ rest) client m acc h = elim (Bool-cases (same_bytes k client)) [
  | inr q ↦
      add_clients-Has rest client m _
        (subst (λ o. Memᴰ m (matched_of o)) (find-tail k client subs rest q) h)
  | inl q ↦
      let here = subst (λ o. Memᴰ m (matched_of o)) (find-head k client subs rest q) h in
      rw (mem-is_empty m subs here) (
        add_clients-keeps rest client m _ (
          subst (λ x. Has x m (insert k (add_all subs (agg_of (find k acc))) acc))
            (same_bytes-eq k client q) (inserted-Has k subs m acc here)))
]

add_shards-keeps :
    (topic : Bytes) (keys : List Bytes) (shards : List (Bytes × SubCore)) (client : Bytes)
    (m : MatchedSubscription) (acc : List (Bytes × Agg))
    → Has client m acc
    → Has client m (add_shards topic keys shards acc)
unfolding add_shards
add_shards-keeps topic [] shards client m acc h = h
add_shards-keeps topic (key ∷ keys) shards client m acc h = elim (Option-cases (find key shards)) [
  | inl e ↦ rw (e, add_shards) (add_shards-keeps topic keys shards client m acc h)
  | inr (s, e) ↦
      rw (e, add_shards)
        (add_shards-keeps topic keys shards client m _
          (add_clients-keeps (match_topic_client_v2 topic s) client m acc h))
]

add_shards-found :
    (topic key : Bytes) (keys : List Bytes) (shards : List (Bytes × SubCore)) (s : SubCore)
    (acc : List (Bytes × Agg))
    → find key shards ≡ some s
    → add_shards topic (key ∷ keys) shards acc
      ≡ add_shards topic keys shards (add_clients (match_topic_client_v2 topic s) acc)
unfolding add_shards
add_shards-found topic key keys shards s acc e = rw (e, add_shards) refl

add_shards-Has :
    (topic : Bytes) (keys : List Bytes) (shards : List (Bytes × SubCore)) (client : Bytes)
    (m : MatchedSubscription) (acc : List (Bytes × Agg)) (key : Bytes) (s : SubCore)
    → Memᴰ key keys
    → find key shards ≡ some s
    → Memᴰ m (matched_of (find client (match_topic_client_v2 topic s)))
    → Has client m (add_shards topic keys shards acc)
unfolding add_shards
add_shards-Has topic [] shards client m acc key s i e h = elim i [ ]
add_shards-Has topic (k ∷ keys) shards client m acc key s (Memᴰ.tail i) e h =
    add_shards-Has topic keys shards client m _ key s i e h
add_shards-Has topic (k ∷ keys) shards client m acc key s (Memᴰ.head q) e h =
    let here = subst (λ x. find x shards ≡ some s) q e in
    subst (λ l. Has client m l) (sym (add_shards-found topic k keys shards s acc here))
      (add_shards-keeps topic keys shards client m _
        (add_clients-Has (match_topic_client_v2 topic s) client m acc h))

-- An answer for a client that has the subscription.
abbrev pub Answers : Bytes → MatchedSubscription → List ClientMatch → Type 0
Answers client m rs = (r : ClientMatch) × Memᴰ r rs × (r.client_id ≡ client) × Memᴰ m r.matched

client_matches-Answers :
    (acc : List (Bytes × Agg)) (client : Bytes) (m : MatchedSubscription)
    → Has client m acc
    → Answers client m (client_matches acc)
unfolding client_matches find
client_matches-Answers [] client m h = elim h [ ]
client_matches-Answers ((k, a) ∷ rest) client m h = elim (Bool-cases (same_bytes k client)) [
  | inl q ↦
      let own = subst (λ o. Memᴰ m (agg_of o).matched) (find-head k client a rest q) h in
      (
        record { client_id = k; max_qos = a.max_qos; matched = a.matched },
        Memᴰ.head refl,
        same_bytes-eq k client q,
        own,
      )
  | inr q ↦
      let (r, i, c, j) =
        client_matches-Answers rest client m
          (subst (λ o. Memᴰ m (agg_of o).matched) (find-tail k client a rest q) h) in
      (r, Memᴰ.tail i, c, j)
]

-- A shard that requests have led to, and a subscription that they leave to a client there whose
-- filter belongs to the shard: if the subscription is for a valid published topic, the answer of
-- `GetAllMatchClientV2` has an entry for the client with the subscription.
pub get_all_match_client_v2-Answers :
    (t : MemorySubCenter) (rs : List Request) (topic client filter : Bytes) (o : SubOption)
    → find (shard_key_from_topic filter) t.shards ≡ some (run_all rs new_sub_core)
    → spec_all rs (λ _ _. none) client filter ≡ some o
    → validate_publish_topic topic ≡ none
    → Chooses
        (allow_root_wildcards_for_publish (split_topic_levels topic))
        (split_topic_levels filter)
        (split_topic_levels topic)
    → (r : ClientMatch) × Memᴰ r (get_all_match_client_v2 topic t)
      × (r.client_id ≡ client)
      × Memᴰ (matched_subscription_from_option o) r.matched
unfolding get_all_match_client_v2
get_all_match_client_v2-Answers t rs topic client filter o shard left valid chosen =
    client_matches-Answers (add_shards topic (shard_keys_for_match topic) t.shards []) client
      (matched_subscription_from_option o)
      (add_shards-Has topic (shard_keys_for_match topic) t.shards client
        (matched_subscription_from_option o) [] (shard_key_from_topic filter)
        (run_all rs new_sub_core) (shard_keys_for_match-covers topic filter valid chosen) shard
        ((match_topic_client_v2_iff rs topic client (matched_subscription_from_option o)).1
          (valid, filter, o, left, refl, chosen)))
