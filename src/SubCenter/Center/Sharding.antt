-- ===== src/SubCenter/Center/Sharding.antt =====
-- The shards that a published topic looks in, against the shards of filters.
use mathlib.Core.List.{Memᴰ}
use sky_tree.Common.{
  Bool, false, ◌||◌, none, List, [], ◌∷◌, same_bytes, same_bytes-eq, same_bytes_iff, if◌then◌else◌,
  ◌≡◌, ◌≢◌, ◌⊎◌, refl, sym, subst, ◌∙◌, arith, Bool-cases, inl, inr,
}
use sky_tree.Mqtt5.Properties.{Bytes}
use sky_tree.Topic.Levels.{codes, is_empty, split_topic_levels}
use sky_tree.Topic.Matching.{Matches}
use sky_tree.SubCenter.Match.{allow_root_wildcards_for_publish, validate_publish_topic}
use sky_tree.SubCenter.Match.Walk.{Literal, Literals, Chooses}
use sky_tree.SubCenter.Match.Delivery.{validate_publish_topic-Literals}
use sky_tree.SubCenter.Center.{first_level, shard_key_from_topic, shard_keys_for_match}

Matches-first_level :
    {fs : List Bytes} {ts : List Bytes}
    → Matches fs ts
    → (first_level fs ≡ first_level ts)
      ⊎ ((first_level fs ≡ codes "+") ⊎ (first_level fs ≡ codes "#"))
unfolding first_level is_empty
Matches-first_level Matches.end = inl refl
Matches-first_level (Matches.multi ts) = inr (inr refl)
Matches-first_level (Matches.single m) = inr (inl refl)
Matches-first_level (Matches.level l p q m) = elim (Bool-cases (is_empty l)) [
  | inl e ↦ rw e (Matches-first_level m)
  | inr e ↦ rw e (inl refl)
]

first_level-Literal : (ts : List Bytes) → Literals ts → Literal (first_level ts)
unfolding first_level is_empty
first_level-Literal [] h = (λ e. cc, λ e. cc)
first_level-Literal (l ∷ ls) (h, k) = elim (Bool-cases (is_empty l)) [
  | inl e ↦ rw e (first_level-Literal ls k)
  | inr e ↦ rw e h
]

abbrev share : Bytes
share = codes "$share"

abbrev plus : Bytes
plus = codes "+"

abbrev hash : Bytes
hash = codes "#"

-- Where a key of a topic without wildcards is looked for.
keys-mem :
    (key k : Bytes)
    → same_bytes key plus ≡ false
    → same_bytes key hash ≡ false
    → (k ≡ key) ⊎ ((k ≡ plus) ⊎ ((k ≡ hash) ⊎ (k ≡ share)))
    → Memᴰ k (
        if same_bytes key plus || same_bytes key hash
        then key ∷ []
        else if same_bytes key share
        then share ∷ (plus ∷ (hash ∷ []))
        else key ∷ (plus ∷ (hash ∷ (share ∷ []))))
keys-mem key k p q h = elim (Bool-cases (same_bytes key share)) [
  | inl e ↦
      rw (p, q, e)
        (elim h [
          | inl a ↦ Memᴰ.head (a ∙ same_bytes-eq key share e)
          | inr (inl a) ↦ Memᴰ.tail (Memᴰ.head a)
          | inr (inr (inl a)) ↦ Memᴰ.tail (Memᴰ.tail (Memᴰ.head a))
          | inr (inr (inr a)) ↦ Memᴰ.head a
        ])
  | inr e ↦
      rw (p, q, e)
        (elim h [
          | inl a ↦ Memᴰ.head a
          | inr (inl a) ↦ Memᴰ.tail (Memᴰ.head a)
          | inr (inr (inl a)) ↦ Memᴰ.tail (Memᴰ.tail (Memᴰ.head a))
          | inr (inr (inr a)) ↦ Memᴰ.tail (Memᴰ.tail (Memᴰ.tail (Memᴰ.head a)))
        ])
]

differs : (a b : Bytes) → a ≢ b → same_bytes a b ≡ false
differs a b h = ground (arith, same_bytes_iff a b)

first_level-share : (g : Bytes) (fs : List Bytes) → first_level (share ∷ (g ∷ fs)) ≡ share
unfolding first_level is_empty
first_level-share g fs = refl

Chooses-first_level :
    (allowed : Bool) (fs ts : List Bytes)
    → Chooses allowed fs ts
    → (first_level fs ≡ first_level ts)
      ⊎ ((first_level fs ≡ plus) ⊎ ((first_level fs ≡ hash) ⊎ (first_level fs ≡ share)))
Chooses-first_level allowed fs ts (inl (m, h)) = elim (Matches-first_level m) [
  | inl e ↦ inl e
  | inr (inl e) ↦ inr (inl e)
  | inr (inr e) ↦ inr (inr (inl e))
]
Chooses-first_level allowed fs ts (inr (g, rest, e, _)) =
    inr (inr (inr (subst (λ x. first_level x ≡ share) (sym e) (first_level-share g rest))))

-- A subscription that a valid published topic is for has a filter whose shard is among the shards
-- that the topic looks in.
pub shard_keys_for_match-covers :
    (topic filter : Bytes)
    → validate_publish_topic topic ≡ none
    → Chooses
        (allow_root_wildcards_for_publish (split_topic_levels topic))
        (split_topic_levels filter)
        (split_topic_levels topic)
    → Memᴰ (shard_key_from_topic filter) (shard_keys_for_match topic)
unfolding shard_key_from_topic shard_keys_for_match
shard_keys_for_match-covers topic filter v c =
    let ts = split_topic_levels topic in
    let (p, q) = first_level-Literal ts (validate_publish_topic-Literals topic v) in
    keys-mem (first_level ts) (first_level (split_topic_levels filter)) (differs _ _ q)
      (differs _ _ p)
      (Chooses-first_level (allow_root_wildcards_for_publish ts) (split_topic_levels filter) ts c)
