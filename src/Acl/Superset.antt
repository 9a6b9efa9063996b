-- ===== src/Acl/Superset.antt =====
-- Which topics a rule's filter covers: match.go.
use sky_tree.Common.{
  true, false, List, [], ◌∷◌, same_bytes, same_bytes-eq, same_bytes_refl, same_bytes_iff, ◌≡◌, ◌≢◌,
  ◌⊎◌, refl, sym, subst, arith, Bool-cases, inl, inr,
}
use sky_tree.Mqtt5.Properties.{Bytes}
use sky_tree.Topic.{match_topic_filter}
use sky_tree.Topic.Levels.{codes, is_empty, contains_wildcard, split_topic_levels, split}
use sky_tree.Topic.Matching.{Matches, match_topic_filter_iff}
use sky_tree.SubCenter.Core.Paths.{is_empty-split_topic_levels}
use sky_tree.Acl.{match_levels, match_topic, superset_levels, filter_superset}

-- A rule's levels that cover a request's levels match what those match.
superset_levels-match_levels :
    (rs qs ts : List Bytes)
    → superset_levels rs qs ≡ true
    → match_levels qs ts ≡ true
    → match_levels rs ts ≡ true
unfolding superset_levels match_levels is_empty
superset_levels-match_levels [] [] ts s m = m
superset_levels-match_levels [] (q ∷ qs) ts s m = absurd (cc s)
superset_levels-match_levels (r ∷ rs) [] [] s m = s
superset_levels-match_levels (r ∷ rs) [] (t ∷ ts) s m = absurd (cc m)
superset_levels-match_levels (r ∷ rs) (q ∷ qs) [] s m = ground arith
superset_levels-match_levels (r ∷ rs) (q ∷ qs) (t ∷ ts) s m = ground (
  arith,
  superset_levels-match_levels rs qs ts,
  same_bytes_iff r q,
  same_bytes_iff q t,
  same_bytes_iff r t,
)

-- What `MatchTopic` says where it gets to the levels, and that it gets there where it says yes.
abbrev Plain : Bytes → Type 0
Plain topic = (is_empty topic ≡ false) × (contains_wildcard topic ≡ false)

match_topic-levels :
    (filter topic : Bytes)
    → match_topic filter topic ≡ true
    → (is_empty filter ≡ false)
      × Plain topic
      × (match_levels (split_topic_levels filter) (split_topic_levels topic) ≡ true)
unfolding match_topic
match_topic-levels filter topic h = (ground arith, (ground arith, ground arith), ground arith)

levels-match_topic :
    (filter topic : Bytes)
    → is_empty filter ≡ false
    → Plain topic
    → match_levels (split_topic_levels filter) (split_topic_levels topic) ≡ true
    → match_topic filter topic ≡ true
unfolding match_topic
levels-match_topic filter topic h (a, b) m = rw (h, a, b) m

hash-matches : (ts : List Bytes) → match_levels (split_topic_levels (codes "#")) ts ≡ true
unfolding match_levels split_topic_levels split same_bytes
hash-matches [] = refl
hash-matches (t ∷ ts) = refl

plus_hash-matches :
    (ts : List Bytes)
    → is_empty ts ≡ false
    → match_levels (split_topic_levels (codes "+/#")) ts ≡ true
unfolding match_levels split_topic_levels split same_bytes is_empty
plus_hash-matches [] h = cc
plus_hash-matches (t ∷ []) h = refl
plus_hash-matches (t ∷ u ∷ ts) h = refl

levels-of : (topic : Bytes) → is_empty topic ≡ false → is_empty (split_topic_levels topic) ≡ false
unfolding is_empty
levels-of [] h = cc
levels-of (c ∷ s) h = is_empty-split_topic_levels c s

superset-levels :
    (rule req : Bytes)
    → filter_superset rule req ≡ true
    → (is_empty rule ≡ false)
      × ((rule ≡ codes "#")
          ⊎ ((rule ≡ codes "+/#")
              ⊎ (superset_levels (split_topic_levels rule) (split_topic_levels req) ≡ true)))
unfolding filter_superset
superset-levels rule req h = (
  ground arith,
  elim (Bool-cases (same_bytes rule (codes "#"))) [
    | inl e ↦ inl (same_bytes-eq rule (codes "#") e)
    | inr e ↦ elim (Bool-cases (same_bytes req (codes "#"))) [
      | inl f ↦ inr (inl (same_bytes-eq rule (codes "+/#") (ground arith)))
      | inr f ↦ inr (inr (ground arith))
    ]
  ],
)

-- A topic that a request's filter matches is matched by a rule's filter that covers the request's.
pub filter_superset-match_topic :
    (rule req topic : Bytes)
    → filter_superset rule req ≡ true
    → match_topic req topic ≡ true
    → match_topic rule topic ≡ true
filter_superset-match_topic rule req topic s m =
    let (_, plain, levels) = match_topic-levels req topic m in
    let (some_rule, covers) = superset-levels rule req s in
    levels-match_topic rule topic some_rule plain (elim covers [
      | inl e ↦
          subst (λ r. match_levels (split_topic_levels r) (split_topic_levels topic) ≡ true) (sym e)
            (hash-matches (split_topic_levels topic))
      | inr (inl e) ↦
          subst (λ r. match_levels (split_topic_levels r) (split_topic_levels topic) ≡ true) (sym e)
            (plus_hash-matches (split_topic_levels topic) (levels-of topic plain.0))
      | inr (inr e) ↦
          superset_levels-match_levels (split_topic_levels rule) (split_topic_levels req)
            (split_topic_levels topic) e levels
    ])

is_empty-≢ : (s : Bytes) → s ≢ [] → is_empty s ≡ false
unfolding is_empty
is_empty-≢ [] h = absurd (h refl)
is_empty-≢ (c ∷ s) h = refl

Matches-match_levels :
    {fs : List Bytes} {ts : List Bytes} → Matches fs ts → match_levels fs ts ≡ true
unfolding match_levels is_empty same_bytes
Matches-match_levels Matches.end = refl
Matches-match_levels (Matches.multi []) = refl
Matches-match_levels (Matches.multi (t ∷ ts)) = refl
Matches-match_levels (Matches.single m) = Matches-match_levels m
Matches-match_levels (Matches.level l h k m) =
    rw (same_bytes_refl l) (ground (arith, Matches-match_levels m))

-- A topic without wildcards that the broker's `MatchTopicFilter` matches is matched by `MatchTopic`.
pub match_topic_filter-match_topic :
    (filter topic : Bytes)
    → contains_wildcard topic ≡ false
    → match_topic_filter filter topic ≡ true
    → match_topic filter topic ≡ true
match_topic_filter-match_topic filter topic w h =
    let (f, t, _, m) = (match_topic_filter_iff filter topic).0 h in
    levels-match_topic filter topic (is_empty-≢ filter f) (is_empty-≢ topic t, w)
      (Matches-match_levels m)
