-- ===== src/Acl/Examples.antt =====
-- The theorems on access control at a concrete ruleset.
use mathlib.Core.List.{Memᴰ}
use sky_tree.Common.{true, false, [], ◌∷◌, same_bytes, ◌≡◌, refl}
use sky_tree.Mqtt5.Properties.{Bytes}
use sky_tree.Topic.{match_topic_filter, parse_share_topic}
use sky_tree.Topic.Levels.{
  codes, is_empty, contains_byte, contains_wildcard, split, split_topic_levels, trim_prefix, cut,
}
use sky_tree.Acl.{
  match_levels, match_topic, superset_levels, filter_superset, Rule, Ruleset, identity_match,
  any_match_topic, any_superset, applies, any_denies, any_allows, eval, allow_publish,
  allow_subscribe, actual_filter, on_subscribe, on_received_publish,
}
use sky_tree.Acl.Superset.{filter_superset-match_topic}
use sky_tree.Acl.Decisions.{on_subscribe-covered, on_received_publish-allowed}

abbrev ann_rule : Rule
ann_rule = record {
  identity = record { username = codes "ann"; client_id = [] };
  allow = record { pub_filters = codes "a/+" ∷ []; sub_filters = codes "a/#" ∷ [] };
  deny = record { pub_filters = codes "a/b" ∷ []; sub_filters = [] };
}

abbrev policy : Ruleset
policy = record { default_deny = true; rules = ann_rule ∷ [] }

filter_superset-match_topic_example : match_topic (codes "a/#") (codes "a/b") ≡ true
unfolding match_topic match_levels filter_superset superset_levels split_topic_levels split
    same_bytes is_empty contains_wildcard contains_byte
filter_superset-match_topic_example =
    filter_superset-match_topic (codes "a/#") (codes "a/+") (codes "a/b") refl refl

on_received_publish-allowed_example :
    (is_empty (codes "a/c") ≡ false)
    × ((r : Rule) (f : Bytes)
        → Memᴰ r policy.rules
        → identity_match r.identity (codes "ann") (codes "x") ≡ true
        → Memᴰ f r.deny.pub_filters
        → match_topic f (codes "a/c") ≡ false)
    × (policy.default_deny ≡ true
        → (r : Rule) × (f : Bytes) × Memᴰ r policy.rules
          × (identity_match r.identity (codes "ann") (codes "x") ≡ true)
          × Memᴰ f r.allow.pub_filters
          × (match_topic f (codes "a/c") ≡ true))
unfolding on_received_publish allow_publish eval any_denies any_allows applies any_match_topic
    match_topic match_levels identity_match split_topic_levels split same_bytes is_empty
    contains_wildcard contains_byte
on_received_publish-allowed_example =
    on_received_publish-allowed policy (codes "ann") (codes "x") (codes "a/c") refl

on_subscribe-covered_example :
    (r : Rule) × (f : Bytes) × Memᴰ r policy.rules
    × (identity_match r.identity (codes "ann") (codes "x") ≡ true)
    × Memᴰ f r.allow.sub_filters
    × ((topic : Bytes)
        → contains_wildcard topic ≡ false
        → match_topic_filter (actual_filter (codes "$share/g/a/b")) topic ≡ true
        → match_topic f topic ≡ true)
unfolding on_subscribe allow_subscribe actual_filter parse_share_topic trim_prefix cut eval
    any_denies any_allows applies any_superset filter_superset superset_levels identity_match
    split_topic_levels split same_bytes is_empty
on_subscribe-covered_example =
    on_subscribe-covered policy (codes "ann") (codes "x") (codes "$share/g/a/b" ∷ [])
      (codes "$share/g/a/b") refl refl (Memᴰ.head refl) (λ e. cc)
