-- ===== src/Topic/Examples.antt =====
-- The theorems on topics at concrete filters.
use sky_tree.Common.{true, false, none, [], ◌∷◌, ◌++◌, ◌≡◌, ◌≢◌, ◌↔◌, refl, same_bytes}
use sky_tree.Topic.{
  match_topic_filter, validate_topic_filter_syntax, is_share_topic, parse_share_topic,
}
use sky_tree.Topic.Levels.{codes, contains_byte, contains_wildcard, split_topic_levels, trim_prefix}
use sky_tree.Topic.Matching.{Matches, is_hidden, match_topic_filter_iff}
use sky_tree.Topic.Syntax.{
  IsFilter, validate_topic_filter_syntax_iff, validate_topic_filter_syntax-share,
  match_topic_filter_refl, parse_share_topic-append,
}

match_topic_filter_iff_example : (match_topic_filter (codes "a/+/#") (codes "a/b/c/d") ≡ true) ↔ (
    (codes "a/+/#" ≢ [])
    × (codes "a/b/c/d" ≢ [])
    × (is_hidden (codes "a/+/#") (codes "a/b/c/d") ≡ false)
    × Matches (split_topic_levels (codes "a/+/#")) (split_topic_levels (codes "a/b/c/d")))
match_topic_filter_iff_example = match_topic_filter_iff (codes "a/+/#") (codes "a/b/c/d")

not_shared_example : is_share_topic (codes "a/+/#") ≡ false
unfolding is_share_topic trim_prefix
not_shared_example = refl

validate_topic_filter_syntax_iff_example :
    (validate_topic_filter_syntax (codes "a/+/#") ≡ none)
    ↔ ((codes "a/+/#" ≢ []) × IsFilter (split_topic_levels (codes "a/+/#")))
validate_topic_filter_syntax_iff_example =
    validate_topic_filter_syntax_iff (codes "a/+/#") not_shared_example

accepted_example : validate_topic_filter_syntax (codes "a/+/#") ≡ none
unfolding validate_topic_filter_syntax same_bytes
accepted_example = refl

match_topic_filter_refl_example : match_topic_filter (codes "a/+/#") (codes "a/+/#") ≡ true
match_topic_filter_refl_example =
    match_topic_filter_refl (codes "a/+/#") not_shared_example accepted_example

no_slash : contains_byte b'/' (codes "g") ≡ false
unfolding contains_byte
no_slash = refl

parse_share_topic-append_example :
    parse_share_topic (codes "$share/" ++ (codes "g" ++ (b'/' ∷ codes "a/b")))
    ≡ (codes "g", codes "a/b")
parse_share_topic-append_example = parse_share_topic-append (codes "g") (codes "a/b") no_slash

validate_topic_filter_syntax-share_example :
    (validate_topic_filter_syntax (codes "$share/" ++ (codes "g" ++ (b'/' ∷ codes "a/b"))) ≡ none)
    ↔ ((codes "g" ≢ [])
        × (codes "a/b" ≢ [])
        × (contains_wildcard (codes "g") ≡ false)
        × IsFilter (split_topic_levels (codes "a/b")))
validate_topic_filter_syntax-share_example =
    validate_topic_filter_syntax-share (codes "g") (codes "a/b") no_slash
