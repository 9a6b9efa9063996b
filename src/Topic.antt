-- ===== src/Topic.antt =====
-- pkg/mqtt5/topic/topic.go and filter_validator.go: topic levels, matching, the syntax of filters.
pub mod Levels
pub mod Matching
pub mod Syntax
mod Examples
use sky_tree.Common.{
  ℕ, String, Bool, true, false, not, ◌&&◌, ◌||◌, Option, none, some, List, [], ◌∷◌, ◌==◌,
  same_bytes, if◌then◌else◌,
}
use sky_tree.Mqtt5.Properties.{Bytes}
use sky_tree.Topic.Levels.{
  codes, cut, is_empty, contains_byte, contains_wildcard, split, split_topic_levels, trim_prefix,
}

unfoldable pub match_levels : List Bytes → List Bytes → Bool
unfolding is_empty
match_levels [] ts = is_empty ts
match_levels (f ∷ fs) [] = same_bytes f (codes "#") && is_empty fs
match_levels (f ∷ fs) (t ∷ ts) =
    let rest = match_levels fs ts in
    if same_bytes f (codes "#")
    then is_empty fs
    else if same_bytes f (codes "+")
    then rest
    else same_bytes f t && rest

abbrev pub starts_with_dollar : Bytes → Bool
starts_with_dollar [] = false
starts_with_dollar (c ∷ _) = c == b'$'

-- The test on the first levels, which exist where the string is not empty.
abbrev pub hides_system : List Bytes → List Bytes → Bool
hides_system (f ∷ _) (t ∷ _) = starts_with_dollar t && not (starts_with_dollar f)
hides_system _ _ = false

unfoldable pub match_topic_filter : Bytes → Bytes → Bool
unfolding match_levels split_topic_levels is_empty
match_topic_filter filter topic =
    if is_empty filter || is_empty topic
    then false
    else let fs = split_topic_levels filter in
      let ts = split_topic_levels topic in
      if is_empty fs || is_empty ts
      then false
      else if hides_system fs ts
      then false
      else match_levels fs ts

unfoldable pub is_share_topic : Bytes → Bool
unfolding trim_prefix
is_share_topic s = elim (trim_prefix (codes "$share/") s) [ none ↦ false | some _ ↦ true ]

abbrev share_parts : Option (Bytes × Bytes) → Bytes × Bytes
share_parts none = ([], [])
share_parts (some p) = p

-- The group and the topic; for a topic that is not shared, no group and the topic itself.
unfoldable pub parse_share_topic : Bytes → Bytes × Bytes
unfolding trim_prefix cut
parse_share_topic s = elim (trim_prefix (codes "$share/") s) [
  | none ↦ ([], s)
  | some rest ↦ share_parts (cut rest)
]

pub data FilterError : Type 0 where
  empty share_format share_group multi_wildcard single_wildcard : FilterError

-- The text of each error.
unfoldable pub filter_message : FilterError → String
filter_message empty = "topic filter must be non-empty"
filter_message share_format = "shared subscription must be $share/{group}/{filter}"
filter_message share_group = "shared subscription share name must not contain wildcards"
filter_message multi_wildcard = "multi-level wildcard must occupy the final segment"
filter_message single_wildcard = "single-level wildcard must occupy an entire segment"

unfoldable pub check_levels : List Bytes → Option FilterError
unfolding is_empty contains_byte
check_levels [] = none
check_levels (l ∷ ls) =
    let rest = check_levels ls in
    if same_bytes l (codes "#")
    then if is_empty ls then rest else some multi_wildcard
    else if contains_byte b'#' l
    then some multi_wildcard
    else if contains_byte b'+' l && not (same_bytes l (codes "+"))
    then some single_wildcard
    else rest

abbrev pub check_share : Option (Bytes × Bytes) → Option FilterError
check_share none = some share_format
check_share (some (group, filter)) =
    if is_empty group || is_empty filter
    then some share_format
    else if contains_wildcard group
    then some share_group
    else check_levels (split_topic_levels filter)

-- `none` is Go's nil error.
unfoldable pub validate_topic_filter_syntax : Bytes → Option FilterError
unfolding trim_prefix cut check_levels split_topic_levels contains_wildcard is_empty
validate_topic_filter_syntax filter =
    if is_empty filter then some empty else elim (trim_prefix (codes "$share/") filter) [
      | none ↦ check_levels (split_topic_levels filter)
      | some rest ↦ check_share (cut rest)
    ]
