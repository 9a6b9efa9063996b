-- ===== src/Acl.antt =====
-- internal/broker/acl: matching of rules (match.go), the rules (model.go) and the evaluator of a fixed
-- ruleset (policy.go). The manager, the loader and the sources of rules are not here. The evaluator
-- ignores its context.
pub mod Superset
pub mod Decisions
mod Examples
use sky_tree.Common.{
  Bool, true, false, not, ◌&&◌, ◌||◌, Option, none, some, List, [], ◌∷◌, same_bytes, if◌then◌else◌,
}
use sky_tree.Mqtt5.Properties.{Bytes}
use sky_tree.Topic.{parse_share_topic}
use sky_tree.Topic.Levels.{codes, is_empty, contains_wildcard, split_topic_levels}

unfoldable pub match_levels : List Bytes → List Bytes → Bool
unfolding is_empty
match_levels [] ts = is_empty ts
match_levels (f ∷ fs) [] = same_bytes f (codes "#")
match_levels (f ∷ fs) (t ∷ ts) =
    let rest = match_levels fs ts in
    if same_bytes f (codes "#")
    then true
    else if same_bytes f (codes "+")
    then rest
    else if same_bytes f t
    then rest
    else false

unfoldable pub match_topic : Bytes → Bytes → Bool
unfolding match_levels split_topic_levels contains_wildcard is_empty
match_topic filter topic =
    if is_empty filter || is_empty topic
    then false
    else if contains_wildcard topic
    then false
    else match_levels (split_topic_levels filter) (split_topic_levels topic)

unfoldable pub superset_levels : List Bytes → List Bytes → Bool
unfolding is_empty
superset_levels [] qs = is_empty qs
superset_levels (r ∷ rs) [] = same_bytes r (codes "#")
superset_levels (r ∷ rs) (q ∷ qs) =
    let rest = superset_levels rs qs in
    if same_bytes r (codes "#")
    then true
    else if same_bytes q (codes "#")
    then false
    else if same_bytes q (codes "+")
    then if not (same_bytes r (codes "+")) then false else rest
    else if not (same_bytes r (codes "+")) && not (same_bytes r q)
    then false
    else rest

unfoldable pub filter_superset : Bytes → Bytes → Bool
unfolding superset_levels split_topic_levels is_empty
filter_superset rule req =
    if is_empty rule || is_empty req
    then false
    else if same_bytes rule (codes "#")
    then true
    else if same_bytes req (codes "#")
    then same_bytes rule (codes "#") || same_bytes rule (codes "+/#")
    else superset_levels (split_topic_levels rule) (split_topic_levels req)

pub data Action : Type 0 where
  publish subscribe : Action

pub record Identity : Type 0 where
  pub username : Bytes
  pub client_id : Bytes

pub record RuleEntry : Type 0 where
  pub pub_filters : List Bytes
  pub sub_filters : List Bytes

pub record Rule : Type 0 where
  pub identity : Identity
  pub allow : RuleEntry
  pub deny : RuleEntry

pub record Ruleset : Type 0 where
  pub default_deny : Bool
  pub rules : List Rule

unfoldable pub identity_match : Identity → Bytes → Bytes → Bool
unfolding is_empty
identity_match id username client =
    if not (is_empty id.username) && not (same_bytes id.username username)
    then false
    else if not (is_empty id.client_id) && not (same_bytes id.client_id client)
    then false
    else not (is_empty id.username) || not (is_empty id.client_id)

unfoldable pub any_match_topic : List Bytes → Bytes → Bool
unfolding match_topic
any_match_topic [] topic = false
any_match_topic (f ∷ fs) topic =
    let rest = any_match_topic fs topic in if match_topic f topic then true else rest

unfoldable pub any_superset : List Bytes → Bytes → Bool
unfolding filter_superset
any_superset [] req = false
any_superset (f ∷ fs) req =
    let rest = any_superset fs req in if filter_superset f req then true else rest

-- The test that both loops of `eval` make with an entry of a rule.
unfoldable pub applies : Action → RuleEntry → Bytes → Bool
unfolding any_match_topic any_superset
applies publish e subject = any_match_topic e.pub_filters subject
applies subscribe e subject = any_superset e.sub_filters subject

unfoldable pub any_denies : List Rule → Bytes → Bytes → Action → Bytes → Bool
unfolding identity_match applies
any_denies [] username client action subject = false
any_denies (r ∷ rs) username client action subject =
    let rest = any_denies rs username client action subject in
    if not (identity_match r.identity username client)
    then rest
    else if applies action r.deny subject
    then true
    else rest

unfoldable pub any_allows : List Rule → Bytes → Bytes → Action → Bytes → Bool
unfolding identity_match applies
any_allows [] username client action subject = false
any_allows (r ∷ rs) username client action subject =
    let rest = any_allows rs username client action subject in
    if not (identity_match r.identity username client)
    then rest
    else if applies action r.allow subject
    then true
    else rest

unfoldable pub eval : Ruleset → Bytes → Bytes → Action → Bytes → Bool
unfolding any_denies any_allows
eval policy username client action subject =
    if any_denies policy.rules username client action subject
    then false
    else if any_allows policy.rules username client action subject
    then true
    else not policy.default_deny

-- `none` is the error of an empty topic.
unfoldable pub allow_publish : Ruleset → Bytes → Bytes → Bytes → Option Bool
unfolding eval is_empty
allow_publish policy username client topic =
    if is_empty topic then none else some (eval policy username client publish topic)

-- `none` is the error of an empty filter.
unfoldable pub allow_subscribe : Ruleset → Bytes → Bytes → Bytes → Option Bool
unfolding eval is_empty
allow_subscribe policy username client filter =
    if is_empty filter then none else some (eval policy username client subscribe filter)

-- The filter that `OnSubscribe` of internal/broker/plugin/acl.go asks about for a requested one.
unfoldable pub actual_filter : Bytes → Bytes
unfolding parse_share_topic is_empty
actual_filter filter =
    let (_, actual) = parse_share_topic filter in if is_empty actual then filter else actual

-- `OnSubscribe` with its evaluator and the client's user name: `true` is Go's nil error.
unfoldable pub on_subscribe : Ruleset → Bytes → Bytes → List Bytes → Bool
unfolding actual_filter allow_subscribe is_empty
on_subscribe policy username client [] = true
on_subscribe policy username client (filter ∷ more) =
    let rest = on_subscribe policy username client more in
    if is_empty filter
    then rest
    else elim (allow_subscribe policy username client (actual_filter filter)) [
      | none ↦ false
      | some allowed ↦ if not allowed then false else rest
    ]

-- `OnReceivedPublish` with its evaluator and the client's user name: `true` is Go's nil error.
unfoldable pub on_received_publish : Ruleset → Bytes → Bytes → Bytes → Bool
unfolding allow_publish
on_received_publish policy username client topic =
    elim (allow_publish policy username client topic) [ none ↦ false | some allowed ↦ allowed ]
