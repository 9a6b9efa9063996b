-- ===== src/SubCenter/Examples.antt =====
-- The theorems on the subscription centre at concrete requests, filters and topics.
use mathlib.Core.List.{Memᴰ}
use sky_tree.Common.{
  true, false, none, some, List, [], ◌∷◌, find, bytes_key, same_bytes, ◌≡◌, ◌≢◌, ◌↔◌, refl, subst,
  inl, map,
}
use sky_tree.Mqtt5.Properties.{Bytes}
use sky_tree.Topic.{match_topic_filter, validate_topic_filter_syntax}
use sky_tree.Topic.Levels.{codes, is_empty, contains_byte, split, split_topic_levels, trim_prefix}
use sky_tree.Topic.Matching.{Matches}
use sky_tree.SubCenter.Tree.{SubOption, sub_at}
use sky_tree.SubCenter.Core.{new_sub_core, validate_topic_filter, check_filter_levels}
use sky_tree.SubCenter.Core.Agreement.{indexed, planted}
use sky_tree.SubCenter.Core.Requests.{Request, subscribe, unsubscribe, remove_client, run_all}
use sky_tree.SubCenter.Core.Refinement.{run_all-spec, run_all-Agrees}
use sky_tree.SubCenter.Match.{
  check_topic_levels, validate_publish_topic, allow_root_wildcards_for_publish,
  matched_subscription_from_option, matched_of, match_topic_client_v2,
}
use sky_tree.SubCenter.Match.Walk.{Selects}
use sky_tree.SubCenter.Match.Delivery.{IsDue, match_topic_client_v2_iff}
use sky_tree.SubCenter.Match.Agreement.{match_topic_filter-Selects, validate_topic_filter-syntax}
use sky_tree.SubCenter.Center.{
  MemorySubCenter, get_owner_token, refused, first_level, shard_key_from_topic,
  shard_keys_for_match, create_sub_request, delete_sub_request, delete_client_request,
}
use sky_tree.SubCenter.Center.Sharding.{shard_keys_for_match-covers}
use sky_tree.SubCenter.Center.Reads.{get_all_match_client_v2}
use sky_tree.SubCenter.Center.Reads.Complete.{Answers, get_all_match_client_v2-Answers}
use sky_tree.SubCenter.Center.Fencing.{IsRefusal, stale_owner}

abbrev option_for : Bytes → SubOption
option_for filter = record {
  topic = filter;
  qos = 1;
  retain_as_published = false;
  no_local = false;
  retain_handling = 0;
  subscription_identifier = 0;
}

abbrev ann : Bytes
ann = codes "ann"

abbrev bob : Bytes
bob = codes "bob"

abbrev requests : List Request
requests =
    subscribe ann (option_for (codes "a/+"))
    ∷ (subscribe bob (option_for (codes "$share/g/a/#"))
        ∷ (subscribe ann (option_for (codes "b#"))
            ∷ (unsubscribe (codes "a/b") ann ∷ (remove_client bob ∷ []))))

run_all-spec_example :
    (indexed ann (codes "a/+") (run_all requests new_sub_core) ≡ some (option_for (codes "a/+")))
    × (planted ann (codes "a/+") (run_all requests new_sub_core) ≡ some (option_for (codes "a/+")))
unfolding validate_topic_filter check_filter_levels split_topic_levels split same_bytes is_empty
    contains_byte
run_all-spec_example = run_all-spec requests ann (codes "a/+")

run_all-Agrees_example :
    ((client topic : Bytes)
      → indexed client topic (run_all requests new_sub_core)
        ≡ planted client topic (run_all requests new_sub_core))
    × ((path : List Bytes) (client : Bytes) (o : SubOption)
        → sub_at path client (run_all requests new_sub_core).root ≡ some o
        → split_topic_levels o.topic ≡ path)
run_all-Agrees_example = run_all-Agrees requests

match_topic_client_v2_iff_example :
    Memᴰ
      (matched_subscription_from_option (option_for (codes "a/+")))
      (matched_of (find ann (match_topic_client_v2 (codes "a/b") (run_all requests new_sub_core))))
    ↔ IsDue requests (codes "a/b") ann (matched_subscription_from_option (option_for (codes "a/+")))
match_topic_client_v2_iff_example =
    match_topic_client_v2_iff requests (codes "a/b") ann
      (matched_subscription_from_option (option_for (codes "a/+")))

match_topic_filter-Selects_example :
    (match_topic_filter (codes "$SYS/#") (codes "$SYS/a") ≡ true)
    ↔ Selects
        (allow_root_wildcards_for_publish (split_topic_levels (codes "$SYS/a")))
        (split_topic_levels (codes "$SYS/#"))
        (split_topic_levels (codes "$SYS/a"))
match_topic_filter-Selects_example =
    match_topic_filter-Selects (codes "$SYS/#") (codes "$SYS/a") (λ e. cc) (λ e. cc)

validate_topic_filter-syntax_example :
    (validate_topic_filter (codes "a/#/b") ≡ none)
    ↔ (validate_topic_filter_syntax (codes "a/#/b") ≡ none)
unfolding trim_prefix
validate_topic_filter-syntax_example = validate_topic_filter-syntax (codes "a/#/b") refl

shard_keys_for_match-covers_example :
    Memᴰ (shard_key_from_topic (codes "/a/+")) (shard_keys_for_match (codes "/a/b"))
unfolding validate_publish_topic check_topic_levels split_topic_levels split same_bytes is_empty
    contains_byte
shard_keys_for_match-covers_example =
    shard_keys_for_match-covers (codes "/a/b") (codes "/a/+") refl (
      inl (
        Matches.level [] (λ e. cc) (λ e. cc)
            (Matches.level (codes "a") (λ e. cc) (λ e. cc) (Matches.single Matches.end)),
        λ e. absurd (cc e),
      ))

abbrev owned : MemorySubCenter
owned = record { shards = []; index = []; client_owner_tokens = (ann, codes "t1") ∷ [] }

t1-t2 : codes "t1" ≢ codes "t2"
unfolding same_bytes
t1-t2 e =
    let again : same_bytes (codes "t1") (codes "t2") ≡ true =
      subst (λ x. same_bytes (codes "t1") x ≡ true) e refl in
    absurd (cc again)

stale_owner_example :
    ((options : List SubOption)
      → ((create_sub_request ann options (codes "t2") owned).center ≡ owned)
        × ((create_sub_request ann options (codes "t2") owned).errors ≡ [])
        × ((option : SubOption)
            → Memᴰ option options
            → option.topic ≢ []
            → find option.topic (create_sub_request ann options (codes "t2") owned).acks
              ≡ some refused)
        × ((topic : Bytes)
            → IsRefusal options topic
                (find topic (create_sub_request ann options (codes "t2") owned).acks)))
    × ((topics : List Bytes)
        → delete_sub_request ann topics (codes "t2") owned ≡ (map (λ _. refused) topics, owned))
    × (delete_client_request ann (codes "t2") owned ≡ (false, owned))
unfolding get_owner_token find same_bytes is_empty
stale_owner_example = stale_owner owned ann (codes "t2") (λ e. cc) (λ e. cc) t1-t2

abbrev watching : List Request
watching = subscribe ann (option_for (codes "+/b")) ∷ []

abbrev sharded : MemorySubCenter
sharded = record {
  shards = (codes "+", run_all watching new_sub_core) ∷ [];
  index = [];
  client_owner_tokens = [];
}

get_all_match_client_v2-Answers_example :
    Answers ann
      (matched_subscription_from_option (option_for (codes "+/b")))
      (get_all_match_client_v2 (codes "a/b") sharded)
unfolding shard_key_from_topic first_level find validate_topic_filter check_filter_levels
    validate_publish_topic check_topic_levels split_topic_levels split same_bytes is_empty
    contains_byte
get_all_match_client_v2-Answers_example =
    get_all_match_client_v2-Answers sharded watching (codes "a/b") ann (codes "+/b")
      (option_for (codes "+/b")) refl refl refl
      (inl (
        Matches.single (Matches.level (codes "b") (λ e. cc) (λ e. cc) Matches.end),
        λ e. absurd (cc e),
      ))
