-- ===== src/SubCenter/Core/Requests.antt =====
-- Requests to a SubCore, and what they do to a function from clients and topics to options.
use sky_tree.Common.{
  Bool, true, false, ◌&&◌, Option, none, some, List, [], ◌∷◌, same_bytes, if◌then◌else◌, bytes_key,
}
use sky_tree.Mqtt5.Properties.{Bytes}
use sky_tree.SubCenter.Tree.{SubOption}
use sky_tree.SubCenter.Core.{
  SubCore, SubError, validate_topic_filter, create_sub, delete_sub, delete_topic, delete_client,
}

pub data Request : Type 0 where
  subscribe : Bytes → SubOption → Request
  unsubscribe : Bytes → Bytes → Request
  remove_topic : Bytes → Request
  remove_client : Bytes → Request

unfoldable pub run : Request → SubCore → SubCore
unfolding create_sub delete_sub delete_topic delete_client
run (subscribe client option) s = (create_sub client option s).1
run (unsubscribe topic client) s = delete_sub topic client s
run (remove_topic topic) s = (delete_topic topic s).1
run (remove_client client) s = delete_client client s

unfoldable pub run_all : List Request → SubCore → SubCore
unfolding run
run_all [] s = s
run_all (r ∷ rs) s = run_all rs (run r s)

-- The subscriptions as a function of the client and the topic.
abbrev pub Options : Type 0
Options = Bytes → Bytes → Option SubOption

abbrev pub accepts : Option SubError → Bool
accepts none = true
accepts (some _) = false

-- What a request does to the function.
abbrev pub spec : Request → Options → Options
spec (subscribe client option) m other topic =
    if accepts (validate_topic_filter option.topic)
      && (same_bytes client other && same_bytes option.topic topic)
    then some option
    else m other topic
spec (unsubscribe gone client) m other topic =
    if same_bytes client other && same_bytes gone topic then none else m other topic
spec (remove_topic gone) m other topic = if same_bytes gone topic then none else m other topic
spec (remove_client client) m other topic = if same_bytes client other then none else m other topic

abbrev pub spec_all : List Request → Options → Options
spec_all [] m = m
spec_all (r ∷ rs) m = spec_all rs (spec r m)
