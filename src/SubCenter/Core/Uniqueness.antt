-- ===== src/SubCenter/Core/Uniqueness.antt =====
-- The maps of the tree over the requests to a SubCore.
use sky_tree.Common.{List, [], ◌∷◌, find, remove, bytes_key, remove-IsMap, Option-cases, inl, inr}
use sky_tree.Mqtt5.Properties.{Bytes}
use sky_tree.Topic.Levels.{split_topic_levels}
use sky_tree.SubCenter.Tree.{SubOption, node_at}
use sky_tree.SubCenter.Tree.Uniqueness.{IsTree, create_at-IsTree, change_at-IsTree}
use sky_tree.SubCenter.Core.{
  Topics, SubCore, new_sub_core, validate_topic_filter, create_sub, delete_sub, delete_topic,
  delete_subs, delete_client, no_clients,
}
use sky_tree.SubCenter.Core.Agreement.{create_sub-accepted, create_sub-refused}
use sky_tree.SubCenter.Core.Requests.{
  Request, subscribe, unsubscribe, remove_topic, remove_client, run, run_all,
}

create_sub-IsTree :
    (client : Bytes) (option : SubOption) (s : SubCore)
    → IsTree s.root
    → IsTree (create_sub client option s).1.root
create_sub-IsTree client option s h = elim (Option-cases (validate_topic_filter option.topic)) [
  | inl e ↦
      rw (create_sub-accepted client option s e)
        (create_at-IsTree client option (split_topic_levels option.topic) s.root h)
  | inr (x, e) ↦ rw (create_sub-refused client option s x e) h
]

delete_sub-IsTree :
    (topic client : Bytes) (s : SubCore) → IsTree s.root → IsTree (delete_sub topic client s).root
unfolding delete_sub
delete_sub-IsTree topic client s h =
    elim (Option-cases (node_at (split_topic_levels topic) s.root)) [
      | inl e ↦ rw (e, delete_sub) h
      | inr (n, e) ↦
          rw (e, delete_sub)
            (change_at-IsTree (remove client) (remove-IsMap client) (split_topic_levels topic)
              s.root h)
    ]

delete_topic-IsTree :
    (topic : Bytes) (s : SubCore) → IsTree s.root → IsTree (delete_topic topic s).1.root
unfolding delete_topic
delete_topic-IsTree topic s h = elim (Option-cases (node_at (split_topic_levels topic) s.root)) [
  | inl e ↦ rw (e, delete_topic) h
  | inr (n, e) ↦
      rw (e, delete_topic)
        (change_at-IsTree no_clients (λ cs _. tt) (split_topic_levels topic) s.root h)
]

delete_subs-IsTree :
    (topics : Topics) (client : Bytes) (s : SubCore)
    → IsTree s.root
    → IsTree (delete_subs topics client s).root
unfolding delete_subs
delete_subs-IsTree [] client s h = h
delete_subs-IsTree ((_, option) ∷ more) client s h =
    delete_subs-IsTree more client _ (delete_sub-IsTree option.topic client s h)

delete_client-IsTree :
    (client : Bytes) (s : SubCore) → IsTree s.root → IsTree (delete_client client s).root
unfolding delete_client
delete_client-IsTree client s h = elim (Option-cases (find client s.clients)) [
  | inl e ↦ rw (e, delete_client) h
  | inr (topics, e) ↦ rw (e, delete_client) (delete_subs-IsTree topics client s h)
]

run-IsTree : (r : Request) (s : SubCore) → IsTree s.root → IsTree (run r s).root
unfolding run
run-IsTree (subscribe client option) s h = create_sub-IsTree client option s h
run-IsTree (unsubscribe topic client) s h = delete_sub-IsTree topic client s h
run-IsTree (remove_topic topic) s h = delete_topic-IsTree topic s h
run-IsTree (remove_client client) s h = delete_client-IsTree client s h

run_all-IsTree_from : (rs : List Request) (s : SubCore) → IsTree s.root → IsTree (run_all rs s).root
unfolding run_all
run_all-IsTree_from [] s h = h
run_all-IsTree_from (r ∷ rs) s h = run_all-IsTree_from rs (run r s) (run-IsTree r s h)

pub run_all-IsTree : (rs : List Request) → IsTree (run_all rs new_sub_core).root
unfolding IsTree new_sub_core
run_all-IsTree rs = run_all-IsTree_from rs new_sub_core (tt, tt)
