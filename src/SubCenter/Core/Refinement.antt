-- ===== src/SubCenter/Core/Refinement.antt =====
-- SubCore against the specification of its requests.
use sky_tree.Common.{
  Bool, true, false, ◌&&◌, ◌||◌, Option, none, some, List, [], ◌∷◌, same_bytes, same_bytes-eq,
  same_bytes_iff, if◌then◌else◌, find, bytes_key, ◌≡◌, refl, sym, subst, ◌∙◌, arith, Bool-cases,
  Option-cases, inl, inr,
}
use sky_tree.Mqtt5.Properties.{Bytes}
use sky_tree.Topic.Levels.{split_topic_levels}
use sky_tree.SubCenter.Tree.{SubOption, node_at, sub_at}
use sky_tree.SubCenter.Core.{
  Topics, SubCore, new_sub_core, validate_topic_filter, create_sub, delete_sub, delete_topic,
  delete_subs, delete_client,
}
use sky_tree.SubCenter.Core.Paths.{split_topic_levels-inj}
use sky_tree.SubCenter.Core.Index.{lookup, lookup-put_topic, lookup-drop_topic}
use sky_tree.SubCenter.Core.Agreement.{
  indexed, planted, Agrees, new_sub_core-Agrees, create_sub-accepted, create_sub-refused,
  create_sub-Agrees, delete_sub-Agrees, delete_topic-Agrees, delete_client-Agrees, dropped-follows,
}
use sky_tree.SubCenter.Core.Requests.{
  Request, subscribe, unsubscribe, remove_topic, remove_client, run, run_all, Options, spec,
  spec_all,
}

create_sub-spec :
    (client : Bytes) (option : SubOption) (other topic : Bytes) (s : SubCore)
    → indexed other topic (create_sub client option s).1
      ≡ spec (subscribe client option) (λ c t. indexed c t s) other topic
create_sub-spec client option other topic s =
    elim (Option-cases (validate_topic_filter option.topic)) [
      | inl e ↦
          rw (create_sub-accepted client option s e, e)
            (lookup-put_topic client option other topic s.clients)
      | inr (x, e) ↦ rw (create_sub-refused client option s x e, e) refl
    ]

-- Where the path is not there, there is no subscription.
node_at-indexed :
    (topic other : Bytes) (s : SubCore)
    → Agrees s
    → node_at (split_topic_levels topic) s.root ≡ none
    → indexed other topic s ≡ none
unfolding sub_at
node_at-indexed topic other s h e = rw (h.0 other topic, e) refl

missing :
    (b : Bool) (gone topic other : Bytes) (s : SubCore)
    → Agrees s
    → node_at (split_topic_levels gone) s.root ≡ none
    → indexed other topic s ≡ (if b && same_bytes gone topic then none else indexed other topic s)
missing b gone topic other s h e = elim (Bool-cases (same_bytes gone topic)) [
  | inl q ↦
      let no : indexed other topic s ≡ none =
        subst (λ x. indexed other x s ≡ none) (same_bytes-eq gone topic q)
          (node_at-indexed gone other s h e) in
      ground arith
  | inr q ↦ ground arith
]

delete_sub-spec :
    (gone client other topic : Bytes) (s : SubCore)
    → Agrees s
    → indexed other topic (delete_sub gone client s)
      ≡ spec (unsubscribe gone client) (λ c t. indexed c t s) other topic
unfolding delete_sub
delete_sub-spec gone client other topic s h =
    elim (Option-cases (node_at (split_topic_levels gone) s.root)) [
      | inl e ↦ rw (e, delete_sub) (missing (same_bytes client other) gone topic other s h e)
      | inr (n, e) ↦ rw (e, delete_sub) (lookup-drop_topic client gone other topic s.clients)
    ]

delete_topic-spec :
    (gone other topic : Bytes) (s : SubCore)
    → Agrees s
    → indexed other topic (delete_topic gone s).1
      ≡ spec (remove_topic gone) (λ c t. indexed c t s) other topic
unfolding delete_topic
delete_topic-spec gone other topic s h =
    elim (Option-cases (node_at (split_topic_levels gone) s.root)) [
      | inl e ↦ rw (e, delete_topic) (missing true gone topic other s h e)
      | inr (n, e) ↦ rw (e, delete_topic) (dropped-follows gone n s e h other topic)
    ]

-- A topic that a deletion of these options deletes.
abbrev listed : Bytes → Topics → Bool
listed topic [] = false
listed topic ((_, option) ∷ more) = same_bytes option.topic topic || listed topic more

delete_subs-indexed :
    (topics : Topics) (client other topic : Bytes) (s : SubCore)
    → Agrees s
    → indexed other topic (delete_subs topics client s)
      ≡ (if same_bytes client other && listed topic topics then none else indexed other topic s)
unfolding delete_subs
delete_subs-indexed [] client other topic s h = ground arith
delete_subs-indexed ((_, option) ∷ more) client other topic s h =
    rw
      (
        delete_subs-indexed more client other topic (delete_sub option.topic client s)
            (delete_sub-Agrees option.topic client s h),
        delete_sub-spec option.topic client other topic s h,
      )
      (ground arith)

find-listed :
    (topic : Bytes) (topics : Topics) (o : SubOption)
    → find topic topics ≡ some o
    → o.topic ≡ topic
    → listed topic topics ≡ true
unfolding find
find-listed topic [] o f e = cc
find-listed topic ((k, option) ∷ more) o f e = elim (Bool-cases (same_bytes k topic)) [
  | inl q ↦
      let eq : option ≡ o = ground arith in
      let own : option.topic ≡ topic = subst (λ x. x.topic ≡ topic) (sym eq) e in
      ground (arith, same_bytes_iff option.topic topic)
  | inr q ↦ ground (arith, find-listed topic more o)
]

-- An option in the index stands under its own topic.
indexed-topic :
    (client topic : Bytes) (o : SubOption) (s : SubCore)
    → Agrees s
    → indexed client topic s ≡ some o
    → o.topic ≡ topic
indexed-topic client topic o s h e =
    split_topic_levels-inj o.topic topic
      (h.1 (split_topic_levels topic) client o (sym (h.0 client topic) ∙ e))

same_gone :
    (b c : Bool) (x : Option SubOption)
    → x ≡ none
    → (if b && c then none else x) ≡ (if b then none else x)
same_gone b c x h = ground arith

no_client :
    (client other topic : Bytes) (s : SubCore)
    → find client s.clients ≡ none
    → indexed other topic s ≡ (if same_bytes client other then none else indexed other topic s)
unfolding lookup find
no_client client other topic s e = elim (Bool-cases (same_bytes client other)) [
  | inl q ↦ rw q (subst (λ x. indexed x topic s ≡ none) (same_bytes-eq client other q) (rw e refl))
  | inr q ↦ rw q refl
]

left_client :
    (client other topic : Bytes) (topics : Topics) (s : SubCore)
    → Agrees s
    → find client s.clients ≡ some topics
    → (if same_bytes client other && listed topic topics then none else indexed other topic s)
      ≡ (if same_bytes client other then none else indexed other topic s)
unfolding lookup
left_client client other topic topics s h e = elim (Bool-cases (same_bytes client other)) [
  | inr q ↦ rw q refl
  | inl q ↦
      let here : indexed other topic s ≡ find topic topics =
        subst (λ x. indexed x topic s ≡ find topic topics) (same_bytes-eq client other q)
          (rw e refl) in
      elim (Option-cases (find topic topics)) [
        | inl f ↦
            same_gone (same_bytes client other) (listed topic topics) (indexed other topic s)
              (here ∙ f)
        | inr (o, f) ↦
            rw (q, find-listed topic topics o f (indexed-topic other topic o s h (here ∙ f))) refl
      ]
]

delete_client-spec :
    (client other topic : Bytes) (s : SubCore)
    → Agrees s
    → indexed other topic (delete_client client s)
      ≡ spec (remove_client client) (λ c t. indexed c t s) other topic
unfolding delete_client
delete_client-spec client other topic s h = elim (Option-cases (find client s.clients)) [
  | inl e ↦ rw (e, delete_client) (no_client client other topic s e)
  | inr (topics, e) ↦
      rw (e, delete_client)
        (delete_subs-indexed topics client other topic s h
          ∙ left_client client other topic topics s h e)
]

run-Agrees : (r : Request) (s : SubCore) → Agrees s → Agrees (run r s)
unfolding run
run-Agrees (subscribe client option) s h = create_sub-Agrees client option s h
run-Agrees (unsubscribe topic client) s h = delete_sub-Agrees topic client s h
run-Agrees (remove_topic topic) s h = delete_topic-Agrees topic s h
run-Agrees (remove_client client) s h = delete_client-Agrees client s h

run_all-Agrees_from : (rs : List Request) (s : SubCore) → Agrees s → Agrees (run_all rs s)
unfolding run_all
run_all-Agrees_from [] s h = h
run_all-Agrees_from (r ∷ rs) s h = run_all-Agrees_from rs (run r s) (run-Agrees r s h)

-- After any requests on a new core, the index has the option of a client for a topic that the tree
-- has at the topic's path, and an option in the tree stands at the path of its own topic.
pub run_all-Agrees :
    (rs : List Request)
    → ((client topic : Bytes)
        → indexed client topic (run_all rs new_sub_core)
          ≡ planted client topic (run_all rs new_sub_core))
      × ((path : List Bytes) (client : Bytes) (o : SubOption)
          → sub_at path client (run_all rs new_sub_core).root ≡ some o
          → split_topic_levels o.topic ≡ path)
run_all-Agrees rs = run_all-Agrees_from rs new_sub_core new_sub_core-Agrees

run-spec :
    (r : Request) (other topic : Bytes) (s : SubCore)
    → Agrees s
    → indexed other topic (run r s) ≡ spec r (λ c t. indexed c t s) other topic
unfolding run
run-spec (subscribe client option) other topic s h = create_sub-spec client option other topic s
run-spec (unsubscribe gone client) other topic s h = delete_sub-spec gone client other topic s h
run-spec (remove_topic gone) other topic s h = delete_topic-spec gone other topic s h
run-spec (remove_client client) other topic s h = delete_client-spec client other topic s h

-- Functions that agree at every place give the same answers after a request.
spec-cong :
    (r : Request) (m k : Options)
    → ((c t : Bytes) → m c t ≡ k c t)
    → (other topic : Bytes) → spec r m other topic ≡ spec r k other topic
spec-cong (subscribe client option) m k h other topic = rw (h other topic) refl
spec-cong (unsubscribe gone client) m k h other topic = rw (h other topic) refl
spec-cong (remove_topic gone) m k h other topic = rw (h other topic) refl
spec-cong (remove_client client) m k h other topic = rw (h other topic) refl

run_all-from :
    (rs : List Request) (s : SubCore) (m : Options)
    → Agrees s
    → ((c t : Bytes) → indexed c t s ≡ m c t)
    → (other topic : Bytes) → indexed other topic (run_all rs s) ≡ spec_all rs m other topic
unfolding run_all
run_all-from [] s m h k other topic = k other topic
run_all-from (r ∷ rs) s m h k other topic =
    run_all-from rs (run r s) (spec r m) (run-Agrees r s h)
      (λ c t. run-spec r c t s h ∙ spec-cong r (λ c t. indexed c t s) m k c t) other topic

-- After any requests on a new core, the index and the tree have the option of a client for a topic
-- that a function from clients and topics to options has, which each request changes at the places
-- it names: an accepted subscription at one place, an end of a subscription at one place, a removal
-- of a topic at its places, a removal of a client at its places.
pub run_all-spec :
    (rs : List Request) (client topic : Bytes)
    → (indexed client topic (run_all rs new_sub_core) ≡ spec_all rs (λ _ _. none) client topic)
      × (planted client topic (run_all rs new_sub_core) ≡ spec_all rs (λ _ _. none) client topic)
unfolding new_sub_core lookup find
run_all-spec rs client topic =
    let answer =
      run_all-from rs new_sub_core (λ _ _. none) new_sub_core-Agrees (λ c t. refl) client topic in
    (answer, sym ((run_all-Agrees rs).0 client topic) ∙ answer)
