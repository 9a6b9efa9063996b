-- ===== src/TopicAlias/Calls.antt =====
-- Calls of the topic alias manager in any order, and what they leave of an alias of the client.
use sky_tree.Common.{
  ℕ, ◌≡◌, ◌≢◌, inl, inr, refl, ap, ◌∙◌, false, ◌&&◌, ◌||◌, some, List, [], ◌∷◌, ltb, leb, ◌==◌,
  ◌!=◌, arith, Bool-cases, Option-cases,
}
use sky_tree.Mqtt5.Properties.{Bytes}
use sky_tree.Mqtt5.Packet.{Publish}
use sky_tree.Topic.Levels.{is_empty}
use sky_tree.TopicAlias.{
  TopicAliasManager, alias_of, topic_of, without_alias, announced, allocate, reuse, apply_downlink,
  resolve, apply_alias, alias_in, apply_uplink, set_downlink_max, reset_downlink,
  revert_downlink_alias,
}

not_nil : (topic : Bytes) → is_empty topic ≡ false → topic ≢ []
unfolding is_empty
not_nil [] h = cc
not_nil (c ∷ topic) h = λ k. cc

-- A call of the manager.
pub data Call : Type 0 where
  uplink : Publish → ℕ → Call
  downlink : Publish → Call
  set_max : ℕ → Call
  reset : Call
  revert : Bytes → Call

unfoldable pub call : Call → TopicAliasManager → TopicAliasManager
call (uplink p server_max) m = (apply_uplink m p server_max).0
call (downlink p) m = (apply_downlink m p).0
call (set_max max) m = set_downlink_max max m
call reset m = reset_downlink m
call (revert topic) m = revert_downlink_alias topic m

-- The manager after the calls, in their order.
unfoldable pub run_calls : List Call → TopicAliasManager → TopicAliasManager
run_calls [] m = m
run_calls (c ∷ more) m = run_calls more (call c m)

-- The call is no PUBLISH from the client that gives the alias a topic.
abbrev pub Keeps : ℕ → Call → Type 0
Keeps alias (uplink p server_max) = alias_in p ≡ some alias → p.topic ≡ []
Keeps alias _ = Unit

abbrev pub AllKeep : ℕ → List Call → Type 0
AllKeep alias [] = Unit
AllKeep alias (c ∷ more) = Keeps alias c × AllKeep alias more

abbrev pub SameTopic : ℕ → TopicAliasManager → TopicAliasManager → Type 0
SameTopic alias m k =
    topic_of alias k.uplink_alias_to_topic ≡ topic_of alias m.uplink_alias_to_topic

resolve-manager : (m : TopicAliasManager) (p : Publish) (topic : Bytes) → (resolve m p topic).0 ≡ m
unfolding resolve
resolve-manager m p topic = elim (Bool-cases (is_empty topic)) [
  | inl e ↦ rw e refl
  | inr e ↦ rw e refl
]

topic_of-other :
    (a alias : ℕ) (topic : Bytes) (rest : List (ℕ × Bytes))
    → a ≢ alias
    → topic_of alias ((a, topic) ∷ rest) ≡ topic_of alias rest
unfolding topic_of
topic_of-other a alias topic rest h = ground arith

apply_alias-SameTopic :
    (m : TopicAliasManager) (p : Publish) (server_max a alias : ℕ)
    → (a ≡ alias → p.topic ≡ [])
    → SameTopic alias m (apply_alias m p server_max a).0
unfolding apply_alias
apply_alias-SameTopic m p server_max a alias h =
    elim (Bool-cases (a == 0 || (server_max == 0 || ltb server_max a))) [
      | inl e ↦ rw e refl
      | inr e ↦ elim (Bool-cases (is_empty p.topic)) [
        | inl f ↦ rw (e, f, resolve-manager) refl
        | inr f ↦
            rw (e, f)
              (topic_of-other a alias p.topic m.uplink_alias_to_topic
                λ same. not_nil p.topic f (h same))
      ]
    ]

apply_uplink-SameTopic :
    (m : TopicAliasManager) (p : Publish) (server_max alias : ℕ)
    → (alias_in p ≡ some alias → p.topic ≡ [])
    → SameTopic alias m (apply_uplink m p server_max).0
unfolding apply_uplink
apply_uplink-SameTopic m p server_max alias h = elim (Option-cases (alias_in p)) [
  | inl e ↦ rw (apply_uplink, e) refl
  | inr (a, e) ↦
      rw (apply_uplink, e)
        (apply_alias-SameTopic m p server_max a alias λ same. h (e ∙ ap (λ (x : ℕ). some x) same))
]

-- The downlink has maps of its own.
allocate-uplink :
    (m : TopicAliasManager) (p : Publish)
    → (allocate m p).0.uplink_alias_to_topic ≡ m.uplink_alias_to_topic
unfolding allocate
allocate-uplink m p = elim (Bool-cases (leb m.downlink_max m.downlink_next)) [
  | inl e ↦ rw e refl
  | inr e ↦ rw e refl
]

reuse-uplink :
    (m : TopicAliasManager) (free : List ℕ) (p : Publish)
    → (reuse m free p).0.uplink_alias_to_topic ≡ m.uplink_alias_to_topic
unfolding reuse
reuse-uplink m [] p = allocate-uplink m p
reuse-uplink m (alias ∷ free) p = elim (Bool-cases (alias != 0 && leb alias m.downlink_max)) [
  | inl e ↦ rw e refl
  | inr e ↦ rw e (allocate-uplink (record m { downlink_free = free }) p)
]

announced-uplink :
    (m : TopicAliasManager) (alias : ℕ) (p : Publish)
    → (announced m alias p).0.uplink_alias_to_topic ≡ m.uplink_alias_to_topic
unfolding announced
announced-uplink m alias p = elim (Bool-cases (alias == 0 || ltb m.downlink_max alias)) [
  | inl e ↦ rw e refl
  | inr e ↦ rw e refl
]

apply_downlink-uplink :
    (m : TopicAliasManager) (p : Publish)
    → (apply_downlink m p).0.uplink_alias_to_topic ≡ m.uplink_alias_to_topic
unfolding apply_downlink
apply_downlink-uplink m p = elim (Bool-cases (m.downlink_max == 0 || is_empty p.topic)) [
  | inl e ↦ rw e refl
  | inr e ↦ elim (Option-cases (alias_of p.topic m.downlink_topic_to_alias)) [
    | inl o ↦ rw (e, o) (reuse-uplink m m.downlink_free (without_alias p))
    | inr (alias, o) ↦ rw (e, o) (announced-uplink m alias (without_alias p))
  ]
]

revert_downlink_alias-uplink :
    (topic : Bytes) (m : TopicAliasManager)
    → (revert_downlink_alias topic m).uplink_alias_to_topic ≡ m.uplink_alias_to_topic
unfolding revert_downlink_alias
revert_downlink_alias-uplink topic m = elim (Bool-cases (is_empty topic)) [
  | inl e ↦ rw e refl
  | inr e ↦ elim (Option-cases (alias_of topic m.downlink_topic_to_alias)) [
    | inl o ↦ rw (e, o) refl
    | inr (alias, o) ↦ rw (e, o) refl
  ]
]

same_map :
    (alias : ℕ) (m k : TopicAliasManager)
    → k.uplink_alias_to_topic ≡ m.uplink_alias_to_topic
    → SameTopic alias m k
same_map alias m k e = ap (λ (entries : List (ℕ × Bytes)). topic_of alias entries) e

call-SameTopic :
    (alias : ℕ) (c : Call) (m : TopicAliasManager) → Keeps alias c → SameTopic alias m (call c m)
unfolding call set_downlink_max reset_downlink
call-SameTopic alias (uplink p server_max) m h = apply_uplink-SameTopic m p server_max alias h
call-SameTopic alias (downlink p) m h =
    same_map alias m (apply_downlink m p).0 (apply_downlink-uplink m p)
call-SameTopic alias (set_max max) m h = refl
call-SameTopic alias reset m h = refl
call-SameTopic alias (revert topic) m h =
    same_map alias m (revert_downlink_alias topic m) (revert_downlink_alias-uplink topic m)

pub run_calls-SameTopic :
    (alias : ℕ) (calls : List Call) (m : TopicAliasManager)
    → AllKeep alias calls
    → SameTopic alias m (run_calls calls m)
unfolding run_calls
run_calls-SameTopic alias [] m h = refl
run_calls-SameTopic alias (c ∷ more) m h =
    run_calls-SameTopic alias more (call c m) h.1 ∙ call-SameTopic alias c m h.0
