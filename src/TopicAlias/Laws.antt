-- ===== src/TopicAlias/Laws.antt =====
-- What the two directions of the topic alias manager promise.
use sky_tree.Common.{
  ℕ, ◌+◌, ◌%◌, ◌≤◌, ◌<◌, ◌≡◌, ◌≢◌, inl, inr, refl, sym, subst, ◌∙◌, ==_refl, true, false, ◌&&◌,
  ◌||◌, Option, none, some, List, [], ◌∷◌, ltb, leb, ◌==◌, ◌!=◌, arith, Bool-cases, Option-cases,
}
use sky_tree.Mqtt5.Properties.{Bytes, PublishProperties}
use sky_tree.Mqtt5.Packet.{Publish}
use sky_tree.Topic.Levels.{is_empty}
use sky_tree.TopicAlias.{
  TopicAliasManager, alias_of, topic_of, without_alias, with_alias, announced, allocate, reuse,
  apply_downlink, resolved, resolve, apply_alias, alias_in, apply_uplink,
}
use sky_tree.TopicAlias.Calls.{Call, run_calls, AllKeep, run_calls-SameTopic}

-- An alias that the packet carries is one that the client accepts.
abbrev InRange : ℕ → Publish → Type 0
InRange max p = (a : ℕ) → alias_in p ≡ some a → (1 ≤ a) × (a ≤ max)

some_equal : (a b : ℕ) → some a ≡ some b → a ≡ b
some_equal a b h = cc

none-InRange : (max : ℕ) (p : Publish) → alias_in p ≡ none → InRange max p
none-InRange max p h a k = cc

alias_in-with_alias : (alias : ℕ) (p : Publish) → alias_in (with_alias alias p) ≡ some alias
unfolding alias_in
alias_in-with_alias alias p = of_properties p.properties
  where
    of_properties :
        (o : Option PublishProperties)
        → alias_in (with_alias alias (record p { properties = o })) ≡ some alias
    of_properties none = refl
    of_properties (some props) = refl

alias_in-without_alias : (p : Publish) → alias_in (without_alias p) ≡ none
unfolding alias_in
alias_in-without_alias p = of_properties p.properties
  where
    of_properties :
        (o : Option PublishProperties)
        → alias_in (without_alias (record p { properties = o })) ≡ none
    of_properties none = refl
    of_properties (some props) = refl

with_alias-InRange :
    (max alias : ℕ) (p : Publish) → 1 ≤ alias → alias ≤ max → InRange max (with_alias alias p)
with_alias-InRange max alias p low high a k =
    let same = some_equal alias a (sym (alias_in-with_alias alias p) ∙ k) in
    (omega (arith, same), omega (arith, same))

allocate-InRange :
    (m : TopicAliasManager) (p : Publish)
    → m.downlink_max < 65536
    → alias_in p ≡ none
    → InRange m.downlink_max (allocate m p).1
unfolding allocate
allocate-InRange m p h k = elim (Bool-cases (leb m.downlink_max m.downlink_next)) [
  | inl e ↦ rw (e) (none-InRange m.downlink_max p k)
  | inr e ↦ rw (e) (
      with_alias-InRange m.downlink_max ((m.downlink_next + 1) % 65536) p (ground arith)
        (ground arith))
]

reuse-InRange :
    (m : TopicAliasManager) (free : List ℕ) (p : Publish)
    → m.downlink_max < 65536
    → alias_in p ≡ none
    → InRange m.downlink_max (reuse m free p).1
unfolding reuse
reuse-InRange m [] p h k = allocate-InRange m p h k
reuse-InRange m (alias ∷ free) p h k = elim (Bool-cases (alias != 0 && leb alias m.downlink_max)) [
  | inl e ↦ rw (e) (with_alias-InRange m.downlink_max alias p (ground arith) (ground arith))
  | inr e ↦ rw (e) (allocate-InRange (record m { downlink_free = free }) p h k)
]

announced-InRange :
    (m : TopicAliasManager) (alias : ℕ) (p : Publish)
    → alias_in p ≡ none
    → InRange m.downlink_max (announced m alias p).1
unfolding announced alias_in
announced-InRange m alias p k = elim (Bool-cases (alias == 0 || ltb m.downlink_max alias)) [
  | inl e ↦ rw (e) (none-InRange m.downlink_max p k)
  | inr e ↦ rw (e) (with_alias-InRange m.downlink_max alias p (ground arith) (ground arith))
]

-- Whatever the state of the manager, a PUBLISH to the client carries no alias or one from 1 to the
-- maximum that the client declared, which is a two byte integer: an alias of the sender never gets
-- through, nor does one from before the maximum became smaller.
pub apply_downlink-InRange :
    (m : TopicAliasManager) (p : Publish)
    → m.downlink_max < 65536
    → (a : ℕ) → alias_in (apply_downlink m p).1 ≡ some a
    → (1 ≤ a) × (a ≤ m.downlink_max)
unfolding apply_downlink
apply_downlink-InRange m p h = elim (Bool-cases (m.downlink_max == 0 || is_empty p.topic)) [
  | inl e ↦ rw (e) (none-InRange m.downlink_max (without_alias p) (alias_in-without_alias p))
  | inr e ↦ elim (Option-cases (alias_of p.topic m.downlink_topic_to_alias)) [
    | inl o ↦
        rw (e, o) (reuse-InRange m m.downlink_free (without_alias p) h (alias_in-without_alias p))
    | inr (alias, o) ↦
        rw (e, o) (announced-InRange m alias (without_alias p) (alias_in-without_alias p))
  ]
]

not_empty : (topic : Bytes) → topic ≢ [] → is_empty topic ≡ false
unfolding is_empty
not_empty [] h = absurd (h refl)
not_empty (c ∷ topic) h = refl

module _ (m : TopicAliasManager) (server_max alias : ℕ) (low : 1 ≤ alias)
    (high : alias ≤ server_max) where
  accepted : (alias == 0 || (server_max == 0 || ltb server_max alias)) ≡ false
  accepted = ground arith

  apply_uplink-topic :
      (p : Publish)
      → alias_in p ≡ some alias
      → p.topic ≢ []
      → apply_uplink m p server_max ≡ (
        record m { uplink_alias_to_topic = (alias, p.topic) ∷ m.uplink_alias_to_topic },
        without_alias p,
        resolved p.topic false,
      )
  unfolding apply_uplink apply_alias
  apply_uplink-topic p e topic =
      rw (apply_uplink, e, apply_alias, accepted, not_empty p.topic topic)

  apply_uplink-alias :
      (q : Publish)
      → alias_in q ≡ some alias
      → q.topic ≡ []
      → topic_of alias m.uplink_alias_to_topic ≢ []
      → apply_uplink m q server_max ≡ (
        m,
        record (without_alias q) { topic = topic_of alias m.uplink_alias_to_topic },
        resolved (topic_of alias m.uplink_alias_to_topic) true,
      )
  unfolding apply_uplink apply_alias resolve is_empty
  apply_uplink-alias q e f known = rw (
    apply_uplink,
    e,
    apply_alias,
    accepted,
    f,
    resolve,
    not_empty (topic_of alias m.uplink_alias_to_topic) known,
  )

topic_of-first :
    (alias : ℕ) (topic : Bytes) (rest : List (ℕ × Bytes))
    → topic_of alias ((alias, topic) ∷ rest) ≡ topic
unfolding topic_of
topic_of-first alias topic rest = rw (==_refl alias)

-- After a PUBLISH from the client with a topic and an alias from 1 to the server's maximum, and
-- any calls of the manager in between, on both directions, none of which is a PUBLISH from the
-- client that gives the alias a topic again, a PUBLISH from the client with that alias and no
-- topic is resolved to the first topic, loses the alias, and leaves the manager as it is.
pub apply_uplink-resolved :
    (m : TopicAliasManager) (p q : Publish) (server_max alias : ℕ) (between : List Call)
    → 1 ≤ alias
    → alias ≤ server_max
    → alias_in p ≡ some alias
    → p.topic ≢ []
    → AllKeep alias between
    → alias_in q ≡ some alias
    → q.topic ≡ []
    → let now = run_calls between (apply_uplink m p server_max).0 in
      apply_uplink now q server_max
      ≡ (now, record (without_alias q) { topic = p.topic }, resolved p.topic true)
apply_uplink-resolved m p q server_max alias between low high e topic keep e' f =
    let first = apply_uplink-topic m server_max alias low high p e topic in
    let start = (apply_uplink m p server_max).0 in
    let now = run_calls between start in
    let stored : topic_of alias start.uplink_alias_to_topic ≡ p.topic =
      rw (first, topic_of-first alias p.topic m.uplink_alias_to_topic) refl in
    let kept : topic_of alias now.uplink_alias_to_topic ≡ p.topic =
      run_calls-SameTopic alias between start keep ∙ stored in
    let known = subst (λ t. t ≢ []) (sym kept) topic in
    apply_uplink-alias now server_max alias low high q e' f known ∙ rw kept refl
