-- ===== src/Wire/Accepts/Packets.antt =====
-- What a packet is like that one of the decoders of pkg/mqtt5/wire/codec.go returns.
use sky_tree.Common.{
  ℕ, zero, suc, ◌/◌, ◌%◌, ◌<◌, ◌≤◌, ◌≡◌, ◌≢◌, inl, inr, refl, sym, subst, String, Bool, true, false,
  Option, none, some, List, [], ◌∷◌, ◌==◌, ◌!=◌, arith, if◌then◌else◌, length, Option-cases,
}
use sky_tree.Mqtt5.PacketTypes
use sky_tree.Mqtt5.PacketTypes.{PacketType}
use sky_tree.Mqtt5.Properties.{Bytes, PublishProperties, SubscribeProperties}
use sky_tree.Mqtt5.Packet.{Publish, SubOptions, Subscribe}
use sky_tree.Topic.{validate_topic_filter_syntax}
use sky_tree.Topic.Levels.{is_empty, contains_wildcard, contains_byte}
use sky_tree.Wire.Errors.{Error, Result, ok, reject, >>=-eq-ok, reject-eq-ok, ok_pair, ok_injective}
use sky_tree.Wire.Bytes.{read_byte, read_uint16, read_string}
use sky_tree.Wire.FixedHeader.{bit}
use sky_tree.Wire.Properties.{decode_properties, validate_topic_name}
use sky_tree.Wire.Properties.Structs.{publish_properties, subscribe_properties, connack_properties}
use sky_tree.Wire.Decode.{
  validate_topic_filter, read_packet_id, decode_publish, decode_publish_id, validate_publish_topic,
  decode_sub_options, decode_subscriptions, decode_subscribe,
}
use sky_tree.Wire.Accepts.Layout.{IsLayout, publish-IsLayout}

reject-ok : (t : Bool) (e : Error) (u : Unit {0}) → reject t e ≡ ok u → t ≡ false
reject-ok true e u h = cc
reject-ok false e u h = refl

qos_range : (flags : ℕ) → (flags / 2 % 4 == 3) ≡ false → flags / 2 % 4 ≤ 2
qos_range flags h = ground arith

read_packet_id-positive :
    (packet : PacketType) (bs : Bytes) (id : ℕ) (rest : Bytes)
    → read_packet_id packet bs ≡ ok (id, rest)
    → id ≢ 0
unfolding read_packet_id
read_packet_id-positive packet bs id rest h =
    let ((n, b₁), e, h₁) = >>=-eq-ok (read_uint16 packet "packet identifier" bs) _ h in
    let (t, h₂) = reject-eq-ok (n == 0) _ _ h₁ in
    let (same, _) = ok_pair n id b₁ rest h₂ in ground arith

decode_publish_id-cases :
    (qos : ℕ) (bs : Bytes) (id : ℕ) (rest : Bytes)
    → decode_publish_id qos bs ≡ ok (id, rest)
    → ((qos ≡ 0) → id ≡ 0) × ((qos ≢ 0) → id ≢ 0)
unfolding decode_publish_id
decode_publish_id-cases zero bs id rest h =
    let (same, _) = ok_pair 0 id bs rest h in (λ _. omega arith, λ k. absurd (k refl))
decode_publish_id-cases (suc n) bs id rest h =
    let test : (suc n == 0) ≡ false = ground arith in
    let read =
      subst
        (λ t.
          if◌then◌else◌ {A = Result (ℕ × Bytes)} t (ok (0, bs))
            (read_packet_id PacketTypes.publish bs)
          ≡ ok (id, rest))
        test h in
    (λ k. absurd (omega arith), λ _. read_packet_id-positive PacketTypes.publish bs id rest read)

-- The topic of a PUBLISH: it has no wildcards, and is missing only if an alias stands for it.
abbrev HasTopic : Bytes → Option ℕ → Type 0
HasTopic topic alias =
    (contains_wildcard topic ≡ false) × ((topic ≡ []) → (n : ℕ) × (alias ≡ some n))

validate_publish_topic-HasTopic :
    (topic : Bytes) (alias : Option ℕ) (u : Unit {0})
    → validate_publish_topic topic alias ≡ ok u
    → HasTopic topic alias
unfolding validate_publish_topic validate_topic_name is_empty contains_wildcard contains_byte
validate_publish_topic-HasTopic [] none u h = cc
validate_publish_topic-HasTopic [] (some n) u h = (refl, λ _. (n, refl))
validate_publish_topic-HasTopic (c ∷ topic) alias u h =
    ((reject-ok (contains_wildcard (c ∷ topic)) _ u h), λ k. cc)

abbrev pub IsAccepted : ℕ → Publish → Type 0
IsAccepted flags p =
    (p.qos ≡ flags / 2 % 4)
    × (p.qos ≤ 2)
    × ((p.qos ≡ 0) → p.packet_id ≡ 0)
    × ((p.qos ≢ 0) → p.packet_id ≢ 0)
    × (contains_wildcard p.topic ≡ false)
    × ((p.topic ≡ [])
        → (props : PublishProperties) × (n : ℕ) × (p.properties ≡ some props)
          × (props.topic_alias ≡ some n))

-- A PUBLISH that is accepted has the QoS of the flags, which is not 3, and their flags for a
-- duplicate and for retain; it has a packet identifier if and only if the QoS is not 0; its topic
-- has no wildcards, and where the topic is empty a topic alias stands for it. The body is its
-- fields in their order, of which the payload is the last and takes what is left: the topic behind
-- its length in two bytes, two bytes of packet identifier where the QoS is not 0, and a section of
-- the length in front of it, which is decoded to the properties. Nothing is left behind them.
pub decode_publish-IsAccepted :
    (flags : ℕ) (bs : Bytes) (p : Publish) (rest : Bytes)
    → decode_publish flags bs ≡ ok (p, rest)
    → IsAccepted flags p
      × (rest ≡ [])
      × (p.duplicate ≡ bit 3 flags)
      × (p.retain ≡ bit 0 flags)
      × IsLayout bs p
unfolding decode_publish
decode_publish-IsAccepted flags bs p rest h =
    let (reserved, h₁) = reject-eq-ok (flags / 2 % 4 == 3) _ _ h in
    let ((topic, b₁), e₁, h₂) = >>=-eq-ok (read_string PacketTypes.publish "topic name" bs) _ h₁ in
    let ((id, b₂), e₂, h₃) = >>=-eq-ok (decode_publish_id (flags / 2 % 4) b₁) _ h₂ in
    let ((props, payload), e₃, h₄) =
      >>=-eq-ok (decode_properties {S = PublishProperties} PacketTypes.publish b₂) _ h₃ in
    let (u, e₄, h₅) = >>=-eq-ok (validate_publish_topic topic props.topic_alias) _ h₄ in
    let read : Publish = record {
      payload = payload;
      topic = topic;
      properties = some props;
      packet_id = id;
      qos = flags / 2 % 4;
      duplicate = bit 3 flags;
      retain = bit 0 flags;
    } in
    let (same, none_left) = ok_pair read p [] rest h₅ in
    let (zero_id, some_id) = decode_publish_id-cases (flags / 2 % 4) b₁ id b₂ e₂ in
    let (plain, aliased) = validate_publish_topic-HasTopic topic props.topic_alias u e₄ in
    (
      subst (λ q. IsAccepted flags q) same
          (
            refl,
            qos_range flags reserved,
            zero_id,
            some_id,
            plain,
            λ empty. let (n, alias) = aliased empty in (props, n, refl, alias),
          ),
      sym none_left,
      subst (λ (q : Publish). q.duplicate ≡ bit 3 flags) same refl,
      subst (λ (q : Publish). q.retain ≡ bit 0 flags) same refl,
      subst (λ q. IsLayout bs q) same (publish-IsLayout bs b₁ b₂ read props e₁ e₂ e₃ refl),
    )

-- One topic filter of a SUBSCRIBE.
abbrev pub IsSubscription : SubOptions → Type 0
IsSubscription sub =
    (sub.qos ≤ 2) × (sub.retain_handling ≤ 2) × (validate_topic_filter_syntax sub.topic ≡ none)

validate_topic_filter-none :
    (packet : PacketType) (field : String) (topic : Bytes) (u : Unit {0})
    → validate_topic_filter packet field topic ≡ ok u
    → validate_topic_filter_syntax topic ≡ none
unfolding validate_topic_filter
validate_topic_filter-none packet field topic u h =
    elim (Option-cases (validate_topic_filter_syntax topic)) [
      | inl e ↦ e
      | inr (x, e) ↦ absurd (ground arith)
    ]

below_three : (n : ℕ) → n < 4 → (n == 3) ≡ false → n ≤ 2
below_three n k h = ground arith

decode_sub_options-IsSubscription :
    (bs : Bytes) (sub : SubOptions) (rest : Bytes)
    → decode_sub_options bs ≡ ok (sub, rest)
    → IsSubscription sub
unfolding decode_sub_options
decode_sub_options-IsSubscription bs sub rest h =
    let packet = PacketTypes.subscribe in
    let ((topic, b₁), e₁, h₁) = >>=-eq-ok (read_string packet "topic filter" bs) _ h in
    let ((opts, b₂), e₂, h₂) = >>=-eq-ok (read_byte packet "subscription options" b₁) _ h₁ in
    let (qos, h₃) = reject-eq-ok (opts % 4 == 3) _ _ h₂ in
    let (handling, h₄) = reject-eq-ok (opts / 16 % 4 == 3) _ _ h₃ in
    let (reserved, h₅) = reject-eq-ok (opts / 64 % 4 != 0) _ _ h₄ in
    let (u, e₃, h₆) = >>=-eq-ok (validate_topic_filter packet "topic filter" topic) _ h₅ in
    let (same, _) = ok_pair _ sub b₂ rest h₆ in
    subst (λ s. IsSubscription s) same
      (
        below_three (opts % 4) (omega arith) qos,
        below_three (opts / 16 % 4) (omega arith) handling,
        validate_topic_filter-none packet "topic filter" topic u e₃,
      )

not_empty : (subs : List SubOptions) → is_empty subs ≡ false → subs ≢ []
unfolding is_empty
not_empty [] h = cc
not_empty (sub ∷ subs) h = λ k. cc

abbrev pub AllSubscriptions : List SubOptions → Type 0
AllSubscriptions [] = Unit
AllSubscriptions (sub ∷ subs) = IsSubscription sub × AllSubscriptions subs

decode_subscriptions-All :
    (rounds : ℕ) (bs : Bytes) (subs : List SubOptions)
    → decode_subscriptions rounds bs ≡ ok subs
    → AllSubscriptions subs
unfolding decode_subscriptions
decode_subscriptions-All zero [] subs h =
    subst (λ s. AllSubscriptions s) (ok_injective [] subs h) tt
decode_subscriptions-All (suc rounds) [] subs h =
    subst (λ s. AllSubscriptions s) (ok_injective [] subs h) tt
decode_subscriptions-All zero (b ∷ bs) subs h = cc
decode_subscriptions-All (suc rounds) (b ∷ bs) subs h =
    let ((sub, rest), e₁, h₁) = >>=-eq-ok (decode_sub_options (b ∷ bs)) _ h in
    let (others, e₂, h₂) = >>=-eq-ok (decode_subscriptions rounds rest) _ h₁ in
    subst (λ s. AllSubscriptions s) (ok_injective (sub ∷ others) subs h₂)
      (
        decode_sub_options-IsSubscription (b ∷ bs) sub rest e₁,
        decode_subscriptions-All rounds rest others e₂,
      )

-- A SUBSCRIBE that is accepted has a packet identifier and one topic filter at least; each filter
-- has the syntax of MQTT, and no option of it has a reserved value.
pub decode_subscribe-AllSubscriptions :
    (bs : Bytes) (p : Subscribe) (rest : Bytes)
    → decode_subscribe bs ≡ ok (p, rest)
    → (p.packet_id ≢ 0) × (p.subscriptions ≢ []) × AllSubscriptions p.subscriptions
unfolding decode_subscribe is_empty
decode_subscribe-AllSubscriptions bs p rest h =
    let packet = PacketTypes.subscribe in
    let ((id, b₁), e₁, h₁) = >>=-eq-ok (read_packet_id packet bs) _ h in
    let ((props, b₂), e₂, h₂) =
      >>=-eq-ok (decode_properties {S = SubscribeProperties} packet b₁) _ h₁ in
    let (subs, e₃, h₃) = >>=-eq-ok (decode_subscriptions (length b₂) b₂) _ h₂ in
    let (some_sub, h₄) = reject-eq-ok (is_empty subs) _ _ h₃ in
    let (same, _) = ok_pair _ p [] rest h₄ in
    subst
      (λ (q : Subscribe).
        (q.packet_id ≢ 0) × (q.subscriptions ≢ []) × AllSubscriptions q.subscriptions)
      same
      (
        read_packet_id-positive packet bs id b₁ e₁,
        not_empty subs some_sub,
        decode_subscriptions-All (length b₂) b₂ subs e₃,
      )
