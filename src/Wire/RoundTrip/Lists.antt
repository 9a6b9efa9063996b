-- ===== src/Wire/RoundTrip/Lists.antt =====
-- SUBSCRIBE, UNSUBSCRIBE, SUBACK and UNSUBACK are read back as they were written.
use sky_tree.Common.{
  ℕ, String, zero, suc, ◌/◌, ◌%◌, ◌<◌, ◌≤◌, ◌≡◌, refl, sym, ap, subst, true, false, Option, none,
  some, List, [], ◌∷◌, ◌++◌, ◌==◌, arith, append_assoc, length, length-append,
}
use sky_tree.Mqtt5.PacketTypes
use sky_tree.Mqtt5.PacketTypes.{PacketType}
use sky_tree.Mqtt5.Properties.{Bytes}
use sky_tree.Mqtt5.Packet.{SubOptions, Subscribe, CodeList, Unsubscribe, pack}
use sky_tree.Topic.Levels.{is_empty}
use sky_tree.Wire.Errors.{ok, >>=-eq-ok, reject-eq-ok}
use sky_tree.Wire.Bytes.{read_byte, write_uint16, write_string}
use sky_tree.Wire.Bytes.RoundTrip.{read_string-write_string, write_string-eq-ok}
use sky_tree.Wire.Decode.{
  decode_sub_options, decode_subscriptions, decode_subscribe, decode_code_list, decode_topic,
  decode_topics, decode_unsubscribe, validate_topic_filter,
}
use sky_tree.Wire.Encode.{
  encode_sub_options, encode_subscriptions, encode_subscribe, encode_code_list, encode_topic,
  encode_topics, encode_unsubscribe, validate_sub_options_for_encode,
}
use sky_tree.Wire.FixedHeader.{bit}
use sky_tree.Wire.Properties.{PropertyStruct}
use sky_tree.Wire.Properties.RoundTrip.{
  append_subscribe_properties-Loads, append_reason_properties-Loads,
  append_unsubscribe_properties-Loads,
}
use sky_tree.Wire.Properties.Section.{or_empty}
use sky_tree.Wire.Properties.Structs.{
  subscribe_properties, reason_properties, unsubscribe_properties,
}
use sky_tree.Wire.Reason.{validate_reasons}
use sky_tree.Wire.RoundTrip.Parts.{⨾-eq-ok, AllOf, section, read_packet_id-write_uint16}

-- The options byte, each part at its bits.
pack_bits :
    (qos retain : ℕ) (s : SubOptions)
    → s.qos ≡ qos
    → s.retain_handling ≡ retain
    → qos < 3
    → retain < 3
    → (pack s % 4 ≡ s.qos)
      × (pack s / 16 % 4 ≡ s.retain_handling)
      × ((pack s / 64 % 4 == 0) ≡ true)
      × (bit 2 (pack s) ≡ s.no_local)
      × (bit 3 (pack s) ≡ s.retain_as_published)
unfolding pack
pack_bits zero zero s a b h k = ground arith
pack_bits zero (suc zero) s a b h k = ground arith
pack_bits zero (suc (suc zero)) s a b h k = ground arith
pack_bits (suc zero) zero s a b h k = ground arith
pack_bits (suc zero) (suc zero) s a b h k = ground arith
pack_bits (suc zero) (suc (suc zero)) s a b h k = ground arith
pack_bits (suc (suc zero)) zero s a b h k = ground arith
pack_bits (suc (suc zero)) (suc zero) s a b h k = ground arith
pack_bits (suc (suc zero)) (suc (suc zero)) s a b h k = ground arith
pack_bits (suc (suc (suc n))) retain s a b h k = absurd (omega arith)
pack_bits zero (suc (suc (suc n))) s a b h k = absurd (omega arith)
pack_bits (suc zero) (suc (suc (suc n))) s a b h k = absurd (omega arith)
pack_bits (suc (suc zero)) (suc (suc (suc n))) s a b h k = absurd (omega arith)

options_ranges :
    (s : SubOptions)
    → validate_sub_options_for_encode s ≡ ok tt
    → (s.qos < 3) × (s.retain_handling < 3)
unfolding validate_sub_options_for_encode
options_ranges s h = ground arith

write_string-length :
    (packet : PacketType) (field : String) (value bs : Bytes)
    → write_string packet field value ≡ ok bs
    → 1 ≤ length bs
unfolding write_uint16
write_string-length packet field value bs h =
    let (fits, valid, clean, e) = write_string-eq-ok packet field value bs h in
    omega (arith, ap length e)

decode_sub_options-encode_sub_options :
    (s : SubOptions) (bs rest : Bytes)
    → encode_sub_options s ≡ ok bs
    → (1 ≤ length bs) × (decode_sub_options (bs ++ rest) ≡ ok (s, rest))
unfolding encode_sub_options decode_sub_options read_byte
decode_sub_options-encode_sub_options s bs rest h =
    let packet = PacketTypes.subscribe in
    let (u, filter, h₁) = >>=-eq-ok (validate_topic_filter packet "topic filter" s.topic) _ h in
    let (v, options, h₂) = >>=-eq-ok (validate_sub_options_for_encode s) _ h₁ in
    let (t, et, h₃) = >>=-eq-ok (write_string packet "topic filter" s.topic) _ h₂ in
    let split : bs ≡ t ++ pack s ∷ [] = cc in
    let (q, r) = options_ranges s options in
    let (b₁, b₂, b₃, b₄, b₅) = pack_bits s.qos s.retain_handling s refl refl q r in
    let q3 : (s.qos == 3) ≡ false = ground arith in
    let r3 : (s.retain_handling == 3) ≡ false = ground arith in
    (
      omega (
        arith,
        ap length split,
        length-append t (pack s ∷ []),
        write_string-length packet "topic filter" s.topic t et,
      ),
      rw (
        split,
        append_assoc,
        read_string-write_string packet "topic filter" (pack s ∷ rest) "topic filter" s.topic t et,
        b₁,
        b₂,
        b₃,
        b₄,
        b₅,
        q3,
        r3,
        filter,
      ),
    )

-- A round of the loop over the subscriptions.
subscriptions_round :
    (rounds : ℕ) (bs rest : Bytes) (s : SubOptions) (subs : List SubOptions)
    → 1 ≤ length bs
    → length (bs ++ rest) ≤ rounds
    → decode_sub_options (bs ++ rest) ≡ ok (s, rest)
    → ((rounds' : ℕ) → length rest ≤ rounds' → decode_subscriptions rounds' rest ≡ ok subs)
    → decode_subscriptions rounds (bs ++ rest) ≡ ok (s ∷ subs)
unfolding decode_subscriptions
subscriptions_round rounds [] rest s subs some_byte fits e next = absurd (omega arith)
subscriptions_round zero (b ∷ bs) rest s subs some_byte fits e next = absurd (omega arith)
subscriptions_round (suc rounds) (b ∷ bs) rest s subs some_byte fits e next =
    rw (e, next rounds (omega (arith, length-append bs rest)))

decode_subscriptions-encode_subscriptions :
    (subs : List SubOptions) (bs : Bytes) (rounds : ℕ)
    → length bs ≤ rounds
    → encode_subscriptions subs ≡ ok bs
    → decode_subscriptions rounds bs ≡ ok subs
unfolding encode_subscriptions decode_subscriptions
decode_subscriptions-encode_subscriptions [] bs rounds fits h =
    let nil : [] ≡ bs = cc in subst (λ xs. decode_subscriptions rounds xs ≡ ok []) nil refl
decode_subscriptions-encode_subscriptions (s ∷ subs) bs rounds fits h =
    let (x, y, ex, ey, split) = ⨾-eq-ok (encode_sub_options s) (encode_subscriptions subs) bs h in
    let (some_byte, read) = decode_sub_options-encode_sub_options s x y ex in
    subst (λ xs. decode_subscriptions rounds xs ≡ ok (s ∷ subs)) (sym split)
      (subscriptions_round rounds x y s subs some_byte (subst (λ xs. length xs ≤ rounds) split fits)
        read (λ rounds' h'. decode_subscriptions-encode_subscriptions subs y rounds' h' ey))

no_ranges :
    {S : Type 0} ⦃struct : PropertyStruct S⦄ (props : Option S) → AllOf (λ (_ : S). Unit {0}) props
no_ranges none = tt
no_ranges (some p) = tt

abbrev pub received_subscribe : Subscribe → Subscribe
received_subscribe p = record p { properties = some (or_empty p.properties) }

-- A SUBSCRIBE that the encoder accepts is read back from its body, its subscriptions in order.
pub decode_subscribe-encode_subscribe :
    (p : Subscribe) (bs : Bytes)
    → p.packet_id < 65536
    → encode_subscribe p ≡ ok bs
    → decode_subscribe bs ≡ ok (received_subscribe p, [])
unfolding encode_subscribe decode_subscribe
decode_subscribe-encode_subscribe p bs fits h =
    let packet = PacketTypes.subscribe in
    let (id, h₁) = reject-eq-ok (p.packet_id == 0) _ _ h in
    let (some_sub, h₂) = reject-eq-ok (is_empty p.subscriptions) _ _ h₁ in
    let (i, c₁, ei, e₁, s₁) = ⨾-eq-ok _ _ bs h₂ in
    let (q, c₂, eq, e₂, s₂) = ⨾-eq-ok _ _ c₁ e₁ in
    let ei' : i ≡ write_uint16 p.packet_id = cc in
    rw (
      s₁,
      ei',
      read_packet_id-write_uint16 packet p.packet_id c₁ fits id,
      s₂,
      section packet (λ _. Unit) (λ r _. append_subscribe_properties-Loads packet r) p.properties q
          c₂ (no_ranges p.properties) eq,
      decode_subscriptions-encode_subscriptions p.subscriptions c₂ (length c₂) (omega arith) e₂,
      some_sub,
    )

decode_topic-encode_topic :
    (topic bs rest : Bytes)
    → encode_topic topic ≡ ok bs
    → (1 ≤ length bs) × (decode_topic (bs ++ rest) ≡ ok (topic, rest))
unfolding encode_topic decode_topic
decode_topic-encode_topic topic bs rest h =
    let packet = PacketTypes.unsubscribe in
    let (u, filter, h₁) = >>=-eq-ok (validate_topic_filter packet "topic filter" topic) _ h in
    (
      write_string-length packet "topic filter" topic bs h₁,
      rw (read_string-write_string packet "topic filter" rest "topic filter" topic bs h₁, filter),
    )

topics_round :
    (rounds : ℕ) (bs rest topic : Bytes) (topics : List Bytes)
    → 1 ≤ length bs
    → length (bs ++ rest) ≤ rounds
    → decode_topic (bs ++ rest) ≡ ok (topic, rest)
    → ((rounds' : ℕ) → length rest ≤ rounds' → decode_topics rounds' rest ≡ ok topics)
    → decode_topics rounds (bs ++ rest) ≡ ok (topic ∷ topics)
unfolding decode_topics
topics_round rounds [] rest topic topics some_byte fits e next = absurd (omega arith)
topics_round zero (b ∷ bs) rest topic topics some_byte fits e next = absurd (omega arith)
topics_round (suc rounds) (b ∷ bs) rest topic topics some_byte fits e next =
    rw (e, next rounds (omega (arith, length-append bs rest)))

decode_topics-encode_topics :
    (topics : List Bytes) (bs : Bytes) (rounds : ℕ)
    → length bs ≤ rounds
    → encode_topics topics ≡ ok bs
    → decode_topics rounds bs ≡ ok topics
unfolding encode_topics decode_topics
decode_topics-encode_topics [] bs rounds fits h =
    let nil : [] ≡ bs = cc in subst (λ xs. decode_topics rounds xs ≡ ok []) nil refl
decode_topics-encode_topics (topic ∷ topics) bs rounds fits h =
    let (x, y, ex, ey, split) = ⨾-eq-ok (encode_topic topic) (encode_topics topics) bs h in
    let (some_byte, read) = decode_topic-encode_topic topic x y ex in
    subst (λ xs. decode_topics rounds xs ≡ ok (topic ∷ topics)) (sym split)
      (topics_round rounds x y topic topics some_byte (subst (λ xs. length xs ≤ rounds) split fits)
        read (λ rounds' h'. decode_topics-encode_topics topics y rounds' h' ey))

abbrev pub received_unsubscribe : Unsubscribe → Unsubscribe
received_unsubscribe p = record p { properties = some (or_empty p.properties) }

-- An UNSUBSCRIBE that the encoder accepts is read back from its body, its topics in order.
pub decode_unsubscribe-encode_unsubscribe :
    (p : Unsubscribe) (bs : Bytes)
    → p.packet_id < 65536
    → encode_unsubscribe p ≡ ok bs
    → decode_unsubscribe bs ≡ ok (received_unsubscribe p, [])
unfolding encode_unsubscribe decode_unsubscribe
decode_unsubscribe-encode_unsubscribe p bs fits h =
    let packet = PacketTypes.unsubscribe in
    let (id, h₁) = reject-eq-ok (p.packet_id == 0) _ _ h in
    let (some_topic, h₂) = reject-eq-ok (is_empty p.topics) _ _ h₁ in
    let (i, c₁, ei, e₁, s₁) = ⨾-eq-ok _ _ bs h₂ in
    let (q, c₂, eq, e₂, s₂) = ⨾-eq-ok _ _ c₁ e₁ in
    let ei' : i ≡ write_uint16 p.packet_id = cc in
    rw (
      s₁,
      ei',
      read_packet_id-write_uint16 packet p.packet_id c₁ fits id,
      s₂,
      section packet (λ _. Unit) (λ r _. append_unsubscribe_properties-Loads packet r) p.properties
          q c₂ (no_ranges p.properties) eq,
      decode_topics-encode_topics p.topics c₂ (length c₂) (omega arith) e₂,
      some_topic,
    )

abbrev pub received_codes : CodeList → CodeList
received_codes p = record p { properties = some (or_empty p.properties) }

-- A SUBACK or UNSUBACK that the encoder accepts is read back from its body.
pub decode_code_list-encode_code_list :
    (packet : PacketType) (p : CodeList) (bs : Bytes)
    → p.packet_id < 65536
    → encode_code_list packet p ≡ ok bs
    → decode_code_list packet bs ≡ ok (received_codes p, [])
unfolding encode_code_list decode_code_list
decode_code_list-encode_code_list packet p bs fits h =
    let (id, h₁) = reject-eq-ok (p.packet_id == 0) _ _ h in
    let (some_code, h₂) = reject-eq-ok (is_empty p.reasons) _ _ h₁ in
    let (u, valid, h₃) = >>=-eq-ok (validate_reasons packet p.reasons) _ h₂ in
    let (i, c₁, ei, e₁, s₁) = ⨾-eq-ok _ _ bs h₃ in
    let (q, c₂, eq, e₂, s₂) = ⨾-eq-ok _ _ c₁ e₁ in
    let ei' : i ≡ write_uint16 p.packet_id = cc in
    let e₂' : c₂ ≡ p.reasons = cc in
    rw (
      s₁,
      ei',
      read_packet_id-write_uint16 packet p.packet_id c₁ fits id,
      s₂,
      e₂',
      section packet (λ _. Unit) (λ r _. append_reason_properties-Loads packet r) p.properties q
          p.reasons (no_ranges p.properties) eq,
      some_code,
      valid,
    )
