-- ===== src/Wire/RoundTrip/Publish.antt =====
-- PUBLISH is read back as it was written.
use sky_tree.Common.{
  ℕ, zero, suc, ◌/◌, ◌%◌, ◌<◌, ◌≡◌, inl, refl, false, not, ◌&&◌, some, [], ◌++◌, ◌==◌, arith,
  if◌then◌else◌,
}
use sky_tree.Mqtt5.PacketTypes
use sky_tree.Mqtt5.Properties.{Bytes}
use sky_tree.Mqtt5.Packet.{Publish}
use sky_tree.Topic.Levels.{is_empty}
use sky_tree.Wire.Errors.{ok, malformed, reject, >>=-eq-ok, reject-eq-ok}
use sky_tree.Wire.Bytes.{write_uint16}
use sky_tree.Wire.Bytes.RoundTrip.{read_string-write_string}
use sky_tree.Wire.Decode.{decode_publish, decode_publish_id, validate_publish_topic}
use sky_tree.Wire.Encode.{encode_publish, has_alias}
use sky_tree.Wire.FixedHeader.{bit, publish_flags}
use sky_tree.Wire.Properties.{validate_topic_name}
use sky_tree.Wire.Properties.RoundTrip.{PublishFits, append_publish_properties-Loads}
use sky_tree.Wire.Properties.Section.{or_empty}
use sky_tree.Wire.Properties.Structs.{publish_properties}
use sky_tree.Wire.RoundTrip.Parts.{⨾-eq-ok, AllOf, section, read_packet_id-write_uint16}

-- The ranges of the Go types, and a QoS that MQTT has.
pub record IsPublish (p : Publish) : Type 0 where
  pub qos : p.qos < 3
  pub packet_id : p.packet_id < 65536
  pub properties : AllOf PublishFits p.properties

-- The packet as it is read: properties that are not there are empty ones.
abbrev pub received : Publish → Publish
received p = record p { properties = some (or_empty p.properties) }

flag_bits :
    (qos : ℕ) (p : Publish)
    → p.qos ≡ qos
    → qos < 3
    → (publish_flags p / 2 % 4 ≡ p.qos)
      × (bit 3 (publish_flags p) ≡ p.duplicate)
      × (bit 0 (publish_flags p) ≡ p.retain)
unfolding publish_flags
flag_bits zero p e h = ground arith
flag_bits (suc zero) p e h = ground arith
flag_bits (suc (suc zero)) p e h = ground arith
flag_bits (suc (suc (suc n))) p e h = absurd (omega arith)

decode_publish_id-id :
    (p : Publish) (rest : Bytes)
    → p.packet_id < 65536
    → (p.qos == 0 && not (p.packet_id == 0)) ≡ false
    → (not (p.qos == 0) && p.packet_id == 0) ≡ false
    → decode_publish_id p.qos ((if p.qos == 0 then [] else write_uint16 p.packet_id) ++ rest)
      ≡ ok (p.packet_id, rest)
unfolding decode_publish_id
decode_publish_id-id p rest fits a b =
    ground (arith, read_packet_id-write_uint16 PacketTypes.publish p.packet_id rest fits)

validate_publish_topic-encoded :
    (p : Publish)
    → (if is_empty p.topic
        then reject (not (has_alias p.properties)) (
            malformed PacketTypes.publish "topic name"
              "topic name is required unless topic alias is present")
        else validate_topic_name PacketTypes.publish "topic name" p.topic)
      ≡ ok tt
    → validate_publish_topic p.topic (or_empty p.properties).topic_alias ≡ ok tt
unfolding validate_publish_topic
validate_publish_topic-encoded p h = ground arith

-- A PUBLISH that the encoder accepts is read back from its flags and its body.
pub decode_publish-encode_publish :
    (p : Publish) (bs : Bytes)
    → IsPublish p
    → encode_publish p ≡ ok bs
    → decode_publish (publish_flags p) bs ≡ ok (received p, [])
unfolding encode_publish decode_publish
decode_publish-encode_publish p bs fits h =
    let (q3, h₁) = reject-eq-ok (p.qos == 3) _ _ h in
    let (q0, h₂) = reject-eq-ok (p.qos == 0 && not (p.packet_id == 0)) _ _ h₁ in
    let (q1, h₃) = reject-eq-ok (not (p.qos == 0) && p.packet_id == 0) _ _ h₂ in
    let (u, named, h₄) = >>=-eq-ok _ _ h₃ in
    let (t, c₁, et, e₁, s₁) = ⨾-eq-ok _ _ bs h₄ in
    let (i, c₂, ei, e₂, s₂) = ⨾-eq-ok _ _ c₁ e₁ in
    let (q, c₃, eq, e₃, s₃) = ⨾-eq-ok _ _ c₂ e₂ in
    let (b₁, b₂, b₃) = flag_bits p.qos p refl fits.qos in
    let ei' : i ≡ (if p.qos == 0 then [] else write_uint16 p.packet_id) = cc in
    let e₃' : c₃ ≡ p.payload = cc in
    rw (
      b₁,
      b₂,
      b₃,
      q3,
      s₁,
      read_string-write_string PacketTypes.publish "topic name" c₁ "topic name" p.topic t et,
      s₂,
      ei',
      decode_publish_id-id p c₂ fits.packet_id q0 q1,
      s₃,
      e₃',
      section PacketTypes.publish PublishFits
          (λ r. append_publish_properties-Loads PacketTypes.publish r (inl refl)) p.properties q
          p.payload fits.properties eq,
      validate_publish_topic-encoded p named,
    )
