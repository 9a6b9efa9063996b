-- ===== src/Wire/RoundTrip/Acks.antt =====
-- CONNACK, the four acknowledgements of PUBLISH, DISCONNECT and AUTH are read back as they were
-- written, in the short forms too.
use sky_tree.Common.{
  ℕ, ◌/◌, ◌<◌, ◌≤◌, ◌≡◌, ◌⊎◌, inl, inr, refl, sym, ap, String, subst, Bool, true, false, not, ◌&&◌,
  Option, none, some, [], ◌∷◌, ◌++◌, ◌==◌, arith, append-nil, if◌then◌else◌, Bool-cases, length,
  length-append,
}
use sky_tree.Mqtt5.PacketTypes
use sky_tree.Mqtt5.PacketTypes.{PacketType}
use sky_tree.Mqtt5.Properties.{Bytes, ReasonProperties, DisconnectProperties, AuthProperties}
use sky_tree.Mqtt5.Packet.{ConnAck, Ack, Disconnect, Auth}
use sky_tree.Topic.Levels.{is_empty}
use sky_tree.Wire.Errors.{ok, >>=-eq-ok, reject-eq-ok}
use sky_tree.Wire.Bytes.{read_byte, write_uint16}
use sky_tree.Wire.Decode.{
  decode_connack, decode_ack, decode_ack_reason, decode_disconnect, decode_auth,
}
use sky_tree.Wire.Encode.{encode_connack, encode_ack, encode_reason_packet, has_properties}
use sky_tree.Wire.FixedHeader.{bit}
use sky_tree.Wire.Properties.{
  PropertyStruct, decode_loop, append_properties, encode_properties, decode_properties,
}
use sky_tree.Wire.Properties.Loads.{Loads, Loads-nil}
use sky_tree.Wire.Properties.RoundTrip.{
  ConnAckFits, DisconnectFits, AuthFits, append_connack_properties-Loads,
  append_reason_properties-Loads, append_disconnect_properties-Loads, append_auth_properties-Loads,
}
use sky_tree.Wire.Properties.Section.{or_empty, decode_properties-encode_properties}
use sky_tree.Wire.Properties.Structs.{
  connack_properties, reason_properties, disconnect_properties, auth_properties,
  empty_reason_properties, empty_disconnect_properties, empty_auth_properties,
}
use sky_tree.Wire.Reason.{validate_reason}
use sky_tree.Wire.Vbi.{write_vbi, vbi_digits}
use sky_tree.Wire.Vbi.RoundTrip.{write_vbi-eq-ok}
use sky_tree.Wire.RoundTrip.Parts.{AllOf, section, read_packet_id-write_uint16}

length-eq-zero : (bs : Bytes) → length bs ≡ 0 → bs ≡ []
length-eq-zero [] h = refl
length-eq-zero (b ∷ bs) h = absurd (omega arith)

ok-injective : {A : Type 0} {a b : A} → ok a ≡ ok b → a ≡ b
ok-injective e = cc

write_vbi-length :
    (packet : PacketType) (field : String) (n : ℕ) (bs : Bytes)
    → write_vbi packet field n ≡ ok bs
    → 1 ≤ length bs
unfolding vbi_digits
write_vbi-length packet field n bs h =
    let (fits, e) = write_vbi-eq-ok packet field n bs h in ground (arith, e)

session_flag :
    (b : Bool) → (((if b then 1 else 0) / 2 == 0) ≡ true) × (bit 0 (if b then 1 else 0) ≡ b)
session_flag true = (refl, refl)
session_flag false = (refl, refl)

abbrev pub received_connack : ConnAck → ConnAck
received_connack p = record p { properties = some (or_empty p.properties) }

-- A CONNACK that the encoder accepts is read back from its body.
pub decode_connack-encode_connack :
    (p : ConnAck) (bs : Bytes)
    → AllOf ConnAckFits p.properties
    → encode_connack p ≡ ok bs
    → decode_connack bs ≡ ok (received_connack p, [])
unfolding encode_connack decode_connack read_byte
decode_connack-encode_connack p bs fits h =
    let (u, valid, h₁) = >>=-eq-ok (validate_reason PacketTypes.connack p.reason_code) _ h in
    let (present, h₂) = reject-eq-ok (not (p.reason_code == 0) && p.session_present) _ _ h₁ in
    let (q, eq, h₃) = >>=-eq-ok (encode_properties PacketTypes.connack p.properties) _ h₂ in
    let split : bs ≡ (if p.session_present then 1 else 0) ∷ p.reason_code ∷ q = cc in
    let read =
      section PacketTypes.connack ConnAckFits (append_connack_properties-Loads PacketTypes.connack)
        p.properties q [] fits eq in
    let read' = rw append-nil at read in
    let (reserved, flag) = session_flag p.session_present in
    rw (split, reserved, flag, valid, present, read')

module _ {S : Type 0} ⦃struct : PropertyStruct S⦄ (packet : PacketType) where
  -- A section of one byte has no properties, and the struct is the empty one.
  no_properties :
      (props : Option S) (bs : Bytes)
      → Loads packet [] struct.empty (append_properties packet props) (or_empty props)
      → encode_properties packet props ≡ ok bs
      → length bs ≡ 1
      → or_empty props ≡ struct.empty
  unfolding encode_properties decode_loop
  no_properties props bs loads h one =
      let (body, e₁, h₁) = >>=-eq-ok (append_properties packet props) _ h in
      let (size, e₂, h₂) = >>=-eq-ok (write_vbi packet "property length" (length body)) _ h₁ in
      let split : bs ≡ size ++ body = cc in
      let total = length-append size body in
      let positive = write_vbi-length packet "property length" (length body) size e₂ in
      let none_left : length body ≡ 0 = omega (arith, ap length split) in
      let nil = length-eq-zero body none_left in
      let run = loads.loads body [] 0 e₁ (λ id e. e) (omega arith) in
      let run' =
        subst (λ xs. decode_loop packet 0 [] struct.empty xs ≡ ok (or_empty props)) nil run in
      sym (ok-injective run')

  section_length :
      (props : Option S) (bs : Bytes) → encode_properties packet props ≡ ok bs → 1 ≤ length bs
  unfolding encode_properties
  section_length props bs h =
      let (body, e₁, h₁) = >>=-eq-ok (append_properties packet props) _ h in
      let (size, e₂, h₂) = >>=-eq-ok (write_vbi packet "property length" (length body)) _ h₁ in
      let split : bs ≡ size ++ body = cc in
      omega (
        arith,
        ap length split,
        length-append size body,
        write_vbi-length packet "property length" (length body) size e₂,
      )

size_cases : (n : ℕ) → 1 ≤ n → (n ≡ 1) ⊎ (2 ≤ n)
size_cases n h = ground arith

not_empty : (bs : Bytes) → 2 ≤ length bs → is_empty bs ≡ false
unfolding is_empty
not_empty [] h = absurd (omega arith)
not_empty (b ∷ bs) h = refl

-- What follows the identifier: the reason code and the properties, in the shortest form.
abbrev pub short : ℕ → Bytes → Bytes
short reason q =
    if reason == 0 && length q == 1 then [] else reason ∷ (if has_properties q then q else [])

module _ {S : Type 0} ⦃struct : PropertyStruct S⦄ (packet : PacketType) where
  short_cases :
      (reason : ℕ) (props : Option S) (q : Bytes)
      → Loads packet [] struct.empty (append_properties packet props) (or_empty props)
      → encode_properties packet props ≡ ok q
      → ((short reason q ≡ []) × (reason ≡ 0) × (or_empty props ≡ struct.empty))
        ⊎ ((short reason q ≡ reason ∷ []) × (or_empty props ≡ struct.empty))
        ⊎ ((short reason q ≡ reason ∷ q)
            × (is_empty q ≡ false)
            × (decode_properties packet q ≡ ok (or_empty props, [])))
  short_cases reason props q loads eq =
      let read = decode_properties-encode_properties packet props q [] loads eq in
      let read' =
        subst (λ xs. decode_properties packet xs ≡ ok (or_empty props, [])) (append-nil q) read in
      elim (size_cases (length q) (section_length packet props q eq)) [
        | inl one ↦ elim (Bool-cases (reason == 0)) [
          | inl none_left ↦
              inl (rw (none_left, one), ground arith, no_properties packet props q loads eq one)
          | inr some_left ↦
              inr (inl (rw (some_left, one), no_properties packet props q loads eq one))
        ]
        | inr more ↦ inr (inr (ground arith, not_empty q more, read'))
      ]

section-Loads :
    (packet : PacketType) (props : Option ReasonProperties)
    → Loads packet [] empty_reason_properties (append_properties packet props) (or_empty props)
section-Loads packet none = Loads-nil packet [] empty_reason_properties
section-Loads packet (some p) = append_reason_properties-Loads packet p

abbrev pub received_ack : Ack → Ack
received_ack p = record p { properties = some (or_empty p.properties) }

encode_ack-eq-ok :
    (packet : PacketType) (p : Ack) (bs : Bytes)
    → encode_ack packet p ≡ ok bs
    → (q : Bytes) × ((p.packet_id == 0) ≡ false)
      × (validate_reason packet p.reason_code ≡ ok tt)
      × (encode_properties packet p.properties ≡ ok q)
      × (bs ≡ write_uint16 p.packet_id ++ short p.reason_code q)
unfolding encode_ack
encode_ack-eq-ok packet p bs h =
    let (id, h₁) = reject-eq-ok (p.packet_id == 0) _ _ h in
    let (u, valid, h₂) = >>=-eq-ok (validate_reason packet p.reason_code) _ h₁ in
    let (q, eq, h₃) = >>=-eq-ok (encode_properties packet p.properties) _ h₂ in
    (q, id, ground arith, eq, ground (arith, append-nil (write_uint16 p.packet_id)))

-- A PUBACK, PUBREC, PUBREL or PUBCOMP that the encoder accepts is read back from its body.
pub decode_ack-encode_ack :
    (packet : PacketType) (p : Ack) (bs : Bytes)
    → p.packet_id < 65536
    → encode_ack packet p ≡ ok bs
    → decode_ack packet bs ≡ ok (received_ack p, [])
unfolding decode_ack decode_ack_reason read_byte is_empty
decode_ack-encode_ack packet p bs fits h =
    let (q, id, valid, eq, split) = encode_ack-eq-ok packet p bs h in
    let read = read_packet_id-write_uint16 packet p.packet_id (short p.reason_code q) fits id in
    elim (short_cases packet p.reason_code p.properties q (section-Loads packet p.properties) eq) [
      | inl (e, zero_reason, nothing) ↦ rw (split, read, e, nothing) (ground arith)
      | inr (inl (e, nothing)) ↦ rw (split, read, e, valid, nothing)
      | inr (inr (e, there, props)) ↦ rw (split, read, e, valid, there, props)
    ]

module _ {S : Type 0} ⦃struct : PropertyStruct S⦄ where
  encode_reason_packet-eq-ok :
      (packet : PacketType) (reason : ℕ) (props : Option S) (bs : Bytes)
      → encode_reason_packet packet reason props ≡ ok bs
      → (q : Bytes) × (validate_reason packet reason ≡ ok tt)
        × (encode_properties packet props ≡ ok q)
        × (bs ≡ short reason q)
  unfolding encode_reason_packet
  encode_reason_packet-eq-ok packet reason props bs h =
      let (u, valid, h₂) = >>=-eq-ok (validate_reason packet reason) _ h in
      let (q, eq, h₃) = >>=-eq-ok (encode_properties packet props) _ h₂ in
      (q, ground arith, eq, ground arith)

disconnect-Loads :
    (props : Option DisconnectProperties)
    → AllOf DisconnectFits props
    → Loads PacketTypes.disconnect [] empty_disconnect_properties
        (append_properties PacketTypes.disconnect props)
        (or_empty props)
disconnect-Loads none fits = Loads-nil PacketTypes.disconnect [] empty_disconnect_properties
disconnect-Loads (some p) fits = append_disconnect_properties-Loads PacketTypes.disconnect p fits

auth-Loads :
    (props : Option AuthProperties)
    → AllOf AuthFits props
    → Loads PacketTypes.auth [] empty_auth_properties
        (append_properties PacketTypes.auth props)
        (or_empty props)
auth-Loads none fits = Loads-nil PacketTypes.auth [] empty_auth_properties
auth-Loads (some p) fits = append_auth_properties-Loads PacketTypes.auth p fits

abbrev pub received_disconnect : Disconnect → Disconnect
received_disconnect p = record p { properties = some (or_empty p.properties) }

-- A DISCONNECT that the encoder accepts is read back from its body.
pub decode_disconnect-encode_reason_packet :
    (p : Disconnect) (bs : Bytes)
    → AllOf DisconnectFits p.properties
    → encode_reason_packet PacketTypes.disconnect p.reason_code p.properties ≡ ok bs
    → decode_disconnect bs ≡ ok (received_disconnect p, [])
unfolding decode_disconnect read_byte is_empty
decode_disconnect-encode_reason_packet p bs fits h =
    let packet = PacketTypes.disconnect in
    let (q, valid, eq, split) = encode_reason_packet-eq-ok packet p.reason_code p.properties bs h in
    elim (short_cases packet p.reason_code p.properties q (disconnect-Loads p.properties fits) eq) [
      | inl (e, zero_reason, nothing) ↦ rw (split, e, nothing) (ground arith)
      | inr (inl (e, nothing)) ↦ rw (split, e, valid, nothing)
      | inr (inr (e, there, props)) ↦ rw (split, e, valid, there, props)
    ]

abbrev pub received_auth : Auth → Auth
received_auth p = record p { properties = some (or_empty p.properties) }

-- An AUTH that the encoder accepts is read back from its body.
pub decode_auth-encode_reason_packet :
    (p : Auth) (bs : Bytes)
    → AllOf AuthFits p.properties
    → encode_reason_packet PacketTypes.auth p.reason_code p.properties ≡ ok bs
    → decode_auth bs ≡ ok (received_auth p, [])
unfolding decode_auth read_byte is_empty
decode_auth-encode_reason_packet p bs fits h =
    let packet = PacketTypes.auth in
    let (q, valid, eq, split) = encode_reason_packet-eq-ok packet p.reason_code p.properties bs h in
    elim (short_cases packet p.reason_code p.properties q (auth-Loads p.properties fits) eq) [
      | inl (e, zero_reason, nothing) ↦ rw (split, e, nothing) (ground arith)
      | inr (inl (e, nothing)) ↦ rw (split, e, valid, nothing)
      | inr (inr (e, there, props)) ↦ rw (split, e, valid, there, props)
    ]
