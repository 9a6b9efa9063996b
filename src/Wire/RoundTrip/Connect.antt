-- ===== src/Wire/RoundTrip/Connect.antt =====
-- CONNECT is read back as it was written.
use sky_tree.Common.{
  ℕ, zero, suc, ◌/◌, ◌%◌, ◌<◌, ◌≡◌, inl, inr, refl, ◌∙◌, Bool, true, false, not, ◌&&◌, none, some,
  [], ◌∷◌, ◌++◌, ◌==◌, arith, append-nil, append_assoc, same_bytes, if◌then◌else◌, Bool-cases,
}
use sky_tree.Mqtt5.PacketTypes
use sky_tree.Mqtt5.Properties.{Bytes}
use sky_tree.Mqtt5.Packet.{Connect, pack_flags}
use sky_tree.Topic.Levels.{codes}
use sky_tree.Wire.Errors.{ok, >>=-eq-ok, reject-eq-ok}
use sky_tree.Wire.Bytes.{read_byte, write_uint16, write_string, write_binary}
use sky_tree.Wire.Bytes.RoundTrip.{
  read_string-write_string, read_binary-write_binary, read_uint16-write_uint16,
}
use sky_tree.Wire.Decode.{
  decode_connect, decode_will, decode_username, decode_password, unpack_connect_flags,
  empty_connect,
}
use sky_tree.Wire.Encode.{encode_connect, encode_will, validate_connect_for_encode}
use sky_tree.Wire.FixedHeader.{bit}
use sky_tree.Wire.Properties.{validate_topic_name}
use sky_tree.Wire.Properties.RoundTrip.{
  PublishFits, ConnectFits, append_publish_properties-Loads, append_connect_properties-Loads,
}
use sky_tree.Wire.Properties.Section.{or_empty}
use sky_tree.Wire.Properties.Structs.{publish_properties, connect_properties}
use sky_tree.Wire.RoundTrip.Parts.{⨾-eq-ok, AllOf, section}

-- The ranges of the Go types.
pub record IsConnect (p : Connect) : Type 0 where
  pub keep_alive : p.keep_alive < 65536
  pub properties : AllOf ConnectFits p.properties
  pub will_properties : AllOf PublishFits p.will_properties

-- The packet as it is read: what a flag leaves out is the zero value.
abbrev pub received : Connect → Connect
received p = record p {
  properties = some (or_empty p.properties);
  will_properties = if p.will_flag then some (or_empty p.will_properties) else none;
  will_topic = if p.will_flag then p.will_topic else [];
  will_message = if p.will_flag then p.will_message else [];
  username = if p.username_flag then p.username else [];
  password = if p.password_flag then p.password else [];
}

-- What the validation before the encoding says.
record IsValid (p : Connect) : Type 0 where
  qos : p.will_qos < 3
  no_qos : (not p.will_flag && not (p.will_qos == 0)) ≡ false
  no_retain : (not p.will_flag && p.will_retain) ≡ false
  named : (p.password_flag && not p.username_flag) ≡ false

validate-IsValid : (p : Connect) → validate_connect_for_encode p ≡ ok tt → IsValid p
unfolding validate_connect_for_encode
validate-IsValid p h = ground arith

-- The flags of CONNECT as functions of their parts, each at its bits.
flag_bits :
    (user pass will retain clean : Bool) (qos : ℕ) (p : Connect)
    → p.username_flag ≡ user
    → p.password_flag ≡ pass
    → p.will_flag ≡ will
    → p.will_retain ≡ retain
    → p.clean_start ≡ clean
    → p.will_qos ≡ qos
    → IsValid p
    → (bit 0 (pack_flags p) ≡ false)
      × (bit 1 (pack_flags p) ≡ clean)
      × (bit 2 (pack_flags p) ≡ will)
      × (pack_flags p / 8 % 4 ≡ qos)
      × (bit 5 (pack_flags p) ≡ retain)
      × (bit 6 (pack_flags p) ≡ pass)
      × (bit 7 (pack_flags p) ≡ user)
unfolding pack_flags
flag_bits user pass true retain clean zero p a b c d e f v = ground arith
flag_bits user pass true retain clean (suc zero) p a b c d e f v = ground arith
flag_bits user pass true retain clean (suc (suc zero)) p a b c d e f v = ground arith
flag_bits user pass false retain clean qos p a b c d e f v = ground arith
flag_bits user pass true retain clean (suc (suc (suc n))) p a b c d e f v =
    absurd (omega (arith, v.qos))

unpack_connect_flags-pack_flags :
    (p out : Connect)
    → IsValid p
    → unpack_connect_flags out (pack_flags p)
      ≡ ok (record out {
        clean_start = p.clean_start;
        will_flag = p.will_flag;
        will_qos = p.will_qos;
        will_retain = p.will_retain;
        password_flag = p.password_flag;
        username_flag = p.username_flag;
      })
unfolding unpack_connect_flags
unpack_connect_flags-pack_flags p out v =
    let (b0, b1, b2, b3, b5, b6, b7) =
      flag_bits p.username_flag p.password_flag p.will_flag p.will_retain p.clean_start p.will_qos p
        refl refl refl refl refl refl v in
    let q : (p.will_qos == 3) ≡ false = ground (arith, v.qos) in
    rw (b0, b1, b2, b3, b5, b6, b7, v.no_qos, v.no_retain, q, v.named)

with_will : Connect → Connect → Connect
with_will p out =
    if p.will_flag
    then record out {
      will_properties = some (or_empty p.will_properties);
      will_topic = p.will_topic;
      will_message = p.will_message;
    }
    else out

with_username : Connect → Connect → Connect
with_username p out = if p.username_flag then record out { username = p.username } else out

with_password : Connect → Connect → Connect
with_password p out = if p.password_flag then record out { password = p.password } else out

will_written :
    (p out : Connect) (bs rest : Bytes)
    → out.will_flag ≡ true
    → p.will_flag ≡ true
    → AllOf PublishFits p.will_properties
    → encode_will p ≡ ok bs
    → decode_will out (bs ++ rest) ≡ ok (with_will p out, rest)
unfolding encode_will decode_will with_will
will_written p out bs rest set flag fits h =
    let (q, c₁, eq, e₁, s₁) = ⨾-eq-ok _ _ bs (rw flag at h) in
    let (t, m, et, em, s₂) = ⨾-eq-ok _ _ c₁ e₁ in
    let (u, named, wt) =
      >>=-eq-ok (validate_topic_name PacketTypes.connect "will topic" p.will_topic) _ et in
    rw (
      set,
      flag,
      s₁,
      append_assoc,
      section PacketTypes.will_properties PublishFits
          (λ r. append_publish_properties-Loads PacketTypes.will_properties r (inr refl))
          p.will_properties q (c₁ ++ rest) fits eq,
      s₂,
      append_assoc,
      read_string-write_string PacketTypes.connect "will topic" (m ++ rest) "will topic"
          p.will_topic t wt,
      named,
      read_binary-write_binary PacketTypes.connect "will message" rest "will message" p.will_message
          m em,
    )

will_absent :
    (p out : Connect) (bs rest : Bytes)
    → out.will_flag ≡ false
    → p.will_flag ≡ false
    → encode_will p ≡ ok bs
    → decode_will out (bs ++ rest) ≡ ok (with_will p out, rest)
unfolding encode_will decode_will with_will
will_absent p out bs rest set flag h = ground arith

decode_will-encode_will :
    (p out : Connect) (bs rest : Bytes)
    → out.will_flag ≡ p.will_flag
    → AllOf PublishFits p.will_properties
    → encode_will p ≡ ok bs
    → decode_will out (bs ++ rest) ≡ ok (with_will p out, rest)
decode_will-encode_will p out bs rest same fits h = elim (Bool-cases p.will_flag) [
  | inl flag ↦ will_written p out bs rest (same ∙ flag) flag fits h
  | inr flag ↦ will_absent p out bs rest (same ∙ flag) flag h
]

decode_username-written :
    (p out : Connect) (bs rest : Bytes)
    → out.username_flag ≡ p.username_flag
    → (if p.username_flag then write_string PacketTypes.connect "username" p.username else ok [])
      ≡ ok bs
    → decode_username out (bs ++ rest) ≡ ok (with_username p out, rest)
unfolding decode_username with_username
decode_username-written p out bs rest same h = elim (Bool-cases p.username_flag) [
  | inl flag ↦ rw (
    same,
    flag,
    read_string-write_string PacketTypes.connect "username" rest "username" p.username bs
        (rw flag at h),
  )
  | inr flag ↦ ground arith
]

decode_password-written :
    (p out : Connect) (bs rest : Bytes)
    → out.password_flag ≡ p.password_flag
    → (if p.password_flag then write_binary PacketTypes.connect "password" p.password else ok [])
      ≡ ok bs
    → decode_password out (bs ++ rest) ≡ ok (with_password p out, rest)
unfolding decode_password with_password
decode_password-written p out bs rest same h = elim (Bool-cases p.password_flag) [
  | inl flag ↦ rw (
    same,
    flag,
    read_binary-write_binary PacketTypes.connect "password" rest "password" p.password bs
        (rw flag at h),
  )
  | inr flag ↦ ground arith
]

-- The struct before the payload's optional parts.
abbrev started : Connect → Connect
started p = record empty_connect {
  protocol_name = p.protocol_name;
  protocol_version = p.protocol_version;
  clean_start = p.clean_start;
  will_flag = p.will_flag;
  will_qos = p.will_qos;
  will_retain = p.will_retain;
  password_flag = p.password_flag;
  username_flag = p.username_flag;
  keep_alive = p.keep_alive;
  properties = some (or_empty p.properties);
  client_id = p.client_id;
}

with_parts-received :
    (p : Connect) → with_password p (with_username p (with_will p (started p))) ≡ received p
unfolding with_password with_username with_will
with_parts-received p = elim (Bool-cases p.will_flag) [
  | inl a ↦ elim (Bool-cases p.username_flag) [ inl b ↦ ground arith | inr b ↦ ground arith ]
  | inr a ↦ elim (Bool-cases p.username_flag) [ inl b ↦ ground arith | inr b ↦ ground arith ]
]

username_flag-with_will :
    (p out : Connect)
    → out.username_flag ≡ p.username_flag
    → (with_will p out).username_flag ≡ p.username_flag
unfolding with_will
username_flag-with_will p out e = ground arith

password_flag-with_username :
    (p out : Connect)
    → out.password_flag ≡ p.password_flag
    → (with_username p (with_will p out)).password_flag ≡ p.password_flag
unfolding with_username with_will
password_flag-with_username p out e = ground arith

-- A CONNECT that the encoder accepts is read back from its body.
pub decode_connect-encode_connect :
    (p : Connect) (bs : Bytes)
    → IsConnect p
    → encode_connect p ≡ ok bs
    → decode_connect bs ≡ ok (received p, [])
unfolding encode_connect decode_connect read_byte
decode_connect-encode_connect p bs fits h =
    let packet = PacketTypes.connect in
    let (u, valid, h₁) = >>=-eq-ok (validate_connect_for_encode p) _ h in
    let v = validate-IsValid p valid in
    let (name, h₂) = reject-eq-ok (not (same_bytes p.protocol_name (codes "MQTT"))) _ _ h₁ in
    let (version, h₃) = reject-eq-ok (not (p.protocol_version == 5)) _ _ h₂ in
    let (n, c₁, en, e₁, s₁) = ⨾-eq-ok _ _ bs h₃ in
    let (f, c₂, ef, e₂, s₂) = ⨾-eq-ok _ _ c₁ e₁ in
    let (q, c₃, eq, e₃, s₃) = ⨾-eq-ok _ _ c₂ e₂ in
    let (i, c₄, ei, e₄, s₄) = ⨾-eq-ok _ _ c₃ e₃ in
    let (w, c₅, ew, e₅, s₅) = ⨾-eq-ok _ _ c₄ e₄ in
    let (a, b, ea, eb, s₆) = ⨾-eq-ok _ _ c₅ e₅ in
    let ef' : f ≡ p.protocol_version ∷ pack_flags p ∷ write_uint16 p.keep_alive = cc in
    let last =
      decode_password-written p (with_username p (with_will p (started p))) b []
        (password_flag-with_username p (started p) refl) eb in
    let last' = rw append-nil at last in
    rw (
      s₁,
      read_string-write_string packet "protocol name" c₁ "protocol name" p.protocol_name n en,
      name,
      s₂,
      ef',
      version,
      unpack_connect_flags-pack_flags p
          (record empty_connect {
            protocol_name = p.protocol_name;
            protocol_version = p.protocol_version;
          })
          v,
      read_uint16-write_uint16 packet "keep alive" c₂ p.keep_alive fits.keep_alive,
      s₃,
      section packet ConnectFits (append_connect_properties-Loads packet) p.properties q c₃
          fits.properties eq,
      s₄,
      read_string-write_string packet "client id" c₄ "client id" p.client_id i ei,
      s₅,
      decode_will-encode_will p (started p) w c₅ refl fits.will_properties ew,
      s₆,
      decode_username-written p (with_will p (started p)) a b
          (username_flag-with_will p (started p) refl) ea,
      last',
      with_parts-received p,
    )
