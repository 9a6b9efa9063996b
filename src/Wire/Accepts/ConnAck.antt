-- ===== src/Wire/Accepts/ConnAck.antt =====
-- `decodeConnAck` of pkg/mqtt5/wire/codec.go, against the reason codes that MQTT gives to CONNACK.
use sky_tree.Common.{
  ℕ, ◌/◌, ◌≤◌, ◌≡◌, refl, ◌⊎◌, ◌↔◌, String, sym, subst, ap, ◌∙◌, Bool, true, false, not, ◌&&◌, some,
  [], ◌∷◌, ◌!=◌, arith, if◌then◌else◌,
}
use sky_tree.Mqtt5.PacketTypes
use sky_tree.Mqtt5.Properties.{Bytes, ConnAckProperties}
use sky_tree.Mqtt5.Packet.{ConnAck}
use sky_tree.Wire.Errors.{ok, >>=-eq-ok, reject-eq-ok, ok_pair}
use sky_tree.Wire.Bytes.{read_byte}
use sky_tree.Wire.FixedHeader.{bit}
use sky_tree.Wire.Properties.{decode_properties}
use sky_tree.Wire.Properties.Structs.{connack_properties}
use sky_tree.Wire.Decode.{decode_connack}
use sky_tree.Wire.Reason.{validate_reason, valid_reason_codes, is_member}

-- The codes of table 3-1 of MQTT 5.0, in their ranges: success, an unspecified error up to a bad
-- authentication method, then those that stand alone.
abbrev pub IsConnAckCode : ℕ → Type 0
IsConnAckCode code =
    (code ≡ 0)
    ⊎ ((128 ≤ code) × (code ≤ 138))
    ⊎ (code ≡ 140)
    ⊎ (code ≡ 144)
    ⊎ (code ≡ 149)
    ⊎ (code ≡ 151)
    ⊎ ((153 ≤ code) × (code ≤ 157))
    ⊎ (code ≡ 159)

is_member-IsConnAckCode :
    (code : ℕ) → is_member code (valid_reason_codes PacketTypes.connack) ≡ true → IsConnAckCode code
unfolding is_member valid_reason_codes
is_member-IsConnAckCode code h = ground arith

IsConnAckCode-is_member :
    (code : ℕ) → IsConnAckCode code → is_member code (valid_reason_codes PacketTypes.connack) ≡ true
unfolding is_member valid_reason_codes
IsConnAckCode-is_member code h = ground arith

-- The bytes of a CONNACK: the flags, of which the lowest may be set, a reason code of CONNACK, and
-- a section of properties. A session is present on success only.
abbrev pub IsConnAck : Bytes → ConnAck → Bytes → Type 0
IsConnAck bs p rest =
    (section : Bytes) × (props : ConnAckProperties) × (bs
      ≡ (if p.session_present then 1 else 0) ∷ (p.reason_code ∷ section))
    × IsConnAckCode p.reason_code
    × ((p.session_present ≡ true) → p.reason_code ≡ 0)
    × (p.properties ≡ some props)
    × (decode_properties {S = ConnAckProperties} PacketTypes.connack section ≡ ok (props, rest))

present_zero :
    (reason flags : ℕ) → (reason != 0 && bit 0 flags) ≡ false → bit 0 flags ≡ true → reason ≡ 0
present_zero reason flags h k = ground arith

flags_of : (flags : ℕ) → (flags / 2 != 0) ≡ false → flags ≡ (if bit 0 flags then 1 else 0)
flags_of flags h = ground arith

read_byte-eq-ok :
    (field : String) (bs : Bytes) (b : ℕ) (rest : Bytes)
    → read_byte PacketTypes.connack field bs ≡ ok (b, rest)
    → bs ≡ b ∷ rest
unfolding read_byte
read_byte-eq-ok field [] b rest h = cc
read_byte-eq-ok field (c ∷ bs) b rest h =
    let (first, same) = ok_pair c b bs rest h in
    ap (λ (x : ℕ). x ∷ bs) first ∙ ap (λ (xs : Bytes). b ∷ xs) same

decode_connack-IsConnAck :
    (bs : Bytes) (p : ConnAck) (rest : Bytes)
    → decode_connack bs ≡ ok (p, rest)
    → IsConnAck bs p rest
unfolding decode_connack validate_reason
decode_connack-IsConnAck bs p rest h =
    let packet = PacketTypes.connack in
    let ((flags, b₁), e₁, h₁) = >>=-eq-ok (read_byte packet "acknowledge flags" bs) _ h in
    let (reserved, h₂) = reject-eq-ok (flags / 2 != 0) _ _ h₁ in
    let ((reason, b₂), e₂, h₃) = >>=-eq-ok (read_byte packet "reason code" b₁) _ h₂ in
    let (known, h₄) = reject-eq-ok (not (is_member reason (valid_reason_codes packet))) _ _ h₃ in
    let (present, h₅) = reject-eq-ok (reason != 0 && bit 0 flags) _ _ h₄ in
    let ((props, b₃), e₃, h₆) =
      >>=-eq-ok (decode_properties {S = ConnAckProperties} packet b₂) _ h₅ in
    let (same, left) = ok_pair _ p b₃ rest h₆ in
    let first = read_byte-eq-ok "acknowledge flags" bs flags b₁ e₁ in
    let second = read_byte-eq-ok "reason code" b₁ reason b₂ e₂ in
    subst (λ (q : ConnAck). IsConnAck bs q rest) same
      (
        b₂,
        props,
        first
            ∙ ap (λ (xs : Bytes). flags ∷ xs) second
            ∙ ap (λ (x : ℕ). x ∷ (reason ∷ b₂)) (flags_of flags reserved),
        is_member-IsConnAckCode reason (ground arith),
        present_zero reason flags present,
        refl,
        subst (λ (r : Bytes). decode_properties {S = ConnAckProperties} packet b₂ ≡ ok (props, r))
            left e₃,
      )

accepted :
    (present : Bool) (reason : ℕ) (section rest : Bytes) (props : ConnAckProperties)
    → IsConnAckCode reason
    → (present ≡ true → reason ≡ 0)
    → decode_properties {S = ConnAckProperties} PacketTypes.connack section ≡ ok (props, rest)
    → decode_connack ((if present then 1 else 0) ∷ (reason ∷ section))
      ≡ ok (
        record { properties = some props; reason_code = reason; session_present = present },
        rest,
      )
unfolding decode_connack validate_reason read_byte
accepted true reason section rest props code zero e =
    rw (IsConnAckCode-is_member reason code, zero refl, e) refl
accepted false reason section rest props code zero e =
    let quiet : (reason != 0 && false) ≡ false = ground arith in
    rw (IsConnAckCode-is_member reason code, quiet, e) refl

-- `decodeConnAck` accepts a body as the CONNACK and leaves the rest if and only if the body is a
-- flags byte that is 1 where a session is present and 0 otherwise, one of the reason codes that
-- MQTT gives to CONNACK, which is success where a session is present, and a section that is
-- decoded to the properties with that rest left.
pub decode_connack_iff :
    (bs : Bytes) (p : ConnAck) (rest : Bytes)
    → (decode_connack bs ≡ ok (p, rest)) ↔ IsConnAck bs p rest
decode_connack_iff bs p rest = (
  decode_connack-IsConnAck bs p rest,
  λ (section, props, bytes, code, present, held, e).
      ap (λ (xs : Bytes). decode_connack xs) bytes
      ∙ accepted p.session_present p.reason_code section rest props code present e
      ∙ ap
          (λ o. ok (
            record {
              properties = o;
              reason_code = p.reason_code;
              session_present = p.session_present;
            },
            rest,
          ))
          (sym held),
)
