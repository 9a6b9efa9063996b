-- ===== src/Wire/Reason.antt =====
-- pkg/mqtt5/wire/reason.go over the reason codes of pkg/mqtt5/reason.go, each written as its byte.
use sky_tree.Common.{ℕ, Bool, false, not, ◌||◌, [], ◌∷◌, ◌==◌, if◌then◌else◌}
use sky_tree.Mqtt5.PacketTypes
use sky_tree.Mqtt5.PacketTypes.{PacketType}
use sky_tree.Mqtt5.Properties.{Bytes}
use sky_tree.Wire.Errors.{Result, malformed, ok, reject, ◌>>◌}

unfoldable pub is_member : ℕ → Bytes → Bool
is_member code [] = false
is_member code (c ∷ cs) = c == code || is_member code cs

-- Packets that carry no reason code have no codes.
unfoldable pub valid_reason_codes : PacketType → Bytes
valid_reason_codes packet =
    if packet == PacketTypes.connack
    then 0x00 ∷ 0x80 ∷ 0x81 ∷ 0x82 ∷ 0x83 ∷ 0x84 ∷ 0x85 ∷ 0x86 ∷ 0x87 ∷ 0x88 ∷ 0x89 ∷ 0x8a ∷ 0x8c
      ∷ 0x90 ∷ 0x95 ∷ 0x97 ∷ 0x99 ∷ 0x9a ∷ 0x9b ∷ 0x9c ∷ 0x9d ∷ 0x9f ∷ []
    else if packet == PacketTypes.puback || packet == PacketTypes.pubrec
    then 0x00 ∷ 0x10 ∷ 0x80 ∷ 0x83 ∷ 0x87 ∷ 0x90 ∷ 0x91 ∷ 0x97 ∷ 0x99 ∷ 0x9a ∷ 0x9b ∷ []
    else if packet == PacketTypes.pubrel || packet == PacketTypes.pubcomp
    then 0x00 ∷ 0x92 ∷ []
    else if packet == PacketTypes.suback
    then 0x00 ∷ 0x01 ∷ 0x02 ∷ 0x80 ∷ 0x83 ∷ 0x87 ∷ 0x8f ∷ 0x91 ∷ 0x97 ∷ 0x9e ∷ 0xa1 ∷ 0xa2 ∷ []
    else if packet == PacketTypes.unsuback
    then 0x00 ∷ 0x11 ∷ 0x80 ∷ 0x83 ∷ 0x87 ∷ 0x8f ∷ 0x91 ∷ []
    else if packet == PacketTypes.disconnect
    then 0x00 ∷ 0x04 ∷ 0x80 ∷ 0x81 ∷ 0x82 ∷ 0x83 ∷ 0x87 ∷ 0x89 ∷ 0x8b ∷ 0x8c ∷ 0x8d ∷ 0x8e ∷ 0x8f
      ∷ 0x90 ∷ 0x93 ∷ 0x94 ∷ 0x95 ∷ 0x96 ∷ 0x97 ∷ 0x98 ∷ 0x99 ∷ 0x9a ∷ 0x9b ∷ 0x9c ∷ 0x9d ∷ 0x9e
      ∷ 0x9f ∷ 0xa0 ∷ 0xa1 ∷ 0xa2 ∷ []
    else if packet == PacketTypes.auth
    then 0x00 ∷ 0x18 ∷ 0x19 ∷ []
    else []

unfoldable pub validate_reason : PacketType → ℕ → Result (Unit {0})
validate_reason packet code =
    reject (not (is_member code (valid_reason_codes packet)))
      (malformed packet "reason code" "reason code is not valid for packet")

-- The loop over the codes of SUBACK and UNSUBACK.
unfoldable pub validate_reasons : PacketType → Bytes → Result (Unit {0})
validate_reasons packet [] = ok tt
validate_reasons packet (c ∷ cs) = do validate_reason packet c; validate_reasons packet cs
