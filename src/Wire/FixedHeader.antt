-- ===== src/Wire/FixedHeader.antt =====
-- The flags of pkg/mqtt5/wire/fixed_header.go. `(flags >> 1) & 3` is flags / 2 % 4, and the bit k of
-- a byte is asked for by `bit`.
use sky_tree.Common.{ℕ, ◌*◌, ◌/◌, ◌%◌, ◌^◌, Bool, ◌&&◌, ◌||◌, ◌==◌, ◌!=◌, bit_or, if◌then◌else◌}
use sky_tree.Mqtt5.PacketTypes
use sky_tree.Mqtt5.PacketTypes.{PacketType}
use sky_tree.Mqtt5.Packet.{Packet, Publish}
use sky_tree.Wire.Errors.{Result, ok, malformed, reject, ◌>>◌}

abbrev pub bit : ℕ → ℕ → Bool
bit k flags = flags / 2 ^ k % 2 == 1

unfoldable pub validate_fixed_header_flags : PacketType → ℕ → Result (Unit {0})
validate_fixed_header_flags packet flags =
    if packet == PacketTypes.publish
    then (do
      reject (flags / 2 % 4 == 3)
          (malformed packet "fixed header flags" "PUBLISH QoS 3 is reserved")
      reject (flags / 2 % 4 == 0 && bit 3 flags)
          (malformed packet "fixed header flags" "PUBLISH QoS 0 must not set DUP"))
    else if packet == PacketTypes.pubrel
        || packet == PacketTypes.subscribe
        || packet == PacketTypes.unsubscribe
    then reject (flags != 2) (malformed packet "fixed header flags" "invalid fixed header flags")
    else reject (flags != 0) (malformed packet "fixed header flags" "invalid fixed header flags")

unfoldable pub publish_flags : Publish → ℕ
publish_flags p =
    let qos = p.qos * 2 % 256 in
    let dup = if p.duplicate then bit_or qos 0x08 else qos in
    if p.retain then bit_or dup 0x01 else dup

unfoldable pub fixed_header_flags : Packet → Result ℕ
fixed_header_flags (Packet.publish p) = do
  reject (p.qos == 3) (malformed PacketTypes.publish "qos" "PUBLISH QoS 3 is reserved")
  reject (p.qos == 0 && p.duplicate)
      (malformed PacketTypes.publish "fixed header flags" "PUBLISH QoS 0 must not set DUP")
  ok (publish_flags p)
fixed_header_flags (Packet.pubrel _) = ok 2
fixed_header_flags (Packet.subscribe _) = ok 2
fixed_header_flags (Packet.unsubscribe _) = ok 2
fixed_header_flags _ = ok 0
