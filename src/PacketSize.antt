-- ===== src/PacketSize.antt =====
-- pkg/mqtt5/packetsize/packet_size.go: whether the encoding of a packet is small enough. The texts of
-- the errors are left out, and a maximum is not negative.
pub mod Limit
mod Examples
use sky_tree.Common.{ℕ, Option, none, some, ltb, if◌then◌else◌, length}
use sky_tree.Mqtt5.PacketTypes
use sky_tree.Mqtt5.PacketTypes.{PacketType}
use sky_tree.Mqtt5.Packet.{Packet, ControlPacket, Publish, Connect, Subscribe}
use sky_tree.Wire.Errors.{Error, Result, ok, err, ◌>>=◌}
use sky_tree.Wire.Frame.{encode}

pub data SizeError : Type 0 where
  failed_to_calculate : Error → SizeError
  oversize : ℕ → ℕ → SizeError

unfoldable pub calculate_packet_size : ControlPacket → Result ℕ
unfolding encode
calculate_packet_size packet = do encoded ← encode 0 packet; ok (length encoded)

-- `none` is Go's nil error.
unfoldable pub check_packet_size_with_max : ControlPacket → ℕ → Option SizeError
unfolding calculate_packet_size
check_packet_size_with_max packet max = elim (calculate_packet_size packet) [
  | err e ↦ some (failed_to_calculate e)
  | ok size ↦ if ltb max size then some (oversize size max) else none
]

unfoldable pub check_packet_content_size_with_max : PacketType → Packet → ℕ → Option SizeError
unfolding check_packet_size_with_max
check_packet_content_size_with_max type content max =
    check_packet_size_with_max
      (record {
        content = some content;
        header = record { type = type; flags = 0; remaining_length = 0 };
      })
      max

unfoldable pub check_publish_packet_size : Publish → ℕ → Option SizeError
unfolding check_packet_content_size_with_max
check_publish_packet_size p max =
    check_packet_content_size_with_max PacketTypes.publish (Packet.publish p) max

unfoldable pub check_connect_packet_size : Connect → ℕ → Option SizeError
unfolding check_packet_content_size_with_max
check_connect_packet_size p max =
    check_packet_content_size_with_max PacketTypes.connect (Packet.connect p) max

unfoldable pub check_subscribe_packet_size : Subscribe → ℕ → Option SizeError
unfolding check_packet_content_size_with_max
check_subscribe_packet_size p max =
    check_packet_content_size_with_max PacketTypes.subscribe (Packet.subscribe p) max
