-- ===== src/PacketSize/Examples.antt =====
-- The theorem on packet sizes at a concrete packet.
use sky_tree.Common.{none, some, arith, ◌≡◌, ◌↔◌}
use sky_tree.Mqtt5.Properties.{Bytes}
use sky_tree.Mqtt5.Packet.{Packet}
use sky_tree.Wire.Errors.{ok}
use sky_tree.Wire.Frame.{encode}
use sky_tree.PacketSize.{check_packet_size_with_max}
use sky_tree.PacketSize.Limit.{check_packet_size_with_max-encode}

check_packet_size_with_max-encode_example :
    (check_packet_size_with_max
        (record {
          content = some Packet.pingreq;
          header = record { type = 12; flags = 0; remaining_length = 0 };
        })
        2
      ≡ none)
    ↔ ((bs : Bytes) × (encode 2 (record {
      content = some Packet.pingreq;
      header = record { type = 12; flags = 0; remaining_length = 0 };
    })
          ≡ ok bs))
check_packet_size_with_max-encode_example =
    check_packet_size_with_max-encode Packet.pingreq
      (record { type = 12; flags = 0; remaining_length = 0 }) 2 (omega arith)
