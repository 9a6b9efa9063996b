-- ===== src/Mqtt5/PacketTypes.antt =====
-- The packet types of pkg/mqtt5/packet.go.
use sky_tree.Common.{ℕ}

abbrev pub PacketType : Type 0
PacketType = ℕ

abbrev pub connect : PacketType
connect = 1

abbrev pub connack : PacketType
connack = 2

abbrev pub publish : PacketType
publish = 3

abbrev pub puback : PacketType
puback = 4

abbrev pub pubrec : PacketType
pubrec = 5

abbrev pub pubrel : PacketType
pubrel = 6

abbrev pub pubcomp : PacketType
pubcomp = 7

abbrev pub subscribe : PacketType
subscribe = 8

abbrev pub suback : PacketType
suback = 9

abbrev pub unsubscribe : PacketType
unsubscribe = 10

abbrev pub unsuback : PacketType
unsuback = 11

abbrev pub pingreq : PacketType
pingreq = 12

abbrev pub pingresp : PacketType
pingresp = 13

abbrev pub disconnect : PacketType
disconnect = 14

abbrev pub auth : PacketType
auth = 15

abbrev pub will_properties : PacketType
will_properties = 16
