-- ===== src/Wire/Frame.antt =====
-- pkg/mqtt5/wire/reader.go and writer.go: a whole packet on the stream. The stream is the bytes that
-- are still to come, at whose end the reader reports io.EOF or io.ErrUnexpectedEOF. `max` is
-- `MaxPacketSize`; zero means no limit.
use sky_tree.Common.{
  ℕ, ◌+◌, ◌*◌, ◌/◌, ◌%◌, Bool, ◌&&◌, ◌||◌, none, some, [], ◌∷◌, ◌++◌, ltb, ◌!=◌, bit_or,
  if◌then◌else◌, length, take, drop,
}
use sky_tree.Mqtt5.PacketTypes
use sky_tree.Mqtt5.PacketTypes.{PacketType}
use sky_tree.Mqtt5.Properties.{Bytes}
use sky_tree.Mqtt5.Packet.{Packet, ControlPacket, packet_type}
use sky_tree.Topic.Levels.{is_empty}
use sky_tree.Wire.Errors.{
  io, eof, unexpected_eof, Result, ok, err, malformed, implementation, too_large,
  classify_read_error, map_error, reject, ◌>>=◌, ◌>>◌,
}
use sky_tree.Wire.Decode.{decode_packet}
use sky_tree.Wire.Encode.{encode_packet}
use sky_tree.Wire.FixedHeader.{validate_fixed_header_flags, fixed_header_flags}
use sky_tree.Wire.Vbi.{max_remaining_length, read_remaining_length, encode_remaining_length}

-- io.ReadFull of a buffer of `n` bytes.
unfoldable pub read_full : ℕ → Bytes → Result (Bytes × Bytes)
read_full n bs =
    if ltb (length bs) n
    then err (io (if is_empty bs then eof else unexpected_eof))
    else ok (take n bs, drop n bs)

abbrev pub exceeds : ℕ → ℕ → Bool
exceeds max size = ltb 0 max && ltb max size

-- `Decode` after the first byte.
unfoldable pub decode_frame : ℕ → PacketType → ℕ → Bytes → Result (ControlPacket × Bytes)
decode_frame max packet flags bs = do
  reject (ltb packet PacketTypes.connect || ltb PacketTypes.auth packet)
      (malformed packet "packet type" "unknown packet type")
  validate_fixed_header_flags packet flags
  (n, width, b₁) ←
      map_error (classify_read_error packet "remaining length") (read_remaining_length bs)
  let total = 1 + width + n
  reject (exceeds max total) (too_large packet total max)
  (body, rest) ← map_error (classify_read_error packet "body") (read_full n b₁)
  content ← decode_packet packet flags body
  ok (
    record {
      content = some content;
      header = record { type = packet; flags = flags; remaining_length = n };
    },
    rest,
  )

unfoldable pub decode : ℕ → Bytes → Result (ControlPacket × Bytes)
decode max [] = err (io eof)
decode max (first ∷ bs) = decode_frame max (first / 16) (first % 16) bs

unfoldable pub encode_content : ℕ → Packet → Result Bytes
encode_content max content = do
  let packet = packet_type content
  flags ← fixed_header_flags content
  validate_fixed_header_flags packet flags
  body ← encode_packet content
  reject (ltb max_remaining_length (length body))
      (malformed packet "remaining length" "remaining length exceeds MQTT maximum")
  size ← encode_remaining_length (length body)
  let total = 1 + length size + length body
  reject (exceeds max total) (too_large packet total max)
  ok (bit_or (packet * 16 % 256) flags ∷ (size ++ body))

unfoldable pub encode : ℕ → ControlPacket → Result Bytes
encode max p = elim p.content [
  | none ↦ err (implementation p.header.type "content" "nil packet content")
  | some content ↦ do
    reject (p.header.type != 0 && p.header.type != packet_type content)
        (implementation (packet_type content) "type" "control packet type does not match content")
    encode_content max content
]
