-- ===== src/Wire/RoundTrip/Stream.antt =====
-- A whole packet on the stream: its first byte, its size, and that it is read back.
use sky_tree.Common.{
  ℕ, zero, suc, ◌+◌, ◌*◌, ◌/◌, ◌%◌, ◌<◌, ◌≤◌, ◌≡◌, refl, ap, subst, Bool, true, false, ◌&&◌, ◌||◌,
  some, ◌∷◌, ◌++◌, ◌!=◌, ltb, arith, bit_or, append_assoc, if◌then◌else◌, length, length-append,
  take-append, drop-append,
}
use sky_tree.Mqtt5.PacketTypes.{PacketType}
use sky_tree.Mqtt5.Properties.{Bytes}
use sky_tree.Mqtt5.Packet.{Packet, Publish as PublishPacket, FixedHeader, packet_type}
use sky_tree.Topic.Levels.{is_empty}
use sky_tree.Wire.Errors.{ok, >>=-eq-ok, reject-eq-ok}
use sky_tree.Wire.Decode.{decode_packet}
use sky_tree.Wire.Encode.{encode_packet}
use sky_tree.Wire.FixedHeader.{fixed_header_flags, validate_fixed_header_flags, publish_flags}
use sky_tree.Wire.Frame.{read_full, decode_frame, decode, encode_content, encode, exceeds}
use sky_tree.Wire.Properties.Structs.{connack_properties, disconnect_properties, auth_properties}
use sky_tree.Wire.RoundTrip.Publish.{IsPublish}
use sky_tree.Wire.Vbi.{
  max_remaining_length, read_remaining_length, encode_remaining_length, vbi_digits, header_errors,
  minimal_vbi_bytes,
}
use sky_tree.Wire.Vbi.RoundTrip.{vbi_loop-vbi_digits, length-vbi_digits}
use sky_tree.Wire.RoundTrip.Frame.{
  IsPacket, received, fixed_header_flags-publish, decode_content-encode_packet,
}

-- The first byte holds the packet type and the flags.
publish_bits : ℕ → Bool → Bool → ℕ
publish_bits qos duplicate retain =
    let dup = if duplicate then bit_or (qos * 2 % 256) 0x08 else qos * 2 % 256 in
    if retain then bit_or dup 0x01 else dup

flag_bits :
    (qos : ℕ) (duplicate retain : Bool)
    → qos < 3
    → let flags = publish_bits qos duplicate retain in
      let first = bit_or 48 flags in (first / 16 ≡ 3) × (first % 16 ≡ flags)
unfolding publish_bits
flag_bits zero false false h = (refl, refl)
flag_bits zero false true h = (refl, refl)
flag_bits zero true false h = (refl, refl)
flag_bits zero true true h = (refl, refl)
flag_bits (suc zero) false false h = (refl, refl)
flag_bits (suc zero) false true h = (refl, refl)
flag_bits (suc zero) true false h = (refl, refl)
flag_bits (suc zero) true true h = (refl, refl)
flag_bits (suc (suc zero)) false false h = (refl, refl)
flag_bits (suc (suc zero)) false true h = (refl, refl)
flag_bits (suc (suc zero)) true false h = (refl, refl)
flag_bits (suc (suc zero)) true true h = (refl, refl)
flag_bits (suc (suc (suc n))) duplicate retain h = absurd (omega arith)

publish_byte :
    (p : PublishPacket)
    → p.qos < 3
    → let first = bit_or 48 (publish_flags p) in (first / 16 ≡ 3) × (first % 16 ≡ publish_flags p)
unfolding publish_flags publish_bits
publish_byte p h = flag_bits p.qos p.duplicate p.retain h

IsFirst : PacketType → ℕ → Type 0
IsFirst packet flags =
    let first = bit_or (packet * 16 % 256) flags in (first / 16 ≡ packet) × (first % 16 ≡ flags)

qos_of : (p : PublishPacket) → IsPublish p → p.qos < 3
qos_of p fits = fits.qos

fixed_flags :
    (packet flags constant : ℕ)
    → IsFirst packet constant
    → ok constant ≡ ok flags
    → IsFirst packet flags
fixed_flags packet flags constant h e =
    let same : constant ≡ flags = cc in subst (λ f. IsFirst packet f) same h

bit_or-IsFirst :
    (p : Packet) (flags : ℕ)
    → IsPacket p
    → fixed_header_flags p ≡ ok flags
    → IsFirst (packet_type p) flags
unfolding IsFirst fixed_header_flags
bit_or-IsFirst (Packet.publish p) flags fits h =
    subst (λ f. IsFirst 3 f) (fixed_header_flags-publish p flags h) (publish_byte p (qos_of p fits))
bit_or-IsFirst (Packet.connect p) flags fits h = fixed_flags 1 flags 0 (refl, refl) h
bit_or-IsFirst (Packet.connack p) flags fits h = fixed_flags 2 flags 0 (refl, refl) h
bit_or-IsFirst (Packet.puback p) flags fits h = fixed_flags 4 flags 0 (refl, refl) h
bit_or-IsFirst (Packet.pubrec p) flags fits h = fixed_flags 5 flags 0 (refl, refl) h
bit_or-IsFirst (Packet.pubrel p) flags fits h = fixed_flags 6 flags 2 (refl, refl) h
bit_or-IsFirst (Packet.pubcomp p) flags fits h = fixed_flags 7 flags 0 (refl, refl) h
bit_or-IsFirst (Packet.subscribe p) flags fits h = fixed_flags 8 flags 2 (refl, refl) h
bit_or-IsFirst (Packet.suback p) flags fits h = fixed_flags 9 flags 0 (refl, refl) h
bit_or-IsFirst (Packet.unsubscribe p) flags fits h = fixed_flags 10 flags 2 (refl, refl) h
bit_or-IsFirst (Packet.unsuback p) flags fits h = fixed_flags 11 flags 0 (refl, refl) h
bit_or-IsFirst Packet.pingreq flags fits h = fixed_flags 12 flags 0 (refl, refl) h
bit_or-IsFirst Packet.pingresp flags fits h = fixed_flags 13 flags 0 (refl, refl) h
bit_or-IsFirst (Packet.disconnect p) flags fits h = fixed_flags 14 flags 0 (refl, refl) h
bit_or-IsFirst (Packet.auth p) flags fits h = fixed_flags 15 flags 0 (refl, refl) h

ltb-+ : (m n : ℕ) → ltb (m + n) m ≡ false
ltb-+ m n = ground arith

read_full_lem : (body rest : Bytes) → read_full (length body) (body ++ rest) ≡ ok (body, rest)
unfolding read_full
read_full_lem body rest = rw (
  take-append body rest,
  drop-append body rest,
  length-append body rest,
  ltb-+ (length body) (length rest),
)

decode_packet-encode_packet :
    (p : Packet) (flags : ℕ) (body : Bytes)
    → IsPacket p
    → fixed_header_flags p ≡ ok flags
    → encode_packet p ≡ ok body
    → decode_packet (packet_type p) flags body ≡ ok (received p)
unfolding decode_packet is_empty
decode_packet-encode_packet p flags body fits f h =
    rw (decode_content-encode_packet p flags body fits f h)

known_type : (p : Packet) → (ltb (packet_type p) 1 || ltb 15 (packet_type p)) ≡ false
known_type (Packet.connect p) = refl
known_type (Packet.connack p) = refl
known_type (Packet.publish p) = refl
known_type (Packet.puback p) = refl
known_type (Packet.pubrec p) = refl
known_type (Packet.pubrel p) = refl
known_type (Packet.pubcomp p) = refl
known_type (Packet.subscribe p) = refl
known_type (Packet.suback p) = refl
known_type (Packet.unsubscribe p) = refl
known_type (Packet.unsuback p) = refl
known_type Packet.pingreq = refl
known_type Packet.pingresp = refl
known_type (Packet.disconnect p) = refl
known_type (Packet.auth p) = refl

-- What a packet that is written consists of.
pub record IsFrame (max : ℕ) (p : Packet) (bs : Bytes) : Type 0 where
  pub flags : ℕ
  pub body : Bytes
  pub fixed : fixed_header_flags p ≡ ok flags
  pub valid : validate_fixed_header_flags (packet_type p) flags ≡ ok tt
  pub encoded : encode_packet p ≡ ok body
  pub fits : length body ≤ max_remaining_length
  pub size : exceeds max (1 + minimal_vbi_bytes (length body) + length body) ≡ false
  pub frame : bs ≡ bit_or (packet_type p * 16 % 256) flags ∷ (vbi_digits 4 (length body) ++ body)

encode_remaining_length-eq-ok :
    (n : ℕ) (bs : Bytes)
    → encode_remaining_length n ≡ ok bs
    → (n ≤ max_remaining_length) × (bs ≡ vbi_digits 4 n)
unfolding encode_remaining_length
encode_remaining_length-eq-ok n bs h = ground arith

frame_of :
    (first : ℕ) (digits ds body bs : Bytes)
    → digits ≡ ds
    → ok (first ∷ (digits ++ body)) ≡ ok bs
    → bs ≡ first ∷ (ds ++ body)
frame_of first digits ds body bs same h = cc

pub encode_content-IsFrame :
    (max : ℕ) (p : Packet) (bs : Bytes) → encode_content max p ≡ ok bs → IsFrame max p bs
unfolding encode_content
encode_content-IsFrame max p bs h =
    let (flags, fixed, h₁) = >>=-eq-ok (fixed_header_flags p) _ h in
    let (u, valid, h₂) = >>=-eq-ok (validate_fixed_header_flags (packet_type p) flags) _ h₁ in
    let (body, encoded, h₃) = >>=-eq-ok (encode_packet p) _ h₂ in
    let (short, h₄) = reject-eq-ok (ltb max_remaining_length (length body)) _ _ h₃ in
    let (digits, sized, h₅) = >>=-eq-ok (encode_remaining_length (length body)) _ h₄ in
    let (fits, same) = encode_remaining_length-eq-ok (length body) digits sized in
    let (limit, h₆) = reject-eq-ok (exceeds max (1 + length digits + length body)) _ _ h₅ in
    let width : length digits ≡ minimal_vbi_bytes (length body) =
      rw (same, length-vbi_digits (length body) fits) in
    record {
      flags = flags;
      body = body;
      fixed = fixed;
      valid = valid;
      encoded = encoded;
      fits = fits;
      size = subst (λ w. exceeds max (1 + w + length body) ≡ false) width limit;
      frame = frame_of _ digits _ body bs same h₆;
    }

-- The first byte, the size and the body are read back one after the other.
decode_frame-IsFrame :
    (max : ℕ) (p : Packet) (flags : ℕ) (body rest : Bytes)
    → IsPacket p
    → fixed_header_flags p ≡ ok flags
    → validate_fixed_header_flags (packet_type p) flags ≡ ok tt
    → encode_packet p ≡ ok body
    → length body ≤ max_remaining_length
    → exceeds max (1 + minimal_vbi_bytes (length body) + length body) ≡ false
    → decode_frame max (packet_type p) flags (vbi_digits 4 (length body) ++ (body ++ rest))
      ≡ ok (
        record {
          content = some (received p);
          header = record { type = packet_type p; flags = flags; remaining_length = length body };
        },
        rest,
      )
unfolding decode_frame read_remaining_length
decode_frame-IsFrame max p flags body rest ranges fixed valid encoded fits size = rw (
  known_type p,
  valid,
  vbi_loop-vbi_digits header_errors (body ++ rest) (length body) fits,
  size,
  read_full_lem body rest,
  decode_packet-encode_packet p flags body ranges fixed encoded,
)

pub decode-IsFrame :
    (max : ℕ) (p : Packet) (bs rest : Bytes)
    → IsPacket p
    → (frame : IsFrame max p bs)
    → decode max (bs ++ rest)
      ≡ ok (
        record {
          content = some (received p);
          header = record {
            type = packet_type p;
            flags = frame.flags;
            remaining_length = length frame.body;
          };
        },
        rest,
      )
unfolding decode IsFirst
decode-IsFrame max p bs rest ranges frame =
    let (high, low) = bit_or-IsFirst p frame.flags ranges frame.fixed in
    rw (
      frame.frame,
      append_assoc (vbi_digits 4 (length frame.body)) frame.body rest,
      high,
      low,
      decode_frame-IsFrame max p frame.flags frame.body rest ranges frame.fixed frame.valid
          frame.encoded frame.fits frame.size,
    )

encode-encode_content :
    (max : ℕ) (content : Packet) (header : FixedHeader) (bs : Bytes)
    → encode max (record { content = some content; header = header }) ≡ ok bs
    → encode_content max content ≡ ok bs
unfolding encode
encode-encode_content max content header bs h =
    (reject-eq-ok (header.type != 0 && header.type != packet_type content) _ _ h).1

pub length-IsFrame :
    (max : ℕ) (p : Packet) (bs : Bytes) (frame : IsFrame max p bs)
    → length bs ≡ 1 + minimal_vbi_bytes (length frame.body) + length frame.body
length-IsFrame max p bs frame =
    let digits = length-vbi_digits (length frame.body) frame.fits in
    let joined = length-append (vbi_digits 4 (length frame.body)) frame.body in
    let whole = ap (λ (xs : Bytes). length xs) frame.frame in omega (arith, whole, joined, digits)

-- A packet whose fields are in the ranges of their Go types, whose PUBLISH has a QoS below 3 and
-- whose binary properties are not present and empty: if `Encode` accepts it, `Decode` reads it back
-- from the front of the stream, whatever follows, as `received` describes it, which makes absent
-- properties empty and what a flag of CONNECT leaves out zero. The header tells its type, its flags
-- and its body's length, and the bytes written are the first byte, that length and the body.
pub decode-encode :
    (max : ℕ) (content : Packet) (header : FixedHeader) (bs rest : Bytes)
    → IsPacket content
    → encode max (record { content = some content; header = header }) ≡ ok bs
    → (flags : ℕ) × (n : ℕ) × (fixed_header_flags content ≡ ok flags)
      × (length bs ≡ 1 + minimal_vbi_bytes n + n)
      × (decode max (bs ++ rest)
          ≡ ok (
            record {
              content = some (received content);
              header = record { type = packet_type content; flags = flags; remaining_length = n };
            },
            rest,
          ))
decode-encode max content header bs rest ranges h =
    let frame =
      encode_content-IsFrame max content bs (encode-encode_content max content header bs h) in
    (
      frame.flags,
      length frame.body,
      frame.fixed,
      length-IsFrame max content bs frame,
      decode-IsFrame max content bs rest ranges frame,
    )

size_bound :
    (max l n : ℕ)
    → n ≤ max_remaining_length
    → exceeds max (1 + minimal_vbi_bytes n + n) ≡ false
    → l ≡ 1 + minimal_vbi_bytes n + n
    → (l ≤ 5 + max_remaining_length) × ((0 < max) → l ≤ max)
unfolding minimal_vbi_bytes
size_bound max l n fits size same = ground arith

-- What `Encode` writes is no longer than the limit, where there is one, and never longer than
-- the largest MQTT packet.
pub length-encode :
    (max : ℕ) (content : Packet) (header : FixedHeader) (bs : Bytes)
    → encode max (record { content = some content; header = header }) ≡ ok bs
    → (length bs ≤ 5 + max_remaining_length) × ((0 < max) → length bs ≤ max)
length-encode max content header bs h =
    let frame =
      encode_content-IsFrame max content bs (encode-encode_content max content header bs h) in
    let same = length-IsFrame max content bs frame in
    size_bound max (length bs) (length frame.body) frame.fits frame.size same
