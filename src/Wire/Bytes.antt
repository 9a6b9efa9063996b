-- ===== src/Wire/Bytes.antt =====
-- pkg/mqtt5/wire/cursor.go: the fields that a packet is made of. A cursor is the bytes that it has
-- not read yet, `data[pos:]`, and its packet type is an argument: a read returns the value and the
-- rest. A write returns the bytes that it appends to the buffer, which no caller reads after an
-- error. An operation on bits is written as arithmetic on bytes, which are below 256: `a<<8 | b` as
-- 256 * a + b, `b & 127` as b % 128, `byte(v >> 8)` as v / 256 % 256.
pub mod RoundTrip
use Prim.Native.String.{◌++◌ as str_append}
use sky_tree.Common.{
  ℕ, ◌+◌, ◌*◌, ◌/◌, ◌%◌, String, Bool, true, false, not, Option, none, some, List, [], ◌∷◌, ◌++◌,
  ltb, if◌then◌else◌, length, take, drop,
}
use sky_tree.Mqtt5.PacketTypes.{PacketType}
use sky_tree.Mqtt5.Properties.{Bytes}
use sky_tree.Topic.Levels.{contains_byte}
use sky_tree.Wire.Errors.{Result, ok, err, malformed, reject, ◌>>=◌, ◌>>◌}
use sky_tree.Wire.Utf8.{utf8_valid}

unfoldable pub read_byte : PacketType → String → Bytes → Result (ℕ × Bytes)
read_byte packet field [] = err (malformed packet field "field is truncated")
read_byte packet field (b ∷ bs) = ok (b, bs)

unfoldable pub read_bytes : PacketType → String → ℕ → Bytes → Result (Bytes × Bytes)
read_bytes packet field n bs =
    if ltb (length bs) n
    then err (malformed packet field "field is truncated")
    else ok (take n bs, drop n bs)

unfoldable pub read_uint16 : PacketType → String → Bytes → Result (ℕ × Bytes)
read_uint16 packet field (a ∷ b ∷ bs) = ok (a * 256 + b, bs)
read_uint16 packet field _ = err (malformed packet field "field is truncated")

unfoldable pub read_uint32 : PacketType → String → Bytes → Result (ℕ × Bytes)
read_uint32 packet field (a ∷ b ∷ c ∷ d ∷ bs) = ok (((a * 256 + b) * 256 + c) * 256 + d, bs)
read_uint32 packet field _ = err (malformed packet field "field is truncated")

-- The copy is nil where it is empty: `slice_of` says so where a caller asks for nil.
unfoldable pub read_binary : PacketType → String → Bytes → Result (Bytes × Bytes)
read_binary packet field bs = do
  (n, bs₁) ← read_uint16 packet (str_append field " length") bs
  read_bytes packet field n bs₁

abbrev pub slice_of : Bytes → Option Bytes
slice_of [] = none
slice_of (b ∷ bs) = some (b ∷ bs)

unfoldable pub read_string : PacketType → String → Bytes → Result (Bytes × Bytes)
read_string packet field bs = do
  (s, rest) ← read_binary packet field bs
  reject (not (utf8_valid s)) (malformed packet field "malformed UTF-8 string")
  reject (contains_byte 0 s) (malformed packet field "UTF-8 string contains null character")
  ok (s, rest)

unfoldable pub write_uint16 : ℕ → Bytes
write_uint16 v = (v / 256 % 256) ∷ (v % 256) ∷ []

unfoldable pub write_uint32 : ℕ → Bytes
write_uint32 v = (v / 16777216 % 256) ∷ (v / 65536 % 256) ∷ (v / 256 % 256) ∷ (v % 256) ∷ []

unfoldable pub write_binary : PacketType → String → Bytes → Result Bytes
write_binary packet field value = do
  reject (ltb 65535 (length value))
      (malformed packet field "binary data exceeds two-byte length prefix")
  ok (write_uint16 (length value) ++ value)

unfoldable pub write_string : PacketType → String → Bytes → Result Bytes
write_string packet field value = do
  reject (ltb 65535 (length value))
      (malformed packet field "UTF-8 string exceeds two-byte length prefix")
  reject (not (utf8_valid value)) (malformed packet field "malformed UTF-8 string")
  reject (contains_byte 0 value) (malformed packet field "UTF-8 string contains null character")
  ok (write_uint16 (length value) ++ value)
