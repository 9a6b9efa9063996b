-- ===== src/Wire/Bytes/RoundTrip.antt =====
-- Each field of cursor.go is read back as it was written.
use Prim.Native.String.{◌++◌ as str_append}
use sky_tree.Common.{
  ℕ, ◌<◌, ◌≡◌, String, ◌++◌, append_assoc, true, false, arith, length, take-append, drop-append,
  length-append,
}
use sky_tree.Mqtt5.PacketTypes.{PacketType}
use sky_tree.Mqtt5.Properties.{Bytes}
use sky_tree.Topic.Levels.{contains_byte}
use sky_tree.Wire.Utf8.{utf8_valid}
use sky_tree.Wire.Errors.{ok}
use sky_tree.Wire.Bytes.{
  read_uint16, read_uint32, read_bytes, read_binary, read_string, write_uint16, write_uint32,
  write_binary, write_string,
}

uint16_lem :
    (packet : PacketType) (field : String) (rest : Bytes) (v : ℕ)
    → v < 65536
    → read_uint16 packet field (write_uint16 v ++ rest) ≡ ok (v, rest)
unfolding read_uint16 write_uint16
uint16_lem packet field rest v h = ground arith

pub write_binary-eq-ok :
    (packet : PacketType) (field : String) (value bs : Bytes)
    → write_binary packet field value ≡ ok bs
    → (length value < 65536) × (bs ≡ write_uint16 (length value) ++ value)
unfolding write_binary
write_binary-eq-ok packet field value bs h = ground arith

pub write_string-eq-ok :
    (packet : PacketType) (field : String) (value bs : Bytes)
    → write_string packet field value ≡ ok bs
    → (length value < 65536)
      × (utf8_valid value ≡ true)
      × (contains_byte 0 value ≡ false)
      × (bs ≡ write_uint16 (length value) ++ value)
unfolding write_string
write_string-eq-ok packet field value bs h = ground arith

module _ (packet : PacketType) (field : String) (rest : Bytes) where
  pub read_uint16-write_uint16 :
      (v : ℕ) → v < 65536 → read_uint16 packet field (write_uint16 v ++ rest) ≡ ok (v, rest)
  unfolding read_uint16 write_uint16
  read_uint16-write_uint16 = uint16_lem packet field rest

  pub read_uint32-write_uint32 :
      (v : ℕ) → v < 4294967296 → read_uint32 packet field (write_uint32 v ++ rest) ≡ ok (v, rest)
  unfolding read_uint32 write_uint32
  read_uint32-write_uint32 v h = ground arith

  pub read_bytes-append :
      (bs : Bytes) → read_bytes packet field (length bs) (bs ++ rest) ≡ ok (bs, rest)
  unfolding read_bytes
  read_bytes-append bs =
      ground (arith, length-append bs rest, take-append bs rest, drop-append bs rest)

  pub read_binary-length :
      (bs : Bytes)
      → length bs < 65536
      → read_binary packet field (write_uint16 (length bs) ++ (bs ++ rest)) ≡ ok (bs, rest)
  unfolding read_binary
  read_binary-length bs h = rw (read_uint16-write_uint16') (read_bytes-append bs)
    where
      read_uint16-write_uint16' :
          read_uint16 packet (str_append field " length") (write_uint16 (length bs) ++ (bs ++ rest))
          ≡ ok (length bs, bs ++ rest)
      read_uint16-write_uint16' =
          uint16_lem packet (str_append field " length") (bs ++ rest) (length bs) h

  pub read_binary-write_binary :
      (written : String) (value bs : Bytes)
      → write_binary packet written value ≡ ok bs
      → read_binary packet field (bs ++ rest) ≡ ok (value, rest)
  read_binary-write_binary written value bs h =
      let (fits, e) = write_binary-eq-ok packet written value bs h in
      rw (e, append_assoc) (read_binary-length value fits)

  pub read_string-write_string :
      (written : String) (value bs : Bytes)
      → write_string packet written value ≡ ok bs
      → read_string packet field (bs ++ rest) ≡ ok (value, rest)
  unfolding read_string
  read_string-write_string written value bs h =
      let (fits, valid, clean, e) = write_string-eq-ok packet written value bs h in
      rw (e, append_assoc, read_binary-length value fits, valid, clean)
