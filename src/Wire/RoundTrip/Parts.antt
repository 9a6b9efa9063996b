-- ===== src/Wire/RoundTrip/Parts.antt =====
-- The parts that the packets share.
use sky_tree.Common.{ℕ, ◌<◌, ◌≡◌, refl, false, Option, none, some, [], ◌++◌, ◌==◌, arith}
use sky_tree.Mqtt5.PacketTypes.{PacketType}
use sky_tree.Mqtt5.Properties.{Bytes}
use sky_tree.Wire.Errors.{Result, ok, err}
use sky_tree.Wire.Bytes.{write_uint16}
use sky_tree.Wire.Bytes.RoundTrip.{read_uint16-write_uint16}
use sky_tree.Wire.Decode.{read_packet_id}
use sky_tree.Wire.Properties.{PropertyStruct, encode_properties, decode_properties}
use sky_tree.Wire.Properties.Append.{◌⨾◌}
use sky_tree.Wire.Properties.Loads.{Loads, Loads-nil}
use sky_tree.Wire.Properties.Section.{or_empty, decode_properties-encode_properties}

-- The two halves of a sequence of writes that succeeds.
pub ⨾-eq-ok :
    (w w' : Result Bytes) (bs : Bytes)
    → w ⨾ w' ≡ ok bs
    → (xs : Bytes) × (ys : Bytes) × (w ≡ ok xs) × (w' ≡ ok ys) × (bs ≡ xs ++ ys)
unfolding ◌⨾◌
⨾-eq-ok (ok xs) (ok ys) bs h = (xs, ys, refl, refl, ground arith)
⨾-eq-ok (ok xs) (err e) bs h = cc
⨾-eq-ok (err e) w' bs h = cc

-- A packet identifier that an encoder accepts is read back.
pub read_packet_id-write_uint16 :
    (packet : PacketType) (id : ℕ) (rest : Bytes)
    → id < 65536
    → (id == 0) ≡ false
    → read_packet_id packet (write_uint16 id ++ rest) ≡ ok (id, rest)
unfolding read_packet_id
read_packet_id-write_uint16 packet id rest fits e =
    rw (read_uint16-write_uint16 packet "packet identifier" rest id fits, e)

module _ {S : Type 0} ⦃struct : PropertyStruct S⦄ where
  -- What a struct that is there satisfies.
  abbrev pub AllOf : (S → Type 0) → Option S → Type 0
  AllOf P none = Unit
  AllOf P (some props) = P props

  pub section :
      (packet : PacketType) (Fits : S → Type 0)
      → ((p : S) → Fits p → Loads packet [] struct.empty (struct.append packet p) p)
      → (props : Option S) (bs rest : Bytes) → AllOf Fits props
      → encode_properties packet props ≡ ok bs
      → decode_properties packet (bs ++ rest) ≡ ok (or_empty props, rest)
  section packet Fits loads none bs rest fits =
      decode_properties-encode_properties packet none bs rest (Loads-nil packet [] struct.empty)
  section packet Fits loads (some p) bs rest fits =
      decode_properties-encode_properties packet (some p) bs rest (loads p fits)
