-- ===== src/Wire/Vbi.antt =====
-- The Variable Byte Integer: pkg/mqtt5/wire/vbi.go, `readVBI` of cursor.go, and
-- `readRemainingLength` and `encodeRemainingLength` of fixed_header.go. Both readers are one loop
-- over the rounds left, with the errors of each. Four rounds are enough: the largest value,
-- 268435455, is 128 ^ 4 - 1.
pub mod RoundTrip
use Prim.Native.String.{◌++◌ as str_append}
use sky_tree.Common.{
  ℕ, zero, suc, ◌+◌, ◌*◌, ◌/◌, ◌%◌, String, List, [], ◌∷◌, ltb, ◌==◌, ◌!=◌, if◌then◌else◌,
}
use sky_tree.Mqtt5.PacketTypes.{PacketType}
use sky_tree.Mqtt5.Properties.{Bytes}
use sky_tree.Wire.Errors.{Error, io, eof, Result, ok, err, malformed, map_error}

abbrev pub max_remaining_length : ℕ
max_remaining_length = 268435455

unfoldable pub minimal_vbi_bytes : ℕ → ℕ
minimal_vbi_bytes value =
    if ltb value 128 then 1 else if ltb value 16384 then 2 else if ltb value 2097152 then 3 else 4

pub record VbiErrors : Type 0 where
  pub truncated : Error
  pub too_large : Error
  pub not_minimal : Error
  pub too_long : Error

-- The value, its width and the rest.
unfoldable pub vbi_loop : VbiErrors → ℕ → ℕ → ℕ → ℕ → Bytes → Result (ℕ × ℕ × Bytes)
vbi_loop e zero width value multiplier bs = err e.too_long
vbi_loop e (suc rounds) width value multiplier [] = err e.truncated
vbi_loop e (suc rounds) width value multiplier (digit ∷ bs) =
    let value' = value + digit % 128 * multiplier in
    let next = vbi_loop e rounds (width + 1) value' (multiplier * 128) bs in
    if ltb max_remaining_length value'
    then err e.too_large
    else if digit / 128 == 0
    then (if width != minimal_vbi_bytes value' then err e.not_minimal else ok (value', width, bs))
    else next

abbrev pub field_errors : PacketType → String → VbiErrors
field_errors packet field = record {
  truncated = malformed packet field "field is truncated";
  too_large = malformed packet field "variable byte integer exceeds MQTT maximum";
  not_minimal = malformed packet field "variable byte integer is not minimally encoded";
  too_long = malformed packet field "malformed variable byte integer";
}

abbrev pub drop_width : Result (ℕ × ℕ × Bytes) → Result (ℕ × Bytes)
drop_width (ok (value, width, rest)) = ok (value, rest)
drop_width (err e) = err e

unfoldable pub read_vbi : PacketType → String → Bytes → Result (ℕ × Bytes)
read_vbi packet field bs = drop_width (vbi_loop (field_errors packet field) 4 1 0 1 bs)

abbrev pub header_errors : VbiErrors
header_errors = record {
  truncated = io eof;
  too_large = malformed 0 "remaining length" "remaining length exceeds MQTT maximum";
  not_minimal = malformed 0 "remaining length" "remaining length is not minimally encoded";
  too_long = malformed 0 "remaining length" "malformed variable byte integer";
}

unfoldable pub read_remaining_length : Bytes → Result (ℕ × ℕ × Bytes)
read_remaining_length bs = vbi_loop header_errors 4 1 0 1 bs

-- The rounds left are the fuel.
unfoldable pub vbi_digits : ℕ → ℕ → Bytes
vbi_digits zero n = []
vbi_digits (suc rounds) n =
    let next = vbi_digits rounds (n / 128) in
    if ltb 0 (n / 128) then (n % 128 + 128) ∷ next else (n % 128) ∷ []

unfoldable pub encode_remaining_length : ℕ → Result Bytes
encode_remaining_length n =
    if ltb max_remaining_length n
    then err (malformed 0 "remaining length" "remaining length exceeds MQTT maximum")
    else ok (vbi_digits 4 n)

unfoldable pub write_vbi : PacketType → String → ℕ → Result Bytes
write_vbi packet field n =
    map_error
      (λ _. malformed packet field "remaining length exceeds MQTT maximum (remaining length)")
      (encode_remaining_length n)
