-- ===== src/Wire/Properties/Section.antt =====
-- The property section of a packet, its length included, is read back as it was written.
use sky_tree.Common.{
  ◌≡◌, Option, none, some, [], ◌++◌, append_assoc, arith, length, length-append, take-append, take,
  drop, ltb, false, drop-append,
}
use sky_tree.Mqtt5.PacketTypes.{PacketType}
use sky_tree.Mqtt5.Properties.{Bytes}
use sky_tree.Wire.Errors.{ok, >>=-eq-ok}
use sky_tree.Wire.Vbi.{write_vbi}
use sky_tree.Wire.Vbi.RoundTrip.{read_vbi-write_vbi}
use sky_tree.Wire.Properties.{
  PropertyStruct, decode_loop, decode_section, decode_properties, append_properties,
  encode_properties,
}
use sky_tree.Wire.Properties.Loads.{Loads}

-- A struct that is not there is read as the empty one.
abbrev pub or_empty : {S : Type 0} ⦃struct : PropertyStruct S⦄ → Option S → S
or_empty ⦃struct⦄ none = struct.empty
or_empty (some props) = props

module _ {S : Type 0} ⦃struct : PropertyStruct S⦄ (packet : PacketType) where
  -- What is left of the decoder after the length.
  read_section :
      (body rest : Bytes) (props : S)
      → decode_loop packet (length body) [] struct.empty body ≡ ok props
      → decode_section packet (length body) (body ++ rest) ≡ ok (props, rest)
  unfolding decode_section
  read_section body rest props run =
      let fits : ltb (length (body ++ rest)) (length body) ≡ false =
        ground (arith, length-append body rest) in
      rw (fits, take-append, take, drop, ltb, false, run, drop-append)

  pub decode_properties-encode_properties :
      (props : Option S) (bs rest : Bytes)
      → Loads packet [] struct.empty (append_properties packet props) (or_empty props)
      → encode_properties packet props ≡ ok bs
      → decode_properties packet (bs ++ rest) ≡ ok (or_empty props, rest)
  unfolding encode_properties decode_properties
  decode_properties-encode_properties props bs rest loads h =
      let (body, e₁, h₁) = >>=-eq-ok (append_properties packet props) _ h in
      let (size, e₂, h₂) = >>=-eq-ok (write_vbi packet "property length" (length body)) _ h₁ in
      let split : bs ≡ size ++ body = cc in
      let run = loads.loads body [] (length body) e₁ (λ id e. e) (omega arith) in
      rw
        (
          split,
          append_assoc,
          read_vbi-write_vbi packet "property length" "property length" _ size (body ++ rest) e₂,
        )
        (read_section body rest _ run)
