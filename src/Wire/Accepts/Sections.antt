-- ===== src/Wire/Accepts/Sections.antt =====
-- The property section of pkg/mqtt5/wire/properties.go comes to an end.
use sky_tree.Common.{
  ℕ, zero, suc, ◌≤◌, ◌≢◌, String, Bool, true, false, not, ◌&&◌, Option, none, some, List, [], ◌∷◌,
  ltb, ◌==◌, arith, length, take, if◌then◌else◌,
}
use sky_tree.Mqtt5.Prop
use sky_tree.Mqtt5.PacketTypes.{PacketType}
use sky_tree.Mqtt5.Properties.{Bytes}
use sky_tree.Topic.Levels.{is_empty, contains_wildcard}
use sky_tree.Wire.Errors.{Error, out_of_fuel, Result, reject}
use sky_tree.Wire.Bytes.{read_byte, read_uint16, read_uint32, read_binary, read_string}
use sky_tree.Wire.Vbi.{read_vbi}
use sky_tree.Wire.Properties.Spec.{
  PropertySpec, PropertyValueType, byte, two_byte_integer, four_byte_integer, variable_byte_integer,
  binary_data, utf8_string, string_pair, property_spec, packet_allowed, property_repeat_allowed,
}
use sky_tree.Wire.Properties.{
  PropertyStruct, PropertyValue, read_typed, read_property_value, validate_topic_name,
  validate_property_value, or_unknown, is_boolean, decode_property, decode_loop, decode_section,
  decode_properties, mem,
}
use sky_tree.Wire.Accepts.Reads.{
  Ends, Ends-err, Leaves, Ends->>=, Ends-reject, Ends-ok, malformed-≢, read_byte-Ends,
  read_uint16-Ends, read_uint32-Ends, read_binary-Ends, read_string-Ends, read_vbi-Ends,
  length-drop,
}

abbrev pub Anything : {A : Type 0} → A → Type 0
Anything a = Unit

pub reject-Ends : (t : Bool) (e : Error) → e ≢ out_of_fuel → Ends Anything (reject t e)
unfolding Ends
reject-Ends true e h = h
reject-Ends false e h = tt

module _ (packet : PacketType) where
  read_typed-Ends :
      (name : String) (type : PropertyValueType) (bs : Bytes) (n : ℕ)
      → length bs ≤ suc n
      → Ends (Leaves n) (read_typed packet name type bs)
  unfolding read_typed
  read_typed-Ends name byte bs n h =
      Ends->>= (Leaves n) (Leaves n) (read_byte packet _ bs) _ (read_byte-Ends packet _ bs n h)
        λ p left. Ends-ok (Leaves n) _ left
  read_typed-Ends name two_byte_integer bs n h =
      Ends->>= (Leaves n) (Leaves n) (read_uint16 packet _ bs) _ (read_uint16-Ends packet _ bs n h)
        λ p left. Ends-ok (Leaves n) _ left
  read_typed-Ends name four_byte_integer bs n h =
      Ends->>= (Leaves n) (Leaves n) (read_uint32 packet _ bs) _ (read_uint32-Ends packet _ bs n h)
        λ p left. Ends-ok (Leaves n) _ left
  read_typed-Ends name variable_byte_integer bs n h =
      Ends->>= (Leaves n) (Leaves n) (read_vbi packet _ bs) _ (read_vbi-Ends packet _ bs n h)
        λ p left. Ends-ok (Leaves n) _ left
  read_typed-Ends name binary_data bs n h =
      Ends->>= (Leaves n) (Leaves n) (read_binary packet _ bs) _ (read_binary-Ends packet _ bs n h)
        λ p left. Ends-ok (Leaves n) _ left
  read_typed-Ends name utf8_string bs n h =
      Ends->>= (Leaves n) (Leaves n) (read_string packet _ bs) _ (read_string-Ends packet _ bs n h)
        λ p left. Ends-ok (Leaves n) _ left
  read_typed-Ends name string_pair bs n h =
      Ends->>= (Leaves n) (Leaves n) (read_string packet _ bs) _ (read_string-Ends packet _ bs n h)
        λ p left.
          Ends->>= (Leaves n) (Leaves n) (read_string packet _ p.1) _
            (read_string-Ends packet _ p.1 n (omega arith)) λ q left'. Ends-ok (Leaves n) _ left'

  pub validate_topic_name-Ends :
      (field : String) (topic : Bytes) → Ends Anything (validate_topic_name packet field topic)
  unfolding validate_topic_name
  validate_topic_name-Ends field topic =
      Ends-reject Anything (is_empty topic) _ _ (malformed-≢ packet field _)
        (reject-Ends (contains_wildcard topic) _ (malformed-≢ packet field _))

  Ends-if :
      {A : Type 0} (P : A → Type 0) (t : Bool) (x y : Result A)
      → Ends P x
      → Ends P y
      → Ends P (if t then x else y)
  Ends-if P true x y h k = h
  Ends-if P false x y h k = k

  validate_property_value-Ends :
      (spec : PropertySpec) (value : PropertyValue)
      → Ends Anything (validate_property_value packet spec value)
  unfolding validate_property_value
  validate_property_value-Ends spec value =
      let no = malformed-≢ packet spec.name in
      Ends-if _ (is_boolean spec.id) _ _ (reject-Ends _ _ (no _)) (
        Ends-if _ (spec.id == Prop.maximum_qos) _ _ (reject-Ends _ _ (no _)) (
          Ends-if _ (spec.id == Prop.receive_maximum) _ _ (reject-Ends _ _ (no _)) (
            Ends-if _ (spec.id == Prop.topic_alias) _ _ (reject-Ends _ _ (no _)) (
              Ends-if _ (spec.id == Prop.maximum_packet_size) _ _ (reject-Ends _ _ (no _)) (
                Ends-if _ (spec.id == Prop.subscription_identifier) _ _ (reject-Ends _ _ (no _)) (
                  Ends-if _ (spec.id == Prop.response_topic) _ _ (validate_topic_name-Ends _ _)
                    (Ends-ok Anything tt tt)))))))

  or_unknown-Ends : (o : Option PropertySpec) → Ends Anything (or_unknown packet o)
  or_unknown-Ends none = Ends-err _ _ (malformed-≢ packet _ _)
  or_unknown-Ends (some spec) = Ends-ok Anything spec tt

module _ {S : Type 0} ⦃struct : PropertyStruct S⦄ (packet : PacketType) where
  decode_property-Ends :
      (seen : List ℕ) (props : S) (bs : Bytes) (n : ℕ)
      → length bs ≤ suc n
      → Ends (λ (r : List ℕ × S × Bytes). length r.2 ≤ n) (decode_property packet seen props bs)
  unfolding decode_property read_property_value
  decode_property-Ends seen props bs n h =
      let Q : List ℕ × S × Bytes → Type 0 = λ r. length r.2 ≤ n in
      Ends->>= (Leaves n) Q (read_byte packet _ bs) _ (read_byte-Ends packet _ bs n h) λ p left.
        Ends->>= Anything Q (or_unknown packet (property_spec p.0)) _
          (or_unknown-Ends packet (property_spec p.0))
          λ spec _. Ends-reject Q (not (packet_allowed spec packet)) _ _ (malformed-≢ packet _ _) (
            Ends-reject Q (not (property_repeat_allowed spec packet) && mem p.0 seen) _ _
              (malformed-≢ packet _ _)
              (Ends->>= (Leaves n) Q (read_typed packet spec.name spec.type p.1) _
                (read_typed-Ends packet _ _ p.1 n (omega arith))
                λ q left'.
                  Ends->>= Anything Q (validate_property_value packet spec q.0) _
                    (validate_property_value-Ends packet spec q.0) λ u _. Ends-ok Q _ left'))

  decode_loop-Ends :
      (rounds : ℕ) (seen : List ℕ) (props : S) (bs : Bytes)
      → length bs ≤ rounds
      → Ends Anything (decode_loop packet rounds seen props bs)
  unfolding decode_loop
  decode_loop-Ends zero seen props [] h = Ends-ok Anything props tt
  decode_loop-Ends (suc rounds) seen props [] h = Ends-ok Anything props tt
  decode_loop-Ends zero seen props (b ∷ bs) h = absurd (omega arith)
  decode_loop-Ends (suc rounds) seen props (b ∷ bs) h =
      Ends->>= (λ (r : List ℕ × S × Bytes). length r.2 ≤ rounds) Anything
        (decode_property packet seen props (b ∷ bs)) _
        (decode_property-Ends seen props (b ∷ bs) rounds h)
        λ r left. decode_loop-Ends rounds r.0 r.1 r.2 left

length-take_bound : (k : ℕ) (bs : Bytes) → length (take k bs) ≤ k
length-take_bound zero bs = omega arith
length-take_bound (suc k) [] = omega arith
length-take_bound (suc k) (b ∷ bs) = omega (arith, length-take_bound k bs)

module _ (S : Type 0) ⦃struct : PropertyStruct S⦄ (packet : PacketType) where
  pub decode_properties-Ends :
      (bs : Bytes) (n : ℕ)
      → length bs ≤ suc n
      → Ends (Leaves n) (decode_properties {S = S} packet bs)
  unfolding decode_properties decode_section
  decode_properties-Ends bs n h =
      Ends->>= (Leaves n) (Leaves n) (read_vbi packet _ bs) _ (read_vbi-Ends packet _ bs n h)
        λ p left. Ends-reject (Leaves n) (ltb (length p.1) p.0) _ _ (malformed-≢ packet _ _) (
          Ends->>= Anything (Leaves n) (decode_loop packet p.0 [] struct.empty (take p.0 p.1)) _
            (decode_loop-Ends packet p.0 [] struct.empty (take p.0 p.1) (length-take_bound p.0 p.1))
            λ props _. Ends-ok (Leaves n) _ (omega (arith, length-drop p.0 p.1)))
