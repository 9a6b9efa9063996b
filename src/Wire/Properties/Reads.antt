-- ===== src/Wire/Properties/Reads.antt =====
-- A property that was written is read back: what the writers of one property append is one round
-- of the decoding loop.
use Prim.Native.String.{◌++◌ as str_append}
use sky_tree.Common.{
  ℕ, ◌<◌, ◌≡◌, refl, subst, ap, sym, ◌∙◌, String, true, false, not, ◌&&◌, some, List, [], ◌∷◌, ◌++◌,
  append_assoc, arith,
}
use sky_tree.Mqtt5.Prop
use sky_tree.Mqtt5.PacketTypes.{PacketType}
use sky_tree.Mqtt5.Properties.{Bytes, User}
use sky_tree.Wire.Errors.{Result, ok, >>=-eq-ok, ◌>>=◌, ◌>>◌}
use sky_tree.Wire.Bytes.{read_byte, write_uint16, write_uint32, write_string, write_binary}
use sky_tree.Wire.Bytes.RoundTrip.{
  read_uint16-write_uint16, read_uint32-write_uint32, read_binary-write_binary,
  read_string-write_string,
}
use sky_tree.Wire.Vbi.{write_vbi}
use sky_tree.Wire.Vbi.RoundTrip.{read_vbi-write_vbi}
use sky_tree.Wire.Properties.{
  PropertyValue, PropertyStruct, zero_value, read_typed, read_property_value,
  validate_property_value, decode_property, mem, mark,
}
use sky_tree.Wire.Properties.Append.{
  append_property_header, append_prop_byte, append_prop_uint16, append_prop_uint32, append_prop_vbi,
  append_prop_binary, append_prop_string, append_user_property,
}
use sky_tree.Wire.Properties.Spec.{
  PropertySpec, PropertyValueType, byte, two_byte_integer, four_byte_integer, variable_byte_integer,
  binary_data, utf8_string, string_pair, property_spec, packet_allowed, property_repeat_allowed,
}

module _ (packet : PacketType) where
  -- `bs` is the property `id` with `value`, as the decoder reads it.
  pub record Reads (id : ℕ) (value : PropertyValue) (bs : Bytes) : Type 0 where
    pub body : Bytes
    pub split : bs ≡ id ∷ body
    pub spec : PropertySpec
    pub found : property_spec id ≡ some spec
    pub allowed : packet_allowed spec packet ≡ true
    pub reads : (rest : Bytes) → read_property_value packet spec (body ++ rest) ≡ ok (value, rest)
    pub valid : validate_property_value packet spec value ≡ ok tt

  header-eq-ok :
      (id : ℕ) (spec : PropertySpec)
      → append_property_header packet id ≡ ok spec
      → (property_spec id ≡ some spec) × (packet_allowed spec packet ≡ true)
  unfolding append_property_header
  header-eq-ok id spec h = ground arith

  -- The common shape of the writers.
  module _ (id : ℕ) (s : PropertySpec) (e : property_spec id ≡ some s) where
    written-Reads :
        (value : PropertyValue) (type : PropertyValueType) (spec : PropertySpec) (body bs : Bytes)
        → s.type ≡ type
        → append_property_header packet id ≡ ok spec
        → validate_property_value packet spec value ≡ ok tt
        → ((name : String) (rest : Bytes)
            → read_typed packet name type (body ++ rest) ≡ ok (value, rest))
        → bs ≡ id ∷ body
        → Reads id value bs
    unfolding read_property_value
    written-Reads value type spec body bs t hh valid reads split =
        let (found, allowed) = header-eq-ok id spec hh in
        let same : spec ≡ s = cc in
        record {
          body = body;
          split = split;
          spec = spec;
          found = found;
          allowed = allowed;
          reads = λ rest.
              subst (λ ty. read_typed packet spec.name ty (body ++ rest) ≡ ok (value, rest))
                (sym (ap (λ (r : PropertySpec). r.type) same ∙ t)) (reads spec.name rest);
          valid = valid;
        }

    property-Reads :
        (value : PropertyValue) (type : PropertyValueType) (write : String → Result Bytes)
        (bs : Bytes)
        → s.type ≡ type
        → ((name written : String) (body rest : Bytes)
            → write written ≡ ok body
            → read_typed packet name type (body ++ rest) ≡ ok (value, rest))
        → (do
          spec ← append_property_header packet id
          validate_property_value packet spec value
          body ← write spec.name
          ok (id ∷ body))
          ≡ ok bs
        → Reads id value bs
    property-Reads value type write bs t reads h =
        let (spec, hh, h₁) = >>=-eq-ok (append_property_header packet id) _ h in
        let (u, valid, h₂) = >>=-eq-ok (validate_property_value packet spec value) _ h₁ in
        let (body, w, h₃) = >>=-eq-ok (write spec.name) _ h₂ in
        written-Reads value type spec body bs t hh valid
          (λ name rest. reads name spec.name body rest w) cc

    -- The values that the writers do not check.
    valid-eq :
        (value : PropertyValue) (spec : PropertySpec)
        → append_property_header packet id ≡ ok spec
        → validate_property_value packet s value ≡ ok tt
        → validate_property_value packet spec value ≡ ok tt
    valid-eq value spec hh v =
        let found : property_spec id ≡ some spec = (header-eq-ok id spec hh).0 in
        let same : s ≡ spec = cc in
        subst (λ r. validate_property_value packet r value ≡ ok tt) same v

    pub append_prop_byte-Reads :
        (value : ℕ) (bs : Bytes)
        → s.type ≡ byte
        → append_prop_byte packet id value ≡ ok bs
        → Reads id (record zero_value { byte_value = value }) bs
    unfolding append_prop_byte read_typed read_byte
    append_prop_byte-Reads value bs t =
        property-Reads _ byte (λ _. ok (value ∷ [])) bs t (λ name written body rest w. ground arith)

    pub append_prop_uint16-Reads :
        (value : ℕ) (bs : Bytes)
        → value < 65536
        → s.type ≡ two_byte_integer
        → append_prop_uint16 packet id value ≡ ok bs
        → Reads id (record zero_value { uint16_value = value }) bs
    unfolding append_prop_uint16 read_typed
    append_prop_uint16-Reads value bs fits t =
        property-Reads _ two_byte_integer (λ _. ok (write_uint16 value)) bs t
          (λ name written body rest w.
            ground (arith, read_uint16-write_uint16 packet name rest value fits))

    pub append_prop_uint32-Reads :
        (value : ℕ) (bs : Bytes)
        → value < 4294967296
        → s.type ≡ four_byte_integer
        → append_prop_uint32 packet id value ≡ ok bs
        → Reads id (record zero_value { uint32_value = value }) bs
    unfolding append_prop_uint32 read_typed
    append_prop_uint32-Reads value bs fits t =
        property-Reads _ four_byte_integer (λ _. ok (write_uint32 value)) bs t
          (λ name written body rest w.
            ground (arith, read_uint32-write_uint32 packet name rest value fits))

    pub append_prop_vbi-Reads :
        (value : ℕ) (bs : Bytes)
        → s.type ≡ variable_byte_integer
        → append_prop_vbi packet id value ≡ ok bs
        → Reads id (record zero_value { vbi_value = value }) bs
    unfolding append_prop_vbi read_typed
    append_prop_vbi-Reads value bs t =
        property-Reads _ variable_byte_integer (λ name. write_vbi packet name value) bs t
          (λ name written body rest w.
            rw (read_vbi-write_vbi packet name written value body rest w))

    pub append_prop_string-Reads :
        (value bs : Bytes)
        → s.type ≡ utf8_string
        → append_prop_string packet id value ≡ ok bs
        → Reads id (record zero_value { string_value = value }) bs
    unfolding append_prop_string read_typed
    append_prop_string-Reads value bs t =
        property-Reads _ utf8_string (λ name. write_string packet name value) bs t
          (λ name written body rest w.
            rw (read_string-write_string packet name rest written value body w))

    pub append_prop_binary-Reads :
        (value bs : Bytes)
        → s.type ≡ binary_data
        → validate_property_value packet s (record zero_value { binary_value = value }) ≡ ok tt
        → append_prop_binary packet id value ≡ ok bs
        → Reads id (record zero_value { binary_value = value }) bs
    unfolding append_prop_binary read_typed
    append_prop_binary-Reads value bs t v h =
        let (spec, hh, h₁) = >>=-eq-ok (append_property_header packet id) _ h in
        let (body, w, h₂) = >>=-eq-ok (write_binary packet spec.name value) _ h₁ in
        written-Reads _ binary_data spec body bs t hh (valid-eq _ spec hh v)
          (λ name rest. rw (read_binary-write_binary packet name rest spec.name value body w)) cc

  read_typed-user :
      (user : User) (name : String) (key value rest : Bytes)
      → write_string packet "User Property key" user.key ≡ ok key
      → write_string packet "User Property value" user.value ≡ ok value
      → read_typed packet name string_pair ((key ++ value) ++ rest)
        ≡ ok (record zero_value { user_value = user }, rest)
  unfolding read_typed
  read_typed-user user name key value rest hk hv = rw (
    append_assoc,
    read_string-write_string packet (str_append name " key") (value ++ rest) _ user.key key hk,
    read_string-write_string packet (str_append name " value") rest _ user.value value hv,
  )

  pub append_user_property-Reads :
      (user : User) (bs : Bytes)
      → append_user_property packet user ≡ ok bs
      → Reads Prop.user (record zero_value { user_value = user }) bs
  unfolding append_user_property property_spec validate_property_value
  append_user_property-Reads user bs h =
      let (spec, hh, h₁) = >>=-eq-ok (append_property_header packet Prop.user) _ h in
      let (key, hk, h₂) = >>=-eq-ok (write_string packet "User Property key" user.key) _ h₁ in
      let (value, hv, h₃) = >>=-eq-ok (write_string packet "User Property value" user.value) _ h₂ in
      written-Reads Prop.user _ refl _ string_pair spec (key ++ value) bs refl hh
        (valid-eq Prop.user _ refl (record zero_value { user_value = user }) spec hh refl)
        (λ name rest. read_typed-user user name key value rest hk hv) cc

module _ {S : Type 0} ⦃struct : PropertyStruct S⦄ (packet : PacketType) where
  -- One round of the loop over a property that was written.
  pub decode_property-Reads :
      (id : ℕ) (value : PropertyValue) (bs rest : Bytes) (seen : List ℕ) (props : S)
      → (r : Reads packet id value bs)
      → (not (property_repeat_allowed r.spec packet) && mem id seen) ≡ false
      → decode_property packet seen props (bs ++ rest)
        ≡ ok (
          mark (property_repeat_allowed r.spec packet) id seen,
          struct.assign props id value,
          rest,
        )
  unfolding decode_property read_byte
  decode_property-Reads id value bs rest seen props r new =
      rw (r.split, r.found, r.allowed, new, r.reads rest, r.valid)
