-- ===== src/Wire/Accepts/Layout.antt =====
-- Where the fields stand in the bytes that pkg/mqtt5/wire/cursor.go and properties.go accept.
use sky_tree.Common.{
  ℕ, zero, suc, ◌+◌, ◌*◌, ◌≡◌, ◌≢◌, refl, ap, sym, subst, ◌∙◌, String, Bool, true, false, not, some,
  [], ◌∷◌, ◌++◌, ltb, ◌==◌, arith, if◌then◌else◌, length, take, drop, take-append-drop, length-take,
}
use sky_tree.Mqtt5.PacketTypes
use sky_tree.Mqtt5.PacketTypes.{PacketType}
use sky_tree.Mqtt5.Properties.{Bytes, PublishProperties}
use sky_tree.Mqtt5.Packet.{Publish}
use sky_tree.Topic.Levels.{contains_byte}
use sky_tree.Wire.Errors.{Error, Result, ok, err, >>=-eq-ok, reject-eq-ok, ok_pair}
use sky_tree.Wire.Bytes.{read_bytes, read_uint16, read_binary, read_string}
use sky_tree.Wire.Utf8.{utf8_valid}
use sky_tree.Wire.Vbi.{vbi_loop, read_vbi, drop_width, field_errors}
use sky_tree.Wire.Vbi.RoundTrip.{vbi_loop-front}
use sky_tree.Wire.Properties.{decode_loop, decode_section, decode_properties}
use sky_tree.Wire.Properties.Structs.{publish_properties}
use sky_tree.Wire.Decode.{read_packet_id, decode_publish_id}

read_uint16-eq-ok :
    (packet : PacketType) (field : String) (bs : Bytes) (n : ℕ) (rest : Bytes)
    → read_uint16 packet field bs ≡ ok (n, rest)
    → (hi : ℕ) × (lo : ℕ) × (bs ≡ hi ∷ (lo ∷ rest)) × (hi * 256 + lo ≡ n)
unfolding read_uint16
read_uint16-eq-ok packet field [] n rest h = cc
read_uint16-eq-ok packet field (hi ∷ []) n rest h = cc
read_uint16-eq-ok packet field (hi ∷ lo ∷ bs) n rest h =
    let (value, same) = ok_pair (hi * 256 + lo) n bs rest h in
    (hi, lo, ap (λ (xs : Bytes). hi ∷ (lo ∷ xs)) same, value)

taken :
    (t : Bool) (e : Error) (x y out rest : Bytes)
    → if◌then◌else◌ {A = Result (Bytes × Bytes)} t (err e) (ok (x, y)) ≡ ok (out, rest)
    → (t ≡ false) × (x ≡ out) × (y ≡ rest)
taken true e x y out rest h = cc
taken false e x y out rest h = (refl, cc, cc)

-- The first bytes, and what is behind them.
cut_at :
    (n : ℕ) (bs out rest : Bytes)
    → ltb (length bs) n ≡ false
    → take n bs ≡ out
    → drop n bs ≡ rest
    → (bs ≡ out ++ rest) × (length out ≡ n)
cut_at n bs out rest long first behind =
    let joined = take-append-drop n bs in
    let sized = length-take n bs (ground arith) in
    (rw (← first, ← behind, joined), rw (← first, sized))

read_bytes-eq-ok :
    (packet : PacketType) (field : String) (n : ℕ) (bs out rest : Bytes)
    → read_bytes packet field n bs ≡ ok (out, rest)
    → (bs ≡ out ++ rest) × (length out ≡ n)
unfolding read_bytes
read_bytes-eq-ok packet field n bs out rest h =
    let (long, first, behind) = taken (ltb (length bs) n) _ (take n bs) (drop n bs) out rest h in
    cut_at n bs out rest long first behind

-- Two bytes hold the length of the string behind them.
pub read_string-eq-ok :
    (packet : PacketType) (field : String) (bs s rest : Bytes)
    → read_string packet field bs ≡ ok (s, rest)
    → (hi : ℕ) × (lo : ℕ) × (bs ≡ hi ∷ (lo ∷ (s ++ rest))) × (hi * 256 + lo ≡ length s)
unfolding read_string read_binary
read_string-eq-ok packet field bs s rest h =
    let ((text, b₁), e₁, h₁) = >>=-eq-ok (read_binary packet field bs) _ h in
    let (valid, h₂) = reject-eq-ok (not (utf8_valid text)) _ _ h₁ in
    let (no_null, h₃) = reject-eq-ok (contains_byte 0 text) _ _ h₂ in
    let (same, behind) = ok_pair text s b₁ rest h₃ in
    let ((n, b₂), e₂, h₄) = >>=-eq-ok (read_uint16 packet _ bs) _ e₁ in
    let (hi, lo, front, value) = read_uint16-eq-ok packet _ bs n b₂ e₂ in
    let (cut, sized) = read_bytes-eq-ok packet field n b₂ text b₁ h₄ in
    (
      hi,
      lo,
      front
          ∙ ap (λ (xs : Bytes). hi ∷ (lo ∷ xs)) cut
          ∙ ap (λ (xs : Bytes). hi ∷ (lo ∷ (xs ++ b₁))) same
          ∙ ap (λ (xs : Bytes). hi ∷ (lo ∷ (s ++ xs))) behind,
      value ∙ sym sized ∙ ap (λ (xs : Bytes). length xs) same,
    )

drop_width-eq-ok :
    (m : Result (ℕ × ℕ × Bytes)) (n : ℕ) (rest : Bytes)
    → drop_width m ≡ ok (n, rest)
    → (width : ℕ) × (m ≡ ok (n, width, rest))
drop_width-eq-ok (err e) n rest h = cc
drop_width-eq-ok (ok (k, width, bs)) n rest h = (width, cc)

read_vbi-front :
    (packet : PacketType) (field : String) (bs : Bytes) (n : ℕ) (rest : Bytes)
    → read_vbi packet field bs ≡ ok (n, rest)
    → (size : Bytes) × (bs ≡ size ++ rest)
unfolding read_vbi
read_vbi-front packet field bs n rest h =
    let e = field_errors packet field in
    let (width, run) = drop_width-eq-ok (vbi_loop e 4 1 0 1 bs) n rest h in
    vbi_loop-front e n width rest 4 1 0 1 bs run

-- A length, a section of that length, which holds the properties, and the rest.
abbrev pub IsSection : PacketType → Bytes → PublishProperties → Bytes → Bytes → Bytes → Type 0
IsSection packet bs props size section rest =
    (bs ≡ size ++ (section ++ rest))
    × (read_vbi packet "property length" bs ≡ ok (length section, section ++ rest))
    × (decode_loop packet (length section) [] publish_properties.empty section ≡ ok props)

decode_section-eq-ok :
    (packet : PacketType) (n : ℕ) (bs : Bytes) (props : PublishProperties) (rest : Bytes)
    → decode_section {S = PublishProperties} packet n bs ≡ ok (props, rest)
    → (section : Bytes) × (bs ≡ section ++ rest)
      × (length section ≡ n)
      × (decode_loop packet n [] publish_properties.empty section ≡ ok props)
unfolding decode_section
decode_section-eq-ok packet n bs props rest h =
    let (long, h₁) = reject-eq-ok (ltb (length bs) n) _ _ h in
    let (out, run, h₂) =
      >>=-eq-ok (decode_loop packet n [] publish_properties.empty (take n bs)) _ h₁ in
    let (same, behind) = ok_pair out props (drop n bs) rest h₂ in
    let (cut, sized) = cut_at n bs (take n bs) rest long refl behind in
    (take n bs, cut, sized, run ∙ ap (λ (p : PublishProperties). ok p) same)

pub decode_properties-eq-ok :
    (packet : PacketType) (bs : Bytes) (props : PublishProperties) (rest : Bytes)
    → decode_properties {S = PublishProperties} packet bs ≡ ok (props, rest)
    → (size : Bytes) × (section : Bytes) × IsSection packet bs props size section rest
unfolding decode_properties
decode_properties-eq-ok packet bs props rest h =
    let ((n, b₁), e₁, h₁) = >>=-eq-ok (read_vbi packet "property length" bs) _ h in
    let (size, front) = read_vbi-front packet "property length" bs n b₁ e₁ in
    let (section, cut, sized, run) = decode_section-eq-ok packet n b₁ props rest h₁ in
    (
      size,
      section,
      (
        front ∙ ap (λ (xs : Bytes). size ++ xs) cut,
        subst (λ (r : Bytes). read_vbi packet "property length" bs ≡ ok (length section, r)) cut
            (subst (λ k. read_vbi packet "property length" bs ≡ ok (k, b₁)) (sym sized) e₁),
        subst (λ k. decode_loop packet k [] publish_properties.empty section ≡ ok props) (sym sized)
            run,
      ),
    )

-- The packet identifier takes two bytes where the QoS is not 0, and none otherwise.
abbrev pub IsIdField : ℕ → ℕ → Bytes → Type 0
IsIdField qos id field =
    ((qos ≡ 0) → field ≡ [])
    × ((qos ≢ 0) → (hi : ℕ) × (lo : ℕ) × (field ≡ hi ∷ (lo ∷ [])) × (hi * 256 + lo ≡ id))

read_packet_id-eq-ok :
    (packet : PacketType) (bs : Bytes) (id : ℕ) (rest : Bytes)
    → read_packet_id packet bs ≡ ok (id, rest)
    → (hi : ℕ) × (lo : ℕ) × (bs ≡ hi ∷ (lo ∷ rest)) × (hi * 256 + lo ≡ id)
unfolding read_packet_id
read_packet_id-eq-ok packet bs id rest h =
    let ((n, b₁), e₁, h₁) = >>=-eq-ok (read_uint16 packet "packet identifier" bs) _ h in
    let (positive, h₂) = reject-eq-ok (n == 0) _ _ h₁ in
    let (same, behind) = ok_pair n id b₁ rest h₂ in
    let (hi, lo, front, value) = read_uint16-eq-ok packet "packet identifier" bs n b₁ e₁ in
    (hi, lo, front ∙ ap (λ (xs : Bytes). hi ∷ (lo ∷ xs)) behind, value ∙ same)

pub decode_publish_id-IsIdField :
    (qos : ℕ) (bs : Bytes) (id : ℕ) (rest : Bytes)
    → decode_publish_id qos bs ≡ ok (id, rest)
    → (field : Bytes) × (bs ≡ field ++ rest) × IsIdField qos id field
unfolding decode_publish_id
decode_publish_id-IsIdField zero bs id rest h =
    let (_, behind) = ok_pair 0 id bs rest h in ([], behind, (λ _. refl, λ k. absurd (k refl)))
decode_publish_id-IsIdField (suc n) bs id rest h =
    let test : (suc n == 0) ≡ false = ground arith in
    let read =
      subst
        (λ t.
          if◌then◌else◌ {A = Result (ℕ × Bytes)} t (ok (0, bs))
            (read_packet_id PacketTypes.publish bs)
          ≡ ok (id, rest))
        test h in
    let (hi, lo, front, value) = read_packet_id-eq-ok PacketTypes.publish bs id rest read in
    (hi ∷ (lo ∷ []), front, (λ k. absurd (omega arith), λ _. (hi, lo, refl, value)))

-- The fields of a PUBLISH in their order, which are the whole body: the topic behind its length,
-- the packet identifier, the section of properties behind its length, and the payload.
abbrev pub IsLayout : Bytes → Publish → Type 0
IsLayout bs p =
    (hi : ℕ) × (lo : ℕ) × (id : Bytes) × (size : Bytes) × (section : Bytes)
    × (props : PublishProperties) × (bs
        ≡ hi ∷ (lo ∷ (p.topic ++ (id ++ (size ++ (section ++ p.payload))))))
    × (hi * 256 + lo ≡ length p.topic)
    × IsIdField p.qos p.packet_id id
    × (p.properties ≡ some props)
    × (read_vbi PacketTypes.publish "property length" (size ++ (section ++ p.payload))
        ≡ ok (length section, section ++ p.payload))
    × (decode_loop PacketTypes.publish (length section) [] publish_properties.empty section
        ≡ ok props)

pub publish-IsLayout :
    (bs b₁ b₂ : Bytes) (p : Publish) (props : PublishProperties)
    → read_string PacketTypes.publish "topic name" bs ≡ ok (p.topic, b₁)
    → decode_publish_id p.qos b₁ ≡ ok (p.packet_id, b₂)
    → decode_properties {S = PublishProperties} PacketTypes.publish b₂ ≡ ok (props, p.payload)
    → p.properties ≡ some props
    → IsLayout bs p
publish-IsLayout bs b₁ b₂ p props e₁ e₂ e₃ held =
    let packet = PacketTypes.publish in
    let (hi, lo, front, sized) = read_string-eq-ok packet "topic name" bs p.topic b₁ e₁ in
    let (id, middle, field) = decode_publish_id-IsIdField p.qos b₁ p.packet_id b₂ e₂ in
    let (size, section, (back, length_read, run)) =
      decode_properties-eq-ok packet b₂ props p.payload e₃ in
    (
      hi,
      lo,
      id,
      size,
      section,
      props,
      front
          ∙ ap (λ (xs : Bytes). hi ∷ (lo ∷ (p.topic ++ xs)))
              (middle ∙ ap (λ (xs : Bytes). id ++ xs) back),
      sized,
      field,
      held,
      subst
          (λ (xs : Bytes).
            read_vbi packet "property length" xs ≡ ok (length section, section ++ p.payload))
          back length_read,
      run,
    )
