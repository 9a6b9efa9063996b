-- ===== src/Wire/Accepts/Termination.antt =====
-- `Decode` of pkg/mqtt5/wire/reader.go comes to an end on every stream: no loop runs out of rounds.
use sky_tree.Common.{
  ℕ, ◌+◌, ◌/◌, ◌%◌, ◌≢◌, refl, String, Bool, true, false, not, ◌&&◌, ◌||◌, [], ◌∷◌, ltb, ◌==◌, ◌!=◌,
  arith, length, if◌then◌else◌,
}
use sky_tree.Mqtt5.PacketTypes
use sky_tree.Mqtt5.PacketTypes.{PacketType}
use sky_tree.Mqtt5.Properties.{
  Bytes, SubscribeProperties, ReasonProperties, UnsubscribeProperties, DisconnectProperties,
  AuthProperties,
}
use sky_tree.Mqtt5.Packet.{Packet}
use sky_tree.Topic.Levels.{is_empty}
use sky_tree.Wire.Errors.{Error, out_of_fuel, Result, ok, err}
use sky_tree.Wire.Bytes.{read_byte}
use sky_tree.Wire.Decode.{
  read_packet_id, decode_ack_reason, decode_ack, decode_subscriptions, decode_subscribe,
  decode_code_list, decode_topics, decode_unsubscribe, decode_empty, decode_disconnect, decode_auth,
  as_packet, decode_content, decode_packet,
}
use sky_tree.Wire.FixedHeader.{bit}
use sky_tree.Wire.Properties.{decode_properties}
use sky_tree.Wire.Properties.Structs.{
  publish_properties, connect_properties, connack_properties, subscribe_properties,
  reason_properties, unsubscribe_properties, disconnect_properties, auth_properties,
}
use sky_tree.Wire.Reason.{validate_reason, validate_reasons}
use sky_tree.Wire.Accepts.Reads.{Ends, Ends-err, Ends-reject, Ends-ok, malformed-≢, read_byte-Ends}
use sky_tree.Wire.Accepts.Sections.{Anything, reject-Ends, decode_properties-Ends}
use sky_tree.Wire.Errors.{err_injective, map_error, classify_read_error, io, too_large}
use sky_tree.Wire.FixedHeader.{validate_fixed_header_flags}
use sky_tree.Wire.Vbi.{read_remaining_length, header_errors}
use sky_tree.Wire.Frame.{read_full, decode_frame, decode, exceeds}
use sky_tree.Wire.Accepts.Reads.{vbi_loop-Ends}
use sky_tree.Wire.Accepts.Ends.{
  weaken, read_then, check_then, suc_bound, validate_reason-Ends, validate_reasons-Ends,
  read_packet_id-Ends, decode_subscriptions-Ends, decode_topics-Ends, decode_connect-Ends,
  decode_connack-Ends, decode_publish-Ends,
}

decode_ack_reason-Ends :
    (packet : PacketType) (bs : Bytes) → Ends Anything (decode_ack_reason packet bs)
unfolding decode_ack_reason
decode_ack_reason-Ends packet [] = Ends-ok _ _ tt
decode_ack_reason-Ends packet (b ∷ bs) =
    read_then _ (read_byte packet _ (b ∷ bs)) _
      (read_byte-Ends packet _ (b ∷ bs) (length (b ∷ bs)) (suc_bound (b ∷ bs)))
      λ p _.
        check_then (validate_reason packet p.0) _ (validate_reason-Ends packet p.0)
          λ _. Ends-ok _ _ tt

-- Properties that may be missing.
missing-Ends :
    {S : Type 0} (t : Bool) (s : S × Bytes) (m : Result (S × Bytes))
    → Ends Anything m
    → Ends Anything (if t then ok s else m)
missing-Ends true s m h = Ends-ok _ s tt
missing-Ends false s m h = h

decode_ack-Ends : (packet : PacketType) (bs : Bytes) → Ends Anything (decode_ack packet bs)
unfolding decode_ack
decode_ack-Ends packet bs =
    read_then _ (read_packet_id packet bs) _
      (read_packet_id-Ends packet bs (length bs) (suc_bound bs))
      λ p _. check_then (decode_ack_reason packet p.1) _ (decode_ack_reason-Ends packet p.1) λ q.
        check_then _ _
          (missing-Ends (is_empty q.1) _ _ (
            weaken _ _
              (decode_properties-Ends ReasonProperties packet q.1 (length q.1) (suc_bound q.1))))
          λ _. Ends-ok _ _ tt

decode_subscribe-Ends : (bs : Bytes) → Ends Anything (decode_subscribe bs)
unfolding decode_subscribe
decode_subscribe-Ends bs =
    let packet = PacketTypes.subscribe in
    read_then _ (read_packet_id packet bs) _
      (read_packet_id-Ends packet bs (length bs) (suc_bound bs))
      λ p _.
        read_then _ (decode_properties {S = SubscribeProperties} packet p.1) _
          (decode_properties-Ends SubscribeProperties packet p.1 (length p.1) (suc_bound p.1))
          λ q _.
            check_then (decode_subscriptions (length q.1) q.1) _
              (decode_subscriptions-Ends (length q.1) q.1 (omega arith))
              λ subs. Ends-reject _ (is_empty subs) _ _ (malformed-≢ packet _ _) (Ends-ok _ _ tt)

decode_unsubscribe-Ends : (bs : Bytes) → Ends Anything (decode_unsubscribe bs)
unfolding decode_unsubscribe
decode_unsubscribe-Ends bs =
    let packet = PacketTypes.unsubscribe in
    read_then _ (read_packet_id packet bs) _
      (read_packet_id-Ends packet bs (length bs) (suc_bound bs))
      λ p _.
        read_then _ (decode_properties {S = UnsubscribeProperties} packet p.1) _
          (decode_properties-Ends UnsubscribeProperties packet p.1 (length p.1) (suc_bound p.1))
          λ q _.
            check_then (decode_topics (length q.1) q.1) _
              (decode_topics-Ends (length q.1) q.1 (omega arith))
              λ topics.
                Ends-reject _ (is_empty topics) _ _ (malformed-≢ packet _ _) (Ends-ok _ _ tt)

decode_code_list-Ends :
    (packet : PacketType) (bs : Bytes) → Ends Anything (decode_code_list packet bs)
unfolding decode_code_list
decode_code_list-Ends packet bs =
    read_then _ (read_packet_id packet bs) _
      (read_packet_id-Ends packet bs (length bs) (suc_bound bs))
      λ p _.
        read_then _ (decode_properties {S = ReasonProperties} packet p.1) _
          (decode_properties-Ends ReasonProperties packet p.1 (length p.1) (suc_bound p.1))
          λ q _. Ends-reject _ (is_empty q.1) _ _ (malformed-≢ packet _ _) (
            check_then (validate_reasons packet q.1) _ (validate_reasons-Ends packet q.1)
              λ _. Ends-ok _ _ tt)

decode_disconnect-Ends : (bs : Bytes) → Ends Anything (decode_disconnect bs)
unfolding decode_disconnect
decode_disconnect-Ends [] = Ends-ok _ _ tt
decode_disconnect-Ends (b ∷ bs) =
    let packet = PacketTypes.disconnect in
    read_then _ (read_byte packet _ (b ∷ bs)) _
      (read_byte-Ends packet _ (b ∷ bs) (length (b ∷ bs)) (suc_bound (b ∷ bs)))
      λ p _. check_then (validate_reason packet p.0) _ (validate_reason-Ends packet p.0) λ _.
        check_then _ _
          (missing-Ends (is_empty p.1) _ _ (
            weaken _ _ (
              decode_properties-Ends DisconnectProperties packet p.1 (length p.1) (suc_bound p.1))))
          λ _. Ends-ok _ _ tt

decode_auth-Ends : (bs : Bytes) → Ends Anything (decode_auth bs)
unfolding decode_auth
decode_auth-Ends [] = Ends-ok _ _ tt
decode_auth-Ends (b ∷ bs) =
    let packet = PacketTypes.auth in
    read_then _ (read_byte packet _ (b ∷ bs)) _
      (read_byte-Ends packet _ (b ∷ bs) (length (b ∷ bs)) (suc_bound (b ∷ bs)))
      λ p _. check_then (validate_reason packet p.0) _ (validate_reason-Ends packet p.0) λ _.
        check_then _ _
          (missing-Ends (is_empty p.1) _ _ (
            weaken _ _
              (decode_properties-Ends AuthProperties packet p.1 (length p.1) (suc_bound p.1))))
          λ _. Ends-ok _ _ tt

decode_empty-Ends :
    (packet : PacketType) (p : Packet) (bs : Bytes) → Ends Anything (decode_empty packet p bs)
unfolding decode_empty
decode_empty-Ends packet p bs =
    Ends-reject _ (not (is_empty bs)) _ _ (malformed-≢ packet _ _) (Ends-ok _ _ tt)

as_packet-Ends :
    {A : Type 0} (f : A → Packet) (m : Result (A × Bytes))
    → Ends Anything m
    → Ends Anything (as_packet f m)
unfolding Ends
as_packet-Ends f (ok (a, rest)) h = tt
as_packet-Ends f (err e) h = h

case :
    {A : Type 0} (t : Bool) (x y : Result A)
    → Ends Anything x
    → Ends Anything y
    → Ends Anything (if t then x else y)
case true x y h k = h
case false x y h k = k

decode_content-Ends :
    (packet : PacketType) (flags : ℕ) (bs : Bytes) → Ends Anything (decode_content packet flags bs)
unfolding decode_content
decode_content-Ends packet flags bs =
    case (packet == PacketTypes.connect) _ _ (as_packet-Ends _ _ (decode_connect-Ends bs)) (
      case (packet == PacketTypes.connack) _ _ (as_packet-Ends _ _ (decode_connack-Ends bs)) (
        case (packet == PacketTypes.publish) _ _ (as_packet-Ends _ _ (decode_publish-Ends flags bs))
          (case (packet == PacketTypes.puback) _ _ (as_packet-Ends _ _ (decode_ack-Ends packet bs))
            (case (packet == PacketTypes.pubrec) _ _
              (as_packet-Ends _ _ (decode_ack-Ends packet bs))
              (case (packet == PacketTypes.pubrel) _ _
                (as_packet-Ends _ _ (decode_ack-Ends packet bs))
                (case (packet == PacketTypes.pubcomp) _ _
                  (as_packet-Ends _ _ (decode_ack-Ends packet bs))
                  (case (packet == PacketTypes.subscribe) _ _
                    (as_packet-Ends _ _ (decode_subscribe-Ends bs))
                    (case (packet == PacketTypes.suback) _ _
                      (as_packet-Ends _ _ (decode_code_list-Ends packet bs))
                      (case (packet == PacketTypes.unsubscribe) _ _
                        (as_packet-Ends _ _ (decode_unsubscribe-Ends bs))
                        (case (packet == PacketTypes.unsuback) _ _
                          (as_packet-Ends _ _ (decode_code_list-Ends packet bs))
                          (case (packet == PacketTypes.pingreq) _ _ (decode_empty-Ends packet _ bs)
                            (case (packet == PacketTypes.pingresp) _ _
                              (decode_empty-Ends packet _ bs)
                              (case (packet == PacketTypes.disconnect) _ _
                                (as_packet-Ends _ _ (decode_disconnect-Ends bs))
                                (case (packet == PacketTypes.auth) _ _
                                  (as_packet-Ends _ _ (decode_auth-Ends bs))
                                  (Ends-err _ _ (malformed-≢ packet _ _))))))))))))))))

decode_packet-Ends :
    (packet : PacketType) (flags : ℕ) (bs : Bytes) → Ends Anything (decode_packet packet flags bs)
unfolding decode_packet
decode_packet-Ends packet flags bs =
    check_then (decode_content packet flags bs) _ (decode_content-Ends packet flags bs)
      λ p. Ends-reject _ (not (is_empty p.1)) _ _ (malformed-≢ packet _ _) (Ends-ok _ _ tt)

classify-Ends :
    {A : Type 0} (packet : PacketType) (field : String) (m : Result A)
    → Ends Anything m
    → Ends Anything (map_error (classify_read_error packet field) m)
unfolding Ends classify_read_error
classify-Ends packet field (ok a) h = tt
classify-Ends packet field (err (Error.wire e)) h = h
classify-Ends packet field (err (io e)) h = λ k. cc
classify-Ends packet field (err out_of_fuel) h = absurd (h refl)

read_full-Ends : (n : ℕ) (bs : Bytes) → Ends Anything (read_full n bs)
unfolding read_full
read_full-Ends n bs = case (ltb (length bs) n) _ _ (Ends-err _ _ λ k. cc) (Ends-ok _ _ tt)

validate_fixed_header_flags-Ends :
    (packet : PacketType) (flags : ℕ) → Ends Anything (validate_fixed_header_flags packet flags)
unfolding validate_fixed_header_flags
validate_fixed_header_flags-Ends packet flags =
    let no = malformed-≢ packet "fixed header flags" in
    case (packet == PacketTypes.publish) _ _
      (Ends-reject _ (flags / 2 % 4 == 3) _ _ (no _)
        (reject-Ends (flags / 2 % 4 == 0 && bit 3 flags) _ (no _)))
      (case
        (packet == PacketTypes.pubrel
          || packet == PacketTypes.subscribe
          || packet == PacketTypes.unsubscribe)
        _ _ (reject-Ends (flags != 2) _ (no _)) (reject-Ends (flags != 0) _ (no _)))

too_large-≢ : (packet : PacketType) (size max : ℕ) → too_large packet size max ≢ out_of_fuel
unfolding too_large
too_large-≢ packet size max = λ h. cc

Ends-≢ : {A : Type 0} (m : Result A) → Ends Anything m → m ≢ err out_of_fuel
unfolding Ends
Ends-≢ (ok a) h = λ k. cc
Ends-≢ (err e) h = λ k. h (err_injective e out_of_fuel k)

decode_frame-Ends :
    (max : ℕ) (packet : PacketType) (flags : ℕ) (bs : Bytes)
    → Ends Anything (decode_frame max packet flags bs)
unfolding decode_frame read_remaining_length
decode_frame-Ends max packet flags bs =
    let size = weaken _ (read_remaining_length bs) (
      vbi_loop-Ends header_errors (λ h. cc) (malformed-≢ 0 _ _) (malformed-≢ 0 _ _)
        (malformed-≢ 0 _ _) 4 1 0 1 (length bs) bs (suc_bound bs)) in
    Ends-reject _ (ltb packet PacketTypes.connect || ltb PacketTypes.auth packet) _ _
      (malformed-≢ packet _ _)
      (check_then (validate_fixed_header_flags packet flags) _
        (validate_fixed_header_flags-Ends packet flags)
        λ _. check_then _ _ (classify-Ends packet _ (read_remaining_length bs) size) λ s.
          Ends-reject _ (exceeds max (1 + s.1 + s.0)) _ _ (too_large-≢ packet _ _) (
            check_then _ _ (classify-Ends packet _ (read_full s.0 s.2) (read_full-Ends s.0 s.2))
              λ b.
                check_then (decode_packet packet flags b.0) _ (decode_packet-Ends packet flags b.0)
                  λ content. Ends-ok _ _ tt))

-- `Decode` comes to an end on every stream, with a packet or an error of the program: the rounds
-- that the loops of the model have, the bytes there are, are enough.
pub decode-ends : (max : ℕ) (bs : Bytes) → decode max bs ≢ err out_of_fuel
unfolding decode
decode-ends max [] = λ h. cc
decode-ends max (first ∷ bs) = Ends-≢ _ (decode_frame-Ends max (first / 16) (first % 16) bs)
