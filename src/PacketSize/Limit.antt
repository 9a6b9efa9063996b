-- ===== src/PacketSize/Limit.antt =====
-- The size check against the limit that `Encode` takes itself.
use sky_tree.Common.{
  ℕ, ◌<◌, ◌≤◌, ◌≡◌, ◌↔◌, ◌⊎◌, refl, sym, ap, subst, ◌∙◌, false, ◌&&◌, none, some, ◌!=◌, ltb, arith,
  Bool-cases, inl, inr, if◌then◌else◌, length,
}
use sky_tree.Mqtt5.Packet.{Packet, FixedHeader, ControlPacket, packet_type}
use sky_tree.Mqtt5.Properties.{Bytes}
use sky_tree.Wire.Errors.{Error, Result, ok, err}
use sky_tree.Wire.Frame.{encode, encode_content, exceeds}
use sky_tree.Wire.Vbi.{max_remaining_length, encode_remaining_length, vbi_digits}
use sky_tree.Wire.Vbi.RoundTrip.{length-vbi_digits}
use sky_tree.Wire.RoundTrip.Stream.{IsFrame, encode_content-IsFrame, length-IsFrame}
use sky_tree.PacketSize.{
  failed_to_calculate, oversize, calculate_packet_size, check_packet_size_with_max,
}

encode_remaining_length-fits :
    (n : ℕ) → n ≤ max_remaining_length → encode_remaining_length n ≡ ok (vbi_digits 4 n)
unfolding encode_remaining_length
encode_remaining_length-fits n h = ground arith

not_short : (n : ℕ) → n ≤ max_remaining_length → ltb max_remaining_length n ≡ false
not_short n h = ground arith

IsFrame-encode_content :
    (max : ℕ) (p : Packet) (bs : Bytes) → IsFrame max p bs → encode_content max p ≡ ok bs
unfolding encode_content
IsFrame-encode_content max p bs frame =
    rw
      (
        frame.fixed,
        frame.valid,
        frame.encoded,
        not_short (length frame.body) frame.fits,
        encode_remaining_length-fits (length frame.body) frame.fits,
        length-vbi_digits (length frame.body) frame.fits,
        frame.size,
      )
      (ap ok (sym frame.frame))

within : (max size : ℕ) → 0 < max → size ≤ max → exceeds max size ≡ false
within max size h k = ground arith

inside : (max size : ℕ) → 0 < max → exceeds max size ≡ false → size ≤ max
inside max size h k = ground arith

-- The same frame under another limit.
relimit :
    (max max' : ℕ) (p : Packet) (bs : Bytes) (frame : IsFrame max p bs)
    → exceeds max' (length bs) ≡ false
    → IsFrame max' p bs
relimit max max' p bs frame h = record {
  flags = frame.flags;
  body = frame.body;
  fixed = frame.fixed;
  valid = frame.valid;
  encoded = frame.encoded;
  fits = frame.fits;
  size = subst (λ n. exceeds max' n ≡ false) (length-IsFrame max p bs frame) h;
  frame = frame.frame;
}

content-limit :
    (max : ℕ) (p : Packet) (bs : Bytes)
    → 0 < max
    → (encode_content max p ≡ ok bs) ↔ ((encode_content 0 p ≡ ok bs) × (length bs ≤ max))
content-limit max p bs h = (smaller, larger)
  where
    smaller : encode_content max p ≡ ok bs → (encode_content 0 p ≡ ok bs) × (length bs ≤ max)
    smaller e =
        let frame = encode_content-IsFrame max p bs e in
        (
          IsFrame-encode_content 0 p bs (relimit max 0 p bs frame refl),
          inside max (length bs) h
              (subst (λ n. exceeds max n ≡ false) (sym (length-IsFrame max p bs frame)) frame.size),
        )

    larger : (encode_content 0 p ≡ ok bs) × (length bs ≤ max) → encode_content max p ≡ ok bs
    larger (e, k) =
        IsFrame-encode_content max p bs
          (relimit 0 max p bs (encode_content-IsFrame 0 p bs e) (within max (length bs) h k))

-- `Encode` with a limit, where there is content.
encode-limit :
    (max : ℕ) (content : Packet) (header : FixedHeader) (bs : Bytes)
    → 0 < max
    → (encode max (record { content = some content; header = header }) ≡ ok bs) ↔ (
        (encode 0 (record { content = some content; header = header }) ≡ ok bs) × (length bs ≤ max))
unfolding encode
encode-limit max content header bs h =
    elim (Bool-cases (header.type != 0 && header.type != packet_type content)) [
      | inl q ↦ rw q ((λ e. cc), λ (e, k). cc)
      | inr q ↦ rw q (content-limit max content bs h)
    ]

Result-cases : (r : Result Bytes) → ((x : Error) × (r ≡ err x)) ⊎ ((bs : Bytes) × (r ≡ ok bs))
Result-cases (err x) = inl (x, refl)
Result-cases (ok bs) = inr (bs, refl)

check-failed :
    (packet : ControlPacket) (max : ℕ) (x : Error)
    → encode 0 packet ≡ err x
    → check_packet_size_with_max packet max ≡ some (failed_to_calculate x)
unfolding check_packet_size_with_max calculate_packet_size
check-failed packet max x e = rw (e, check_packet_size_with_max, calculate_packet_size) refl

check-sized :
    (packet : ControlPacket) (max : ℕ) (bs : Bytes)
    → encode 0 packet ≡ ok bs
    → check_packet_size_with_max packet max
      ≡ (if ltb max (length bs) then some (oversize (length bs) max) else none)
unfolding check_packet_size_with_max calculate_packet_size
check-sized packet max bs e = rw (e, check_packet_size_with_max, calculate_packet_size) refl

not_over : (max n : ℕ) → (if ltb max n then some (oversize n max) else none) ≡ none → n ≤ max
not_over max n h = elim (Bool-cases (ltb max n)) [
  | inl q ↦ absurd (cc (subst (λ b. (if b then some (oversize n max) else none) ≡ none) q h))
  | inr q ↦ ground (arith, q)
]

check-size :
    (packet : ControlPacket) (max : ℕ)
    → check_packet_size_with_max packet max ≡ none
    → (bs : Bytes) × (encode 0 packet ≡ ok bs) × (length bs ≤ max)
check-size packet max h = elim (Result-cases (encode 0 packet)) [
  | inl (x, e) ↦ absurd (cc (sym (check-failed packet max x e) ∙ h))
  | inr (bs, e) ↦
      let said = sym (check-sized packet max bs e) ∙ h in (bs, e, not_over max (length bs) said)
]

size-check :
    (packet : ControlPacket) (max : ℕ) (bs : Bytes)
    → encode 0 packet ≡ ok bs
    → length bs ≤ max
    → check_packet_size_with_max packet max ≡ none
size-check packet max bs e h = check-sized packet max bs e ∙ ground arith

-- A packet with content passes the check of its size against a maximum that is not zero if and only
-- if `Encode` with that limit writes it.
pub check_packet_size_with_max-encode :
    (content : Packet) (header : FixedHeader) (max : ℕ)
    → 0 < max
    → (check_packet_size_with_max (record { content = some content; header = header }) max ≡ none)
      ↔ ((bs : Bytes) × (encode max (record { content = some content; header = header }) ≡ ok bs))
check_packet_size_with_max-encode content header max h = (passes, writes)
  where
    passes :
        check_packet_size_with_max (record { content = some content; header = header }) max ≡ none
        → (bs : Bytes) × (encode max (record { content = some content; header = header }) ≡ ok bs)
    passes c =
        let (bs, e, k) = check-size (record { content = some content; header = header }) max c in
        (bs, (encode-limit max content header bs h).1 (e, k))

    writes :
        (bs : Bytes) × (encode max (record { content = some content; header = header }) ≡ ok bs)
        → check_packet_size_with_max (record { content = some content; header = header }) max ≡ none
    writes (bs, e) =
        let (e', k) = (encode-limit max content header bs h).0 e in
        size-check (record { content = some content; header = header }) max bs e' k
