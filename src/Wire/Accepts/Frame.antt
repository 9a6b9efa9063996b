-- ===== src/Wire/Accepts/Frame.antt =====
-- pkg/mqtt5/wire/reader.go: how much of the stream an accepted packet takes.
use sky_tree.Common.{
  ℕ, ◌+◌, ◌*◌, ◌/◌, ◌%◌, ◌<◌, ◌≤◌, ◌≡◌, refl, ap, ◌∙◌, Bool, true, false, ◌||◌, some, [], ◌∷◌, ◌++◌,
  ltb, arith, length, length-append, if◌then◌else◌, subst, take, drop, take-append-drop,
  length-take, IsBytes,
}
use sky_tree.Mqtt5.PacketTypes.{PacketType}
use sky_tree.Mqtt5.Properties.{Bytes}
use sky_tree.Mqtt5.Packet.{Packet, ControlPacket}
use sky_tree.Wire.Errors.{
  Error, Result, ok, err, map_error, classify_read_error, >>=-eq-ok, reject-eq-ok,
}
use sky_tree.Wire.Decode.{decode_packet}
use sky_tree.Wire.FixedHeader.{validate_fixed_header_flags}
use sky_tree.Wire.Frame.{read_full, decode_frame, decode, exceeds}
use sky_tree.Wire.Vbi.{
  read_remaining_length, vbi_digits, minimal_vbi_bytes, max_remaining_length, header_errors,
}
use sky_tree.Wire.Vbi.RoundTrip.{vbi_loop-eq-ok, length-vbi_digits}

map_error-eq-ok {ℓ} :
    {A : Type ℓ} (f : Error → Error) (m : Result A) (a : A) → map_error f m ≡ ok a → m ≡ ok a
map_error-eq-ok f (ok x) a h = cc
map_error-eq-ok f (err e) a h = cc

-- On a stream of bytes, a remaining length is accepted in the one encoding only that the writer has
-- for it; it is at most the largest one, and `width` is the least width.
pub read_remaining_length-IsMinimal :
    (bs : Bytes) (n width : ℕ) (rest : Bytes)
    → IsBytes bs
    → read_remaining_length bs ≡ ok (n, width, rest)
    → (n ≤ max_remaining_length) × (width ≡ minimal_vbi_bytes n) × (bs ≡ vbi_digits 4 n ++ rest)
unfolding read_remaining_length
read_remaining_length-IsMinimal bs n width rest bytes h =
    vbi_loop-eq-ok header_errors bs n width rest bytes h

full_of :
    (t : Bool) (e : Error) (x y body rest : Bytes)
    → if◌then◌else◌ {A = Result (Bytes × Bytes)} t (err e) (ok (x, y)) ≡ ok (body, rest)
    → (t ≡ false) × (x ≡ body) × (y ≡ rest)
full_of true e x y body rest h = cc
full_of false e x y body rest h = (refl, cc, cc)

read_full-length :
    (n : ℕ) (bs body rest : Bytes)
    → read_full n bs ≡ ok (body, rest)
    → (length body ≡ n) × (bs ≡ body ++ rest)
unfolding read_full
read_full-length n bs body rest h =
    let (long, taken, dropped) =
      full_of (ltb (length bs) n) _ (take n bs) (drop n bs) body rest h in
    let joined = take-append-drop n bs in
    let sized = length-take n bs (ground arith) in
    (rw (← taken, sized), rw (← taken, ← dropped, joined))

result_of :
    (x cp : ControlPacket) (y rest : Bytes)
    → ◌≡◌ {A = Result (ControlPacket × Bytes)} (ok (x, y)) (ok (cp, rest))
    → (x ≡ cp) × (y ≡ rest)
result_of x cp y rest h = (cc, cc)

lengths :
    (n : ℕ) (bs body b₁ b₂ rest : Bytes)
    → n ≤ max_remaining_length
    → bs ≡ vbi_digits 4 n ++ b₁
    → length body ≡ n
    → b₁ ≡ body ++ b₂
    → b₂ ≡ rest
    → length bs ≡ minimal_vbi_bytes n + n + length rest
lengths n bs body b₁ b₂ rest fits digits long joined same =
    let l₁ = ap (λ (xs : Bytes). length xs) digits in
    let l₂ = length-append (vbi_digits 4 n) b₁ in
    let l₃ = ap (λ (xs : Bytes). length xs) joined in
    let l₄ = length-append body b₂ in
    let l₅ = ap (λ (xs : Bytes). length xs) same in
    omega (arith, l₁, l₂, l₃, l₄, l₅, long, length-vbi_digits n fits)

cut_of :
    (n : ℕ) (bs body b₁ b₂ rest : Bytes)
    → bs ≡ vbi_digits 4 n ++ b₁
    → b₁ ≡ body ++ b₂
    → b₂ ≡ rest
    → bs ≡ vbi_digits 4 n ++ (body ++ rest)
cut_of n bs body b₁ b₂ rest digits joined same =
    digits
    ∙ ap (λ (xs : Bytes). vbi_digits 4 n ++ xs) (joined ∙ ap (λ (xs : Bytes). body ++ xs) same)

-- What an accepted packet tells about the bytes after the first: the shortest encoding of its
-- remaining length, as many bytes, which hold its content, and the rest of the stream.
abbrev Framed : ℕ → PacketType → ℕ → Bytes → ControlPacket → Bytes → Type 0
Framed max packet flags bs cp rest =
    (cp.header.type ≡ packet)
    × (cp.header.flags ≡ flags)
    × (1 ≤ packet)
    × (packet ≤ 15)
    × (exceeds max (1 + minimal_vbi_bytes cp.header.remaining_length + cp.header.remaining_length)
        ≡ false)
    × (cp.header.remaining_length ≤ max_remaining_length)
    × (length bs
        ≡ minimal_vbi_bytes cp.header.remaining_length + cp.header.remaining_length + length rest)
    × ((body : Bytes) × (content : Packet) × (bs
          ≡ vbi_digits 4 cp.header.remaining_length ++ (body ++ rest))
        × (length body ≡ cp.header.remaining_length)
        × (decode_packet packet flags body ≡ ok content)
        × (cp.content ≡ some content))

decode_frame-Framed :
    (max : ℕ) (packet : PacketType) (flags : ℕ) (bs : Bytes) (cp : ControlPacket) (rest : Bytes)
    → IsBytes bs
    → decode_frame max packet flags bs ≡ ok (cp, rest)
    → Framed max packet flags bs cp rest
unfolding decode_frame
decode_frame-Framed max packet flags bs cp rest bytes h =
    let (known, h₁) = reject-eq-ok (ltb packet 1 || ltb 15 packet) _ _ h in
    let (u, valid, h₂) = >>=-eq-ok (validate_fixed_header_flags packet flags) _ h₁ in
    let ((n, width, b₁), sized, h₃) =
      >>=-eq-ok
        (map_error (classify_read_error packet "remaining length") (read_remaining_length bs)) _
        h₂ in
    let (fits, minimal, digits) =
      read_remaining_length-IsMinimal bs n width b₁ bytes
        (map_error-eq-ok _ (read_remaining_length bs) _ sized) in
    let (limit, h₄) = reject-eq-ok (exceeds max (1 + width + n)) _ _ h₃ in
    let ((body, b₂), full, h₅) =
      >>=-eq-ok (map_error (classify_read_error packet "body") (read_full n b₁)) _ h₄ in
    let (long, joined) =
      read_full-length n b₁ body b₂ (map_error-eq-ok _ (read_full n b₁) _ full) in
    let (content, decoded, h₆) = >>=-eq-ok (decode_packet packet flags body) _ h₅ in
    let (header, same) = result_of _ cp b₂ rest h₆ in
    let cut = cut_of n bs body b₁ b₂ rest digits joined same in
    subst (λ (c : ControlPacket). Framed max packet flags bs c rest) header
      (
        refl,
        refl,
        ground arith,
        ground arith,
        subst (λ w. exceeds max (1 + w + n) ≡ false) minimal limit,
        fits,
        lengths n bs body b₁ b₂ rest fits digits long joined same,
        (body, content, cut, long, decoded, refl),
      )

-- On a stream of bytes, a packet that `Decode` returns was read from the front of the stream: from
-- the first byte, which holds its type, one of the fifteen, and its flags, from the shortest
-- encoding of its remaining length, and from a body of that many bytes, which is decoded to its
-- content. The size of these is within the limit, where there is one, and what follows them in the
-- stream is returned as it is.
pub length-decode :
    (max : ℕ) (bs : Bytes) (cp : ControlPacket) (rest : Bytes)
    → IsBytes bs
    → decode max bs ≡ ok (cp, rest)
    → let n = cp.header.remaining_length in
      let size = 1 + minimal_vbi_bytes n + n in
      (length bs ≡ size + length rest)
      × (n ≤ max_remaining_length)
      × ((0 < max) → size ≤ max)
      × (1 ≤ cp.header.type)
      × (cp.header.type ≤ 15)
      × (take 1 bs ≡ (cp.header.type * 16 + cp.header.flags) ∷ [])
      × ((body : Bytes) × (content : Packet) × (bs
            ≡ (cp.header.type * 16 + cp.header.flags) ∷ (vbi_digits 4 n ++ (body ++ rest)))
          × (length body ≡ n)
          × (decode_packet cp.header.type cp.header.flags body ≡ ok content)
          × (cp.content ≡ some content))
unfolding decode
length-decode max [] cp rest bytes h = cc
length-decode max (first ∷ bs) cp rest (b, bytes) h =
    let (type, flags, low, high, limit, fits, size, (body, content, cut, long, decoded, held)) =
      decode_frame-Framed max (first / 16) (first % 16) bs cp rest bytes h in
    let front : first ≡ cp.header.type * 16 + cp.header.flags = omega (arith, type, flags) in
    (
      omega (arith, size),
      fits,
      ground arith,
      omega (arith, type),
      omega (arith, type),
      ap (λ (x : ℕ). x ∷ []) front,
      (
        body,
        content,
        ap (λ (x : ℕ). x ∷ bs) front
            ∙ ap (λ (xs : Bytes). (cp.header.type * 16 + cp.header.flags) ∷ xs) cut,
        long,
        rw (type, flags) decoded,
        held,
      ),
    )
