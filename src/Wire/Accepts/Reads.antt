-- ===== src/Wire/Accepts/Reads.antt =====
-- Every read of pkg/mqtt5/wire/cursor.go comes to an end and leaves no more bytes than there were.
use sky_tree.Common.{
  ℕ, zero, suc, ◌+◌, ◌*◌, ◌/◌, ◌%◌, inl, inr, ◌==◌, ◌!=◌, Bool-cases, ◌≤◌, ◌≢◌, String, Bool, true,
  false, not, [], ◌∷◌, ltb, arith, length, take, drop, if◌then◌else◌,
}
use sky_tree.Mqtt5.PacketTypes.{PacketType}
use sky_tree.Mqtt5.Properties.{Bytes}
use sky_tree.Topic.Levels.{contains_byte}
use sky_tree.Wire.Errors.{Error, out_of_fuel, Result, ok, err, malformed, reject, ◌>>=◌, ◌>>◌}
use sky_tree.Wire.Bytes.{read_byte, read_bytes, read_uint16, read_uint32, read_binary, read_string}
use sky_tree.Wire.Utf8.{utf8_valid}
use sky_tree.Wire.Vbi.{
  VbiErrors, vbi_loop, read_vbi, field_errors, drop_width, max_remaining_length, minimal_vbi_bytes,
}

-- The result is no exhausted loop, and a value has the property.
unfoldable pub Ends : {A : Type 0} → (A → Type 0) → Result A → Type 0
Ends P (ok a) = P a
Ends P (err e) = e ≢ out_of_fuel

-- At most `n` bytes are left.
abbrev pub Leaves : {A : Type 0} → ℕ → A × Bytes → Type 0
Leaves n p = length p.1 ≤ n

pub malformed-≢ :
    (packet : PacketType) (field message : String) → malformed packet field message ≢ out_of_fuel
unfolding malformed
malformed-≢ packet field message = λ h. cc

pub Ends->>= :
    {A B : Type 0} (P : A → Type 0) (Q : B → Type 0) (m : Result A) (f : A → Result B)
    → Ends P m
    → ((a : A) → P a → Ends Q (f a))
    → Ends Q (m >>= f)
unfolding Ends
Ends->>= P Q (ok a) f h k = k a h
Ends->>= P Q (err e) f h k = h

pub Ends-reject :
    {B : Type 0} (Q : B → Type 0) (t : Bool) (e : Error) (k : Result B)
    → e ≢ out_of_fuel
    → Ends Q k
    → Ends Q (reject t e >> k)
unfolding Ends
Ends-reject Q true e k h c = h
Ends-reject Q false e k h c = c

pub Ends-ok : {A : Type 0} (P : A → Type 0) (a : A) → P a → Ends P (ok a)
unfolding Ends
Ends-ok P a h = h

pub Ends-err : {A : Type 0} (P : A → Type 0) (e : Error) → e ≢ out_of_fuel → Ends P (err e)
unfolding Ends
Ends-err P e h = h

pub length-drop : (k : ℕ) (bs : Bytes) → length (drop k bs) ≤ length bs
length-drop zero bs = omega arith
length-drop (suc k) [] = omega arith
length-drop (suc k) (b ∷ bs) = omega (arith, length-drop k bs)

-- The bytes left are the third part of the result of the loop.
module _ (e : VbiErrors) (truncated : e.truncated ≢ out_of_fuel)
    (too_large : e.too_large ≢ out_of_fuel) (not_minimal : e.not_minimal ≢ out_of_fuel)
    (too_long : e.too_long ≢ out_of_fuel) where
  pub vbi_loop-Ends :
      (rounds width value multiplier n : ℕ) (bs : Bytes)
      → length bs ≤ suc n
      → Ends (λ (r : ℕ × ℕ × Bytes). length r.2 ≤ n) (vbi_loop e rounds width value multiplier bs)
  unfolding vbi_loop Ends
  vbi_loop-Ends zero width value multiplier n bs h = too_long
  vbi_loop-Ends (suc rounds) width value multiplier n [] h = truncated
  vbi_loop-Ends (suc rounds) width value multiplier n (digit ∷ bs) h =
      elim (Bool-cases (ltb max_remaining_length (value + digit % 128 * multiplier))) [
        | inl a ↦ rw (a) too_large
        | inr a ↦ elim (Bool-cases (digit / 128 == 0)) [
          | inr b ↦
              rw (a, b)
                (vbi_loop-Ends rounds (width + 1) (value + digit % 128 * multiplier)
                  (multiplier * 128) n bs (omega arith))
          | inl b ↦
              elim (Bool-cases (width != minimal_vbi_bytes (value + digit % 128 * multiplier))) [
                | inl c ↦ rw (a, b, c) not_minimal
                | inr c ↦ rw (a, b, c) (omega arith)
              ]
        ]
      ]

module _ (packet : PacketType) where
  pub read_byte-Ends :
      (field : String) (bs : Bytes) (n : ℕ)
      → length bs ≤ suc n
      → Ends (Leaves n) (read_byte packet field bs)
  unfolding read_byte Ends
  read_byte-Ends field [] n h = malformed-≢ packet field "field is truncated"
  read_byte-Ends field (b ∷ bs) n h = omega arith

  pub read_uint16-Ends :
      (field : String) (bs : Bytes) (n : ℕ)
      → length bs ≤ suc n
      → Ends (Leaves n) (read_uint16 packet field bs)
  unfolding read_uint16 Ends
  read_uint16-Ends field [] n h = malformed-≢ packet field "field is truncated"
  read_uint16-Ends field (a ∷ []) n h = malformed-≢ packet field "field is truncated"
  read_uint16-Ends field (a ∷ b ∷ bs) n h = omega arith

  pub read_uint32-Ends :
      (field : String) (bs : Bytes) (n : ℕ)
      → length bs ≤ suc n
      → Ends (Leaves n) (read_uint32 packet field bs)
  unfolding read_uint32 Ends
  read_uint32-Ends field [] n h = malformed-≢ packet field "field is truncated"
  read_uint32-Ends field (a ∷ []) n h = malformed-≢ packet field "field is truncated"
  read_uint32-Ends field (a ∷ b ∷ []) n h = malformed-≢ packet field "field is truncated"
  read_uint32-Ends field (a ∷ b ∷ c ∷ []) n h = malformed-≢ packet field "field is truncated"
  read_uint32-Ends field (a ∷ b ∷ c ∷ d ∷ bs) n h = omega arith

  read_bytes-Ends :
      (field : String) (k : ℕ) (bs : Bytes) (n : ℕ)
      → length bs ≤ n
      → Ends (Leaves n) (read_bytes packet field k bs)
  unfolding read_bytes Ends
  read_bytes-Ends field k bs n h = bytes_of (ltb (length bs) k)
    where
      bytes_of :
          (t : Bool)
          → Ends (Leaves n) (
              if◌then◌else◌ {A = Result (Bytes × Bytes)} t
                (err (malformed packet field "field is truncated"))
                (ok (take k bs, drop k bs)))
      bytes_of true = malformed-≢ packet field "field is truncated"
      bytes_of false = omega (arith, length-drop k bs)

  pub read_binary-Ends :
      (field : String) (bs : Bytes) (n : ℕ)
      → length bs ≤ suc n
      → Ends (Leaves n) (read_binary packet field bs)
  unfolding read_binary
  read_binary-Ends field bs n h =
      Ends->>= (Leaves n) (Leaves n) (read_uint16 packet _ bs) _ (read_uint16-Ends _ bs n h)
        λ p left. read_bytes-Ends field p.0 p.1 n left

  pub read_string-Ends :
      (field : String) (bs : Bytes) (n : ℕ)
      → length bs ≤ suc n
      → Ends (Leaves n) (read_string packet field bs)
  unfolding read_string
  read_string-Ends field bs n h =
      Ends->>= (Leaves n) (Leaves n) (read_binary packet field bs) _ (read_binary-Ends field bs n h)
        λ p left. Ends-reject (Leaves n) (not (utf8_valid p.0)) _ _ (malformed-≢ packet field _) (
          Ends-reject (Leaves n) (contains_byte 0 p.0) _ _ (malformed-≢ packet field _)
            (Ends-ok (Leaves n) p left))

  drop_width-Ends :
      (n : ℕ) (m : Result (ℕ × ℕ × Bytes))
      → Ends (λ (r : ℕ × ℕ × Bytes). length r.2 ≤ n) m
      → Ends (Leaves n) (drop_width m)
  unfolding Ends
  drop_width-Ends n (ok r) h = h
  drop_width-Ends n (err e) h = h

  pub read_vbi-Ends :
      (field : String) (bs : Bytes) (n : ℕ)
      → length bs ≤ suc n
      → Ends (Leaves n) (read_vbi packet field bs)
  unfolding read_vbi
  read_vbi-Ends field bs n h = drop_width-Ends n (vbi_loop (field_errors packet field) 4 1 0 1 bs) (
      vbi_loop-Ends (field_errors packet field) (malformed-≢ packet field _)
        (malformed-≢ packet field _) (malformed-≢ packet field _) (malformed-≢ packet field _) 4 1 0
        1 n bs h)
