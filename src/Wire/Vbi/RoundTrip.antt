-- ===== src/Wire/Vbi/RoundTrip.antt =====
-- The Variable Byte Integer is read back as it was written, and has one encoding only.
use sky_tree.Common.{
  ℕ, zero, suc, ◌+◌, ◌*◌, ◌/◌, ◌%◌, ◌<◌, ◌≤◌, ◌≡◌, ◌≢◌, ap, String, [], ◌∷◌, ◌++◌, arith, length,
  IsBytes, ◌⊎◌, inl, inr,
}
use sky_tree.Mqtt5.PacketTypes.{PacketType}
use sky_tree.Mqtt5.Properties.{Bytes}
use sky_tree.Wire.Errors.{ok}
use sky_tree.Wire.Vbi.{
  VbiErrors, field_errors, vbi_loop, vbi_digits, minimal_vbi_bytes, encode_remaining_length,
  read_vbi, write_vbi, max_remaining_length,
}

-- A value of each width.
width_cases :
    (n : ℕ)
    → n ≤ max_remaining_length
    → (n < 128)
      ⊎ ((128 ≤ n) × (n < 16384))
      ⊎ ((16384 ≤ n) × (n < 2097152))
      ⊎ ((2097152 ≤ n) × (n ≤ max_remaining_length))
width_cases n h = ground arith

module _ (e : VbiErrors) (rest : Bytes) where
  pub vbi_loop-vbi_digits :
      (n : ℕ)
      → n ≤ max_remaining_length
      → vbi_loop e 4 1 0 1 (vbi_digits 4 n ++ rest) ≡ ok (n, minimal_vbi_bytes n, rest)
  unfolding vbi_loop vbi_digits minimal_vbi_bytes
  vbi_loop-vbi_digits n h = elim (width_cases n h) [
    | inl a ↦ ground arith
    | inr (inl a) ↦ ground arith
    | inr (inr (inl a)) ↦ ground arith
    | inr (inr (inr a)) ↦ ground arith
  ]

-- What one round of an accepting loop did.
module _ (e : VbiErrors) (n w : ℕ) (rest : Bytes) where
  pub vbi_loop-step :
      (k width v m d : ℕ) (bs : Bytes)
      → vbi_loop e (suc k) width v m (d ∷ bs) ≡ ok (n, w, rest)
      → ((d / 128 ≡ 0)
          × (n ≡ v + d % 128 * m)
          × (n ≤ max_remaining_length)
          × (w ≡ minimal_vbi_bytes n)
          × (w ≡ width)
          × (bs ≡ rest))
        ⊎ ((d / 128 ≢ 0)
            × (vbi_loop e k (width + 1) (v + d % 128 * m) (m * 128) bs ≡ ok (n, w, rest)))
  unfolding vbi_loop
  vbi_loop-step k width v m d bs h = ground arith

  pub vbi_loop-nil : (k width v m : ℕ) → vbi_loop e k width v m [] ≢ ok (n, w, rest)
  unfolding vbi_loop
  vbi_loop-nil zero width v m h = cc
  vbi_loop-nil (suc k) width v m h = cc

  pub vbi_loop-zero : (width v m : ℕ) (bs : Bytes) → vbi_loop e 0 width v m bs ≢ ok (n, w, rest)
  unfolding vbi_loop
  vbi_loop-zero width v m bs h = cc

module _ (e : VbiErrors) (n w : ℕ) (rest : Bytes) where
  -- The loop reads from the front.
  pub vbi_loop-front :
      (k width v m : ℕ) (bs : Bytes)
      → vbi_loop e k width v m bs ≡ ok (n, w, rest)
      → (size : Bytes) × (bs ≡ size ++ rest)
  vbi_loop-front zero width v m bs h = absurd (vbi_loop-zero e n w rest width v m bs h)
  vbi_loop-front (suc k) width v m [] h = absurd (vbi_loop-nil e n w rest (suc k) width v m h)
  vbi_loop-front (suc k) width v m (d ∷ bs) h = elim (vbi_loop-step e n w rest k width v m d bs h) [
    | inl (_, _, _, _, _, same) ↦ (d ∷ [], ap (λ (xs : Bytes). d ∷ xs) same)
    | inr (more, h') ↦
        let (size, cut) = vbi_loop-front k (width + 1) (v + d % 128 * m) (m * 128) bs h' in
        (d ∷ size, ap (λ (xs : Bytes). d ∷ xs) cut)
  ]

  abbrev Canonical : Bytes → Type 0
  Canonical bs =
      (n ≤ max_remaining_length) × (w ≡ minimal_vbi_bytes n) × (bs ≡ vbi_digits 4 n ++ rest)

  four :
      (p q r s : ℕ) (bs : Bytes)
      → IsBytes (p ∷ q ∷ r ∷ s ∷ bs)
      → p / 128 ≢ 0
      → q / 128 ≢ 0
      → r / 128 ≢ 0
      → vbi_loop e 1 4
          (0 + p % 128 * 1 + q % 128 * (1 * 128) + r % 128 * (1 * 128 * 128))
          (1 * 128 * 128 * 128)
          (s ∷ bs)
        ≡ ok (n, w, rest)
      → Canonical (p ∷ q ∷ r ∷ s ∷ bs)
  unfolding vbi_digits minimal_vbi_bytes
  four p q r s bs b h i j k = elim (vbi_loop-step e n w rest 0 4 _ _ s bs k) [
    | inl done ↦ ground arith
    | inr (more, h') ↦ absurd (vbi_loop-zero e n w rest _ _ _ bs h')
  ]

  three :
      (p q : ℕ) (bs : Bytes)
      → IsBytes (p ∷ q ∷ bs)
      → p / 128 ≢ 0
      → q / 128 ≢ 0
      → vbi_loop e 2 3 (0 + p % 128 * 1 + q % 128 * (1 * 128)) (1 * 128 * 128) bs ≡ ok (n, w, rest)
      → Canonical (p ∷ q ∷ bs)
  unfolding vbi_digits minimal_vbi_bytes
  three p q [] b h i k = absurd (vbi_loop-nil e n w rest 2 3 _ _ k)
  three p q (r ∷ []) b h i k = elim (vbi_loop-step e n w rest 1 3 _ _ r [] k) [
    | inl done ↦ ground arith
    | inr (more, h') ↦ absurd (vbi_loop-nil e n w rest 1 _ _ _ h')
  ]
  three p q (r ∷ s ∷ bs) b h i k = elim (vbi_loop-step e n w rest 1 3 _ _ r (s ∷ bs) k) [
    | inl done ↦ ground arith
    | inr (more, h') ↦ four p q r s bs b h i more h'
  ]

  two :
      (p : ℕ) (bs : Bytes)
      → IsBytes (p ∷ bs)
      → p / 128 ≢ 0
      → vbi_loop e 3 2 (0 + p % 128 * 1) (1 * 128) bs ≡ ok (n, w, rest)
      → Canonical (p ∷ bs)
  unfolding vbi_digits minimal_vbi_bytes
  two p [] b h k = absurd (vbi_loop-nil e n w rest 3 2 _ _ k)
  two p (q ∷ bs) b h k = elim (vbi_loop-step e n w rest 2 2 _ _ q bs k) [
    | inl done ↦ ground arith
    | inr (more, h') ↦ three p q bs b h more h'
  ]

-- The loop accepts one encoding of a value only, the one that the encoder writes.
pub vbi_loop-eq-ok :
    (e : VbiErrors) (bs : Bytes) (n w : ℕ) (rest : Bytes)
    → IsBytes bs
    → vbi_loop e 4 1 0 1 bs ≡ ok (n, w, rest)
    → (n ≤ max_remaining_length) × (w ≡ minimal_vbi_bytes n) × (bs ≡ vbi_digits 4 n ++ rest)
unfolding vbi_digits minimal_vbi_bytes
vbi_loop-eq-ok e [] n w rest b h = absurd (vbi_loop-nil e n w rest 4 1 0 1 h)
vbi_loop-eq-ok e (p ∷ ps) n w rest b h = elim (vbi_loop-step e n w rest 3 1 0 1 p ps h) [
  | inl done ↦ ground arith
  | inr (more, h') ↦ two e n w rest p ps b more h'
]

pub length-vbi_digits :
    (n : ℕ) → n ≤ max_remaining_length → length (vbi_digits 4 n) ≡ minimal_vbi_bytes n
unfolding vbi_digits minimal_vbi_bytes
length-vbi_digits n h = elim (width_cases n h) [
  | inl a ↦ ground arith
  | inr (inl a) ↦ ground arith
  | inr (inr (inl a)) ↦ ground arith
  | inr (inr (inr a)) ↦ ground arith
]

pub IsBytes-vbi_digits : (n : ℕ) → IsBytes (vbi_digits 4 n)
unfolding vbi_digits
IsBytes-vbi_digits n = ground arith

pub write_vbi-eq-ok :
    (packet : PacketType) (field : String) (n : ℕ) (bs : Bytes)
    → write_vbi packet field n ≡ ok bs
    → (n ≤ max_remaining_length) × (bs ≡ vbi_digits 4 n)
unfolding write_vbi encode_remaining_length
write_vbi-eq-ok packet field n bs h = ground arith

pub read_vbi-write_vbi :
    (packet : PacketType) (field written : String) (n : ℕ) (bs rest : Bytes)
    → write_vbi packet written n ≡ ok bs
    → read_vbi packet field (bs ++ rest) ≡ ok (n, rest)
unfolding read_vbi
read_vbi-write_vbi packet field written n bs rest h =
    let (fits, e) = write_vbi-eq-ok packet written n bs h in
    rw (e, vbi_loop-vbi_digits (field_errors packet field) rest n fits)
