-- ===== src/Common/Maps.antt =====
-- Go's maps as association lists: a key stands in one entry, and `range` visits them in some order.
use Prim.Native.Nat.{ℕ}
use mathlib.Core.Path.{◌≡◌, subst}
use mathlib.Core.Logic.{◌↔◌, ◌≢◌, inl, inr}
use mathlib.Core.Bool.{Bool, true}
use mathlib.Core.Option.{Option, none, some}
use mathlib.Core.List.{List, [], ◌∷◌}
use native.Mathlib.Omega.{arith}
use sky_tree.Common.Tests.{
  ◌==◌, ==_iff, if◌then◌else◌, same_bytes, same_bytes-eq, same_bytes_refl, Bool-cases,
}

-- What a map compares its keys by.
pub record Key (K : Type 0) : Type 0 where
  pub same : K → K → Bool
  pub same_iff : (a b : K) → (same a b ≡ true) ↔ (a ≡ b)

instance abbrev pub number_key : Key ℕ
number_key = record { same = ◌==◌; same_iff = ==_iff }

pub same_bytes_iff : (s t : List ℕ) → (same_bytes s t ≡ true) ↔ (s ≡ t)
same_bytes_iff s t =
    (same_bytes-eq s t, λ e. subst (λ x. same_bytes s x ≡ true) e (same_bytes_refl s))

instance abbrev pub bytes_key : Key (List ℕ)
bytes_key = record { same = same_bytes; same_iff = same_bytes_iff }

module _ {K V : Type 0} ⦃key : Key K⦄ where
  unfoldable pub find : K → List (K × V) → Option V
  find k [] = none
  find k ((j, v) ∷ m) = let rest = find k m in if key.same j k then some v else rest

  unfoldable pub remove : K → List (K × V) → List (K × V)
  remove k [] = []
  remove k ((j, v) ∷ m) = let rest = remove k m in if key.same j k then rest else (j, v) ∷ rest

  unfoldable pub insert : K → V → List (K × V) → List (K × V)
  unfolding remove
  insert k v m = (k, v) ∷ remove k m

  pub find-remove :
      (k j : K) (m : List (K × V)) → find j (remove k m) ≡ (if key.same k j then none else find j m)
  unfolding find remove
  find-remove k j [] = ground arith
  find-remove k j ((i, w) ∷ m) =
      ground (arith, find-remove k j m, key.same_iff k j, key.same_iff i k, key.same_iff i j)

  pub find-insert :
      (k j : K) (v : V) (m : List (K × V))
      → find j (insert k v m) ≡ (if key.same k j then some v else find j m)
  unfolding find insert
  find-insert k j v m = ground (arith, find-remove k j m)

  pub find-insert_self : (k : K) (v : V) (m : List (K × V)) → find k (insert k v m) ≡ some v
  find-insert_self k v m = ground (arith, find-insert k k v m, key.same_iff k k)

  pub find-remove_self : (k : K) (m : List (K × V)) → find k (remove k m) ≡ none
  find-remove_self k m = ground (arith, find-remove k k m, key.same_iff k k)

  -- No key stands in two entries.
  abbrev pub IsMap : List (K × V) → Type 0
  IsMap [] = Unit
  IsMap ((k, v) ∷ m) = (find k m ≡ none) × IsMap m

  pub remove-IsMap : (k : K) (m : List (K × V)) → IsMap m → IsMap (remove k m)
  unfolding remove
  remove-IsMap k [] h = tt
  remove-IsMap k ((j, v) ∷ m) h = elim (Bool-cases (key.same j k)) [
    | inl e ↦ rw e (remove-IsMap k m h.1)
    | inr e ↦ rw e (ground (arith, find-remove k j m), remove-IsMap k m h.1)
  ]

  pub insert-IsMap : (k : K) (v : V) (m : List (K × V)) → IsMap m → IsMap (insert k v m)
  unfolding insert
  insert-IsMap k v m h = (find-remove_self k m, remove-IsMap k m h)

  pub find-remove_ne : (k j : K) (m : List (K × V)) → k ≢ j → find j (remove k m) ≡ find j m
  find-remove_ne k j m h = ground (arith, find-remove k j m, key.same_iff k j)

  pub find-insert_ne :
      (k j : K) (v : V) (m : List (K × V)) → k ≢ j → find j (insert k v m) ≡ find j m
  find-insert_ne k j v m h = ground (arith, find-insert k j v m, key.same_iff k j)

  -- What all entries say that a loop over the map visits.
  abbrev pub AllAt : K → (V → Type 0) → List (K × V) → Type 0
  AllAt k P [] = Unit
  AllAt k P ((j, v) ∷ m) = ((j ≡ k) → P v) × AllAt k P m

  none-AllAt : (k : K) (P : V → Type 0) (m : List (K × V)) → find k m ≡ none → AllAt k P m
  unfolding find
  none-AllAt k P [] h = tt
  none-AllAt k P ((j, v) ∷ m) h = (
    λ e. absurd (ground (arith, key.same_iff j k)),
    none-AllAt k P m (ground (arith, key.same_iff j k)),
  )

  pub find-AllAt :
      (k : K) (P : V → Type 0) (m : List (K × V))
      → IsMap m
      → ((v : V) → find k m ≡ some v → P v)
      → AllAt k P m
  unfolding find
  find-AllAt k P [] h p = tt
  find-AllAt k P ((j, v) ∷ m) h p = elim (Bool-cases (key.same j k)) [
    | inl e ↦
        let same : j ≡ k = (key.same_iff j k).0 e in
        (λ _. p v (rw e), none-AllAt k P m (subst (λ x. find x m ≡ none) same h.0))
    | inr e ↦
        (λ q. absurd (ground (arith, key.same_iff j k)), find-AllAt k P m h.1 (λ w f. p w (rw e f)))
  ]
