-- ===== src/Wire/Properties/RoundTrip/Ranges.antt =====
-- The ranges of the Go types of property values, and slices that are not empty where they are there.
use sky_tree.Common.{ℕ, ◌<◌, ◌≡◌, Option, none, some, [], ◌∷◌, arith}
use sky_tree.Mqtt5.Properties.{Bytes}
use sky_tree.Wire.Bytes.{slice_of}
use sky_tree.Wire.Properties.Structs.{
  publish_properties, connect_properties, connack_properties, subscribe_properties,
  reason_properties, unsubscribe_properties, disconnect_properties, auth_properties,
}

abbrev pub Below : ℕ → Option ℕ → Type 0
Below n none = Unit
Below n (some a) = a < n

abbrev pub IsSolid : Option Bytes → Type 0
IsSolid none = Unit
IsSolid (some []) = ⊥
IsSolid (some (b ∷ bs)) = Unit

pub below_some : (n : ℕ) (v : Option ℕ) (a : ℕ) → Below n v → v ≡ some a → a < n
below_some n none a h e = cc
below_some n (some b) a h e = rw (← e') h
  where
    e' : b ≡ a
    e' = cc

pub slice_of_solid : (v : Option Bytes) (a : Bytes) → IsSolid v → v ≡ some a → slice_of a ≡ v
slice_of_solid none a h e = cc
slice_of_solid (some []) a h e = absurd h
slice_of_solid (some (b ∷ bs)) a h e = ground arith
