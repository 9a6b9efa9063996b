-- ===== src/Topic/Levels.antt =====
-- The functions of Go's package strings that the broker uses on topics, the order of strings, and SplitTopicLevels of
-- pkg/mqtt5/topic/topic.go. A string is its list of bytes.
use Prim.Native.Char.{code}
use sky_tree.Common.{
  ltb, ℕ, String, Bool, true, false, ◌||◌, Option, none, some, List, [], ◌∷◌, ◌==◌, if◌then◌else◌,
}
use sky_tree.Mqtt5.Properties.{Bytes}

-- The bytes of an ASCII literal.
abbrev pub codes : String → Bytes
codes String.[] = []
codes (String.◌∷◌ c s) = code c ∷ codes s

unfoldable pub is_empty {ℓ} : {A : Type ℓ} → List A → Bool
is_empty [] = true
is_empty (_ ∷ _) = false

-- strings.Contains(s, c) for one byte c.
unfoldable pub contains_byte : ℕ → Bytes → Bool
contains_byte c [] = false
contains_byte c (b ∷ s) = (b == c) || contains_byte c s

-- strings.ContainsAny(s, "+#").
unfoldable pub contains_wildcard : Bytes → Bool
unfolding contains_byte
contains_wildcard s = contains_byte b'+' s || contains_byte b'#' s

-- strings.TrimPrefix where strings.HasPrefix holds; `none` where it does not.
unfoldable pub trim_prefix : Bytes → Bytes → Option Bytes
trim_prefix [] s = some s
trim_prefix (_ ∷ _) [] = none
trim_prefix (p ∷ ps) (b ∷ s) = if p == b then trim_prefix ps s else none

abbrev pub prepend : ℕ → List Bytes → List Bytes
prepend c [] = (c ∷ []) ∷ []
prepend c (l ∷ ls) = (c ∷ l) ∷ ls

-- strings.Split(s, "/").
unfoldable pub split : Bytes → List Bytes
split [] = [] ∷ []
split (c ∷ s) = let rest = split s in if c == b'/' then [] ∷ rest else prepend c rest

-- strings.SplitN(s, "/", 2) where it has two parts, which is where s holds a slash.
unfoldable pub cut : Bytes → Option (Bytes × Bytes)
cut [] = none
cut (c ∷ s) =
    let rest : Option (Bytes × Bytes) = elim (cut s) [
      | none ↦ none
      | some (a, b) ↦ some (c ∷ a, b)
    ] in
    if c == b'/' then some ([], s) else rest

unfoldable pub split_topic_levels : Bytes → List Bytes
unfolding split
split_topic_levels [] = []
split_topic_levels (c ∷ s) = split (c ∷ s)

-- a < b on strings.
unfoldable pub bytes_before : Bytes → Bytes → Bool
bytes_before [] [] = false
bytes_before [] (_ ∷ _) = true
bytes_before (_ ∷ _) [] = false
bytes_before (a ∷ s) (b ∷ t) =
    let rest = bytes_before s t in if ltb a b then true else if a == b then rest else false
