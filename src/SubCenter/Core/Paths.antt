-- ===== src/SubCenter/Core/Paths.antt =====
-- Strings and their levels from SplitTopicLevels.
use sky_tree.Common.{
  ℕ, true, false, List, [], ◌∷◌, ◌++◌, ◌==◌, ==_iff, ◌≡◌, refl, sym, ap, subst, ◌∙◌, arith,
  same_bytes, same_bytes-eq, same_bytes_refl, Bool-cases, inl, inr,
}
use sky_tree.Mqtt5.Properties.{Bytes}
use sky_tree.Topic.Levels.{is_empty, split, split_topic_levels, prepend}
use sky_tree.SubCenter.Tree.{same_levels}

abbrev with_slashes : List Bytes → Bytes
with_slashes [] = []
with_slashes (l ∷ ls) = b'/' ∷ (l ++ with_slashes ls)

abbrev join : List Bytes → Bytes
join [] = []
join (l ∷ ls) = l ++ with_slashes ls

join-prepend : (c : ℕ) (ls : List Bytes) → join (prepend c ls) ≡ c ∷ join ls
join-prepend c [] = refl
join-prepend c (l ∷ ls) = refl

with_slashes-prepend :
    (c : ℕ) (ls : List Bytes) → with_slashes (prepend c ls) ≡ b'/' ∷ (c ∷ join ls)
with_slashes-prepend c [] = refl
with_slashes-prepend c (l ∷ ls) = refl

with_slashes-split : (s : Bytes) → with_slashes (split s) ≡ b'/' ∷ join (split s)
unfolding split
with_slashes-split [] = refl
with_slashes-split (c ∷ s) = elim (Bool-cases (c == b'/')) [
  | inl e ↦ rw e refl
  | inr e ↦ rw (e, with_slashes-prepend c (split s), join-prepend c (split s)) refl
]

join-split : (s : Bytes) → join (split s) ≡ s
unfolding split
join-split [] = refl
join-split (c ∷ s) = elim (Bool-cases (c == b'/')) [
  | inl e ↦ rw (e, with_slashes-split s, join-split s) (ap (λ x. x ∷ s) (sym ((==_iff c b'/').0 e)))
  | inr e ↦ rw (e, join-prepend c (split s), join-split s) refl
]

join-split_topic_levels : (s : Bytes) → join (split_topic_levels s) ≡ s
unfolding split_topic_levels
join-split_topic_levels [] = refl
join-split_topic_levels (c ∷ s) = join-split (c ∷ s)

pub split_topic_levels-inj : (s t : Bytes) → split_topic_levels s ≡ split_topic_levels t → s ≡ t
split_topic_levels-inj s t e =
    sym (join-split_topic_levels s) ∙ (ap join e ∙ join-split_topic_levels t)

pub same_levels-eq : (s t : List Bytes) → same_levels s t ≡ true → s ≡ t
unfolding same_levels
same_levels-eq [] [] h = refl
same_levels-eq [] (_ ∷ _) h = cc
same_levels-eq (_ ∷ _) [] h = cc
same_levels-eq (a ∷ s) (b ∷ t) h = ground (arith, same_levels-eq s t, same_bytes-eq a b)

pub same_levels_refl : (s : List Bytes) → same_levels s s ≡ true
unfolding same_levels
same_levels_refl [] = refl
same_levels_refl (a ∷ s) = rw (same_bytes_refl a, same_levels_refl s) refl

pub same_levels-split :
    (s t : Bytes) → same_levels (split_topic_levels s) (split_topic_levels t) ≡ same_bytes s t
same_levels-split s t = elim (Bool-cases (same_bytes s t)) [
  | inl e ↦ rw e (
      subst (λ x. same_levels (split_topic_levels s) (split_topic_levels x) ≡ true)
        (same_bytes-eq s t e) (same_levels_refl (split_topic_levels s)))
  | inr e ↦ elim (Bool-cases (same_levels (split_topic_levels s) (split_topic_levels t))) [
    | inl q ↦
        let eq = split_topic_levels-inj s t (same_levels-eq _ _ q) in
        let again = subst (λ x. same_bytes s x ≡ true) eq (same_bytes_refl s) in cc
    | inr q ↦ rw (e, q) refl
  ]
]

is_empty-prepend : (c : ℕ) (ls : List Bytes) → is_empty (prepend c ls) ≡ false
unfolding is_empty
is_empty-prepend c [] = refl
is_empty-prepend c (l ∷ ls) = refl

pub is_empty-split_topic_levels :
    (c : ℕ) (s : Bytes) → is_empty (split_topic_levels (c ∷ s)) ≡ false
unfolding split_topic_levels split is_empty
is_empty-split_topic_levels c s = elim (Bool-cases (c == b'/')) [
  | inl e ↦ rw e refl
  | inr e ↦ rw (e, is_empty-prepend c (split s)) refl
]
