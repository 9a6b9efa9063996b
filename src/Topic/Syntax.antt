-- ===== src/Topic/Syntax.antt =====
-- pkg/mqtt5/topic/filter_validator.go: what the validator accepts, and the parts of a shared topic.
use sky_tree.Common.{
  ℕ, true, false, none, some, List, [], ◌∷◌, ◌++◌, ◌≡◌, ◌≢◌, ◌↔◌, ◌⊎◌, inl, inr, refl, sym, ◌∙◌,
  Option-cases, arith, Bool-cases, same_bytes, same_bytes-eq, same_bytes_refl, if◌then◌else◌, subst,
}
use sky_tree.Mqtt5.Properties.{Bytes}
use sky_tree.Topic.{
  FilterError, check_levels, check_share, validate_topic_filter_syntax, parse_share_topic,
  is_share_topic, match_topic_filter,
}
use sky_tree.Topic.Levels.{
  codes, is_empty, split_topic_levels, contains_byte, contains_wildcard, trim_prefix, cut,
}
use sky_tree.Topic.Matching.{Matches, match_topic_filter_iff}

-- A level that stands for itself, or "+".
abbrev pub IsSegment : Bytes → Type 0
IsSegment l = (contains_byte b'#' l ≡ false) × ((l ≡ codes "+") ⊎ (contains_byte b'+' l ≡ false))

-- The levels of a filter: segments, of which the last may be "#".
pub data IsFilter : List Bytes → Type 0 where
  done : IsFilter []
  all : IsFilter (codes "#" ∷ [])
  segment : (l : Bytes) (ls : List Bytes) → IsSegment l → IsFilter ls → IsFilter (l ∷ ls)

segment-multi : (l : Bytes) → contains_byte b'#' l ≡ false → same_bytes l (codes "#") ≡ false
unfolding contains_byte
segment-multi l h = elim (Bool-cases (same_bytes l (codes "#"))) [
  | inl e ↦
      absurd (
        multi_contains
          (subst (λ x. contains_byte b'#' x ≡ false) (same_bytes-eq l (codes "#") e) h))
  | inr e ↦ e
]
  where
    multi_contains : contains_byte b'#' (codes "#") ≢ false
    multi_contains = λ k. cc

check_levels-IsSegment :
    (l : Bytes) (ls : List Bytes)
    → same_bytes l (codes "#") ≡ false
    → check_levels (l ∷ ls) ≡ none
    → IsSegment l × (check_levels ls ≡ none)
unfolding check_levels
check_levels-IsSegment l ls e h = elim (Bool-cases (same_bytes l (codes "+"))) [
  | inl p ↦ ((ground arith, inl (same_bytes-eq l (codes "+") p)), ground arith)
  | inr p ↦ ((ground arith, inr (ground arith)), ground arith)
]

multi_last :
    (l : Bytes) (ls : List Bytes)
    → same_bytes l (codes "#") ≡ true
    → check_levels (l ∷ ls) ≡ none
    → ls ≡ []
unfolding check_levels is_empty
multi_last l [] e h = refl
multi_last l (m ∷ ls) e h = absurd (ground arith)

check_levels-IsFilter : (ls : List Bytes) → check_levels ls ≡ none → IsFilter ls
unfolding is_empty
check_levels-IsFilter [] h = IsFilter.done
check_levels-IsFilter (l ∷ ls) h = elim (Bool-cases (same_bytes l (codes "#"))) [
  | inl e ↦
      subst (λ x. IsFilter (x ∷ ls)) (sym (same_bytes-eq l (codes "#") e))
        (subst (λ xs. IsFilter (codes "#" ∷ xs)) (sym (multi_last l ls e h)) IsFilter.all)
  | inr e ↦
      let (s, k) = check_levels-IsSegment l ls e h in
      IsFilter.segment l ls s (check_levels-IsFilter ls k)
]

IsFilter-check_levels : {ls : List Bytes} → IsFilter ls → check_levels ls ≡ none
unfolding check_levels is_empty same_bytes
IsFilter-check_levels IsFilter.done = refl
IsFilter-check_levels IsFilter.all = refl
IsFilter-check_levels (IsFilter.segment l ls (h, inl p) f) =
    let test = subst (λ x. same_bytes x (codes "+") ≡ true) (sym p) (same_bytes_refl (codes "+")) in
    ground (arith, segment-multi l h, IsFilter-check_levels f)
IsFilter-check_levels (IsFilter.segment l ls (h, inr p) f) =
    ground (arith, segment-multi l h, IsFilter-check_levels f)

not_shared :
    (filter : Bytes) → is_share_topic filter ≡ false → trim_prefix (codes "$share/") filter ≡ none
unfolding is_share_topic
not_shared filter h = elim (Option-cases (trim_prefix (codes "$share/") filter)) [
  | inl e ↦ e
  | inr (rest, e) ↦ absurd (ground arith)
]

validate_topic_filter_syntax-levels :
    (filter : Bytes)
    → is_share_topic filter ≡ false
    → validate_topic_filter_syntax filter ≡ (
        if is_empty filter
        then some FilterError.empty
        else check_levels (split_topic_levels filter))
unfolding validate_topic_filter_syntax
validate_topic_filter_syntax-levels filter h = rw (not_shared filter h)

accepted-IsFilter :
    (filter : Bytes)
    → is_share_topic filter ≡ false
    → validate_topic_filter_syntax filter ≡ none
    → (filter ≢ []) × IsFilter (split_topic_levels filter)
unfolding is_empty
accepted-IsFilter [] h k = let e = sym (validate_topic_filter_syntax-levels [] h) ∙ k in cc
accepted-IsFilter (c ∷ s) h k =
    (λ e. cc, check_levels-IsFilter _ (sym (validate_topic_filter_syntax-levels (c ∷ s) h) ∙ k))

IsFilter-accepted :
    (filter : Bytes)
    → is_share_topic filter ≡ false
    → (filter ≢ []) × IsFilter (split_topic_levels filter)
    → validate_topic_filter_syntax filter ≡ none
unfolding is_empty
IsFilter-accepted [] h k = absurd (k.0 refl)
IsFilter-accepted (c ∷ s) h k =
    validate_topic_filter_syntax-levels (c ∷ s) h ∙ IsFilter-check_levels k.1

-- A filter that does not start with "$share/" is accepted if and only if it is not empty, and its
-- levels are segments without "#", where "+" stands alone in its segment; the last may be "#".
pub validate_topic_filter_syntax_iff :
    (filter : Bytes)
    → is_share_topic filter ≡ false
    → (validate_topic_filter_syntax filter ≡ none)
      ↔ ((filter ≢ []) × IsFilter (split_topic_levels filter))
validate_topic_filter_syntax_iff filter h = (accepted-IsFilter filter h, IsFilter-accepted filter h)

differs :
    (c : ℕ) (s : Bytes) (l : Bytes) → contains_byte c l ≡ false → contains_byte c s ≡ true → l ≢ s
differs c s l h k = λ e. let moved = subst (λ x. contains_byte c x ≡ false) e h in cc

IsFilter-Matches : {ls : List Bytes} → IsFilter ls → Matches ls ls
unfolding contains_byte
IsFilter-Matches IsFilter.done = Matches.end
IsFilter-Matches IsFilter.all = Matches.multi _
IsFilter-Matches (IsFilter.segment l ls (h, inl p) f) =
    subst (λ x. Matches (x ∷ ls) (x ∷ ls)) (sym p) (Matches.single (IsFilter-Matches f))
IsFilter-Matches (IsFilter.segment l ls (h, inr p) f) =
    Matches.level l (differs b'#' (codes "#") l h refl) (differs b'+' (codes "+") l p refl)
      (IsFilter-Matches f)

-- A filter that is accepted and not shared matches itself as a topic.
pub match_topic_filter_refl :
    (filter : Bytes)
    → is_share_topic filter ≡ false
    → validate_topic_filter_syntax filter ≡ none
    → match_topic_filter filter filter ≡ true
match_topic_filter_refl filter h k =
    let (some_byte, levels) = accepted-IsFilter filter h k in
    (match_topic_filter_iff filter filter).1
      (some_byte, some_byte, ground arith, IsFilter-Matches levels)

cut-append :
    (group filter : Bytes)
    → contains_byte b'/' group ≡ false
    → cut (group ++ (b'/' ∷ filter)) ≡ some (group, filter)
unfolding cut contains_byte
cut-append [] filter h = refl
cut-append (c ∷ group) filter h = ground (arith, cut-append group filter)

-- The group and the filter of a shared topic are read back, where the group holds no slash.
pub parse_share_topic-append :
    (group filter : Bytes)
    → contains_byte b'/' group ≡ false
    → parse_share_topic (codes "$share/" ++ (group ++ (b'/' ∷ filter))) ≡ (group, filter)
unfolding parse_share_topic trim_prefix
parse_share_topic-append group filter h = rw (cut-append group filter h)

check_share_iff :
    (group filter : Bytes)
    → (check_share (some (group, filter)) ≡ none) ↔ (
        (group ≢ [])
        × (filter ≢ [])
        × (contains_wildcard group ≡ false)
        × IsFilter (split_topic_levels filter))
unfolding is_empty
check_share_iff [] filter = (λ h. cc, λ k. absurd (k.0 refl))
check_share_iff (g ∷ group) [] = (λ h. cc, λ k. absurd (k.1 refl))
check_share_iff (g ∷ group) (c ∷ filter) = (
  λ h. (λ e. cc, λ e. cc, ground arith, check_levels-IsFilter _ (ground arith)),
  λ k. ground (arith, k, IsFilter-check_levels k.3),
)

-- A shared filter is accepted if and only if its group is not empty and has no wildcards, and its
-- filter is not empty and has levels of a filter; the group holds no slash.
pub validate_topic_filter_syntax-share :
    (group filter : Bytes)
    → contains_byte b'/' group ≡ false
    → (validate_topic_filter_syntax (codes "$share/" ++ (group ++ (b'/' ∷ filter))) ≡ none) ↔ (
        (group ≢ [])
        × (filter ≢ [])
        × (contains_wildcard group ≡ false)
        × IsFilter (split_topic_levels filter))
unfolding validate_topic_filter_syntax trim_prefix is_empty
validate_topic_filter_syntax-share group filter h =
    subst
      (λ parts. (check_share parts ≡ none) ↔ (
        (group ≢ [])
        × (filter ≢ [])
        × (contains_wildcard group ≡ false)
        × IsFilter (split_topic_levels filter)))
      (sym (cut-append group filter h)) (check_share_iff group filter)
