-- ===== src/SubCenter/Match/Agreement.antt =====
-- The tree's matching against MatchTopicFilter of pkg/mqtt5/topic/topic.go, and its check of filters
-- against ValidateTopicFilterSyntax of pkg/mqtt5/topic/filter_validator.go.
use sky_tree.Common.{
  Bool, true, false, not, ◌&&◌, none, List, [], ◌∷◌, ◌≡◌, ◌≢◌, ◌↔◌, refl, sym, subst, ◌∙◌, arith,
}
use sky_tree.Mqtt5.Properties.{Bytes}
use sky_tree.Topic.{
  match_topic_filter, starts_with_dollar, check_levels, validate_topic_filter_syntax,
}
use sky_tree.Topic.Levels.{codes, is_empty, split_topic_levels, trim_prefix}
use sky_tree.Topic.Matching.{Matches, match_topic_filter_iff, split_topic_levels-StartsAs}
use sky_tree.SubCenter.Core.{validate_topic_filter, check_filter_levels}
use sky_tree.SubCenter.Match.{allow_root_wildcards_for_publish}
use sky_tree.SubCenter.Match.Walk.{LiteralFirst, Selects}

Matches-dollar :
    {fs : List Bytes} {ts : List Bytes}
    → Matches fs ts
    → allow_root_wildcards_for_publish ts ≡ false
    → LiteralFirst fs
    → allow_root_wildcards_for_publish fs ≡ false
Matches-dollar Matches.end a h = a
Matches-dollar (Matches.multi ts) a h = absurd (h.0 refl)
Matches-dollar (Matches.single m) a h = absurd (h.1 refl)
Matches-dollar (Matches.level l p q m) a h = a

dollar-LiteralFirst :
    (fs : List Bytes) → allow_root_wildcards_for_publish fs ≡ false → LiteralFirst fs
dollar-LiteralFirst [] h = tt
dollar-LiteralFirst (l ∷ fs) h = (
  λ e. cc (subst (λ x. not (starts_with_dollar x) ≡ false) e h),
  λ e. cc (subst (λ x. not (starts_with_dollar x) ≡ false) e h),
)

allow-dollar :
    (s : Bytes)
    → s ≢ []
    → allow_root_wildcards_for_publish (split_topic_levels s) ≡ not (starts_with_dollar s)
allow-dollar [] h = absurd (h refl)
allow-dollar (c ∷ s) h = let (l, ls, e, d) = split_topic_levels-StartsAs c s in rw (e, d) refl

shown_dollar :
    (filter topic : Bool) → (topic && not filter) ≡ false → not topic ≡ false → not filter ≡ false
shown_dollar filter topic h e = ground arith

shown_if :
    (fs ts : List Bytes) (filter topic : Bool)
    → Matches fs ts
    → (allow_root_wildcards_for_publish ts ≡ false → LiteralFirst fs)
    → allow_root_wildcards_for_publish fs ≡ not filter
    → allow_root_wildcards_for_publish ts ≡ not topic
    → (topic && not filter) ≡ false
shown_if fs ts filter false m h a b = refl
shown_if fs ts filter true m h a b = sym a ∙ Matches-dollar m b (h b)

-- For a filter and a topic that are not empty, `MatchTopicFilter` says true if and only if the tree
-- walk's rule selects the filter's levels for the topic's.
pub match_topic_filter-Selects :
    (filter topic : Bytes)
    → filter ≢ []
    → topic ≢ []
    → (match_topic_filter filter topic ≡ true)
      ↔ Selects
          (allow_root_wildcards_for_publish (split_topic_levels topic))
          (split_topic_levels filter)
          (split_topic_levels topic)
match_topic_filter-Selects filter topic f t = (
  λ h.
      let (_, _, shown, m) = (match_topic_filter_iff filter topic).0 h in
      (
        m,
        λ e.
            dollar-LiteralFirst (split_topic_levels filter)
              (allow-dollar filter f ∙ shown_dollar _ _ shown (sym (allow-dollar topic t) ∙ e)),
      ),
  λ (m, h). (match_topic_filter_iff filter topic).1 (
    f,
    t,
    shown_if (split_topic_levels filter) (split_topic_levels topic) (starts_with_dollar filter)
        (starts_with_dollar topic) m h (allow-dollar filter f) (allow-dollar topic t),
    m,
  ),
)

check_filter_levels-check_levels :
    (ls : List Bytes) → (check_filter_levels ls ≡ none) ↔ (check_levels ls ≡ none)
unfolding check_filter_levels check_levels
check_filter_levels-check_levels [] = ((λ _. refl), (λ _. refl))
check_filter_levels-check_levels (l ∷ ls) =
    let (f, g) = check_filter_levels-check_levels ls in
    ((λ h. ground (arith, f)), (λ h. ground (arith, g)))

-- A filter that is no shared subscription passes the tree's check if and only if it passes
-- `ValidateTopicFilterSyntax`.
pub validate_topic_filter-syntax :
    (filter : Bytes)
    → trim_prefix (codes "$share/") filter ≡ none
    → (validate_topic_filter filter ≡ none) ↔ (validate_topic_filter_syntax filter ≡ none)
unfolding validate_topic_filter validate_topic_filter_syntax is_empty
validate_topic_filter-syntax [] h = ((λ e. cc), (λ e. cc))
validate_topic_filter-syntax (c ∷ s) h =
    rw (h, validate_topic_filter_syntax)
      (check_filter_levels-check_levels (split_topic_levels (c ∷ s)))
