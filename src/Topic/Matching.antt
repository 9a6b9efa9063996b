-- ===== src/Topic/Matching.antt =====
-- MatchTopicFilter of pkg/mqtt5/topic/topic.go against the rules of MQTT as a relation on levels.
use sky_tree.Common.{
  ℕ, Bool, true, false, not, ◌&&◌, List, [], ◌∷◌, ◌≡◌, ◌≢◌, sym, ◌∙◌, ◌↔◌, inl, inr, refl, arith,
  ◌==◌, Bool-cases, same_bytes, same_bytes-eq, same_bytes_refl, if◌then◌else◌, subst,
}
use sky_tree.Mqtt5.Properties.{Bytes}
use sky_tree.Topic.{match_levels, match_topic_filter, starts_with_dollar}
use sky_tree.Topic.Levels.{codes, is_empty, split, split_topic_levels, prepend}

-- The levels of a filter and the levels of a topic that it matches.
pub data Matches : List Bytes → List Bytes → Type 0 where
  end : Matches [] []
  multi : (ts : List Bytes) → Matches (codes "#" ∷ []) ts
  single :
      {fs : List Bytes} {t : Bytes} {ts : List Bytes}
      → Matches fs ts
      → Matches (codes "+" ∷ fs) (t ∷ ts)
  level :
      {fs : List Bytes} {ts : List Bytes} (l : Bytes)
      → l ≢ codes "#"
      → l ≢ codes "+"
      → Matches fs ts
      → Matches (l ∷ fs) (l ∷ ts)

is_empty-eq {ℓ} : {A : Type ℓ} (xs : List A) → is_empty xs ≡ true → xs ≡ []
unfolding is_empty
is_empty-eq [] h = refl
is_empty-eq (x ∷ xs) h = cc

same_bytes-≢ : (s t : Bytes) → same_bytes s t ≡ false → s ≢ t
same_bytes-≢ s t h e =
    let again = same_bytes_refl t in let moved = subst (λ x. same_bytes x t ≡ false) e h in cc

≢-same_bytes : (s t : Bytes) → s ≢ t → same_bytes s t ≡ false
≢-same_bytes s t h = elim (Bool-cases (same_bytes s t)) [
  | inl e ↦ absurd (h (same_bytes-eq s t e))
  | inr e ↦ e
]

-- A filter that ends in "#".
ends_in_multi :
    (f : Bytes) (fs ts : List Bytes)
    → same_bytes f (codes "#") ≡ true
    → is_empty fs ≡ true
    → Matches (f ∷ fs) ts
ends_in_multi f fs ts h k =
    subst (λ x. Matches (x ∷ fs) ts) (sym (same_bytes-eq f (codes "#") h))
      (subst (λ xs. Matches (codes "#" ∷ xs) ts) (sym (is_empty-eq fs k)) (Matches.multi ts))

pub match_levels-Matches : (fs ts : List Bytes) → match_levels fs ts ≡ true → Matches fs ts
unfolding match_levels
match_levels-Matches [] ts h = subst (λ xs. Matches [] xs) (sym (is_empty-eq ts h)) Matches.end
match_levels-Matches (f ∷ fs) [] h = ends_in_multi f fs [] (ground arith) (ground arith)
match_levels-Matches (f ∷ fs) (t ∷ ts) h = elim (Bool-cases (same_bytes f (codes "#"))) [
  | inl a ↦ ends_in_multi f fs (t ∷ ts) a (ground arith)
  | inr a ↦ elim (Bool-cases (same_bytes f (codes "+"))) [
    | inl b ↦
        subst (λ x. Matches (x ∷ fs) (t ∷ ts)) (sym (same_bytes-eq f (codes "+") b))
          (Matches.single (match_levels-Matches fs ts (ground arith)))
    | inr b ↦
        subst (λ x. Matches (f ∷ fs) (x ∷ ts)) (same_bytes-eq f t (ground arith))
          (Matches.level f (same_bytes-≢ f (codes "#") a) (same_bytes-≢ f (codes "+") b)
            (match_levels-Matches fs ts (ground arith)))
  ]
]

pub Matches-match_levels : {fs ts : List Bytes} → Matches fs ts → match_levels fs ts ≡ true
unfolding match_levels is_empty same_bytes
Matches-match_levels Matches.end = refl
Matches-match_levels (Matches.multi []) = refl
Matches-match_levels (Matches.multi (t ∷ ts)) = refl
Matches-match_levels (Matches.single m) = Matches-match_levels m
Matches-match_levels (Matches.level l h k m) = rw (
  ≢-same_bytes l (codes "#") h,
  ≢-same_bytes l (codes "+") k,
  same_bytes_refl l,
  Matches-match_levels m,
)

-- A topic that starts with "$" is hidden from the filters that do not.
abbrev pub is_hidden : Bytes → Bytes → Bool
is_hidden filter topic = starts_with_dollar topic && not (starts_with_dollar filter)

-- The levels are some, and the first starts as the string does.
abbrev pub StartsAs : Bytes → List Bytes → Type 0
StartsAs s levels =
    (l : Bytes) × (ls : List Bytes) × (levels ≡ l ∷ ls)
    × (starts_with_dollar l ≡ starts_with_dollar s)

prepend-StartsAs : (c : ℕ) (s : Bytes) (levels : List Bytes) → StartsAs (c ∷ s) (prepend c levels)
prepend-StartsAs c s [] = (c ∷ [], [], refl, refl)
prepend-StartsAs c s (l ∷ ls) = (c ∷ l, ls, refl, refl)

slash_dollar : (c : ℕ) → (c == b'/') ≡ true → false ≡ (c == b'$')
slash_dollar c h = ground arith

pub split_topic_levels-StartsAs :
    (c : ℕ) (s : Bytes) → StartsAs (c ∷ s) (split_topic_levels (c ∷ s))
unfolding split_topic_levels split
split_topic_levels-StartsAs c s = elim (Bool-cases (c == b'/')) [
  | inl e ↦ rw (e) ([], split s, refl, slash_dollar c e)
  | inr e ↦ rw (e) (prepend-StartsAs c s (split s))
]

match_topic_filter-levels :
    (a b : ℕ) (filter topic : Bytes)
    → match_topic_filter (a ∷ filter) (b ∷ topic) ≡ (
        not (is_hidden (a ∷ filter) (b ∷ topic))
        && match_levels (split_topic_levels (a ∷ filter)) (split_topic_levels (b ∷ topic)))
unfolding match_topic_filter is_empty
match_topic_filter-levels a b filter topic =
    let (f, fs, e, d) = split_topic_levels-StartsAs a filter in
    let (t, ts, e', d') = split_topic_levels-StartsAs b topic in
    rw (e, e') (visible d d' (match_levels (f ∷ fs) (t ∷ ts)))
  where
    visible :
        {x y x' y' : Bool}
        → x ≡ y
        → x' ≡ y'
        → (m : Bool) → (if x' && not x then false else m) ≡ (not (y' && not y) && m)
    visible d d' m = ground arith

abbrev Follows : Bytes → Bytes → Type 0
Follows filter topic =
    (filter ≢ [])
    × (topic ≢ [])
    × (is_hidden filter topic ≡ false)
    × Matches (split_topic_levels filter) (split_topic_levels topic)

both : (h m : Bool) → (not h && m) ≡ true → (h ≡ false) × (m ≡ true)
both h m e = ground arith

match_topic_filter-Follows :
    (filter topic : Bytes) → match_topic_filter filter topic ≡ true → Follows filter topic
unfolding match_topic_filter is_empty
match_topic_filter-Follows [] topic h = cc
match_topic_filter-Follows (a ∷ filter) [] h = cc
match_topic_filter-Follows (a ∷ filter) (b ∷ topic) h =
    let e = match_topic_filter-levels a b filter topic in
    let (shown, m) =
      both (is_hidden (a ∷ filter) (b ∷ topic))
        (match_levels (split_topic_levels (a ∷ filter)) (split_topic_levels (b ∷ topic)))
        (sym e ∙ h) in
    (λ k. cc, λ k. cc, shown, match_levels-Matches _ _ m)

Follows-match_topic_filter :
    (filter topic : Bytes) → Follows filter topic → match_topic_filter filter topic ≡ true
Follows-match_topic_filter [] topic h = absurd (h.0 refl)
Follows-match_topic_filter (a ∷ filter) [] h = absurd (h.1 refl)
Follows-match_topic_filter (a ∷ filter) (b ∷ topic) (f, t, shown, m) =
    rw (match_topic_filter-levels a b filter topic, shown, Matches-match_levels m)

-- `MatchTopicFilter` says true if and only if the filter and the topic are not empty, the topic is
-- not hidden from the filter, and the levels of the filter match the levels of the topic by the
-- rules of MQTT.
pub match_topic_filter_iff :
    (filter topic : Bytes)
    → (match_topic_filter filter topic ≡ true) ↔ (
        (filter ≢ [])
        × (topic ≢ [])
        × (is_hidden filter topic ≡ false)
        × Matches (split_topic_levels filter) (split_topic_levels topic))
match_topic_filter_iff filter topic =
    (match_topic_filter-Follows filter topic, Follows-match_topic_filter filter topic)
