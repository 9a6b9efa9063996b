-- ===== src/Acl/Decisions.antt =====
-- What the evaluator's decisions guarantee: policy.go, and OnSubscribe and OnReceivedPublish of
-- internal/broker/plugin/acl.go.
use mathlib.Core.List.{Memᴰ}
use sky_tree.Common.{
  true, false, ◌&&◌, List, [], ◌∷◌, if◌then◌else◌, ◌≡◌, ◌≢◌, refl, sym, subst, arith, Bool-cases,
  inl, inr,
}
use sky_tree.Mqtt5.Properties.{Bytes}
use sky_tree.Topic.{match_topic_filter}
use sky_tree.Topic.Levels.{is_empty, contains_wildcard}
use sky_tree.Acl.{
  match_topic, filter_superset, Action, publish, subscribe, Rule, Ruleset, identity_match,
  any_match_topic, any_superset, applies, any_denies, any_allows, eval, allow_publish,
  allow_subscribe, actual_filter, on_subscribe, on_received_publish,
}
use sky_tree.Acl.Superset.{filter_superset-match_topic, match_topic_filter-match_topic}

any_superset-mem :
    (fs : List Bytes) (req : Bytes)
    → any_superset fs req ≡ true
    → (f : Bytes) × Memᴰ f fs × (filter_superset f req ≡ true)
unfolding any_superset
any_superset-mem [] req h = absurd (cc h)
any_superset-mem (f ∷ fs) req h = elim (Bool-cases (filter_superset f req)) [
  | inl e ↦ (f, Memᴰ.head refl, e)
  | inr e ↦ let (g, m, k) = any_superset-mem fs req (ground arith) in (g, Memᴰ.tail m, k)
]

mem-any_match_topic :
    (fs : List Bytes) (f topic : Bytes)
    → Memᴰ f fs
    → match_topic f topic ≡ true
    → any_match_topic fs topic ≡ true
unfolding any_match_topic
mem-any_match_topic [] f topic m h = elim m [ ]
mem-any_match_topic (g ∷ fs) f topic (Memᴰ.head e) h =
    let same = subst (λ x. match_topic x topic ≡ true) e h in ground arith
mem-any_match_topic (g ∷ fs) f topic (Memᴰ.tail m) h =
    ground (arith, mem-any_match_topic fs f topic m h)

any_allows-mem :
    (rs : List Rule) (username client : Bytes) (action : Action) (subject : Bytes)
    → any_allows rs username client action subject ≡ true
    → (r : Rule) × Memᴰ r rs
      × (identity_match r.identity username client ≡ true)
      × (applies action r.allow subject ≡ true)
unfolding any_allows
any_allows-mem [] username client action subject h = absurd (cc h)
any_allows-mem (r ∷ rs) username client action subject h =
    elim (Bool-cases
      (identity_match r.identity username client && applies action r.allow subject)) [
        | inl e ↦ (r, Memᴰ.head refl, ground arith, ground arith)
        | inr e ↦
            let (q, m, a, b) = any_allows-mem rs username client action subject (ground arith) in
            (q, Memᴰ.tail m, a, b)
      ]

mem-any_denies :
    (rs : List Rule) (r : Rule) (username client : Bytes) (action : Action) (subject : Bytes)
    → Memᴰ r rs
    → identity_match r.identity username client ≡ true
    → applies action r.deny subject ≡ true
    → any_denies rs username client action subject ≡ true
unfolding any_denies
mem-any_denies [] r username client action subject m a b = elim m [ ]
mem-any_denies (q ∷ rs) r username client action subject (Memᴰ.head e) a b =
    let a' = subst (λ x. identity_match x.identity username client ≡ true) e a in
    let b' = subst (λ x. applies action x.deny subject ≡ true) e b in ground arith
mem-any_denies (q ∷ rs) r username client action subject (Memᴰ.tail m) a b =
    ground (arith, mem-any_denies rs r username client action subject m a b)

any_match_topic-mem :
    (fs : List Bytes) (topic : Bytes)
    → any_match_topic fs topic ≡ true
    → (f : Bytes) × Memᴰ f fs × (match_topic f topic ≡ true)
unfolding any_match_topic
any_match_topic-mem [] topic h = absurd (cc h)
any_match_topic-mem (f ∷ fs) topic h = elim (Bool-cases (match_topic f topic)) [
  | inl e ↦ (f, Memᴰ.head refl, e)
  | inr e ↦ let (g, m, k) = any_match_topic-mem fs topic (ground arith) in (g, Memᴰ.tail m, k)
]

-- A yes is not denied, and is allowed where the default is to deny.
eval-yes :
    (policy : Ruleset) (username client : Bytes) (action : Action) (subject : Bytes)
    → eval policy username client action subject ≡ true
    → (any_denies policy.rules username client action subject ≡ false)
      × (policy.default_deny ≡ true → any_allows policy.rules username client action subject ≡ true)
unfolding eval
eval-yes policy username client action subject h = (ground arith, λ d. ground arith)

on_received_publish-eval :
    (policy : Ruleset) (username client topic : Bytes)
    → on_received_publish policy username client topic
      ≡ (if is_empty topic then false else eval policy username client publish topic)
unfolding on_received_publish allow_publish
on_received_publish-eval policy username client topic = elim (Bool-cases (is_empty topic)) [
  | inl e ↦ rw (e, on_received_publish, allow_publish) refl
  | inr e ↦ rw (e, on_received_publish, allow_publish) refl
]

publish-eval :
    (policy : Ruleset) (username client topic : Bytes)
    → on_received_publish policy username client topic ≡ true
    → (is_empty topic ≡ false) × (eval policy username client publish topic ≡ true)
publish-eval policy username client topic h =
    let step = on_received_publish-eval policy username client topic in (ground arith, ground arith)

-- A publication that the plugin lets through has a topic, no deny filter of a rule for the client and
-- the user name matches the topic, and where the default is to deny, an allow filter of such a rule does.
pub on_received_publish-allowed :
    (policy : Ruleset) (username client topic : Bytes)
    → on_received_publish policy username client topic ≡ true
    → (is_empty topic ≡ false)
      × ((r : Rule) (f : Bytes)
          → Memᴰ r policy.rules
          → identity_match r.identity username client ≡ true
          → Memᴰ f r.deny.pub_filters
          → match_topic f topic ≡ false)
      × (policy.default_deny ≡ true
          → (r : Rule) × (f : Bytes) × Memᴰ r policy.rules
            × (identity_match r.identity username client ≡ true)
            × Memᴰ f r.allow.pub_filters
            × (match_topic f topic ≡ true))
unfolding applies
on_received_publish-allowed policy username client topic h =
    let (some_topic, said) = publish-eval policy username client topic h in
    let (kept, allowed) = eval-yes policy username client publish topic said in
    (
      some_topic,
      (λ r f m i k. elim (Bool-cases (match_topic f topic)) [
        | inr e ↦ e
        | inl e ↦
            let denied =
              mem-any_denies policy.rules r username client publish topic m i
                (mem-any_match_topic r.deny.pub_filters f topic k e) in
            cc
      ]),
      λ d.
          let (r, m, i, a) =
            any_allows-mem policy.rules username client publish topic (allowed d) in
          let (f, k, e) = any_match_topic-mem r.allow.pub_filters topic a in (r, f, m, i, k, e),
    )

on_subscribe-eval :
    (policy : Ruleset) (username client : Bytes) (filter : Bytes) (more : List Bytes)
    → on_subscribe policy username client (filter ∷ more) ≡ (
        if is_empty filter
        then on_subscribe policy username client more
        else if is_empty (actual_filter filter)
        then false
        else if eval policy username client subscribe (actual_filter filter)
        then on_subscribe policy username client more
        else false)
unfolding on_subscribe allow_subscribe
on_subscribe-eval policy username client filter more = elim (Bool-cases (is_empty filter)) [
  | inl e ↦ rw e refl
  | inr e ↦ elim (Bool-cases (is_empty (actual_filter filter))) [
    | inl a ↦ rw (e, a) refl
    | inr a ↦ elim (Bool-cases (eval policy username client subscribe (actual_filter filter))) [
      | inl b ↦ rw (e, a, b) refl
      | inr b ↦ rw (e, a, b) refl
    ]
  ]
]

is_empty-≢ : (s : Bytes) → s ≢ [] → is_empty s ≡ false
unfolding is_empty
is_empty-≢ [] h = absurd (h refl)
is_empty-≢ (c ∷ s) h = refl

subscribe-eval :
    (policy : Ruleset) (username client : Bytes) (filters : List Bytes) (filter : Bytes)
    → on_subscribe policy username client filters ≡ true
    → Memᴰ filter filters
    → filter ≢ []
    → eval policy username client subscribe (actual_filter filter) ≡ true
subscribe-eval policy username client [] filter h m n = elim m [ ]
subscribe-eval policy username client (g ∷ more) filter h (Memᴰ.head e) n =
    let step = on_subscribe-eval policy username client g more in
    let some_filter = subst (λ x. is_empty x ≡ false) e (is_empty-≢ filter n) in
    subst (λ x. eval policy username client subscribe (actual_filter x) ≡ true) (sym e)
      (ground arith)
subscribe-eval policy username client (g ∷ more) filter h (Memᴰ.tail m) n =
    let step = on_subscribe-eval policy username client g more in
    subscribe-eval policy username client more filter (ground arith) m n

-- A subscription that the plugin lets through where the default is to deny has a rule for the client
-- and the user name with an allow filter that matches every topic without wildcards that the
-- subscription's filter, or the one after "$share" and a group, gets by `MatchTopicFilter`.
pub on_subscribe-covered :
    (policy : Ruleset) (username client : Bytes) (filters : List Bytes) (filter : Bytes)
    → on_subscribe policy username client filters ≡ true
    → policy.default_deny ≡ true
    → Memᴰ filter filters
    → filter ≢ []
    → (r : Rule) × (f : Bytes) × Memᴰ r policy.rules
      × (identity_match r.identity username client ≡ true)
      × Memᴰ f r.allow.sub_filters
      × ((topic : Bytes)
          → contains_wildcard topic ≡ false
          → match_topic_filter (actual_filter filter) topic ≡ true
          → match_topic f topic ≡ true)
unfolding applies
on_subscribe-covered policy username client filters filter h d m n =
    let req = actual_filter filter in
    let said = subscribe-eval policy username client filters filter h m n in
    let (r, k, i, a) =
      any_allows-mem policy.rules username client subscribe req
        ((eval-yes policy username client subscribe req said).1 d) in
    let (f, j, s) = any_superset-mem r.allow.sub_filters req a in
    (
      r,
      f,
      k,
      i,
      j,
      λ topic w e.
          filter_superset-match_topic f req topic s (match_topic_filter-match_topic req topic w e),
    )
