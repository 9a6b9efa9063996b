-- ===== src/SubCenter/Center/Fencing.antt =====
-- Owner tokens: who may change a client's subscriptions.
use mathlib.Core.List.{Memᴰ}
use sky_tree.Common.{
  true, false, Option, none, some, sym, ◌⊎◌, List, [], ◌∷◌, same_bytes, same_bytes_iff, find,
  insert, bytes_key, find-insert, ◌≡◌, ◌≢◌, refl, ap, subst, arith, Bool-cases, inl, inr, map,
}
use sky_tree.Mqtt5.Properties.{Bytes}
use sky_tree.Topic.Levels.{is_empty}
use sky_tree.SubCenter.Tree.{SubOption}
use sky_tree.SubCenter.Center.{
  MemorySubCenter, get_owner_token, refused, Ack, Acks, refuse_each, refuse_all, create_sub_request,
  delete_sub_request, delete_client_request,
}

is_empty-≢ : (s : Bytes) → s ≢ [] → is_empty s ≡ false
unfolding is_empty
is_empty-≢ [] h = absurd (h refl)
is_empty-≢ (c ∷ s) h = refl

not_nil : (s : Bytes) → is_empty s ≡ false → s ≢ []
unfolding is_empty
not_nil [] h = cc
not_nil (c ∷ s) h = λ k. cc

differs : (a b : Bytes) → a ≢ b → same_bytes a b ≡ false
differs a b h = ground (arith, same_bytes_iff a b)

refuse_each-keeps :
    (options : List SubOption) (topic : Bytes) (acks : Acks)
    → find topic acks ≡ some refused
    → find topic (refuse_each options acks) ≡ some refused
unfolding refuse_each
refuse_each-keeps [] topic acks h = h
refuse_each-keeps (option ∷ more) topic acks h = elim (Bool-cases (is_empty option.topic)) [
  | inl e ↦ rw e (refuse_each-keeps more topic acks h)
  | inr e ↦ rw e (
      refuse_each-keeps more topic (insert option.topic refused acks)
        (ground (arith, find-insert option.topic topic refused acks)))
]

refuse_each-refused :
    (options : List SubOption) (option : SubOption) (acks : Acks)
    → Memᴰ option options
    → option.topic ≢ []
    → find option.topic (refuse_each options acks) ≡ some refused
unfolding refuse_each
refuse_each-refused [] option acks m h = elim m [ ]
refuse_each-refused (k ∷ more) option acks (Memᴰ.tail m) h = refuse_each-refused more option _ m h
refuse_each-refused (k ∷ more) option acks (Memᴰ.head e) h =
    let first : is_empty k.topic ≡ false =
      subst (λ o. is_empty o.topic ≡ false) e (is_empty-≢ option.topic h) in
    rw first (
      refuse_each-keeps more option.topic (insert k.topic refused acks) (
        ground (
          arith,
          find-insert k.topic option.topic refused acks,
          same_bytes_iff k.topic option.topic,
          ap (λ (o : SubOption). o.topic) e,
        )))

-- No answer but the refusals of the topics that are asked for.
abbrev pub IsRefusal : List SubOption → Bytes → Option Ack → Type 0
IsRefusal options topic answer =
    (answer ≡ none)
    ⊎ ((answer ≡ some refused)
        × (topic ≢ [])
        × ((option : SubOption) × Memᴰ option options × (option.topic ≡ topic)))

refuse_each-IsRefusal :
    (all options : List SubOption) (topic : Bytes) (acks : Acks)
    → ((option : SubOption) → Memᴰ option options → Memᴰ option all)
    → IsRefusal all topic (find topic acks)
    → IsRefusal all topic (find topic (refuse_each options acks))
unfolding refuse_each
refuse_each-IsRefusal all [] topic acks within h = h
refuse_each-IsRefusal all (option ∷ more) topic acks within h =
    let rest : (o : SubOption) → Memᴰ o more → Memᴰ o all = λ o m. within o (Memᴰ.tail m) in
    elim (Bool-cases (is_empty option.topic)) [
      | inl e ↦ rw e (refuse_each-IsRefusal all more topic acks rest h)
      | inr e ↦ rw e (
          refuse_each-IsRefusal all more topic (insert option.topic refused acks) rest
            (inserted e (Bool-cases (same_bytes option.topic topic))))
    ]
  where
    inserted :
        is_empty option.topic ≡ false
        → (same_bytes option.topic topic ≡ true) ⊎ (same_bytes option.topic topic ≡ false)
        → IsRefusal all topic (find topic (insert option.topic refused acks))
    inserted e (inl same) =
        let topics : option.topic ≡ topic = (same_bytes_iff option.topic topic).0 same in
        inr (
          ground (arith, find-insert option.topic topic refused acks),
          subst (λ t. t ≢ []) topics (not_nil option.topic e),
          (option, within option (Memᴰ.head refl), topics),
        )
    inserted e (inr other) =
        let kept : find topic (insert option.topic refused acks) ≡ find topic acks =
          ground (arith, find-insert option.topic topic refused acks) in
        subst (λ a. IsRefusal all topic a) (sym kept) h

refuse_all-map : (topics : List Bytes) → refuse_all topics ≡ map (λ _. refused) topics
unfolding refuse_all
refuse_all-map [] = refl
refuse_all-map (topic ∷ more) = ap (λ (acks : List Ack). refused ∷ acks) (refuse_all-map more)

-- A request of a client whose owner token is another than the request's is refused: `CreateSub`
-- answers -1 for every topic that is not empty, nothing else, and no error, `DeleteSub` answers one -1 for each
-- topic, in their order, and nothing else, `DeleteClient` fails, and none of them changes anything.
pub stale_owner :
    (t : MemorySubCenter) (client token : Bytes)
    → get_owner_token client t.client_owner_tokens ≢ []
    → token ≢ []
    → get_owner_token client t.client_owner_tokens ≢ token
    → ((options : List SubOption)
        → ((create_sub_request client options token t).center ≡ t)
          × ((create_sub_request client options token t).errors ≡ [])
          × ((option : SubOption)
              → Memᴰ option options
              → option.topic ≢ []
              → find option.topic (create_sub_request client options token t).acks ≡ some refused)
          × ((topic : Bytes)
              → IsRefusal options topic
                  (find topic (create_sub_request client options token t).acks)))
      × ((topics : List Bytes)
          → delete_sub_request client topics token t ≡ (map (λ _. refused) topics, t))
      × (delete_client_request client token t ≡ (false, t))
unfolding create_sub_request delete_sub_request delete_client_request
stale_owner t client token some_owner some_token other =
    let a = is_empty-≢ token some_token in
    let b = is_empty-≢ _ some_owner in
    let c = differs _ _ other in
    (
      (λ options.
          rw (a, b, c)
            (
              refl,
              refl,
              (λ option m h. refuse_each-refused options option [] m h),
              λ topic. refuse_each-IsRefusal options options topic [] (λ o m. m) (inl refl),
            )),
      (λ topics. rw (a, c, refuse_all-map topics) refl),
      rw (a, c) refl,
    )
