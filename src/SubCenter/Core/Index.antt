-- ===== src/SubCenter/Core/Index.antt =====
-- The index as a map from clients and topics to options.
use sky_tree.Common.{
  Bool, true, false, ◌&&◌, Option, none, some, List, [], ◌∷◌, same_bytes, same_bytes-eq, subst,
  if◌then◌else◌, find, insert, remove, bytes_key, ◌≡◌, refl, arith, find-insert, find-remove,
  Option-cases, Bool-cases, inl, inr,
}
use sky_tree.Mqtt5.Properties.{Bytes}
use sky_tree.Topic.Levels.{is_empty}
use sky_tree.SubCenter.Tree.{SubOption, Clients}
use sky_tree.SubCenter.Core.{Topics, topics_of, put_topic, drop_topic, drop_topic_all, keys}

unfoldable pub lookup : Bytes → Bytes → List (Bytes × Topics) → Option SubOption
unfolding find
lookup client topic m = find topic (topics_of (find client m))

lookup-insert :
    (client : Bytes) (topics : Topics) (other topic : Bytes) (m : List (Bytes × Topics))
    → lookup other topic (insert client topics m)
      ≡ (if same_bytes client other then find topic topics else lookup other topic m)
unfolding lookup
lookup-insert client topics other topic m = elim (Bool-cases (same_bytes client other)) [
  | inl e ↦ rw (find-insert client other topics m, e) refl
  | inr e ↦ rw (find-insert client other topics m, e) refl
]

lookup-remove :
    (client other topic : Bytes) (m : List (Bytes × Topics))
    → lookup other topic (remove client m)
      ≡ (if same_bytes client other then none else lookup other topic m)
unfolding lookup find
lookup-remove client other topic m = elim (Bool-cases (same_bytes client other)) [
  | inl e ↦ rw (find-remove client other m, e) refl
  | inr e ↦ rw (find-remove client other m, e) refl
]

lookup-found :
    (client other topic : Bytes) (m : List (Bytes × Topics)) (o : Option Topics)
    → same_bytes client other ≡ true
    → find client m ≡ o
    → lookup other topic m ≡ find topic (topics_of o)
unfolding lookup
lookup-found client other topic m o h e =
    subst (λ x. find topic (topics_of (find x m)) ≡ find topic (topics_of o))
      (same_bytes-eq client other h) (rw e refl)

pub lookup-put_topic :
    (client : Bytes) (option : SubOption) (other topic : Bytes) (m : List (Bytes × Topics))
    → lookup other topic (put_topic client option m) ≡ (
        if same_bytes client other && same_bytes option.topic topic
        then some option
        else lookup other topic m)
unfolding put_topic
lookup-put_topic client option other topic m =
    let topics = topics_of (find client m) in
    let step = lookup-insert client (insert option.topic option topics) other topic m in
    elim (Bool-cases (same_bytes client other)) [
      | inl e ↦
          rw
            (
              step,
              e,
              find-insert option.topic topic option topics,
              lookup-found client other topic m (find client m) e refl,
            )
            refl
      | inr e ↦ rw (step, e) refl
    ]

find-is_empty :
    (topic : Bytes) (topics : Topics) → is_empty topics ≡ true → find topic topics ≡ none
unfolding find is_empty
find-is_empty topic [] h = refl
find-is_empty topic (_ ∷ _) h = cc

kept :
    (client other topic : Bytes) (left : Topics) (m : List (Bytes × Topics))
    → lookup other topic (if is_empty left then remove client m else insert client left m)
      ≡ (if same_bytes client other then find topic left else lookup other topic m)
kept client other topic left m = elim (Bool-cases (is_empty left)) [
  | inl e ↦ rw (e, lookup-remove client other topic m, find-is_empty topic left e) refl
  | inr e ↦ rw (e, lookup-insert client left other topic m) refl
]

none_either : (b : Bool) → ◌≡◌ {A = Option SubOption} none (if b then none else none)
none_either true = refl
none_either false = refl

pub lookup-drop_topic :
    (client gone other topic : Bytes) (m : List (Bytes × Topics))
    → lookup other topic (drop_topic client gone m)
      ≡ (if same_bytes client other && same_bytes gone topic then none else lookup other topic m)
unfolding drop_topic
lookup-drop_topic client gone other topic m = elim (Option-cases (find client m)) [
  | inl n ↦
      rw (n, drop_topic)
        (elim (Bool-cases (same_bytes client other)) [
          | inl e ↦
              rw (e, lookup-found client other topic m none e n, find)
                (none_either (same_bytes gone topic))
          | inr e ↦ rw e refl
        ])
  | inr (topics, f) ↦
      rw (f, drop_topic, kept client other topic (remove gone topics) m)
        (elim (Bool-cases (same_bytes client other)) [
          | inl e ↦
              rw
                (
                  e,
                  find-remove gone topic topics,
                  lookup-found client other topic m (some topics) e f,
                )
                refl
          | inr e ↦ rw e refl
        ])
]

pub lookup-drop_topic_all :
    (all : Clients) (gone other topic : Bytes) (m : List (Bytes × Topics))
    → lookup other topic (drop_topic_all (keys all) gone m) ≡ (
        if same_bytes gone topic
        then elim (find other all) [ none ↦ lookup other topic m | some _ ↦ none ]
        else lookup other topic m)
unfolding drop_topic_all find
lookup-drop_topic_all [] gone other topic m = elim (Bool-cases (same_bytes gone topic)) [
  | inl e ↦ rw e refl
  | inr e ↦ rw e refl
]
lookup-drop_topic_all ((client, option) ∷ all) gone other topic m =
    let later = lookup-drop_topic_all all gone other topic (drop_topic client gone m) in
    let here = lookup-drop_topic client gone other topic m in
    elim (Option-cases (find other all)) [
      | inl f ↦ rw (later, f, here) (ground arith)
      | inr (o, f) ↦ rw (later, f, here) (ground arith)
    ]
