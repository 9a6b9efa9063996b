-- ===== src/Qos2Receive/Invariant.antt =====
-- The three maps of the store hold the same packet identifiers.
use sky_tree.Common.{
  ℕ, ◌+◌, ◌≡◌, refl, Bool, true, false, Option, none, some, List, [], ◌∷◌, leb, ◌==◌, ==_iff, find,
  number_key, IsMap, remove-IsMap, insert-IsMap, find-remove, find-insert, Bool-cases, Option-cases,
  inl, inr, arith,
}
use sky_tree.Qos2Receive.{
  Message, QoS2ReceiveStore, new_qos2_receive_store, default_qos2_waiting_ttl, get_publish, forget,
  cleanup_loop, cleanup_expired, keep, store, delete,
}

abbrev pub has : {V : Type 0} → ℕ → List (ℕ × V) → Bool
has id m = elim (find id m) [ none ↦ false | some _ ↦ true ]

pub record IsTracked (q : QoS2ReceiveStore) : Type 0 where
  pub messages : IsMap q.waiting
  pub times : IsMap q.last_seen
  pub first : (id : ℕ) → has id q.first_seen ≡ has id q.waiting
  pub last : (id : ℕ) → has id q.last_seen ≡ has id q.waiting

forget-IsTracked : (id : ℕ) (q : QoS2ReceiveStore) → IsTracked q → IsTracked (forget id q)
unfolding forget
forget-IsTracked id q t = record {
  messages = remove-IsMap id q.waiting t.messages;
  times = remove-IsMap id q.last_seen t.times;
  first = λ j. ground (arith, t.first j, find-remove id j q.first_seen, find-remove id j q.waiting);
  last = λ j. ground (arith, t.last j, find-remove id j q.last_seen, find-remove id j q.waiting);
}

cleanup_loop-IsTracked :
    (ttl now : ℕ) (entries : List (ℕ × ℕ)) (q : QoS2ReceiveStore)
    → IsTracked q
    → IsTracked (cleanup_loop ttl now entries q).0
unfolding cleanup_loop
cleanup_loop-IsTracked ttl now [] q t = t
cleanup_loop-IsTracked ttl now ((id, last) ∷ rest) q t = elim (Bool-cases (leb now (last + ttl))) [
  | inl e ↦ rw e (cleanup_loop-IsTracked ttl now rest q t)
  | inr e ↦ rw e (cleanup_loop-IsTracked ttl now rest (forget id q) (forget-IsTracked id q t))
]

pub cleanup_expired-IsTracked :
    (ttl now : ℕ) (q : QoS2ReceiveStore) → IsTracked q → IsTracked (cleanup_expired ttl now q).0
unfolding cleanup_expired
cleanup_expired-IsTracked ttl now q t = elim (Bool-cases (ttl == 0)) [
  | inl e ↦ rw e t
  | inr e ↦ rw e (cleanup_loop-IsTracked ttl now q.last_seen q t)
]

keep-IsTracked :
    (id : ℕ) (message : Message) (later : ℕ) (q : QoS2ReceiveStore)
    → IsTracked q
    → IsTracked (keep id message later q).0
unfolding keep
keep-IsTracked id message later q t = elim (Option-cases (find id q.waiting)) [
  | inr (old, e) ↦
      rw (e, keep)
        (record {
          messages = t.messages;
          times = insert-IsMap id later q.last_seen t.times;
          first = t.first;
          last = λ j.
              ground
                (arith, t.last j, t.last id, find-insert id j later q.last_seen, ==_iff id j, e);
        })
  | inl e ↦
      rw (e, keep)
        (record {
          messages = insert-IsMap id message q.waiting t.messages;
          times = insert-IsMap id later q.last_seen t.times;
          first = λ j. ground (
            arith,
            t.first j,
            find-insert id j later q.first_seen,
            find-insert id j message q.waiting,
          );
          last = λ j. ground (
            arith,
            t.last j,
            find-insert id j later q.last_seen,
            find-insert id j message q.waiting,
          );
        })
]

-- `Store` keeps the maps together: a message that waits has its times, and no time is left behind for
-- a message that does not.
pub store-IsTracked :
    (message : Option Message) (now later : ℕ) (q : QoS2ReceiveStore)
    → IsTracked q
    → IsTracked (store message now later q).0
unfolding store
store-IsTracked none now later q t = t
store-IsTracked (some message) now later q t = elim (Option-cases (get_publish message)) [
  | inl e ↦ rw (e, store) t
  | inr (publish, e) ↦
      rw (e, store)
        (keep-IsTracked publish.packet_id message later _
          (cleanup_expired-IsTracked default_qos2_waiting_ttl now q t))
]

pub delete-IsTracked : (id : ℕ) (q : QoS2ReceiveStore) → IsTracked q → IsTracked (delete id q).0
unfolding delete
delete-IsTracked id q t = elim (Option-cases (find id q.waiting)) [
  | inl e ↦ rw (e, delete) t
  | inr (message, e) ↦ rw (e, delete) (forget-IsTracked id q t)
]

pub new-IsTracked : IsTracked new_qos2_receive_store
unfolding find
new-IsTracked = record { messages = tt; times = tt; first = λ id. refl; last = λ id. refl }
