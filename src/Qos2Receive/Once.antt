-- ===== src/Qos2Receive/Once.antt =====
-- The steps of a store around one QoS 2 message.
use sky_tree.Common.{
  ℕ, ◌+◌, ◌≤◌, ◌≡◌, ◌≢◌, refl, sym, subst, ◌∙◌, true, Option, none, some, List, [], ◌∷◌, leb, find,
  number_key, AllAt, find-AllAt, find-remove_ne, find-insert_ne, find-remove_self, Bool-cases,
  Option-cases, inl, inr, arith,
}
use sky_tree.Mqtt5.Packet.{Publish}
use sky_tree.Qos2Receive.{
  Message, QoS2ReceiveStore, default_qos2_waiting_ttl, get_publish, forget, cleanup_loop,
  cleanup_expired, keep, store, delete, count,
}
use sky_tree.Qos2Receive.Invariant.{
  IsTracked, store-IsTracked, delete-IsTracked, cleanup_expired-IsTracked,
}

module _ (id : ℕ) where
  -- The entry for `id` was touched no longer ago than the time to live, if there is one.
  abbrev pub IsRecent : ℕ → QoS2ReceiveStore → Type 0
  IsRecent now q =
      (last : ℕ) → find id q.last_seen ≡ some last → now ≤ last + default_qos2_waiting_ttl

  pub data Step : QoS2ReceiveStore → QoS2ReceiveStore → Type 0 where
    arrival :
        (q : QoS2ReceiveStore) (message : Option Message) (now later : ℕ)
        → IsRecent now q
        → Step q (store message now later q).0
    release : (q : QoS2ReceiveStore) (other : ℕ) → other ≢ id → Step q (delete other q).0
    counted : (q : QoS2ReceiveStore) (now : ℕ) → IsRecent now q → Step q (count now q).0

  pub data Steps (q : QoS2ReceiveStore) : QoS2ReceiveStore → Type 0 where
    start : Steps q q
    next : {r s : QoS2ReceiveStore} → Steps q r → Step r s → Steps q s

  forget-find :
      (other : ℕ) (q : QoS2ReceiveStore)
      → other ≢ id
      → find id (forget other q).waiting ≡ find id q.waiting
  unfolding forget
  forget-find other q h = find-remove_ne other id q.waiting h

  cleanup_loop-find :
      (ttl now : ℕ) (entries : List (ℕ × ℕ)) (q : QoS2ReceiveStore)
      → AllAt id (λ last. now ≤ last + ttl) entries
      → find id (cleanup_loop ttl now entries q).0.waiting ≡ find id q.waiting
  unfolding cleanup_loop
  cleanup_loop-find ttl now [] q h = refl
  cleanup_loop-find ttl now ((j, last) ∷ rest) q h = elim (Bool-cases (leb now (last + ttl))) [
    | inl e ↦ rw e (cleanup_loop-find ttl now rest q h.1)
    | inr e ↦
        let other : j ≢ id = λ same. absurd (ground (arith, h.0 same)) in
        rw e (cleanup_loop-find ttl now rest (forget j q) h.1 ∙ forget-find j q other)
  ]

  cleanup_expired-find :
      (now : ℕ) (q : QoS2ReceiveStore)
      → IsTracked q
      → IsRecent now q
      → find id (cleanup_expired default_qos2_waiting_ttl now q).0.waiting ≡ find id q.waiting
  unfolding cleanup_expired
  cleanup_expired-find now q t recent =
      cleanup_loop-find default_qos2_waiting_ttl now q.last_seen q
        (find-AllAt id (λ last. now ≤ last + default_qos2_waiting_ttl) q.last_seen t.times recent)

  keep-find :
      (other : ℕ) (message held : Message) (later : ℕ) (q : QoS2ReceiveStore)
      → find id q.waiting ≡ some held
      → find id (keep other message later q).0.waiting ≡ some held
  unfolding keep
  keep-find other message held later q h = elim (Option-cases (find other q.waiting)) [
    | inr (old, e) ↦ rw (e, keep) h
    | inl e ↦
        let differs : other ≢ id =
          λ same. absurd (cc (subst (λ x. find x q.waiting ≡ none) same e)) in
        rw (e, keep) (find-insert_ne other id message q.waiting differs ∙ h)
  ]

  store-find :
      (message : Option Message) (held : Message) (now later : ℕ) (q : QoS2ReceiveStore)
      → IsTracked q
      → IsRecent now q
      → find id q.waiting ≡ some held
      → find id (store message now later q).0.waiting ≡ some held
  unfolding store
  store-find none held now later q t recent h = h
  store-find (some message) held now later q t recent h =
      elim (Option-cases (get_publish message)) [
        | inl e ↦ rw (e, store) h
        | inr (publish, e) ↦
            rw (e, store)
              (keep-find publish.packet_id message held later _
                (cleanup_expired-find now q t recent ∙ h))
      ]

  delete-find :
      (other : ℕ) (q : QoS2ReceiveStore)
      → other ≢ id
      → find id (delete other q).0.waiting ≡ find id q.waiting
  unfolding delete
  delete-find other q h = elim (Option-cases (find other q.waiting)) [
    | inl e ↦ rw (e, delete) refl
    | inr (message, e) ↦ rw (e, delete) (forget-find other q h)
  ]

  Step-IsTracked : {q r : QoS2ReceiveStore} → Step q r → IsTracked q → IsTracked r
  unfolding count
  Step-IsTracked (arrival q message now later recent) t = store-IsTracked message now later q t
  Step-IsTracked (release q other h) t = delete-IsTracked other q t
  Step-IsTracked (counted q now recent) t =
      cleanup_expired-IsTracked default_qos2_waiting_ttl now q t

  Step-find :
      {q r : QoS2ReceiveStore} (held : Message)
      → Step q r
      → IsTracked q
      → find id q.waiting ≡ some held
      → find id r.waiting ≡ some held
  unfolding count
  Step-find held (arrival q message now later recent) t h =
      store-find message held now later q t recent h
  Step-find held (release q other differs) t h = delete-find other q differs ∙ h
  Step-find held (counted q now recent) t h = cleanup_expired-find now q t recent ∙ h

  Steps-IsTracked : {q r : QoS2ReceiveStore} → Steps q r → IsTracked q → IsTracked r
  Steps-IsTracked start t = t
  Steps-IsTracked (next before step) t = Step-IsTracked step (Steps-IsTracked before t)

  Steps-find :
      {q r : QoS2ReceiveStore} (held : Message)
      → Steps q r
      → IsTracked q
      → find id q.waiting ≡ some held
      → find id r.waiting ≡ some held
  Steps-find held start t h = h
  Steps-find held (next before step) t h =
      Step-find held step (Steps-IsTracked before t) (Steps-find held before t h)

  keep-repeats :
      (message held : Message) (later : ℕ) (q : QoS2ReceiveStore)
      → find id q.waiting ≡ some held
      → (keep id message later q).1 ≡ true
  unfolding keep
  keep-repeats message held later q h = rw (h, keep)

  store-repeats :
      (message held : Message) (publish : Publish) (now later : ℕ) (q : QoS2ReceiveStore)
      → get_publish message ≡ some publish
      → publish.packet_id ≡ id
      → find id (cleanup_expired default_qos2_waiting_ttl now q).0.waiting ≡ some held
      → (store (some message) now later q).1 ≡ true
  unfolding store
  store-repeats message held publish now later q e same h =
      rw (e, store)
        (subst
          (λ x. (keep x message later (cleanup_expired default_qos2_waiting_ttl now q).0).1 ≡ true)
          (sym same) (keep-repeats message held later _ h))

  -- From a store whose maps agree and in which a message waits under `id`, whatever arrives, is
  -- counted, or is released under other identifiers, as long as no such step comes later than the
  -- time to live after the entry was last touched: the same message still waits, it is read, and a
  -- PUBLISH with that identifier is reported as a repetition and does not replace it.
  pub Steps-once :
      (q r : QoS2ReceiveStore) (held again : Message) (publish : Publish) (now later : ℕ)
      → IsTracked q
      → find id q.waiting ≡ some held
      → Steps q r
      → get_publish again ≡ some publish
      → publish.packet_id ≡ id
      → IsRecent now r
      → (find id r.waiting ≡ some held)
        × ((store (some again) now later r).1 ≡ true)
        × (find id (store (some again) now later r).0.waiting ≡ some held)
  Steps-once q r held again publish now later t h steps e same recent =
      let held_at = Steps-find held steps t h in
      let tracked = Steps-IsTracked steps t in
      (
        held_at,
        store-repeats again held publish now later r e same
            (cleanup_expired-find now r tracked recent ∙ held_at),
        store-find (some again) held now later r tracked recent held_at,
      )

  -- The release of a waiting message hands it over, and a second release finds nothing.
  pub delete-once :
      (q : QoS2ReceiveStore) (held : Message)
      → find id q.waiting ≡ some held
      → ((delete id q).1 ≡ some held) × ((delete id (delete id q).0).1 ≡ none)
  unfolding delete forget
  delete-once q held h =
      let gone = find-remove_self id q.waiting in (rw (h, delete), rw (h, delete, gone))
