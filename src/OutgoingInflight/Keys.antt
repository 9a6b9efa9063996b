-- ===== src/OutgoingInflight/Keys.antt =====
-- The keys of the store over its calls, and MarkAcked.
use sky_tree.Common.{
  ℕ, suc, Bool, true, false, ◌||◌, ◌==◌, ◌!=◌, ==_iff, Option, none, some, List, [], ◌∷◌,
  if◌then◌else◌, find, insert, remove, number_key, insert-IsMap, remove-IsMap, find-insert,
  find-insert_self, find-remove, ◌≡◌, refl, sym, ap, subst, ◌∙◌, arith, Bool-cases, Option-cases,
  inl, inr,
}
use sky_tree.OutgoingInflight.{
  State, Entry, Store, put, update_state, mark_acked, mark_flow_token_held, clear_flow_token_held,
  delete, mark_sent, all, sort, pop_loop, pop_acked_in_order,
}
use sky_tree.OutgoingInflight.Pop.{IsKeyed, remove_each, pop_loop-remove_each}

insert-IsKeyed :
    (id : ℕ) (e : Entry) (s : Store) → e.packet_id ≡ id → IsKeyed s → IsKeyed (insert id e s)
insert-IsKeyed id e s own (m, k) = (
  insert-IsMap id e s m,
  λ j x h. elim (Bool-cases (id == j)) [
    | inl q ↦
        let same : e ≡ x = ground (arith, find-insert id j e s) in
        subst (λ y. y.packet_id ≡ j) same (own ∙ (==_iff id j).0 q)
    | inr q ↦ k j x (ground (arith, find-insert id j e s))
  ],
)

remove-IsKeyed : (id : ℕ) (s : Store) → IsKeyed s → IsKeyed (remove id s)
remove-IsKeyed id s (m, k) =
    (remove-IsMap id s m, λ j x h. k j x (ground (arith, find-remove id j s)))

remove_each-IsKeyed : (es : List Entry) (s : Store) → IsKeyed s → IsKeyed (remove_each es s)
remove_each-IsKeyed [] s h = h
remove_each-IsKeyed (e ∷ es) s h =
    remove_each-IsKeyed es (remove e.packet_id s) (remove-IsKeyed e.packet_id s h)

pub data Call : Type 0 where
  put_call : Option Entry → Call
  update_call : ℕ → State → Call
  acked_call : ℕ → ℕ → Call
  held_call : ℕ → Call
  cleared_call : ℕ → Call
  deleted_call : ℕ → Call
  sent_call : ℕ → ℕ → Call
  pop_call : Call

unfoldable pub run : Call → Store → Store
unfolding put update_state mark_acked mark_flow_token_held clear_flow_token_held delete mark_sent
    pop_acked_in_order
run (put_call e) s = (put e s).1
run (update_call id st) s = update_state id st s
run (acked_call id qos) s = (mark_acked id qos s).1
run (held_call id) s = (mark_flow_token_held id s).1
run (cleared_call id) s = clear_flow_token_held id s
run (deleted_call id) s = (delete id s).1
run (sent_call id now) s = (mark_sent id now s).1
run pop_call s = (pop_acked_in_order s).1

unfoldable pub run_calls : List Call → Store → Store
unfolding run
run_calls [] s = s
run_calls (c ∷ cs) s = run_calls cs (run c s)

-- A call that stores the changed entry of an identifier, if there is one.
changed-IsKeyed :
    (id : ℕ) (f : Entry → Entry) (s : Store)
    → ((e : Entry) → (f e).packet_id ≡ e.packet_id)
    → IsKeyed s
    → IsKeyed (elim (find id s) [ none ↦ s | some e ↦ insert id (f e) s ])
changed-IsKeyed id f s same h = elim (Option-cases (find id s)) [
  | inl q ↦ rw q h
  | inr (e, q) ↦ rw q (insert-IsKeyed id (f e) s (same e ∙ h.1 id e q) h)
]

put-IsKeyed : (e : Entry) (s : Store) → IsKeyed s → IsKeyed (put (some e) s).1
unfolding put
put-IsKeyed e s h = elim (Bool-cases (e.packet_id == 0)) [
  | inl z ↦ rw (z, put) h
  | inr z ↦ rw (z, put) (insert-IsKeyed e.packet_id e s refl h)
]

update_state-IsKeyed :
    (id : ℕ) (st : State) (s : Store) → IsKeyed s → IsKeyed (update_state id st s)
unfolding update_state
update_state-IsKeyed id st s h = elim (Bool-cases (id == 0)) [
  | inl z ↦ rw (z, update_state) h
  | inr z ↦ rw (z, update_state) (changed-IsKeyed id (λ e. record e { state = st }) s (λ e. refl) h)
]

mark_acked-IsKeyed : (id qos : ℕ) (s : Store) → IsKeyed s → IsKeyed (mark_acked id qos s).1
unfolding mark_acked
mark_acked-IsKeyed id qos s h = elim (Bool-cases (id == 0)) [
  | inl z ↦ rw (z, mark_acked) h
  | inr z ↦ elim (Option-cases (find id s)) [
    | inl q ↦ rw (z, q, mark_acked) h
    | inr (e, q) ↦ elim (Bool-cases ((e.qos != qos) || e.acked)) [
      | inl b ↦ rw (z, q, b, mark_acked) h
      | inr b ↦
          rw (z, q, b, mark_acked) (insert-IsKeyed id (record e { acked = true }) s (h.1 id e q) h)
    ]
  ]
]

mark_flow_token_held-IsKeyed :
    (id : ℕ) (s : Store) → IsKeyed s → IsKeyed (mark_flow_token_held id s).1
unfolding mark_flow_token_held
mark_flow_token_held-IsKeyed id s h = elim (Bool-cases (id == 0)) [
  | inl z ↦ rw (z, mark_flow_token_held) h
  | inr z ↦ elim (Option-cases (find id s)) [
    | inl q ↦ rw (z, q, mark_flow_token_held) h
    | inr (e, q) ↦ elim (Bool-cases e.flow_token_held) [
      | inl b ↦ rw (z, q, b, mark_flow_token_held) h
      | inr b ↦
          rw (z, q, b, mark_flow_token_held)
            (insert-IsKeyed id (record e { flow_token_held = true }) s (h.1 id e q) h)
    ]
  ]
]

clear_flow_token_held-IsKeyed :
    (id : ℕ) (s : Store) → IsKeyed s → IsKeyed (clear_flow_token_held id s)
unfolding clear_flow_token_held
clear_flow_token_held-IsKeyed id s h = elim (Bool-cases (id == 0)) [
  | inl z ↦ rw (z, clear_flow_token_held) h
  | inr z ↦
      rw (z, clear_flow_token_held)
        (changed-IsKeyed id (λ e. record e { flow_token_held = false }) s (λ e. refl) h)
]

delete-IsKeyed : (id : ℕ) (s : Store) → IsKeyed s → IsKeyed (delete id s).1
unfolding delete
delete-IsKeyed id s h = elim (Bool-cases (id == 0)) [
  | inl z ↦ rw (z, delete) h
  | inr z ↦ elim (Option-cases (find id s)) [
    | inl q ↦ rw (z, q, delete) h
    | inr (e, q) ↦ rw (z, q, delete) (remove-IsKeyed id s h)
  ]
]

mark_sent-IsKeyed : (id now : ℕ) (s : Store) → IsKeyed s → IsKeyed (mark_sent id now s).1
unfolding mark_sent
mark_sent-IsKeyed id now s h = elim (Bool-cases (id == 0)) [
  | inl z ↦ rw (z, mark_sent) h
  | inr z ↦ elim (Option-cases (find id s)) [
    | inl q ↦ rw (z, q, mark_sent) h
    | inr (e, q) ↦
        rw (z, q, mark_sent)
          (insert-IsKeyed id (record e { last_send_time = now; retry_count = suc e.retry_count }) s
            (h.1 id e q) h)
  ]
]

pop_acked_in_order-IsKeyed : (s : Store) → IsKeyed s → IsKeyed (pop_acked_in_order s).1
unfolding pop_acked_in_order
pop_acked_in_order-IsKeyed s h =
    rw (pop_loop-remove_each (sort (all s)) s)
      (remove_each-IsKeyed (pop_loop (sort (all s)) s).0 s h)

run-IsKeyed : (c : Call) (s : Store) → IsKeyed s → IsKeyed (run c s)
unfolding run put
run-IsKeyed (put_call none) s h = h
run-IsKeyed (put_call (some e)) s h = put-IsKeyed e s h
run-IsKeyed (update_call id st) s h = update_state-IsKeyed id st s h
run-IsKeyed (acked_call id qos) s h = mark_acked-IsKeyed id qos s h
run-IsKeyed (held_call id) s h = mark_flow_token_held-IsKeyed id s h
run-IsKeyed (cleared_call id) s h = clear_flow_token_held-IsKeyed id s h
run-IsKeyed (deleted_call id) s h = delete-IsKeyed id s h
run-IsKeyed (sent_call id now) s h = mark_sent-IsKeyed id now s h
run-IsKeyed pop_call s h = pop_acked_in_order-IsKeyed s h

run_calls-IsKeyed_from : (cs : List Call) (s : Store) → IsKeyed s → IsKeyed (run_calls cs s)
unfolding run_calls
run_calls-IsKeyed_from [] s h = h
run_calls-IsKeyed_from (c ∷ cs) s h = run_calls-IsKeyed_from cs (run c s) (run-IsKeyed c s h)

-- After any calls on a new store, an identifier has one entry, and an entry stands under its own
-- identifier.
pub run_calls-IsKeyed : (cs : List Call) → IsKeyed (run_calls cs [])
unfolding find
run_calls-IsKeyed cs = run_calls-IsKeyed_from cs [] (tt, λ id e h. absurd (cc h))

if_or_true {ℓ} : {A : Type ℓ} (b : Bool) (x y : A) → (if b || true then x else y) ≡ x
if_or_true true x y = refl
if_or_true false x y = refl

some-inj : (a b : Entry) → some a ≡ some b → a ≡ b
some-inj a b h = cc

mark_acked-zero : (id qos : ℕ) (s : Store) → (id == 0) ≡ true → (mark_acked id qos s).0 ≡ none
unfolding mark_acked
mark_acked-zero id qos s z = rw (z, mark_acked) refl

mark_acked-missing :
    (id qos : ℕ) (s : Store) → (id == 0) ≡ false → find id s ≡ none → (mark_acked id qos s).0 ≡ none
unfolding mark_acked
mark_acked-missing id qos s z q = rw (z, q, mark_acked) refl

mark_acked-other :
    (id qos : ℕ) (s : Store) (x : Entry)
    → (id == 0) ≡ false
    → find id s ≡ some x
    → ((x.qos != qos) || x.acked) ≡ true
    → (mark_acked id qos s).0 ≡ none
unfolding mark_acked
mark_acked-other id qos s x z q b = rw (z, q, b, mark_acked) refl

mark_acked-taken :
    (id qos : ℕ) (s : Store) (x : Entry)
    → (id == 0) ≡ false
    → find id s ≡ some x
    → ((x.qos != qos) || x.acked) ≡ false
    → mark_acked id qos s
      ≡ (some (record x { acked = true }), insert id (record x { acked = true }) s)
unfolding mark_acked
mark_acked-taken id qos s x z q b = rw (z, q, b, mark_acked) refl

mark_acked-stored :
    (id qos : ℕ) (s : Store) (e : Entry)
    → (mark_acked id qos s).0 ≡ some e
    → ((id == 0) ≡ false)
      × (e.qos ≡ qos)
      × (e.acked ≡ true)
      × (find id (mark_acked id qos s).1 ≡ some e)
mark_acked-stored id qos s e h = elim (Bool-cases (id == 0)) [
  | inl z ↦ absurd (cc (sym (mark_acked-zero id qos s z) ∙ h))
  | inr z ↦ elim (Option-cases (find id s)) [
    | inl q ↦ absurd (cc (sym (mark_acked-missing id qos s z q) ∙ h))
    | inr (x, q) ↦ elim (Bool-cases ((x.qos != qos) || x.acked)) [
      | inl b ↦ absurd (cc (sym (mark_acked-other id qos s x z q b) ∙ h))
      | inr b ↦
          let eq : record x { acked = true } ≡ e = some-inj _ e (
            sym (ap (λ (r : Option Entry × Store). r.0) (mark_acked-taken id qos s x z q b)) ∙ h) in
          let own : x.qos ≡ qos = ground (arith, ==_iff x.qos qos) in
          (
            z,
            sym (ap (λ (y : Entry). y.qos) eq) ∙ own,
            sym (ap (λ (y : Entry). y.acked) eq),
            rw (mark_acked-taken id qos s x z q b)
                (find-insert_self id (record x { acked = true }) s ∙ ap some eq),
          )
    ]
  ]
]

mark_acked-acked :
    (id qos : ℕ) (s : Store) (e : Entry)
    → find id s ≡ some e
    → e.acked ≡ true
    → mark_acked id qos s ≡ (none, s)
unfolding mark_acked
mark_acked-acked id qos s e h a = elim (Bool-cases (id == 0)) [
  | inl z ↦ rw (z, mark_acked) refl
  | inr z ↦
      rw (z, h, a, mark_acked)
        (if_or_true (e.qos != qos) (none, s)
          (some (record e { acked = true }), insert id (record e { acked = true }) s))
]

-- Where `MarkAcked` returns an entry, the entry has the QoS asked for and is acknowledged now, it
-- is the one that is stored, and asking again for any QoS returns none and changes nothing.
pub mark_acked-once :
    (id qos again : ℕ) (s : Store) (e : Entry)
    → (mark_acked id qos s).0 ≡ some e
    → (e.qos ≡ qos)
      × (e.acked ≡ true)
      × (find id (mark_acked id qos s).1 ≡ some e)
      × (mark_acked id again (mark_acked id qos s).1 ≡ (none, (mark_acked id qos s).1))
mark_acked-once id qos again s e h =
    let (_, q, a, f) = mark_acked-stored id qos s e h in
    (q, a, f, mark_acked-acked id again (mark_acked id qos s).1 e f a)
