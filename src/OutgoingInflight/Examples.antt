-- ===== src/OutgoingInflight/Examples.antt =====
-- The theorems on outgoing packets at a concrete store.
use mathlib.Core.List.{Memᴰ}
use sky_tree.Common.{
  ℕ, Bool, true, false, none, some, [], ◌∷◌, find, insert, remove, number_key, ◌≡◌, refl,
}
use sky_tree.Topic.Levels.{codes}
use sky_tree.OutgoingInflight.{
  Entry, Store, waiting_pub_ack, put, mark_acked, less, pop_acked_in_order,
}
use sky_tree.OutgoingInflight.Pop.{IsKeyed, pop_acked_in_order-prefix}
use sky_tree.OutgoingInflight.Keys.{
  put_call, acked_call, pop_call, run, run_calls, run_calls-IsKeyed, mark_acked-once,
}

abbrev packet : ℕ → ℕ → Bool → Entry
packet id at acked = record {
  packet_id = id;
  qos = 1;
  task_ts = at;
  task_id = codes "task";
  generation = 1;
  message_id = codes "message";
  share_group = [];
  shared_task_id = [];
  retained = false;
  publish_packet = [];
  first_pub_time = at;
  last_send_time = at;
  retry_count = 0;
  acked = acked;
  flow_token_held = true;
  state = waiting_pub_ack;
  persisted_in_session = false;
}

abbrev waiting : Store
waiting = (7, packet 7 20 false) ∷ ((5, packet 5 10 true) ∷ [])

waiting-IsKeyed : IsKeyed waiting
unfolding find run_calls run put insert remove
waiting-IsKeyed =
    run_calls-IsKeyed
      (put_call (some (packet 5 10 true)) ∷ (put_call (some (packet 7 20 false)) ∷ []))

pop_acked_in_order-prefix_example :
    ((e : Entry)
      → Memᴰ e (pop_acked_in_order waiting).0
      → (e.acked ≡ true)
        × (find e.packet_id waiting ≡ some e)
        × (find e.packet_id (pop_acked_in_order waiting).1 ≡ none))
    × ((e u : Entry) (id : ℕ)
        → Memᴰ e (pop_acked_in_order waiting).0
        → find id (pop_acked_in_order waiting).1 ≡ some u
        → less u e ≡ false)
    × ((id : ℕ) (r : Entry)
        → find id (pop_acked_in_order waiting).1 ≡ some r
        → (u : Entry) × (find u.packet_id (pop_acked_in_order waiting).1 ≡ some u)
          × (u.acked ≡ false)
          × (less r u ≡ false))
pop_acked_in_order-prefix_example = pop_acked_in_order-prefix waiting waiting-IsKeyed

run_calls-IsKeyed_example :
    IsKeyed
      (run_calls (put_call (some (packet 5 10 false)) ∷ (acked_call 5 1 ∷ (pop_call ∷ []))) [])
run_calls-IsKeyed_example =
    run_calls-IsKeyed (put_call (some (packet 5 10 false)) ∷ (acked_call 5 1 ∷ (pop_call ∷ [])))

mark_acked-once_example :
    ((packet 7 20 true).qos ≡ 1)
    × ((packet 7 20 true).acked ≡ true)
    × (find 7 (mark_acked 7 1 waiting).1 ≡ some (packet 7 20 true))
    × (mark_acked 7 2 (mark_acked 7 1 waiting).1 ≡ (none, (mark_acked 7 1 waiting).1))
unfolding mark_acked find
mark_acked-once_example = mark_acked-once 7 1 2 waiting (packet 7 20 true) refl
