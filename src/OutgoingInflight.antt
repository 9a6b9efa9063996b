-- ===== src/OutgoingInflight.antt =====
-- internal/broker/client/outgoing_inflight.go: the PUBLISH packets that a client has not acknowledged
-- yet. The store's entries are shared pointers in the code, and every change of one is made by an
-- operation of the store, which here stores the changed entry; what an operation returns is a copy. A
-- time is a number, an identifier its text. `First`, which returns any entry, is not here.
pub mod Order
pub mod Pop
pub mod Keys
mod Examples
use sky_tree.Common.{
  ℕ, suc, Bool, true, false, not, ◌&&◌, ◌||◌, ◌+◌, Option, none, some, List, [], ◌∷◌, length, ltb,
  ◌==◌, ◌!=◌, if◌then◌else◌, find, insert, remove, number_key,
}
use sky_tree.Mqtt5.Properties.{Bytes}
use sky_tree.Topic.Levels.{bytes_before}

pub data State : Type 0 where
  waiting_pub_ack waiting_pub_rec waiting_pub_comp : State

pub record Entry : Type 0 where
  pub packet_id : ℕ
  pub qos : ℕ
  pub task_ts : ℕ
  pub task_id : Bytes
  pub generation : ℕ
  pub message_id : Bytes
  pub share_group : Bytes
  pub shared_task_id : Bytes
  pub retained : Bool
  pub publish_packet : Bytes
  pub first_pub_time : ℕ
  pub last_send_time : ℕ
  pub retry_count : ℕ
  pub acked : Bool
  pub flow_token_held : Bool
  pub state : State
  pub persisted_in_session : Bool

-- The store by packet identifiers.
abbrev pub Store : Type 0
Store = List (ℕ × Entry)

-- Whether an entry was replaced, and the store.
unfoldable pub put : Option Entry → Store → Bool × Store
unfolding find insert
put none s = (false, s)
put (some e) s =
    if e.packet_id == 0
    then (false, s)
    else (elim (find e.packet_id s) [ none ↦ false | some _ ↦ true ], insert e.packet_id e s)

unfoldable pub get : ℕ → Store → Option Entry
unfolding find
get id s = if id == 0 then none else find id s

unfoldable pub update_state : ℕ → State → Store → Store
unfolding find insert
update_state id st s =
    if id == 0
    then s
    else elim (find id s) [ none ↦ s | some e ↦ insert id (record e { state = st }) s ]

-- The acknowledged entry, if it is there, has this QoS and was not acknowledged before.
unfoldable pub mark_acked : ℕ → ℕ → Store → Option Entry × Store
unfolding find insert
mark_acked id qos s = if id == 0 then (none, s) else elim (find id s) [
  | none ↦ (none, s)
  | some e ↦
      if (e.qos != qos) || e.acked
      then (none, s)
      else (some (record e { acked = true }), insert id (record e { acked = true }) s)
]

unfoldable pub mark_flow_token_held : ℕ → Store → Option Entry × Store
unfolding find insert
mark_flow_token_held id s = if id == 0 then (none, s) else elim (find id s) [
  | none ↦ (none, s)
  | some e ↦ if e.flow_token_held then (none, s) else (
    some (record e { flow_token_held = true }),
    insert id (record e { flow_token_held = true }) s,
  )
]

unfoldable pub clear_flow_token_held : ℕ → Store → Store
unfolding find insert
clear_flow_token_held id s =
    if id == 0
    then s
    else elim (find id s) [ none ↦ s | some e ↦ insert id (record e { flow_token_held = false }) s ]

unfoldable pub delete : ℕ → Store → Option Entry × Store
unfolding find remove
delete id s =
    if id == 0
    then (none, s)
    else elim (find id s) [ none ↦ (none, s) | some e ↦ (some e, remove id s) ]

-- The number of times it was sent again.
unfoldable pub mark_sent : ℕ → ℕ → Store → Option ℕ × Store
unfolding find insert
mark_sent id now s = if id == 0 then (none, s) else elim (find id s) [
  | none ↦ (none, s)
  | some e ↦ (
    some (suc e.retry_count),
    insert id (record e { last_send_time = now; retry_count = suc e.retry_count }) s,
  )
]

unfoldable pub less : Entry → Entry → Bool
unfolding bytes_before
less a b =
    if a.task_ts != b.task_ts then ltb a.task_ts b.task_ts else bytes_before a.task_id b.task_id

abbrev pub all : Store → List Entry
all [] = []
all ((_, e) ∷ s) = e ∷ all s

unfoldable pub place : Entry → List Entry → List Entry
unfolding less
place e [] = e ∷ []
place e (x ∷ xs) = let rest = place e xs in if less x e then x ∷ rest else e ∷ (x ∷ xs)

-- sort.Slice by `less`.
unfoldable pub sort : List Entry → List Entry
unfolding place
sort [] = []
sort (e ∷ es) = place e (sort es)

unfoldable pub pop_loop : List Entry → Store → List Entry × Store
unfolding remove
pop_loop [] s = ([], s)
pop_loop (e ∷ es) s =
    let (out, left) = pop_loop es (remove e.packet_id s) in
    if not e.acked then ([], s) else (e ∷ out, left)

unfoldable pub pop_acked_in_order : Store → List Entry × Store
unfolding pop_loop sort
pop_acked_in_order s = pop_loop (sort (all s)) s

unfoldable pub len : Store → ℕ
len s = length s

unfoldable pub first_loop : Option Entry → List Entry → Option Entry
unfolding less
first_loop best [] = best
first_loop none (e ∷ es) = if e.acked then first_loop none es else first_loop (some e) es
first_loop (some b) (e ∷ es) =
    if e.acked
    then first_loop (some b) es
    else if less e b
    then first_loop (some e) es
    else first_loop (some b) es

unfoldable pub first_unacked : Store → Option Entry
unfolding first_loop
first_unacked s = first_loop none (all s)

unfoldable pub last_loop : Option Entry → List Entry → Option Entry
unfolding less
last_loop best [] = best
last_loop none (e ∷ es) = last_loop (some e) es
last_loop (some b) (e ∷ es) = if less b e then last_loop (some e) es else last_loop (some b) es

unfoldable pub last_task : Store → Option Entry
unfolding last_loop
last_task s = last_loop none (all s)
