-- ===== src/PacketId.antt =====
-- internal/broker/client/internal/packetid/packet_id.go: the packet identifiers that the server gives
-- out on a connection, and the topics kept under them. A factory is its last identifier, a `uint16`.
pub mod Cycle
mod Examples
use sky_tree.Common.{
  ℕ, zero, suc, ◌+◌, ◌%◌, List, [], Option, none, some, ◌==◌, if◌then◌else◌, find, insert, remove,
  number_key,
}
use sky_tree.Mqtt5.Properties.{Bytes}

-- `random` is what rand.Intn(65534) returns.
unfoldable pub random_init_packet_id : ℕ → ℕ
random_init_packet_id random = (random + 1) % 65536

unfoldable pub next_packet_id : ℕ → ℕ
next_packet_id id =
    let id' = if id == 65535 then 1 else (id + 1) % 65536 in if id' == 0 then 1 else id'

-- The identifier after some calls.
unfoldable pub calls : ℕ → ℕ → ℕ
unfolding next_packet_id
calls zero id = id
calls (suc n) id = next_packet_id (calls n id)

unfoldable pub set_packet_id_topic : ℕ → Bytes → List (ℕ × Bytes) → List (ℕ × Bytes)
unfolding insert
set_packet_id_topic id topic m = insert id topic m

-- A missing identifier has the empty topic.
unfoldable pub get_topic : ℕ → List (ℕ × Bytes) → Bytes
unfolding find
get_topic id m = elim (find id m) [ none ↦ [] | some topic ↦ topic ]

unfoldable pub delete_packet_id : ℕ → List (ℕ × Bytes) → List (ℕ × Bytes)
unfolding remove
delete_packet_id id m = remove id m
