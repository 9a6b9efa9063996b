-- ===== src/SubCenter/Center.antt =====
-- MemorySubCenter of internal/broker/subcenter/memory (types.go, owner_token.go, sharding.go,
-- write_ops.go, and GetAllMatchClientV2 of read_ops.go): the shards by the first level of the filter,
-- the index from clients to shards, and the owner tokens. The locks order the requests, which are one
-- after another here. Logging is left out.
pub mod Sharding
pub mod Fencing
pub mod Reads
use sky_tree.Common.{
  ℕ, Bool, true, false, not, ◌&&◌, ◌||◌, ◌+◌, ◌-◌, Option, none, some, List, [], ◌∷◌, ◌++◌, ltb,
  ◌==◌, same_bytes, if◌then◌else◌, find, insert, remove, bytes_key,
}
use sky_tree.Mqtt5.Properties.{Bytes}
use sky_tree.Topic.Levels.{codes, is_empty, split_topic_levels}
use sky_tree.SubCenter.Tree.{SubOption}
use sky_tree.SubCenter.Core.{
  Topics, SubCore, SubError, new_sub_core, create_sub, delete_sub, delete_topic, delete_client,
  topics_of,
}
use sky_tree.SubCenter.Match.{MatchedSubscription, Matched, match_topic_client_v2}

abbrev pub Counts : Type 0
Counts = List (Bytes × ℕ)

pub record MemorySubCenter : Type 0 where
  pub shards : List (Bytes × SubCore)
  pub index : List (Bytes × Counts)
  pub client_owner_tokens : List (Bytes × Bytes)

unfoldable pub new_memory_sub_center : MemorySubCenter
new_memory_sub_center = record { shards = []; index = []; client_owner_tokens = [] }

unfoldable pub get_owner_token : Bytes → List (Bytes × Bytes) → Bytes
unfolding find is_empty
get_owner_token client tokens =
    if is_empty client then [] else elim (find client tokens) [ none ↦ [] | some token ↦ token ]

unfoldable pub set_owner_token : Bytes → Bytes → List (Bytes × Bytes) → List (Bytes × Bytes)
unfolding insert remove is_empty
set_owner_token client token tokens =
    if is_empty client
    then tokens
    else if is_empty token
    then remove client tokens
    else insert client token tokens

abbrev pub counts_of : Option Counts → Counts
counts_of none = []
counts_of (some m) = m

abbrev pub count_of : Option ℕ → ℕ
count_of none = 0
count_of (some n) = n

unfoldable pub inc : Bytes → Bytes → List (Bytes × Counts) → List (Bytes × Counts)
unfolding find insert is_empty
inc client key m =
    if is_empty client || is_empty key
    then m
    else let shards = counts_of (find client m) in
      insert client (insert key (count_of (find key shards) + 1) shards) m

unfoldable pub dec : Bytes → Bytes → List (Bytes × Counts) → List (Bytes × Counts)
unfolding find insert remove is_empty
dec client key m = if is_empty client || is_empty key then m else elim (find client m) [
  | none ↦ m
  | some shards ↦ elim (find key shards) [
    | none ↦ m
    | some v ↦
        let left = if ltb 1 v then insert key (v - 1) shards else remove key shards in
        if is_empty left then remove client m else insert client left m
  ]
]

unfoldable pub shard_keys : Counts → List Bytes
shard_keys [] = []
shard_keys ((k, _) ∷ m) = k ∷ shard_keys m

unfoldable pub shards_for_client : Bytes → List (Bytes × Counts) → List Bytes
unfolding find is_empty shard_keys
shards_for_client client m = if is_empty client then [] else shard_keys (counts_of (find client m))

unfoldable pub delete_client_index : Bytes → List (Bytes × Counts) → List (Bytes × Counts)
unfolding remove is_empty
delete_client_index client m = if is_empty client then m else remove client m

unfoldable pub first_level : List Bytes → Bytes
unfolding is_empty
first_level [] = codes "_default"
first_level (l ∷ ls) = let rest = first_level ls in if is_empty l then rest else l

unfoldable pub shard_key_from_topic : Bytes → Bytes
unfolding first_level split_topic_levels
shard_key_from_topic topic = first_level (split_topic_levels topic)

unfoldable pub shard_keys_for_match : Bytes → List Bytes
unfolding shard_key_from_topic
shard_keys_for_match topic =
    let key = shard_key_from_topic topic in
    if same_bytes key (codes "+") || same_bytes key (codes "#")
    then key ∷ []
    else if same_bytes key (codes "$share")
    then codes "$share" ∷ (codes "+" ∷ (codes "#" ∷ []))
    else key ∷ (codes "+" ∷ (codes "#" ∷ (codes "$share" ∷ [])))

-- The shard, or the new one that `getOrCreateShard` makes, which `create_one` stores. The key of a topic
-- is never empty.
unfoldable pub get_or_create_shard : Bytes → List (Bytes × SubCore) → SubCore
unfolding find new_sub_core
get_or_create_shard key shards = elim (find key shards) [ none ↦ new_sub_core | some s ↦ s ]

-- An answer for a topic: a code, or -1.
pub data Ack : Type 0 where
  code : ℕ → Ack
  refused : Ack

abbrev pub Acks : Type 0
Acks = List (Bytes × Ack)

unfoldable pub has_topic : Bytes → Bytes → SubCore → Bool
unfolding find
has_topic client topic s = elim (find topic (topics_of (find client s.clients))) [
  | none ↦ false
  | some _ ↦ true
]

-- The response's `Topics`, the joined errors, and the center. No path sets the response's `Success`.
pub record SubResult : Type 0 where
  pub acks : Acks
  pub errors : List SubError
  pub center : MemorySubCenter

-- One turn of the loop of `CreateSub`.
unfoldable pub create_one : Bytes → SubOption → SubResult → SubResult
unfolding shard_key_from_topic get_or_create_shard has_topic create_sub insert inc
create_one client option r =
    let t = r.center in
    let key = shard_key_from_topic option.topic in
    let shard = get_or_create_shard key t.shards in
    let already = has_topic client option.topic shard in
    let (err, after) = create_sub client option shard in
    let shards = insert key after t.shards in
    elim err [
      | some e ↦ record {
        acks = insert option.topic refused r.acks;
        errors = r.errors ++ (e ∷ []);
        center = record {
          shards = shards;
          index = t.index;
          client_owner_tokens = t.client_owner_tokens;
        };
      }
      | none ↦ record {
        acks = insert option.topic (code option.qos) r.acks;
        errors = r.errors;
        center = record {
          shards = shards;
          index = if already then t.index else inc client key t.index;
          client_owner_tokens = t.client_owner_tokens;
        };
      }
    ]

unfoldable pub create_each : Bytes → List SubOption → SubResult → SubResult
unfolding create_one
create_each client [] r = r
create_each client (option ∷ more) r = create_each client more (create_one client option r)

unfoldable pub refuse_each : List SubOption → Acks → Acks
unfolding insert is_empty
refuse_each [] acks = acks
refuse_each (option ∷ more) acks =
    refuse_each more (if is_empty option.topic then acks else insert option.topic refused acks)

abbrev with_tokens : List (Bytes × Bytes) → MemorySubCenter → MemorySubCenter
with_tokens tokens t = record { shards = t.shards; index = t.index; client_owner_tokens = tokens }

abbrev result_from : MemorySubCenter → SubResult
result_from t = record { acks = []; errors = []; center = t }

-- `CreateSub`, with the request's client, topics and owner token.
unfoldable pub create_sub_request : Bytes → List SubOption → Bytes → MemorySubCenter → SubResult
unfolding get_owner_token set_owner_token refuse_each create_each is_empty
create_sub_request client topics token t =
    let stored = get_owner_token client t.client_owner_tokens in
    if is_empty token
    then create_each client topics (result_from t)
    else if is_empty stored
    then create_each client topics
        (result_from (with_tokens (set_owner_token client token t.client_owner_tokens) t))
    else if same_bytes stored token
    then create_each client topics (result_from t)
    else record { acks = refuse_each topics []; errors = []; center = t }

unfoldable pub refuse_all : List Bytes → List Ack
refuse_all [] = []
refuse_all (_ ∷ more) = refused ∷ refuse_all more

-- One turn of the loop of `DeleteSub`: the code and the center.
unfoldable pub delete_one : Bytes → Bytes → MemorySubCenter → Ack × MemorySubCenter
unfolding shard_key_from_topic find has_topic delete_sub insert dec
delete_one client topic t =
    let key = shard_key_from_topic topic in
    elim (find key t.shards) [
      | none ↦ (code 0x11, t)
      | some shard ↦
          let shards = insert key (delete_sub topic client shard) t.shards in
          if has_topic client topic shard
          then (
            code 0,
            record {
              shards = shards;
              index = dec client key t.index;
              client_owner_tokens = t.client_owner_tokens;
            },
          )
          else (
            code 0x11,
            record {
              shards = shards;
              index = t.index;
              client_owner_tokens = t.client_owner_tokens;
            },
          )
    ]

unfoldable pub delete_each : Bytes → List Bytes → MemorySubCenter → List Ack × MemorySubCenter
unfolding delete_one
delete_each client [] t = ([], t)
delete_each client (topic ∷ more) t =
    let (ack, t') = delete_one client topic t in
    let (acks, end) = delete_each client more t' in (ack ∷ acks, end)

-- `DeleteSub`.
unfoldable pub delete_sub_request :
    Bytes → List Bytes → Bytes → MemorySubCenter → List Ack × MemorySubCenter
unfolding get_owner_token delete_each refuse_all is_empty
delete_sub_request client topics token t =
    if not (is_empty token) && not (same_bytes (get_owner_token client t.client_owner_tokens) token)
    then (refuse_all topics, t)
    else delete_each client topics t

unfoldable pub dec_each : List Bytes → Bytes → List (Bytes × Counts) → List (Bytes × Counts)
unfolding dec
dec_each [] key m = m
dec_each (client ∷ more) key m = dec_each more key (dec client key m)

-- `DeleteTopic`.
unfoldable pub delete_topic_request : Bytes → MemorySubCenter → MemorySubCenter
unfolding shard_key_from_topic find delete_topic insert dec_each
delete_topic_request topic t =
    let key = shard_key_from_topic topic in
    elim (find key t.shards) [
      | none ↦ t
      | some shard ↦
          let (gone, after) = delete_topic topic shard in
          record {
            shards = insert key after t.shards;
            index = dec_each gone key t.index;
            client_owner_tokens = t.client_owner_tokens;
          }
    ]

unfoldable pub delete_client_in :
    Bytes → List Bytes → List (Bytes × SubCore) → List (Bytes × SubCore)
unfolding find delete_client insert
delete_client_in client [] shards = shards
delete_client_in client (key ∷ more) shards = elim (find key shards) [
  | none ↦ delete_client_in client more shards
  | some shard ↦ delete_client_in client more (insert key (delete_client client shard) shards)
]

-- `DeleteClient`: whether it succeeds, and the center.
unfoldable pub delete_client_request : Bytes → Bytes → MemorySubCenter → Bool × MemorySubCenter
unfolding get_owner_token shards_for_client delete_client_in delete_client_index is_empty
delete_client_request client token t =
    let keys = shards_for_client client t.index in
    if not (is_empty token) && not (same_bytes (get_owner_token client t.client_owner_tokens) token)
    then (false, t)
    else if is_empty keys
    then (true, t)
    else (
      true,
      record {
        shards = delete_client_in client keys t.shards;
        index = delete_client_index client t.index;
        client_owner_tokens = t.client_owner_tokens;
      },
    )

-- `SetClientOwnerToken`.
unfoldable pub set_client_owner_token : Bytes → Bytes → MemorySubCenter → Bool × MemorySubCenter
unfolding set_owner_token is_empty
set_client_owner_token client token t =
    if is_empty client
    then (false, t)
    else (true, with_tokens (set_owner_token client token t.client_owner_tokens) t)
