-- ===== src/Lib.antt =====
-- A model of the MQTT 5 core of the broker: the packets and their wire format, topics, what a client's
-- connection keeps of its packets, the subscriptions and their matching, and access control.
--
-- The packets of pkg/mqtt5 are read from and written to a connection by pkg/mqtt5/wire. `Decode`
-- (reader.go) reads a first byte and a remaining length and hands the body to the decoder of its
-- packet type (codec.go), which reads fields from a cursor (cursor.go) and a section of properties
-- (properties.go) and checks reason codes (reason.go). `Encode` (writer.go) is the way back. Both
-- call pkg/mqtt5/topic for the syntax of topic filters; the broker calls it to match topics.
--
-- internal/broker/client/internal/topicalias keeps the topic aliases of a connection: it rewrites the
-- PUBLISH packets that are decoded from a client and those that will be encoded for it. Of the packets
-- to a client, packetid gives out the identifiers and outgoing_inflight.go keeps those that the client
-- has not acknowledged; qos2receive keeps the QoS 2 messages from a client until their release.
--
-- internal/broker/subcenter/memory keeps the subscriptions of all clients in shards. A shard is a tree
-- of topic levels with an index from clients to their subscriptions (sub_core.go); the centre chooses
-- the shards of a filter and of a published topic and lets only the owner of a client write
-- (write_ops.go, sharding.go, owner_token.go). internal/broker/plugin/acl.go asks internal/broker/acl
-- before a client may publish or subscribe. pkg/mqtt5/packetsize asks `Encode` for a packet's size.
--
-- Files:
--   Common          names of the libraries, Boolean tests, lists over the native numbers, maps
--   Mqtt5           pkg/mqtt5/packet.go and properties.go: identifiers and structs
--   Topic           pkg/mqtt5/topic/topic.go and filter_validator.go; Topic/Levels the functions
--                   of Go's package strings that they call; Topic/Matching and Topic/Syntax proofs
--   Wire/Errors     errors.go, results, and the steps of a do block
--   Wire/Utf8       unicode/utf8.ValidString
--   Wire/Bytes      cursor.go: fields of a packet; Wire/Bytes/RoundTrip their round trips
--   Wire/Vbi        vbi.go and the Variable Byte Integers of cursor.go and fixed_header.go
--   Wire/Properties properties.go: Spec the table, Append the writers of one property, Structs the
--                   cases of the type switches; Reads, Loads, RoundTrip and Section the round trip
--   Wire/Reason     reason.go
--   Wire/FixedHeader fixed_header.go
--   Wire/Decode, Wire/Encode  codec.go
--   Wire/Frame      reader.go and writer.go
--   Wire/RoundTrip  what is written is read back, from one packet's fields to the stream
--   Wire/Accepts    what the decoder accepts: its size, its contents, and that it ends
--   TopicAlias      internal/broker/client/internal/topicalias/manager.go; TopicAlias/Calls what
--                   any calls leave of an alias, TopicAlias/Laws the proofs
--   PacketId        internal/broker/client/internal/packetid/packet_id.go; PacketId/Cycle the proofs
--   Qos2Receive     internal/broker/client/qos2receive/qos2_receiver.go; Invariant its maps, Once the
--                   steps of a store around one message
--   OutgoingInflight  internal/broker/client/outgoing_inflight.go; Order the order of delivery and
--                   sorting, Pop what is popped, Keys the calls of a store
--   PacketSize      pkg/mqtt5/packetsize/packet_size.go; Limit the proof
--   SubCenter/Tree  the tree of sub_core.go and proto/proto_topic/topic.proto; Laws the tree as a map,
--                   Uniqueness its children and clients are maps
--   SubCenter/Core  SubCore and its writes; Paths the levels of a string, Index the index as a map,
--                   Agreement index and tree, Requests a specification, Refinement its proof
--   SubCenter/Match the three matchTopic functions; Walk the visited nodes, Collect the collected
--                   subscriptions, Delivery both together, Agreement against pkg/mqtt5/topic
--   SubCenter/Center  MemorySubCenter, with read_ops.go in Reads; Sharding, Fencing and Reads/Complete
--                   the proofs
--   Acl             match.go, policy.go, model.go and the plugin's hooks; Superset, Decisions proofs
--   Examples        of each part: the theorems at concrete inputs
--
-- Correspondence. A cursor is the bytes not read yet, and its packet type an argument; a read
-- returns the value and the rest. A buffer is the bytes appended to it, which no caller reads after
-- an error. Strings and slices are lists of bytes; a pointer, and a slice that is compared with nil,
-- is an Option. The bytes of a word are written as arithmetic, and flags are joined by `bit_or`. A
-- type switch over a property struct is an instance of `PropertyStruct`. The six structs with a
-- reason string and user properties only are one record. `Content` and `Packet` of a control packet
-- are one field, and a packet is never a typed nil. A subscription identifier is a natural number:
-- the negative ones, which a caller in Go could write, are not modelled. Errors carry all fields of
-- `WireError`; the texts of `tooLarge` and `unsupportedVersion` lack their numbers.
--
-- Each operation of the alias manager, of the stores of packets and of the subscription centre is one
-- step, as its mutex makes it; none of them is a nil pointer. A map of Go is an association list whose
-- keys stand once, and a list stands for the order in which Go visits a map. The nodes of a tree, the
-- entries of a store and their options are values: a write through a pointer is a new value in its
-- place. Times are natural numbers of nanoseconds, and random numbers are arguments. sort.Slice is a
-- sort by insertion. QoS and codes are natural numbers; the -1 of the subscription centre is a case of
-- its own.
--
-- Bounds. A loop over properties or topic filters has as many rounds as there are bytes, and each
-- round reads a byte at least; a Variable Byte Integer has four rounds, as in the code.
--
-- Not modelled: the io.Reader and io.Writer around `Decode` and `Encode` (a stream is the list of
-- its bytes, at whose end the reader reports io.EOF or io.ErrUnexpectedEOF), String methods,
-- `SplitTopic` and `RandomWildcardTopic`; of the subscription centre the other reads over all shards,
-- matchTopicForWildcard, snapshots and the front ends for logs and Raft; of access control the manager
-- of rules and their sources; and the rest of the broker: its session loop and handlers, delivery,
-- session centre, shared subscriptions, wills, retained messages, storage and cluster.
pub mod Common
pub mod Mqtt5
pub mod Topic
pub mod Wire
pub mod TopicAlias
pub mod PacketId
pub mod Qos2Receive
pub mod SubCenter
pub mod OutgoingInflight
pub mod PacketSize
pub mod Acl
