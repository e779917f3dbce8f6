-- ===== src/Lib.antt =====
-- YedMQ, a clustered MQTT broker: a model of its core logic, with the theorems that make it correct.
--
-- Parts, and the files that model them:
--   Inflight          broker/src/inflight.rs: the packets of a session that wait for acknowledgements
--                     (`Inflight`, `InflightItem::to_next`).
--   Session.State     broker/src/session/session_state_storage.rs, `SessionState`: subscriptions, the
--                     queue of an offline session, its packets in flight, and when it expires.
--   Session.Storage   the same file, `SessionStateStorage`: the sessions of every tenant and a count of
--                     references to each stored packet. A count that falls to 0 gives the packet's key
--                     back, so that its payload can be deleted. Queue and Updates hold the operations;
--                     Counts, Safety, Growth and Order are about them.
--   Raft.SessionState broker/src/raft/session_state/store.rs, `apply`, and types.rs: the state machine
--                     that every node runs over the replicated log. It calls the storage for each
--                     command and queues the keys that come back. Safety, Answers and Purge are about
--                     the log, its replies and the deletion of expired sessions.
--   Session.ActorMap  broker/src/session/session_actor_map_storage.rs: the node that owns the session of a
--                     client, under a lease.
--   Raft.SessionActorMap  broker/src/raft/session_actor_map/store.rs, `apply`, and types.rs. Owners
--                     compares it with a machine without clocks; Fencing is about its owners.
--   Mqtt.Packet       mqtt/src/packet.rs: the packets, for MQTT 3.1.1 and 5.
--   Mqtt.Expiry       broker/src/mqtt_message_expiry.rs: when a message expires.
--   Mqtt.V5.Primitives  mqtt/src/v5/common.rs: the primitives of the MQTT 5 codec.
--   Mqtt.V5.FixedHeader, ReasonCode  mqtt/src/v5/fixed_header.rs, reason_code.rs.
--   Mqtt.V5.Properties  mqtt/src/v5/properties.rs: Identifier has the table of properties and packets,
--                     Parse and Encode the loop of the parser and the encoder. Rounds, Kinds, Encodable
--                     and the Turns lead to RoundTrip: one property that is written is one round. Changes
--                     says what one round does; Present, Ranges and Accepted are about properties from
--                     any bytes, Fuel about the rounds of the loop.
--   Mqtt.V5.Ack, Auth, Connack, Connect, Disconnect, Pingreq, Pingresp, Publish, Suback, Subscribe,
--   Unsuback, Unsubscribe  the file of the same name in mqtt/src/v5 (Ack also puback.rs, pubrec.rs,
--                     pubrel.rs and pubcomp.rs): `parse`, `parse_body` and `encode` of a packet. Frame,
--                     Reasoned, Normalized and Each hold what those files repeat.
--   Mqtt.V5.Codec     mqtt/src/v5/mod.rs: the parser and the encoder of any packet.
--   Topic.Filter      broker/src/topic/topic_storage.rs, `test_topic`: the syntax of topic filters.
--   Topic.Shared      broker/src/topic/shared_subscription.rs: filters of shared subscriptions.
--   Topic.Tree        broker/src/topic/topic_storage.rs, `TopicStorageNode`: the tree of topic levels, with
--                     its recursive operations. Stored and Removal are about the changes,
--                     Matching about `recursion_get_subscriptions`; its `Matches` is the matching of MQTT, where `a/#`
--                     matches `a`, and `AtParent` the case that the code leaves out.
--   Topic.Keys        the same file: the keys of subscriptions (`generate_key`, `node_key`).
--   Topic.Storage     the same file, `TopicStorage`: the trees of the tenants and the records of topics
--                     and retained messages.
--   Base              shared types and lemmas.
--
-- How the code is modelled. A `HashMap` is an association list, and no theorem depends on its order. A
-- string is its bytes. A clock reading is an argument, and one call reads the clock once. An
-- `Arc<RwLock<SessionState>>` that is written through is a read of the session and a write back, under
-- the lock of the storage, which every command of the log takes. Numbers are natural numbers; sums of a
-- `u64` that can overflow wrap around (`% 2 ^ 64`), `saturating_*` are written out. The panic of
-- `QoS::from` on a number above 2 is the outcome `panicked`, which ends the log.
--
-- An encoder of the MQTT 5 codec gives the bytes that it adds to its buffer, or its error; what it left in
-- the buffer before the error is not modelled. Bits are read by division and written as sums.
--
-- Fuel. `find_free` gets 65535 rounds, one for each packet identifier, so it does not run out
-- before the range does. The loops of the variable byte integer get four rounds: a value is below
-- 128 ^ 4. The loops over properties and over topics get a round for each byte, and each round takes at
-- least one. Every other function is structurally recursive.
--
-- Not under the sources: the payload store that `apply` reads is a parameter, any function from keys to
-- bytes; nothing is assumed of it. The Base64 encoder is a parameter too; where keys must differ, it is
-- assumed that no two strings have one encoding and that an encoding has no colon (`IsEncoder`).
--
-- Not modelled: sockets, actors and mailboxes, gRPC, RocksDB and snapshots, the REST API, settings, the
-- processes of plugins. A log identifier is its index, and a membership a number.
pub mod Base
pub mod Inflight
pub mod Session
pub mod Raft
pub mod Mqtt
pub mod Topic
