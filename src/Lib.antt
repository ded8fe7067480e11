-- ===== src/Lib.antt =====
-- A verification of the core of rustservicelib, a runtime for services that are graphs of streams:
-- its task pools, its rotating map, the storage of its joins, its binary formats, its configuration
-- loader, the assignments of its Kafka source, and the start and the stop of a service. Code is
-- named by paths from the root of the repository.
--
-- Base, with the modules below it, holds what the parts share: Boolean tests and the conditional,
-- lists, cells by their position, the association lists that stand for hash maps, and integers.
--
-- Pool models src/runtime/pool/queuedpool.rs. Pool/Fifo is the FIFO variant of `PendingQueue`, a
-- doubly linked list whose nodes stand in a map; Pool/Priority is the other variant, an ordered map
-- with an index; Pool/Pending is the enum over the two; Pool/Actor is the loop of
-- `QueuedPool::run`, one event a round, with the executors that it starts and retires. `none` is a
-- panic: an `unwrap`, a missing map entry, or an integer that goes below zero. The actor receives
-- its events one at a time, so every interleaving of callers is a sequence of events
-- (Pool/Actor/Lifecycle). That only a busy executor says that it is ready is a hypothesis on the
-- events, `IsPossible`. Starting executors takes at most as many rounds as the target has
-- executors, which is the fuel of `spawn`. Pool/Handle is the handle that callers share: each
-- access of a call to an atomic cell, and each send to the actor, is a step of its own, and the
-- steps of all calls come in any order, so a stop may come between the look of an `add_task` at the
-- state and its send. Pool/Delay models
-- src/runtime/pool/delaypool.rs, with instants as numbers up to the range of the clock. The
-- counters of task and worker ids are u64 in the source and unbounded here. Metrics, logging and
-- the futures that wake the actor are left out.
--
-- Store/Rotating models src/runtime/store/rotatingmap.rs: 64 shards of two generations each. The
-- hash is a parameter, since the source takes a random one, and the shards are a function of the
-- index. Locks are left out: each operation holds the lock of its one shard. The timer task that
-- calls `rotate` is left out too.
--
-- Store/Join models src/runtime/store/hashmap.rs, the groups of values that joins wait for. Entries
-- are shared, so they stand in a heap, and their numbers are what `Arc::ptr_eq` compares. A call of
-- `join_value_with` and an expiry task each move by one locked region at a time (Store/Join/Steps),
-- in any order; Store/Join/Changes is the step relation, with what a step finds. A call in its
-- callback holds the lock of its entry (Store/Join/Locks), and what a callback answers, and when a
-- context is cancelled, is part of the step. `none` is a panic. Calls whose future is dropped half
-- way, `start`, `stop` and the metrics are left out. A call that is alone needs at most seven moves,
-- which is the fuel of Store/Join/Alone. Operators/Join models src/operators/join.rs over that
-- storage: a value of unknown type is one of the left or of the right stream, and the business
-- function is a parameter.
--
-- Callbacks models src/datasource/grpc/callback_store.rs, the callbacks of open calls with a slot in
-- place of a map.
--
-- App models src/runtime/serviceapp.rs. Resources are numbers, and what a resource, a server or the
-- clock does is an answer of the environment: `Answers` for a call of `stop`, a function for the
-- actions of a start (App/Start, with its cleanup in App/Cleanup). The phases of a shutdown, with the cursor that repeated calls of
-- `stop` share, are App/Phases, App/Stop, App/Retry and App/Ends; App/Operations follows the jobs
-- through them. Two calls of `stop` at a time are
-- one after the other, since each holds the lock of the shutdown. Routes, metrics and names in
-- errors are left out.
--
-- Serde models src/runtime/serde/serdeimpl.rs: Serde/Bytes and Serde/Sign have the big-endian words
-- and the sign bit, Serde/Reader the bounds-checked reader, Serde/Scalar the fixed-width formats
-- and Serde/Container those of strings, bytes, arrays, pairs and maps. usize and u64 have 64 bits,
-- a string is its bytes, the test for UTF-8 is a parameter, and a float is its bit pattern. The
-- loops of the array formats run over the list or the announced count. `JsonSerde`, which calls
-- serde_json, is left out. Serde/Registry models src/runtime/serde/registry.rs: types are those of
-- `default_serializer` and numbers for the others, and the writes that come between the two locks of
-- a `get` are a list.
--
-- Kafka/Checkpoint models src/datasource/kafka/checkpoint.rs: the partitions that a source is
-- assigned, each with the generation and the context of its assignment, and the rebalance that
-- assigns and revokes them. A context is a number, and the state keeps which are cancelled; the
-- revision is a u64 in the source and unbounded here. Looks for the error (`take_error`) come between rebalances. The answers of rdkafka and of the
-- application's checkpoint are the fields of `Native`, without any condition on them.
--
-- Config models src/runtime/config/loader.rs: Config/Yaml is `merge_yaml`, on values whose keys and
-- leaves are parameters, by recursion on the override; Config/Loader is the snapshot and the
-- reload, where reading, converting and validating a configuration are the fields of `Sources`. The
-- file watcher and the counters of reloads are left out. Config/Runtime models `from_parts` of
-- src/runtime/config/runtime.rs, with an id as a number, `none` as the error
-- `InvalidConfiguration`, and of each entry what the checks look at. Environment models the
-- pools that src/runtime/serviceapp.rs registers for it, and the way to call that
-- src/runtime/environment/mod.rs and src/runtime/collector.rs give a link.
--
-- Examples has concrete runs of all of these.
pub mod App
pub mod Base
pub mod Callbacks
pub mod Config
pub mod Environment
pub mod Examples
pub mod Kafka
pub mod Operators
pub mod Pool
pub mod Serde
pub mod Store
