-- ===== src/Lib.antt =====
-- bafomet, a middleware for state machine replication that tolerates Byzantine faults: a static
-- group of replicas orders the requests of clients by a protocol like PBFT, executes them, and
-- recovers the state of replicas that fall behind.
--
-- The parts and the files that model them (paths from the root of the repository, src/bft/...):
--
-- * Ordering (ordering/mod.rs): `SeqNo` with its wrap-around in Ordering/SeqNo, as the bit pattern of
--   an i32 below 2 ^ 32 (the numbers in use are below 2 ^ 31, `IsSeqNo`), and the queues of messages
--   that arrive early in Ordering/Queue: `tbo_queue_message`, `tbo_pop_message` and
--   `tbo_advance_message_queue` on a list of slots. Proofs: Ordering/Distance, Ordering/Queue/Slots
--   and Ordering/Queue/Aligned.
-- * Message (communication/message/mod.rs): headers, stored messages, the consensus messages, and in
--   Message/System the messages of state transfer and view changes and the sum of all. Message/Wire
--   has `WireMessage`, over the interface `Signing` of the signatures of another package, and
--   Message/Framing the bytes of a header and `write_to`, over the interface `AsyncWrite`.
-- * Prng (prng/mod.rs): the generator xoshiro256** on 64-bit words and its jump in Prng/Jump; what
--   `^`, `|`, shifts and `rotl` do is in Prng/Words, on the digits of native numbers.
-- * Channel (communication/channel/mod.rs): the channel that a node receives from, as four bounded
--   channels of other packages (the interface `Bounded`), and `Run`, its sends and receives in any
--   order, with the branch of `select!` that each receive takes.
-- * Network (communication/mod.rs, and the digest of communication/serialize/mod.rs): `Node` in
--   Network/Types; `send` and `broadcast` in Network/Send, for a `SendNode` in Network/Send/Nodes,
--   and the tasks that they spawn in Network/Send/Jobs; the task that receives in Network/Receive, over the
--   interface `AsyncRead`, which also says for which lengths the buffer of another package has room;
--   connecting in Network/Connect, over what the sockets and TLS answer (`Dialer`), and accepting in
--   Network/Connect/Accept; `bootstrap` in Network/Bootstrap. A task that the code spawns is a value
--   that is run later on a `World`: the sockets, which a node refers to by number since tasks share
--   them, and what has been put in the channel of the node.
-- * Core (core/mod.rs, core/server/mod.rs): `SystemParams` in Core/Params, `ViewInfo` in Core/View;
--   proofs in Core/Quorum.
-- * Collections, Crypto (collections/mod.rs, crypto/hash/mod.rs): the ordered map of another package
--   as the interface `OrderedMap`, and the hash of another package as the record `Hash`.
-- * Log (consensus/log/mod.rs): `DecisionLog` in Log/Decision (proofs of decisions) and Log/Clear
--   (`clear_last_occurrences`), `Log` in Log/Store (requests, snapshots) and Log/Finalize (batches
--   and checkpoints). A `HashMap` is an association list (Base/Maps).
-- * Executable (executable/mod.rs): `step` is one turn of the loop of the executor's thread, over the
--   service's `update` as a parameter, on the states of the service and of the application.
-- * Consensus (consensus/mod.rs): `TboQueue` in Consensus/Tbo, `Consensus` with its operations in
--   Consensus/State, `poll` in Consensus/Poll and `process_message` in Consensus/Process, one helper
--   for each phase.
-- * Cst (cst/mod.rs): `CollabStateTransfer`, its requests and timeouts in Cst/State and
--   `process_message` in Cst/Process.
-- * Sync (sync/mod.rs): the view change. Sync/Tbo has its queues, Sync/Predicates the predicates on
--   collects (`sound`, `binds`, `unbound`), Sync/Proofs the checks of signatures and proofs,
--   Sync/Watch the requests that are watched and their timers, Sync/Stops the start of a view change,
--   Sync/Finalize its end, Sync/Poll `poll`, and Sync/Process `process_message`, a helper for each
--   phase.
--   What the protocol needs of its node is the record `Node`.
-- * Replica (core/server/mod.rs): the state in Replica/Types, the handlers that the phases share in
--   Replica/Events, with `install_recovery_state` of cst/mod.rs, and one turn of the main loop in
--   Replica/Retrieving, Replica/Syncing and Replica/Normal; `bootstrap` is in Replica/Bootstrap.
--   The messages that a turn receives are arguments; what it sends, hands to the executor and starts
--   is a list of `Effect`.
-- * Client (core/client/mod.rs): the counting of replies in Client/Votes, and in Client/Waiting the
--   steps that a waiting task and the delivery of a payload take under their locks, which
--   Client/Waiting/Schedules runs in every order.
--
-- How they interact: a node accepts connections and connects to the others until it is ready; then
-- each peer's bytes are cut into messages, which its channel delivers. A replica polls its consensus for a queued message or receives one, and gives it
-- to `process_message`, which logs it and sends votes; a decided batch is taken out of the log by
-- `finalize_batch` and goes to the executor, whose replies go to the clients; every 1000 instances a
-- checkpoint is begun, and finished when the executor sends the state. State transfer reads the
-- log's snapshots. When requests time out twice, or enough other replicas ask for it, the replica
-- turns from the consensus to the view change, which ends by giving the consensus a proposal.
--
-- Conventions: an operation that changes an object returns the new object, also beside an error; what
-- it sends is a list of `Send`. A panic, an `unreachable!` and an index out of range are the outcome
-- `panic` of `Result` (Base/Results). Counters of a `usize` are numbers without a bound; the 32-bit
-- arithmetic of `SeqNo` and of node ids and the 64-bit arithmetic of the generator are written out.
-- The loops are structural recursion, over the lists that the code runs over or the attempts that
-- are left, except for the one that receives from a peer: it runs on fuel, and one unit more than
-- the bytes that are still to come is enough, since each round reads a header. The modules named
-- Tests apply the results to concrete inputs, with stand-ins for the parameters in the modules
-- named Samples.
--
-- Not modelled: sockets, TLS, the bounded channels and the serialization of the application, which
-- are of other packages; the endless loop that accepts connections; the tasks
-- behind the timers (timeouts/mod.rs), of which the number and the duration are kept; the runtime
-- and the thread pool; the pause between two attempts to connect. A hash map is drained and iterated
-- in the order of its list. An `Instant` and a `Duration` are numbers of nanoseconds.
pub mod Base
pub mod Ordering
pub mod Prng
pub mod Message
pub mod Channel
pub mod Network
pub mod Core
pub mod Collections
pub mod Crypto
pub mod Log
pub mod Executable
pub mod Consensus
pub mod Cst
pub mod Client
pub mod Sync
pub mod Replica
