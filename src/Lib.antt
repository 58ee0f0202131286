-- ===== src/Lib.antt =====
-- The distributed synchronisation system: nodes that serve locks, queues or a cache over HTTP, and
-- that talk to their peers over a message bus.
--
-- A lock node (src/nodes/lock_manager.py) replicates the commands acquire, release and abort with
-- Raft (src/consensus/raft.py) and applies each committed command to its `LockStateMachine`. A queue
-- node (src/nodes/queue_node.py) finds the owner of a queue on a hash ring (src/utils/hashing.py),
-- serves the request itself or forwards it, and writes a log from which it recovers. A cache node
-- (src/nodes/cache_node.py) keeps an LRU cache whose entries have a MESI state, and asks or
-- invalidates its peers. All of them are a `BaseNode` (src/nodes/base_node.py) with a `MessageBus` and
-- a `FailureDetector` (src/communication/message_passing.py and failure_detector.py).
--
-- Which file models which part:
-- - Base.antt and Base/: dictionaries and sets of strings as lists in the order of insertion, slices
--   of lists, Boolean tests, and the lemmas that the parts share.
-- - LockManager.antt: `LockStateMachine`, one function per method (`apply`, `apply_acquire`,
--   `apply_release`, `apply_abort`, `grant_waiting`, `lock_snapshot`, `expired_holders`, ...).
--   LockManager/Exclusion, Abort, Grants, Served, Consistency and Invariant prove what each command
--   does and keeps, Safety and Retry what follows of any commands.
-- - LockManager/Deadlock.antt: `find_deadlock_victim` and `_find_cycle`. Below it, Graph is about the
--   graph of who waits for whom, Cycle, Trace, Dfs and Find about the search, Candidates and Victim
--   about the request that is chosen.
-- - LockManager/Node.antt: `DistributedLockManagerNode`, a Raft node with its lock table and its
--   pending futures, and `append_entry`; LockManager/Node/Forward: the proxy to the leader;
--   LockManager/Node/Handlers: the HTTP handlers and the rounds of the loops. Keyed and Applies are
--   about the commands applied, Commits and Appends about `append_entry`, Acquire, Owns, Owned, Proxy
--   and Rounds about the handlers.
-- - Raft.antt: `RaftNode` as a follower and a voter; Raft/Tally.antt: the votes and the sorted match
--   indexes; Raft/Leader.antt: its elections, its replication and its commits. Raft/Step has the
--   steps of one node as a relation, Votes and StaleElection are about elections, Stored and
--   Replication about what a follower stores, Commit about what is committed and applied.
--   Raft/Cluster is a cluster of nodes in which elections run interleaved, with the ballots that were
--   cast; Roles, Election and Ballots prove its invariant and OneLeader what follows.
-- - Cache/Lru.antt: `LruCache`; Cache.antt: the handlers of `DistributedCacheNode`, on a cluster that
--   gives each node id its node. Cache/Lru/Bounds and Reads are about the LRU order,
--   Cache/Lru/Spec is the cache as one list and Refines compares the two, Cache/Ownership,
--   Peers and Coherence about the MESI states in the cluster, Cache/ReadBack about a get after a put.
-- - Queue.antt: the state of `DistributedQueueNode` and what its operations do to it; Queue/Handlers:
--   its HTTP handlers. Queue/Copies, Redelivery and Exchange count the copies of a message, Recovery
--   and Log read the log, Durable and Restart join the two, Routing composes the handlers of two
--   nodes and Owner says what that does to the node that owns the queue.
-- - Hashing.antt: `ConsistentHashRing`; Hashing/Sorted, Ring and Rotation are about its keys,
--   Lookup, Replicas and Walk about its two lookups.
-- - MessageBus.antt: `MessageBus` and `handle_partition`. FailureDetector.antt: its status table.
-- - Config.antt: src/utils/config.py; Config/RoundTrip writes peers down and reads them back.
-- - Metrics.antt: src/utils/metrics.py; Metrics/Histograms is about what a histogram holds.
-- - BaseNode.antt: the state of a `BaseNode`, what its endpoints tell, and the choice of the node in
--   src/main.py.
-- The module Tests below a part runs it, and applies its theorems, at concrete inputs.
--
-- How the code is read:
-- - A node's state is a record, a method is a function from the state to the state and its result, and
--   a coroutine that changes state between two awaits is one step. `self.locks`, `self.queues` and the
--   like are lists of pairs; a `defaultdict` gets its entry where the code reads it.
-- - Times are whole numbers of milliseconds, so the sums of floating-point seconds are exact here.
--   The fields of a request are there and have the type that the code expects: a request that makes the
--   code raise is outside the model, but for a missing lock or client of an acquire or a release. The
--   mode of a lock is exclusive, shared, or any other text.
-- - An index of Raft that may be -1 is stored plus one. The command type of Raft is a parameter, and so
--   is the function that applies a command.
-- - A broadcast asks the peers in the order of the bus, and what a peer does for it happens at once.
--   Which peers answer is an argument. A value of the cache is `none` where it is a JSON null.
-- - What is not written in this repository is an argument: the SHA-1 of a string, the text that names a
--   replica of a node, the time, fresh ids, whether a write to a file succeeds, what the network returns,
--   `json.loads`, `int` of a text, the environment, white space, and the arithmetic of floats.
-- - The order in which Python iterates a set of names is an argument; the theorems take any order that
--   keeps the members.
-- - What `append_entry` of a lock node meets is an argument: the answers of its peers, their order, and
--   what other tasks do to the node each time it waits. Acquire and Rounds take a node that no other
--   task changes in that time, Owned lets them change it. What they do while `handle_acquire` waits for
--   its future is an argument too, and so is what a proxied request reads of the leader.
-- - The order in which the checks of a round of the failure detector end is an argument, and so is the
--   key that a peer reads in the URL of a cache node, which writes the key into it unquoted.
-- - The depth-first search runs on the number of names in the graph, and the walk back along a cycle on
--   the size of the stack; the theorems about them show that they never run out.
-- - `apply_rounds` runs on the number of entries that are committed and not applied; the theorem about
--   it shows that this is enough. The other loops are structural.
--
-- Not modelled: the timers and tasks of asyncio and, but for the cases above, what other requests do
-- while a handler waits, the start and stop of the servers, the API documentation pages, and `PbftNode`,
-- which is a stub.
pub mod Base
pub mod LockManager
pub mod Raft
pub mod Cache
pub mod Queue
pub mod Hashing
pub mod MessageBus
pub mod FailureDetector
pub mod Config
pub mod Metrics
pub mod BaseNode
