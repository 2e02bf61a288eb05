-- ===== src/Lib.antt =====
-- Shared-memory actors: processes share segments of memory, and hand each other descriptors of
-- chunks in them instead of copies.
--
-- The parts of the program and how they interact. A segment holds a pool, a ring or a journal. A
-- producer takes a chunk from a pool (crates/shm-core/src/pool.rs) through the free list of a
-- size class, loans it by the chunk's control word (ctrl.rs), fills it and publishes its
-- descriptor (desc.rs) on a broadcast ring (crates/shm-ring). Subscribers take descriptors off
-- the ring, pin the chunks they read, and note every pin in their borrow journal (journal.rs).
-- The last party to let go of a chunk frees it, which moves the chunk's generation, so that old
-- descriptors are stale. A coordinator serves the requests of the actors over a socket
-- (crates/shm-runtime/src/protocol.rs), and after the death of an actor it replays the journal.
-- A task queue (crates/shm-task) hands tasks to workers under a lease, and an artifact
-- (crates/shm-artifact) publishes versions that readers pin. The crates above (streams, the keyed
-- store, the actor framework) are built on these.
--
-- Where it is modelled, by the paths from the repository's root:
--   crates/shm-core/src/error.rs, desc.rs   Core/Error, Core/Desc; proofs in Desc/Packing
--   crates/shm-core/src/ctrl.rs             Core/Ctrl; Ctrl/Machine and Ctrl/History have calls in
--                                           sequence, Ctrl/Interleaving takes the calls that race
--                                           for a published chunk apart, one access at a time
--   crates/shm-core/src/pool.rs             Core/Pool; Pool/FreeList, Pool/Tag and Pool/Count are
--                                           about one free list, Pool/Regions and Pool/Locate about the
--                                           layout, Pool/Created, Pool/Stacks, Pool/Alloc and
--                                           Pool/Cycle about a whole pool
--   crates/shm-core/src/journal.rs          Core/Journal; proofs in its children
--   crates/shm-ring/src/ring.rs, error.rs   Ring; Ring/Log and Ring/Reliable have calls in
--                                           sequence, Ring/Race takes publish and read_at apart,
--                                           field by field of a descriptor
--   crates/shm-ring/src/subscribe.rs, publish.rs   Ring/Subscribe
--   crates/shm-task/src/error.rs            Task/Error
--   crates/shm-task/src/queue.rs            Task/Slot and Task/Lease, the records of one task and of
--                                           one binding; Task/Queue, the region and its stacks;
--                                           Task/Submit, Task/Worker, Task/Requester and Task/Reap,
--                                           the four parties. Task/Stacks and Task/Invariant have
--                                           what holds of the stacks between two calls
--   crates/shm-artifact/src/head.rs         Artifact/Head; Head/Lease has the calls on the write
--                                           lease in sequence, Head/Race takes the parties that
--                                           meet at a pin slot apart, as they are in artifact.rs
--   crates/shm-artifact/src/manifest.rs, error.rs   Artifact/Manifest, Artifact/Error; proofs in
--                                           Manifest/Image, Manifest/RoundTrip and Manifest/Walk
--   crates/shm-runtime/src/protocol.rs      Runtime/Wire (fields), Runtime/Protocol (messages)
-- Prelude has the names and the lemmas that they share, and Tests has the results below applied at
-- concrete values, and runs of the models. A definition has the name of the function or the type
-- that it models.
--
-- State and arithmetic. A method on shared memory is a function from the state to a result and
-- the state after it. Numbers are natural numbers, and the wrap-around of a w-bit integer is
-- written out. An error is a value of the crate's error type. Debug assertions are off. In the
-- modules of calls in sequence a method runs with no other party between its accesses, so that a
-- compare-and-swap loop ends in its first round. Ctrl/Interleaving, Ring/Race and Head/Race run in
-- any order of single accesses, over sequentially consistent memory: the weaker orderings of the
-- hardware are not modelled.
--
-- Fuel. The walk of free_count has one step for each chunk of its class, which is as long as a
-- chain of distinct chunks can be. The spin and the waits of a receive, the polls of a drain, and
-- the rounds of a wait or a blocking claim are counted by arguments. A claim pops a ready shard at
-- most once for each slot of the queue and once more, which is enough because a shard holds no slot
-- twice. The walk down a chain of manifests has as many steps as the head's depth says, which is
-- where the code stops too. All else is by recursion on the data.
--
-- Not modelled: the mapping of segments, sockets and parking (what they answer is an argument),
-- which byte strings are UTF-8 (an argument), and how a manifest is read through a segment (an
-- argument). Of crates/shm-artifact the commit, the pin and the reclaim of chunks are left out, but
-- for their accesses to a pin slot; of the task queue, what happens between two accesses of one
-- call. The streams, the keyed store, the actor framework and the coordinator are left out, and so
-- are demonstration programs, benchmarks and tests.
pub mod Prelude
pub mod Artifact
pub mod Core
pub mod Ring
pub mod Runtime
pub mod Task
pub mod Tests
