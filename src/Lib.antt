-- ===== src/Lib.antt =====
-- mpmc_queues: a model of the lock-free queues of this repository, with their correctness.
--
-- Parts
--   Bit (include/util/bit.hpp): the bit utilities that all other parts use. Bit.antt has one
--     definition per function, under the same name; a template parameter `T` is its number of bits.
--   CasLoop (include/queue/segment/CASLoopSegment.hpp, include/queue/cell/SequencedCell.hpp): the
--     bounded queue `CASLoopQueue` and its segment `LinkedCASLoop`. CasLoop.antt has the state and
--     `step`, which takes one thread over one shared access; CasLoop/System interleaves any number of
--     threads; CasLoop/Spec is the abstract queue; CasLoop/Inv the invariant; CasLoop/Refine and
--     CasLoop/Safety what every schedule keeps; CasLoop/Alone what one thread does by itself;
--     CasLoop/Segment and Linked the ring as a segment of a proxy.
--   Faa (include/queue/segment/FAAArray.hpp): the segment `LinkedFAAArray`, whose cells are used once.
--     Faa.antt has `step`; Faa/System the threads and the lists of accepted and returned items, which
--     no code reads; Faa/Inv, Steps and Safety the invariant; Faa/Alone one thread by itself.
--   Hq (include/queue/segment/HQSegment.hpp): the segment `LinkedHQ`. Hq.antt has `step`; Hq/System the
--     threads, the link of a next segment and the lists of accepted and taken items, which no code
--     reads; Hq/Inv, Steps, Returns and Safety the invariant; Hq/Alone and Calls one thread by itself; Hq/Lost
--     a race of two.
--   Prq (include/queue/segment/PRQSegment.hpp): `PRQueue` and `LinkedPRQ`. Prq.antt has the state and the
--     places of a call, Prq/Step its accesses, Prq/Alone the calls of one thread.
--   Ticket/Static (include/util/threading/StaticThreadTicket.hpp): the ids of `StaticThreadTicket`.
--   Scq (include/queue/segment/SCQueue.hpp): `SCQueue` and `LinkedSCQ`. Scq.antt has the layout and `step`;
--     Scq/Raw the rings of the third-party library with their laws, of which Scq/Listed is an instance;
--     Scq/System the threads and where each index is, which no code reads; Scq/Inv, Steps, Refine,
--     Returns and Safety the refinement; Scq/Closing the close flag; Scq/Layout the block.
--   Ring (include/queue/segment/LFring.hpp): `LFring` and `LFringSlab` over the ring of the third-party
--     library, which is the parameter Ring/Raw; Ring/Listed is a ring that keeps its promises.
--   Recycler (include/util/hazard/Recycler/Recycler.hpp): epochs, `retire` and `reclaim`, over Epoch and
--     Ring. Recycler/System has the threads and who has which index; Recycler/Inv, Steps,
--     Returns and Safety the invariant; Recycler/Runs and Grace threads that run one after the other.
--   Hazard (include/util/hazard/HazardVector.hpp, HazardCell.hpp): hazard pointers. Hazard.antt has the
--     operations; Hazard/Scan and Hazard/Vectors the loops of `collect`, Hazard/Collect and
--     Hazard/Protect what the operations guarantee.
--   Ticket (include/util/threading/DynamicThreadTicket.hpp): the small numbers by which threads own
--     their hazard pointers. Ticket.antt has `step`, Ticket/System the threads, Ticket/Inv, Steps,
--     Start and Safety the invariant, Ticket/Alone one thread by itself, Ticket/Instances the ids.
--   Epoch, VersionedIndex (include/util/hazard/Recycler/EpochCell.hpp, VersionedIndex.hpp): the packed
--     words of the segment recycler.
--   Bucket (include/util/hazard/Recycler/Buckets.hpp): `PhasedBucket`, with one call at a time.
--   Bounded (include/linked): Bounded/Counter is BoundedCounterProxy.hpp and Bounded/Chunk is
--     BoundedChunkProxy.hpp, each a `Machine` of Bounded/Machine: a proxy over the list of segments of
--     Unbounded that may also refuse an item. Bounded/Safety has their schedules.
--   Unbounded (include/linked/UnboundedProxy.hpp): the list of segments behind `head_` and `tail_`.
--     Unbounded/Segment is what it asks of a segment, a parameter that
--     CasLoop/Linked fills with `LinkedCASLoop`, one call being one moment; Unbounded/Spec the queue it
--     promises; Inv, Contents, Changes, Links and Steps the invariant and the lemmas; Refine the
--     accesses one by one, Safety all schedules.
--
-- Memory and words
--   Shared accesses are sequentially consistent and happen one at a time; `memory_order` arguments are
--   not modelled. A `compare_exchange_weak` may fail for no reason: an event of the schedule says when.
--   An integer type of w bits wraps at 2 ^ w. Pointers are numbers and the null pointer is 0. The
--   operands of the subtraction in `size` are read in the order in which they are written, tail first.
--   A failed assertion of a constructor is `none`.
--
-- Bounds and fuel
--   Theorems on schedules bound the start ticket plus the number of events by 2 ^ 63, where the code
--   keeps its closed flag: a ticket is taken by one event, so no run of that length reaches the flag.
--   The loops of bit.hpp run on fuel, the width of the type, and the theorems on them show that their
--   results are the ones of the unbounded loops.
--   The loop of `collect` runs on fuel, the length of the list, and that of `protect` on any; the
--   theorems say when they end.
--   `solo r n` runs n accesses of one thread; a theorem names the number after which the call returned.
--
-- Not modelled
--   Padding, alignment and allocation; the classes that hold no algorithm (interfaces, option packs);
--   inline assembly, pinning, timing, benchmarks, tests; the third-party queues. BoundedMemProxy.hpp
--   does not compile when it is used. DebugBucket and Cache of Buckets.hpp are variants of the
--   loop of CASLoopSegment.hpp; PtrLookup.hpp only constructs and destroys objects. The theorems on PRQueue are
--   on one call at a time; the proxies are modelled without their hazard pointers, so that no theorem
--   is on the reclamation of segments.
pub mod Base
pub mod Bit
pub mod Bounded
pub mod Bucket
pub mod CasLoop
pub mod Epoch
pub mod Faa
pub mod Hazard
pub mod Hq
pub mod Prq
pub mod Recycler
pub mod Ring
pub mod Scq
pub mod Ticket
pub mod Unbounded
pub mod VersionedIndex
