-- ===== src/Lib.antt =====
-- Itoyori: a runtime for fork-join tasks over a partitioned global address space, in C++17 headers
-- under include/ityr. `common` holds utilities and MPI wrappers, `ori` the global memory with its
-- software cache, `ito` threads and schedulers, `container` and `pattern` what programs use.
--
-- The parts modelled, and how they meet:
--
-- Common/Pow2: rounding to powers of two (include/ityr/common/util.hpp), used by the allocators.
-- Common/FreeList: the free address ranges of an allocator (include/ityr/common/freelist.hpp).
-- Common/GlobalLock: the lock word that ranks take by remote atomic operations
--   (include/ityr/common/global_lock.hpp), as a step relation.
-- Ori/BlockRegions: the valid and dirty byte ranges of a cache block
--   (include/ityr/ori/block_regions.hpp).
-- Ori/MemMapper: the distribution of a collective allocation over the ranks
--   (include/ityr/ori/mem_mapper.hpp) and the walk over the segments of a range, which takes any
--   mapper (for_each_mem_segment of include/ityr/ori/coll_mem.hpp).
-- Ori/Tlb: the recently used blocks (include/ityr/ori/tlb.hpp).
-- Ori/CacheSystem: the LRU cache behind both managers (include/ityr/ori/cache_system.hpp). The
--   entry type is a template parameter in the source and a record of callbacks here.
-- Ori/CacheManager: the write-back cache of remote blocks (include/ityr/ori/cache_manager.hpp), over
--   the cache system, whose entries are its blocks. Dirty holds the write-back and Checkout the public
--   operations; RMA transfers and mappings are a list of events, the newest first.
-- Ori/HomeManager: the mappings of segments in memory of the node (include/ityr/ori/home_manager.hpp), over
--   the cache system and the tlb; Backing says what the calls of mmap leave behind an address.
-- Ori/ReleaseManager: the epochs of the lazy release (include/ityr/ori/release_manager.hpp).
-- Ori/Core: the loops over the segments and the blocks of a range (include/ityr/ori/core.hpp), over the
--   walk of Ori/MemMapper. A loop gives the calls of its function; Homes says where a call sends a byte.
-- Ito/JoinRace: a fork, the death of the thread, the theft of its parent and the join
--   (include/ityr/ito/sched/randws.hpp) as moves on what they share. A move is one remote access; Phases
--   lists what is reached.
-- Ito/WsQueue: the work-stealing queue of the schedulers (include/ityr/ito/wsqueue.hpp). Each of its
--   operations is one atomic step; Runs is the step relation of the owner and the thieves.
--   std::move of the C++ library is the loop that copies element by element, in ascending order.
-- Container/GlobalVector: the vector in global memory (include/ityr/container/global_vector.hpp),
--   whose loops are those of Pattern. Its memory is a list of cells, each an object or raw.
-- Pattern: the loop of one task (include/ityr/pattern/serial_loop.hpp) and the fork-join loops,
--   reductions and scans (include/ityr/pattern/parallel_loop.hpp). Whether a thread was serialized is
--   a function of its place in the tree of forks, so a theorem for all such functions is for every
--   schedule. What is written through the last iterator is a list beside the result.
--
-- A class is a record, and a method a function that returns the new record. A loop with an iterator
-- over a linked list is a recursion on the list; where a branch of a loop has several outcomes the
-- branch is a data type of its own (RemoveCase, MeetCase). Words of type size_t, uintptr_t and
-- uint64_t are natural numbers with the wrap at 2 ^ 64 written out. A reference count is an int that
-- may become negative (Prelude/Ints), and is not followed past the last value of its type. A checkin
-- that takes down a count that is not positive is in the model, and the properties of runs of the
-- home manager leave it out. An ITYR_CHECK is the assertion
-- of a debug build and no branch of the model, except in ensure_evicted, where it guards an
-- eviction, and in assert_policy and pop_back, where a failure is `none`. `die` and exceptions
-- are values.
--
-- Fuel: `walk` takes one round more than the range has bytes, since each round gains a byte, and
-- `for_each_block` one more for the part of a block in front of the range.
-- The loops of Pattern take one round more than the range has elements, since each fork and each
-- chunk leaves fewer. Each round of `request_release` after
-- the second sees a greater epoch than the one before, so that it needs at most two rounds more than
-- the wanted epoch exceeds the one requested at first, if the other ranks, between the rounds, take
-- back no request.
--
-- Not modelled: MPI, RMA, mmap and context switches, which are calls of the system; profiling,
-- options and output; the ADWS scheduler, whose ranges are doubles, and what the random scheduler
-- does beyond a fork and its join; the spans and the task invocations; the operations of the core that
-- run the managers.
pub mod Prelude
pub mod Common
pub mod Ori
pub mod Ito
pub mod Container
pub mod Pattern
