-- ===== src/Lib.antt =====
-- A model of lockness, a library of lock-free building blocks for executors, with theorems about
-- it.
--
-- The program's parts:
-- + bags/src/mpmc.rs: a bag of at most 30 messages between any number of senders and receivers.
--   A sender takes cells by setting their bits in the word `send`, fills them, and publishes them
--   by setting the bits in the word `recv`; a receiver takes all published cells by clearing their
--   bits in `recv`, empties them, and gives them back by clearing their bits in `send`. The two
--   lowest bits of each word are the status bits, inverted in `recv`.
-- + bags/src/slot.rs: a slot for one message between many senders and one receiver. A sender
--   reserves it by a count (on x86_64, in 64 bits) or a bit (elsewhere) in `send`, fills it and
--   sets COMMIT in `recv`; the receiver clears COMMIT, empties it and then clears `send`.
-- + bags/src/lib.rs: the futex calls by which a full or an empty bag puts its callers to sleep.
-- + bags/src/cache_padded.rs: the alignment that keeps the words and cells of a bag on cache lines of
--   their own.
-- + vecs/src/freestanding_vec.rs: a vector that keeps its header and the layout of its values in
--   its allocation, so that it can be popped by code that does not know the type of the values.
-- + vecs/src/closure_vec.rs: such a vector of closures, with the function that runs them in the
--   header.
-- + executor/src/lib.rs, error.rs: an executor in the making, of which the default number of threads
--   and the errors of tasks are written.
--
-- The files:
-- + Prelude, Word: numbers, lists and Boolean tests; bits, bit counts and reversals of words.
-- + Machine/Program, Machine/Access: a program is a tree of shared accesses, each atomic
--   read-modify-write, access to a cell and futex call one step. Machine/Sequential runs one alone,
--   and Machine/Waking the wake at its end. Machine/Threads has the steps of many threads over one
--   memory, where a wait may end at any time.
-- + Machine/Futex: the same threads with the futex of the operating system. A wait sleeps only if the
--   word is as expected, and until a wake picks the thread or the wait is interrupted; each such run
--   is one of Machine/Threads (Refines). Duty says what a thread owes those that sleep on a word: to
--   wake where it has cleared their flag, to set the flag again after a wait, to look where it has
--   let the flag stand beside something to take, by the claim or the reservation of the source. Watch and
--   Reached have the invariant that follows.
-- + Bags/Mpmc/Status, Masks, Buffer, Drain, Sender, Receiver, Blocking, Handles: the definitions
--   of mpmc.rs. `try_send`, `send`, `try_recv`, `recv`, `mpmc`, `compute_request_mask`,
--   `clear_extra_bits` and `drain_mask` keep their names; `clone_sender`, `drop_sender`,
--   `clone_receiver`, `drop_receiver` and `drop_inner` are the impls of `Clone` and `Drop`. A loop
--   or a closure of the source is a definition of its own (`reserve`, `fill`, `collect`,
--   `spin_send`, `spin_recv`), as is the code after it (`publish`, `take_claimed`).
-- + Bags/Mpmc/Protocol: what a method may do with the words and the cells, whatever other threads
--   have done to the words in between, and the methods held against it.
-- + Bags/Mpmc/System: any number of threads over one memory, their steps interleaved, each thread
--   a client that calls the methods one after the other; the invariant of all reachable states.
-- + Bags/Mpmc/Sleepers: the methods held against the duties towards sleepers on `send` and `recv`, and
--   who sees to these.
-- + Bags/Mpmc/Rounds, Alone: the loops that end by themselves, how many accesses `try_recv` takes
--   (Rounds/Steps), and the reserving loop of
--   `try_send` where no other thread steps in.
-- + Bags/Mpmc/Drain/Order: `drain_mask` as a loop over a list of cells. Bags/Mpmc/Batch: a whole batch
--   through the bag, where no other thread steps in.
-- + Bags/Slot/Status, Sender, Receiver, Handles: the definitions of slot.rs, under its names.
--   Bags/Slot/Contract says what a slot promises and which memories stand for it, and its
--   children hold the operations against that, one call after the other; Calls and History have a
--   list of calls and the drop of the slot after them. Waiting is about `recv` on an empty slot.
--   Bags/Slot/Protocol says who may touch the slot, and Bags/Slot/System is about the receiver
--   and any number of senders, their steps interleaved. Bags/Slot/Sleepers is about those that
--   sleep on the two words, and Deadlock about threads that sleep on both.
-- + Bags/CachePadded: the conditions on `target_arch` and the layout of a padded value.
-- + Vecs/Layout, Vecs/FreestandingVec: sizes, alignments and blocks; `new`, `init`, `push`, `pop`,
--   `reserve`, `allocate`, `deallocate`. The results of `init` and `deallocate` have the metadata
--   that are dropped: `*ptr = header` drops what it overwrites, `ptr.write` does not. `Holds` says
--   which stack a block implements.
-- + Vecs/ClosureVec: the methods of `ClosureVec`. The types of closures are numbered (`kind` is the
--   type parameter `F`), and a closure carries its number, so that `call::<F>` of another one is
--   undefined. A log lists which closures were called and which were dropped without a call. Runs is
--   about single calls, Life about `new`, `update_type`, pushes and the drop.
-- + Executor/MaxThreads, Executor/Error: `default_max_threads` and the formatting of a `JoinError`.
--   Executor/Decimal has `str::parse::<isize>`, which the former uses.
-- + Tests: runs at concrete inputs, and the theorems applied to such. SlotNights and MpmcNights have
--   runs in which threads sleep; in two of them a thread that nobody wakes any more stays asleep,
--   since the counterparty left between a wake and the woken thread's setting the flag again.
--
-- Bounds and fuel: the words are of 32 bits, and their additions wrap. `drain_mask` has fuel for
-- 31 rounds, one more than there are cells, and the spin loops fall from 32; Bags/Mpmc/Rounds is
-- about these bounds. The loop of `try_send` that reserves cells and the outer loops of `send` and
-- `recv` take rounds without bound, since other threads may prolong them: their fuel is an
-- argument, and a thread whose fuel runs out is one that stops there; where sleepers are concerned it
-- counts as one that would go on to look. `clear` of `ClosureVec` has
-- its fuel as an argument too; a round takes one closure. The contract of a slot on x86_64 speaks
-- of at most 2^61 reservations since a message was last taken out; beyond these the source aborts.
-- The threads over one slot are at most 2^60, more than fit an address space, so that those that have
-- aborted cannot make the count of reservations overflow. Sizes are `usize` on a 64-bit target.
--
-- Parameters: whether the target is x86_64 (`x86`, both cases are covered); the layouts of the
-- header and of the values (`IsLayout` says what Rust promises of them); whether the allocator
-- grants a request (`grants`); what `available_parallelism` gives; the writer that a formatter has
-- (it writes each text, or fails after a first part of it). A block's values stand at byte
-- offsets from its start.
--
-- Not modelled: memory orderings and fences (accesses are sequentially consistent); the order
-- in which a futex picks sleepers (any may be picked); the reference count of `Arc`;
-- what the debug assertions would check in a debug build; `into_raw` and `from_raw`, which keep
-- the pointer as it is; a panic in a closure or in the drop of a value or of metadata; the
-- spawner, the task buffers and the finisher of executor/src/lib.rs, whose methods are `todo!()` or empty, and its
-- builder, which a derive macro generates; the conversion of a `JoinError` to `io::Error`, which wraps
-- it; tests and benchmarks.
pub mod Prelude
pub mod Word
pub mod Machine
pub mod Bags
pub mod Vecs
pub mod Executor
pub mod Tests
