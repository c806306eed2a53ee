-- ===== src/Lib.antt =====
-- multiqueue2: a bounded queue of values between any number of senders and of streams of receivers,
-- each stream of which gets every value (broadcast), or whose receivers share the values (mpmc).
--
-- Parts, and the files that model them
--
-- src/countedindex.rs: the counter that names a position, `CountedIndex`, and a try to move it,
-- `Transaction`. CountedIndex.antt has its operations under their names; CountedIndex/Bounds.antt
-- says what they compute, CountedIndex/Wrap.antt which capacities are accepted.
-- CountedIndex/Moves.antt has threads that move one counter side by side, and
-- CountedIndex/Claims.antt what they take. Word.antt has the wrapping operations of `usize` and the
-- laws of its masks. src/maybe_acquire.rs and src/consume.rs: the choice of memory orderings by
-- target, in Orderings.antt. src/atomicsignal.rs: the flags by which the queue tells its handles
-- that there is work to do, in AtomicSignal.antt. src/alloc.rs and the objects behind raw pointers,
-- in Heap.antt: a pointer is a number, and the heap maps it to a position, a count of consumers, a
-- group of positions, or a token. src/memory.rs: the manager that frees what was unlinked from the
-- queue once every handle has been seen since. Memory/Inner.antt has `MemoryManagerInner`,
-- Memory.antt `MemoryManager`, Memory/Laws.antt what they promise, and Memory/Frame.antt what they
-- leave alone. src/read_cursor.rs: the streams. ReadCursor/Attempt.antt has `Reader` and
-- `ReadAttempt`, ReadCursor/Group.antt `ReaderGroup` and `ReadCursor`, ReadCursor/Distance.antt the
-- scan for the slowest stream, ReadCursor/Removal.antt what `remove_reader` leaves,
-- ReadCursor/Rounds.antt `add_stream` while other threads exchange the group. src/multiqueue.rs: the
-- queue. MultiQueue/Policy.antt has the trait `QueueRW` as a record, with `BCast` and `MPMC`;
-- MultiQueue/State.antt the fields and `new_internal`; MultiQueue/Send.antt and MultiQueue/Recv.antt
-- the two sides; MultiQueue/Handles.antt `InnerSend` and `InnerRecv`; MultiQueue/Teardown.antt the
-- destructor. MultiQueue/Threads.antt has `try_send_multi` and `try_recv` as steps of threads that
-- run side by side.
--
-- src/wait.rs: how a receiver waits. Wait.antt has `check` and the three strategies, on the list of
-- what their checks see; Wait/Laws.antt says when the first two return, Wait/Blocking.antt the one
-- that sleeps. MultiQueue/Blocking.antt has the calls `recv` and `recv_view` that wait.
-- src/broadcast.rs and src/mpmc.rs: the handles of the two kinds of queue, over those of
-- src/multiqueue.rs, with their iterators, in Broadcast.antt and Mpmc.antt and the files below. The
-- futures part of src/multiqueue.rs is in MultiQueue/Futures.antt and the files below: Wait has
-- `FutWait` and its `notify`, State the queue with the two waiters of its receivers and its senders,
-- Send has `FutInnerSend` with `start_send` and `send_or_park`, Park the waiting of a receiver, Recv
-- `FutInnerRecv` and what both receivers share, Uni `FutInnerUniRecv`, and Steps the parking and
-- notifying of threads side by side. Broadcast/Futures.antt and Mpmc/Futures.antt have the handles
-- over these.
--
-- A send moves the counter `head` and writes a cell, whose flag it sets to the counter's value; a
-- stream has a counter of its own, and a receive on it waits for the cell's flag to show that value.
-- A send must not overtake the slowest stream by more than the queue is long: it keeps a bound on
-- that stream's position, `tail_cache`, and asks the read cursor for a new one only when the bound
-- says that the queue is full. Refinement.antt and its children set this against a log, the list of
-- all values sent: Refinement/Log.antt says when a queue stands for a log, Writing and Sending treat
-- sends, Multi the sends among several writers, Receiving, Taking, Rounds and Loop receives, Waiting
-- receives with nothing to read, Blocking the loop of `recv`, Woken one that has waited, Fresh a new
-- queue, Closing the destructor, and Calls and Runs sequences of calls. Signals, Handles and Handing
-- treat the calls of the handles, Streams, Sharing and Leaving streams that come and go, and
-- Refinement/Futures.antt and its children the futures part: Waking, Offers, Sink, Start and
-- NoReader the senders, Parking, Polling, Poll, Panics and Dropping the receivers, Rescue both
-- together, and Wakeups the interleavings of parking and notifying. Refinement/Threads.antt and its
-- children set the threads side by side against the log: Sound has the invariant, Room what a sender
-- learns of the tail, Frame what a thread may rely on while another moves, Changes, Advance and
-- Assembly the changes of the memory, Flags, Senders and Receivers the moves, Reached the states
-- reached, Delivery what the streams give out and who uses which cell, Counts, Pins, Pinning and
-- Cloning the counts of readers, and Alone, Progress, Values, Consuming and Receiving a thread that
-- is left alone.
--
-- How the code is read
--
-- The target has 64 bits; wrap-around is written out. A value type is a parameter, and so is its
-- `clone`, of which BCast relies on getting an equal value. A call runs from its start to its end
-- with no access of another thread in between, but for those of MultiQueue/Threads.antt, where any
-- number of threads take turns, one access to what they share at a time; there the reload of the
-- tail, the write of a value with the drop of the old one, and the giving back of a count of readers
-- with the reload of the position behind it are one step each, the streams and the counts of their
-- consumers stay as they are, and a consumer makes direct commits only on a stream that has no
-- other. Memory orderings have no effect. Both outcomes of a compare-exchange are written out;
-- whether a weak one fails for no reason, and whether a `try_lock` gets the lock, is an argument.
-- The rounds of `ReadCursor::get_max_diff` see any heaps and pointers. The loop of `try_send_multi`
-- and that of `try_recv` recurse on the list of the outcomes of their weak compare-exchanges; they
-- end at the first that does not fail for no reason. The loops that exchange the group of streams
-- recurse on a list of what other threads do to it in each round; the calls that use them run while
-- no other thread works on the group, where one round is enough. No pointer is handed out twice.
-- `next_power_of_two` doubles at most 64 times. The size of a cell is an argument of the
-- construction, which panics where the cells or the counts of readers take more than `isize::MAX`
-- bytes; that memory runs out is left out. A panic, a read of a cell never written, and the end of
-- the outcomes supplied are values of `Fault` in Prelude/Outcome.antt. A log of a queue is shorter
-- than 2 ^ 63 - 1, so that no counter has wrapped.
--
-- A call that waits has, for each time round its loop, an argument for what the other threads make
-- of the queue before each check; the waiter is a function of the count and of what the checks see.
-- A `BlockingWait`, for which it also counts when it is notified, is treated by itself: its lock and
-- its condition variable show in that no notification falls between its check under the lock and its
-- sleep, and that its sleep ends with the first notification. The loop of `YieldingWait` runs on
-- fuel, of which one more than the number of sights is enough.
--
-- A task is a value of a type that is a parameter, the current task is an argument of the calls that
-- may park it, and `notify` of a task puts it into the list of those woken. A call of `start_send`
-- has an argument for what the others do before each of its tries, and `poll` one for what they do
-- before each check; both run out only if there are fewer than the calls spins, plus one. The 100
-- milliseconds that `fut_wait` sleeps behind the parking have no effect here, and the changes that a
-- function held by a receiver makes outside its result are left out.
--
-- Not modelled: what memory orderings allow beyond interleaving; the programs under src/bin and the
-- tests, which only call the library; several threads inside the other calls of one queue at once,
-- but for the commits of one counter, the parking and notifying, the rounds of `get_max_diff`, and
-- the rounds of `add_stream`.
pub mod Prelude
pub mod Word
pub mod CountedIndex
pub mod AtomicSignal
pub mod Orderings
pub mod Heap
pub mod Memory
pub mod ReadCursor
pub mod Wait
pub mod MultiQueue
pub mod Broadcast
pub mod Mpmc
pub mod Refinement
pub mod Tests
