-- ===== src/Lib.antt =====
-- async_gpu: a GPU runtime in Rust in which kernels call the host. Kernels run futures, channels and
-- collections on the device and reach the host's services by hostcalls: packets in pinned memory that
-- both sides see, on lock-free stacks, with a doorbell and a control word. On the host, arrays keep a
-- copy on either side in step.
--
-- Parts and files:
-- * Protocol and its children model crates/core/gpu-protocol/src/lib.rs: numbers of services and
--   bits (Services), tagged pointers (Tagged), the layout of the buffer (Layout, Regions), errors
--   (Errors), metadata words (Metadata) and the status record of a kernel (KernelResult).
-- * Hostcall models crates/core/gpu-runtime/src/hostcall.rs (hc_pop_free_from, hc_push_with,
--   gpu_hostcall_release, gpu_hostcall_request and its relatives, gpu_hostcall_print,
--   gpu_hostcall_trace) in Buffer, Stack, Request and Trace, and the initialisation in
--   crates/core/gpu-host/src/hostcall.rs (HostcallBuffer::init, reinit_packets) in Init. Chain is
--   the abstract view of a stack as a list; Fresh, Links, Outcomes, Returns, Progress, Aba and
--   Timeout hold what is proved.
-- * Host models the listener and the services of crates/core/gpu-host/src/hostcall.rs: listen_unified
--   (Listener), io_thread_loop (IoThread), the handlers (Files, Sockets, Bulk, Console), StdinSource
--   (Stdin). Os is what they ask of the operating system. Serve and Drain have what a scan of a
--   ready stack comes to, Handlers, Descriptors and Loop what the I/O thread keeps, Frames and Prints
--   what is shown.
-- * Sideband models crates/core/gpu-runtime/src/sideband.rs and print_buffer.rs (PrintBuffer); Grants,
--   Transfer and Buffered hold what is proved, with the host's handlers.
-- * Tuner models the occupancy calculation and the register targets of
--   crates/core/gpu-host/src/resource_report.rs, and in Search the search and the cache of
--   crates/core/gpu-host/src/auto_tune.rs; Target, Median, Best and Cached hold what is proved.
-- * Grid models crates/core/gpu-runtime/src/grid_work.rs: a work slot, its coordinator and its worker;
--   Reach has the steps of both in any order, Cancel a dispatch from end to end and a late cancel.
-- * Array models crates/core/gpu-host/src/gpu_array.rs (GpuArray); View is its abstract value.
-- * Channel models crates/core/gpu-runtime/src/channel.rs: the oneshot (Oneshot) and the MPSC ring;
--   Ring is the abstract view of the ring as a list of cells.
-- * Collections models crates/core/gpu-runtime/src/collections.rs (GpuHashMap); Probe is the scan that
--   its operations share, Map, Full and Race what follows.
-- * Commands models CommandBuffer of crates/core/gpu-host/src/hostcall.rs and
--   crates/core/gpu-runtime/src/cmd.rs; Queue is its abstract view, Calls any sequence of calls.
-- * Recorder models crates/core/gpu-runtime/src/flight_recorder.rs and FlightRecorder of
--   crates/core/gpu-host/src/hostcall.rs, with the dump as a list and not as text.
-- * Executor models crates/core/gpu-runtime/src/executor.rs: the queue of tasks, the stack of free
--   slots and the waker's data (Executor), and init, spawn and run (Run). Fifo is the queue as a list,
--   Slots the stack of slots as a list; Calls, Steps, History, Drain, Complete, Rescan, Parked and
--   Wakers hold what is proved.
-- * Fusion models the analysis of crates/core/gpu-host/src/nn/fusion.rs (FusionOptimizer::analyze)
--   over the tape of crates/core/gpu-host/src/nn/autograd/tape.rs: counts of uses (Counts), kinds of
--   operations (Ops), a match (Match) and the plan (Plan).
-- * Lock models Mutex of crates/core/gpu-runtime/src/sync.rs, Lock.Steps the threads that use it.
-- * Scope models SharedMemAllocator of crates/core/gpu-runtime/src/scope.rs; Mask has what its
--   rounding comes to, and Live, Moves and Fits keep account of the blocks that are in use.
-- * ParIter models the iterators, folds and collect_into of crates/core/gpu-runtime/src/par_iter.rs.
-- * The two sides meet in a packet: Hostcall fills it and pushes it on a ready stack, Host drains the
--   stack, serves the packet and stores the control word for which Hostcall waits.
-- * Prelude has what the parts share; Tests has the theorems at concrete inputs.
--
-- How state corresponds: integers of fixed width are natural numbers with the wrap-around written
-- out; typed memory stands for the bytes at fixed offsets, for which see Protocol.Regions. A
-- compare-and-swap loop runs on a schedule, a list of what other threads do between its loads and
-- its swap, one entry a round; for when it is long enough see Hostcall.Progress. The spin loop of
-- a request has `max_spin - 1` rounds after the first, as in the source, which counts after it
-- looks. Memory is sequentially consistent: acquire and release are not told apart. The driver of
-- the device (its allocations and copies) is a parameter, so is the operating system of the host
-- (files, sockets, clock, standard input, UTF-8, with the two laws of a read on its buffer), and a waker is a number. The loop of
-- log2_n has the capacity as fuel; halving needs less. The mask `cursor & (N - 1)` of the ring is
-- written as the remainder by N. The loop of handle_bulk_print has half the length of its data as fuel,
-- which is proved enough, and its sums do not wrap. The sums of the sideband's bounds checks wrap, as
-- they do in a release build. What the host prints about its own work is left out; what it shows for
-- the GPU is a value, with the prefix of a line and the address of a socket as parameters. The hash
-- map of descriptors is a function, the cache of the tuner a list of entries, a run of its benchmark
-- a number or a failure given by a parameter, and the queue to the I/O thread a list. A walk of the listener
-- lets other threads in after each packet, not during one.
--
-- Of a warp in the executor lane 0 is modelled, which alone touches the memory. A parameter says what
-- a poll function does to the memory and whether it is ready; the address in a waker is that of the
-- one queue. The 1088 iterations of `run` are the source's own bound. Its scan for parked tasks is
-- not interrupted. A mask of a power of two is written as a remainder or a quotient. A trap of the
-- device ends a thread. The analysis of fusion has the length of the tape as fuel, and it advances at
-- least one entry a round. The warps of a parallel iterator run one after another, on places of
-- their own, and the loop of a warp has the number of the elements as fuel.
--
-- Not modelled: the block and unified channels, the spawning scopes, generators, threads and the
-- tiered memory of the runtime, the allocation of the pinned buffers, neural networks but for the
-- analysis of fusion, kernels, and the tests and examples.
pub mod Prelude
pub mod Protocol
pub mod Hostcall
pub mod Host
pub mod Sideband
pub mod Tuner
pub mod Grid
pub mod Array
pub mod Channel
pub mod Collections
pub mod Commands
pub mod Recorder
pub mod Executor
pub mod Fusion
pub mod Lock
pub mod Scope
pub mod ParIter
pub mod Tests
