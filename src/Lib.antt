-- ===== src/Lib.antt =====
-- A verification library for TurboStream, an in-memory double-buffered stream in Go.
--
-- The program. Writers put byte slices into the active `SmartBuffer` of a `DoubleBuffer`; a switch
-- condition (`config/config.go`) and a strategy decide when the active buffer is exchanged; the full
-- one goes, with a sequence number, into a min-heap of pending buffers, and waiting readers are told.
-- Readers take the pending buffer whose number is due and read it until it is empty. A function of
-- the source with a pointer receiver is a function here that returns the new state beside its result;
-- names are the source's in snake case.
--
-- Which file models which part:
--   Common          lists, booleans, the signed integers int32 and int64 with their wrap-around, the
--                   error values of errorx/errorx.go, and how a call ends (a result, an error, a panic)
--   Consts          const.go: the enumerations, as integers with named values
--   Buffer          core/component/smart_buffer.go: one call at a time. `Buffer.Queue` is the
--                   specification, `Buffer.Calls` runs the source's calls against it. `Buffer.Overlap`
--                   has `Push` and `Pop` in atomic operations, for calls that overlap
--   MinHeap         core/min_heap.go: the slice methods, with `up` and `down` of container/heap
--   WrapHeap        core/min_heap.go: the locked heap
--   Config          config/config.go: the switch condition; `Config.Watch` adds a concurrent reader
--   Waiters         core/waiters.go: the readers that wait
--   DoubleBuffer    core/double_buffer.go and core/chunk.go: the stream that joins these parts, its calls
--                   and the stages of its goroutines as steps (`DoubleBuffer.Steps`), and its invariant
--                   (`DoubleBuffer.Valid`). `DoubleBuffer.Blocking` is `BlockingRead` in stages that take
--                   turns with those steps; `DoubleBuffer.Delivery` follows each item from the writer to
--                   the reader
--   Strategy        core/switch_strategy.go: when the channels are switched
--   BufferQueue     core/queue.go: the queue with an eviction policy
--   Atomic          utils/atomicx: the atomic Boolean, and in `Atomic.Methods` the generated integers
--   Log             utils/log: levels and fields; `Log.Zap` and `Log.Logrus` are the adapters, over the
--                   two logging libraries as parameters
--   Metrics         core/metrics: the batch collector, and in `Metrics.Prometheus` the collector that it
--                   reports to, over the client library as a parameter
--   Monitor         metrics/monitor.go: observers, start and stop with their contexts
--                   (`Monitor.Contexts`), and the bookkeeping of collections
--   Collect         metrics/collector.go: what the collectors make of the answers of gopsutil; `Collect.Disk`
--                   and `Collect.Network` are the two with loops
--   Pools           pools/life_cycle.go: which addresses of medium and big data are in use
--
-- Numbers and bounds. Indices and counters of a smart buffer are int32 and wrap; the refinement holds
-- for up to 2^31 writes between two resets, and `Buffer.Wrap` says what happens past that. Sequence
-- numbers and versions are int64; the stream draws a number only while the next one has room. The ids
-- of waiters and the counted size of the big data pool are ints of 64 bits and wrap; an id stands for
-- its value modulo 2^64.
--
-- Fuel. `up` runs on the length of the heap and `down` on one more, `notify` on one more than the
-- number of waiters, the drain of `Close` on the length of the heap; a run that used them up would
-- return `none`, and the theorems show a result.
--
-- Not decided by the code. The order in which Go walks a map and the object that `sync.Pool.Get` hands
-- out are arguments; a theorem holds for each of them.
--
-- Parameters: the arithmetic of float64, eviction policies, zap, logrus, the Prometheus client, the
-- answers of gopsutil, and the task pool of the monitor, which is whether a pool that is released or has
-- free workers takes a task.
--
-- Not modelled: goroutines that overlap inside a call, but for the stages of `BlockingRead` and
-- several calls of `Push` in `Buffer.Overlap`. So the push of a buffer to the pending heap and the
-- reading of its length for the notification are one step, and so are the flag and the context in
-- `Start` and `Stop` of the monitor. One clock reading serves a whole cleanup. Also left out are
-- the option `WithMetrics` of a stream, whose collector no call of the stream uses; the bytes
-- behind the pointers; the finalizer that `Free` of the big data pool takes away; the observers of
-- metrics/observer.go, which print or set gauges; the timeout controller, which calls a library;
-- the connections and counters that the network collector passes on; the generator of the atomic
-- integers, a run of a template; generated mocks, and files with no code.
pub mod Common
pub mod Consts
pub mod Buffer
pub mod MinHeap
pub mod WrapHeap
pub mod Config
pub mod Waiters
pub mod Pools
pub mod Strategy
pub mod BufferQueue
pub mod DoubleBuffer
pub mod Atomic
pub mod Log
pub mod Metrics
pub mod Monitor
pub mod Collect
