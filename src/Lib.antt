-- ===== src/Lib.antt =====
-- go_tools: a collection of Go packages, and a verification of the parts that carry its logic.
--
-- Parts and files (paths are from the root of the repository)
--   Base                    what the modules share: tests on numbers, lists, outcomes of a call, keys, byte
--                           strings, Go's built-in maps as association lists (Base/Maps), `int64` (Base/Int),
--                           goroutines as lists of program counters (Base/Threads)
--   Container/Queue         common/container/queue.go: Queue
--   Container/SortedMap     common/container/sorted_map.go: SortedMap
--   Container/LruCache      common/container/lru_cache.go: LruCache
--   Container/LruCache2q    common/container/lru_cache.go: LruCache2Q, which embeds an LruCache
--   Container/ShardLruCache common/container/lru_cache.go: ShardLruCache, a slice of LruCaches
--   Container/Set           common/container/set.go and define.go: Set
--   Timer                   common/timer/timer.go: TimerQueue, with the functions of container/heap that it uses
--   Timer/Manager           common/timer/timer_manager.go: TimerManager, over a TimerQueue and a Queue
--   Gpool/TaskRunner        common/pool/gpool/task_runner.go: TaskRunner
--   Network/SessionManager  common/network/session_manager.go: SessionManagerImpl
--   Network/Traffic         common/network/traffic.go: TrafficStatistics
--   Network/Conn            common/network/conn_impl.go: Conn, with the interfaces of net_interface.go
--   Network/SessionClient   common/network/session_client.go: SessionClient
--   Network/SessionServer   common/network/session_server.go: SessionServer, over a SessionManager
--   Network/WsTransport     common/network/ws_impl.go: Read of WsTransportImpl
--   Network/WsListener      common/network/ws_impl.go: WsListenerImpl
--   Logger                  common/logger/log_rollover.go: LogFileRollover
--   Logger/Backups          its rolloverExec, over a Set
--   Logger/Names            its getBackupNameByTime and timeFromFileName
--   Under each of these, the modules that prove its laws, and Examples with runs on small inputs.
--
-- A struct is a record with the fields of the source, and a method is a function of the same name in
-- snake case that returns the new record. A call that can panic returns a `Run`, which is `ok` or
-- `panic`; theorems of total correctness are stated by `Returns`, so they include that the call returns.
-- A linked list is the list of its nodes; where the program keeps pointers to nodes, as the cache does,
-- each node carries the number that stands for its address. A timer's pointer is shared by the heap and
-- the queue of calls, which reads nothing but the callback, so there it is a copy. Readings of the clock
-- are arguments. Callbacks of timers are a parameter that acts on a world and on the manager.
-- The TaskRunner, the Conn, the SessionClient, the SessionServer and the WsListener are concurrent:
-- their goroutines are program counters, a step moves one of them, and what is shown holds of every
-- state that steps in any order reach. A move is a function that says what follows (TaskRunner), or an
-- indexed type with one constructor for each branch (Moves), where foreign code may answer in several
-- ways. Proofs give each place a weight, show for one move how the weights and the state change, and
-- sum over the goroutines.
--
-- Bounds and fuel
--   Most loops are recursions on the list that they walk, or on the rounds that the source's counter
--   allows. The loops of container/heap take as fuel one more than the places that are left to visit; the
--   theorems on the heap show that this is enough. The two loops of
--   TimerManager.Run share a fuel that the caller gives; it is enough above the number of timers in the
--   heap and in the queue, where no timer is due again as soon as it is renewed. Counters of 32 bits and
--   the sums of `int64` wrap around; lengths and capacities are those of allocated slices and do not.
--
-- Of a sync.WaitGroup, Add, Done, the begin of a Wait and its end are a step each. What a task of the
-- TaskRunner calls of the runner is a call of another goroutine; that it waits for it is that it never
-- returns. A panic in a Send that a user of a Conn makes is the panic of that user, and left out.
--
-- Not modelled: locks (each method of the caches holds its lock from start to end, so a call is one
-- step), the logging, the transports of common/network over tcp and kcp and the dialers, which call sockets, the rest of
-- common/pool, the goroutine and the directory of common/logger, and
-- common/http_utils, common/mongo_driver, common/profile, common/encode_utils, common/file_utils and
-- common/options, most of which call sockets, files, drivers and the runtime.
pub mod Base
pub mod Container
pub mod Gpool
pub mod Logger
pub mod Network
pub mod Timer
