-- ===== src/Lib.antt =====
-- The grpc-p2300 library: an execution context that runs gRPC completion queues and a task queue on a
-- pool of threads, and the senders that make RPCs on it.
--
-- Parts and files
--
-- Status: the library's status codes and statuses. Status/RpcCode is src/sgrpc/rpc_status_code.hpp
-- with src/sgrpc/detail/rpc_status_code_category.hpp; Status/RpcStatus is src/sgrpc/rpc_status.hpp;
-- Status/Convert and Status/Timespec are src/sgrpc/detail/utils.hpp (to_rpc_status_code,
-- to_grpc_status_code, duration_to_grp_timespec). A `std::error_code` carries whether the category that
-- it refers to still exists.
--
-- Queue: src/sgrpc/detail/atomic_task_stealing_queue.hpp. Queue/Locking is OptimisiticLockingQueue,
-- Queue/Stealing is AtomicTaskStealingQueue (its try_pop is called `steal`), one operation at a time.
-- Whether a `try_lock` succeeds is an argument, a function of the round and the try. Queue/Threads is
-- the same queue under any number of threads: each step is one access to shared memory, or one critical
-- section, of one thread; it is made of the operations of Queue/Locking and Queue/Stealing. Queue/Fifo
-- compares a history of uncontended pushes and pops with a queue. Queue/Bag is the abstract specification of
-- AtomicTaskStealingQueue, a quotient of lists that forgets their order.
--
-- Context: src/sgrpc/execution_context.cpp and .hpp. Context/State is the state machine of set_state_,
-- Context/Post the constructor and the four overloads of post (post, post_deadline, post_delta,
-- post_rpc), Context/Lifecycle attach_server, run_while, stop and add_notify_at_stopped. What the
-- context asks of gRPC, of its threads and of the notifications is a list of calls, in the order made.
-- Context/History runs any sequence of the lifecycle calls. The task queue of a context is that of
-- Queue/Stealing. Context/Gate is the context under any number of calling threads: each step is one
-- access to shared memory, one call or one critical section of one thread, made of the operations of
-- the other modules. Context/Worker is execute_cq_ and run_one_thread_ for one worker, in which the
-- completion queues' answers are arguments; Context/Worker/Throws is the same worker with thunks that may
-- throw. Context/Crew is all workers of a pool at once, over Queue/Threads, with threads outside of the
-- pool that post; thunks may post as well.
--
-- Rpc: src/sgrpc/detail/rpc_sender_operation_states.hpp with inflight_rpc.hpp and alarm.hpp beside it,
-- and client_rpc_stub.hpp and rpc_sender.hpp, which put them together. Rpc/Pure is
-- PureRpcSenderOpState, Rpc/Wrapped is CallData and RpcSenderOpState, Rpc/Inflight the heap objects;
-- Rpc/Once and Rpc/Erased are the two kinds of RPC, started on a context: they call post_rpc of
-- Context/Post. Rpc/Shared is the CallData that all copies of one sender share, with the two steps of
-- starting an operation. Rpc/Senders is ClientRpcStub, ClientRpcSender, Scheduler and
-- src/sgrpc/detail/response_reader_factory.hpp as values that refer to contexts and to CallData: what
-- call, schedule and connect make, and what start does with it.
-- There, one thread starts operations one after the other, and a call is answered before the next start.
-- Rpc/Signatures is the completion signatures that the senders declare. Rpc/Delivery composes RPCs with
-- the context, its completion queues, the threads that start RPCs, the stop and
-- the workers that execute the queues, one access or call at a time: from start to the receiver, across a
-- stop.
--
-- Scheduler: src/sgrpc/scheduler.hpp, the operation of schedule, which posts to the context's task
-- queue. The values around it are in Rpc/Senders.
--
-- Server: the server side. Server/Handler is src/sgrpc/server_rpc_handler.hpp: the handlers of one
-- completion queue as objects that make and delete each other; Server/Handler/Steps is gRPC, which hands
-- their tags back, and the workers that call complete at the same time, part by part.
-- Server/Container is src/sgrpc/generic_server_container.hpp: the calls of init and make, which attaches
-- the server to a context of Context/Lifecycle.
--
-- Greeting: src/greeting-grpc. The logic of the server, the client's sender, which is a type-erased RPC
-- of Rpc/Erased, and the handle on a server, which is made by Server/Container. Greeting/Exchange takes a
-- request through a handler of Server/Handler and its reply back to the client's receiver.
-- Greeting/Client is the client on the contexts and CallData of Rpc/Senders.
--
-- Program: src/main.cpp. Program/Algorithms is the record of the algorithms of stdexec that it calls, with
-- the laws that are documented of them; Program is main itself, on the server and the client of Greeting.
--
-- FromScratch: examples/from-scratch.cpp, the senders written without a library. FromScratch/RunLoop is
-- the run loop with its intrusive list as next pointers, FromScratch/Senders is just, then and sync_wait,
-- FromScratch/Scheduled the operations that are scheduled on the loop. FromScratch/Threaded is
-- thread_context: the loop on a thread of its own, interleaved with a main thread that waits on it.
-- FromScratch/Programs is the two example programs that need no second thread.
--
-- Machine integers and bounds
--
-- `unsigned` is a number taken modulo 2^32, `std::size_t` one modulo 2^64, after each operation. The
-- theorems that need a counter not to wrap say so: fewer than 2^32 threads in push, fewer than 2^64
-- posts under way or callers of a context, fewer than 2^32 queues. Durations are integers
-- without a bound.
--
-- The outer loop of push has no bound in the source, stop_and_eject waits for other threads, and a
-- worker runs until its queues are shut down. All three are on fuel; `none` stands for a loop that
-- still runs. One round more than the number of rounds in
-- which every try_lock fails is enough for push, and one pass is enough for stop_and_eject where no
-- push is under way; a worker needs one iteration more than those before all its queues are shut down.
--
-- Parameters and what is not modelled
--
-- gRPC, stdexec and the generated stubs are not part of the repository. What they decide is an argument:
-- the answer to a call (Rpc/Once), whether a receiver's set_value throws, the conversion function. A
-- completion queue completes a tag that it was given once. Memory is sequentially consistent: the memory
-- orders of the atomics are not modelled. Memory does not run out, and thunks do not throw when moved.
-- A stop that a worker makes (the predicate of run_while) is modelled only as far as its joins, in
-- Context/Lifecycle and Context/SelfJoin. The branch of server_rpc_handler.hpp for logic that is a sender
-- is not modelled, since it cannot be instantiated, nor scratch_sender.hpp, which nothing uses. What gRPC carries from a server to a client is an argument of Greeting/Exchange, with what
-- gRPC documents of it as a hypothesis; the port that a server gets is an argument of Server/Container.
-- A use of an object that does not exist, or of a null pointer, is a result of its own.
pub mod Base
pub mod Status
pub mod Queue
pub mod Context
pub mod Rpc
pub mod Scheduler
pub mod Server
pub mod Greeting
pub mod Program
pub mod FromScratch
