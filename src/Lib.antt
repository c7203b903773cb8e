-- ===== src/Lib.antt =====
-- uni-tasks: thread pools, tasks with due times, and requests and poll engines on top of them.
--
-- A client makes a task (public/uni/tasks/TaskFactory.hpp), gives it to a dispatcher under the name
-- of a thread pool (public/uni/common/TaskDispatcher.hpp), and a worker of that pool takes it from
-- the pool's queue when it is due (public/uni/concurrency/Queue.hpp and details/ThreadPoolImpl.hpp)
-- and runs it (src/uni/tasks/TaskBaseImpl.cpp). A request (src/uni/common/RequestImpl.cpp) is
-- started and cancelled through callbacks that dispatch tasks; a poll engine
-- (src/uni/common/PollEngineImpl.cpp) is a task that dispatches itself again.
--
-- The files, lowest first:
--   Prelude       library names, lists and integers over the native natural numbers.
--   Errors        the exceptions, and calls that return a new state also when they throw.
--   Ids           `create_request_id` and `create_sequence_id` of src/uni/utils/Utils.cpp.
--   Order         what `std::set` asks of its comparator.
--   OrderedSet    `std::set` as the queue uses it, as a list in the order of iteration.
--   Bag           finite bags, a quotient of lists.
--   Tasks         TaskBaseImpl with TaskImpl and MemberFnTaskImpl, TaskComparators.hpp, TaskUtils.hpp;
--                 Virtual is ITask with the classes Task and MemberFnTask, Life the calls of a
--                 task through it until its destruction.
--   Factory       the overloads of `create_task` and `create_task_ptr`, MemberFnPtrWrapper of Types.hpp;
--                 Session is about the tasks that a program makes by them.
--   Utils         the other helpers of public/uni/utils: invoke, apply, get_value, Expects, the trait.
--   Queue         the fields that the two templates of Queue.hpp share; Deque and Ordered are the two.
--   Queue/Deque/System  the queue over a deque among producers and consumers, as a step relation.
--   Pool          ThreadPoolImpl: its fields, its calls, and the turns of `worker_thread`.
--   Pool/System   the pool among its clients, as a step relation: one step is what one thread does
--                 while it holds the queue's mutex, or outside it. Any number of clients and workers
--                 take their steps in any order; time passes, waits end early or late.
--   Pool/Starting  `start_impl` step by step, with what other threads may do between its steps.
--   Pool/Running  what a worker does with a task of the dispatcher.
--   Pool/Spec     the contract of a pool, in bags of tasks; Pool/System/Refines relates the two.
--   ThreadPool    the class of that name, which forwards to ThreadPoolImpl.
--   Dispatcher    TaskDispatcherImpl: the pools by name, `dispatch`, `dispatch_or_execute`, `cancel`.
--   TaskDispatcher  the class of that name, which forwards to TaskDispatcherImpl; sequences of calls.
--                 Steps, Refines and Joining relate its calls to the steps of Pool/System.
--   TaskDispatcher/Life  the pools of a dispatcher among their clients and workers, as a step
--                 relation, with a `stop` or a destructor that goes from pool to pool while the rest
--                 goes on.
--   TaskDispatcherBasic  the dispatcher of a runtime, which forwards to TaskDispatcherImpl; Calls
--                 relates its calls to those of TaskDispatcher.
--   Runtime       Runtime, RuntimeImpl and RuntimeFactory.cpp.
--   Request       RequestImpl and Request, with the code of the callbacks as a parameter.
--   Request/Threads  `start_impl` and `cancel_impl` access by access, for threads that overlap.
--   Poll          PollEngineImpl on a runtime; PollEngine is the class that forwards to it.
--   Demo          DemoComponentImpl of tests/integration/uni/common, a client that starts, reports and
--                 cancels a calculation through a request, on a runtime.
--   Examples      concrete runs.
--
-- How the code is read. The functions bear the names of the member functions. A mutex makes what
-- runs under it one step; `wait_pop` is cut at its waits, and `Queue.Ordered.resume` goes on from
-- each of them. `join` is a partial function: it has no result as long as a thread has not ended.
-- Points in time are whole nanoseconds, as integers without a bound; identifiers are `size_t` of 64
-- bits and wrap around. The order of an `std::unordered_map` and the thread that `notify_one` wakes
-- are arguments. The code behind a callee, a callback or a future is a parameter. In a program of
-- several pools their clocks run apart, which allows all that one clock does. No model runs on fuel;
-- `pop_all`, a consumer in a theorem on the deque, does, with more pops than elements.
--
-- Not modelled: the overflow of `int64_t` in times; allocation failures; calls of `start` and `stop`
-- of one pool that overlap, which the code does not guard; data races of plain members such as the
-- poll callback, whose accesses the C++ standard leaves undefined, and those of a request beyond an
-- order of its accesses; the lifetime of objects that a task or a callback refers to.
pub mod Bag
pub mod Demo
pub mod Dispatcher
pub mod Errors
pub mod Examples
pub mod Factory
pub mod Ids
pub mod Order
pub mod OrderedSet
pub mod Poll
pub mod PollEngine
pub mod Pool
pub mod Prelude
pub mod Queue
pub mod Request
pub mod Runtime
pub mod TaskDispatcher
pub mod TaskDispatcherBasic
pub mod Tasks
pub mod ThreadPool
pub mod Utils
