-- ===== src/Dispatcher.antt =====
-- src/uni/common/TaskDispatcherImpl.cpp and public/uni/common/details/TaskDispatcherImpl.hpp, which
-- TaskDispatcher and TaskDispatcherBasic call and RuntimeImpl holds: thread pools by name.
pub mod Pools
pub mod Dispatch
pub mod Execute
pub mod Cancel
use uni_tasks.Prelude.{
  ℕ, String, str_eq, Bool, true, false, Option, some, none, List, [], ◌∷◌, ◌++◌, if◌then◌else◌,
}
use uni_tasks.Prelude.Int.{ℤ}
use uni_tasks.Ids.{RequestId, Counters, create_request_id}
use uni_tasks.Errors.{
  Exception, Result, ok, throw, logic_error, unknown_thread_pool, wrong_thread_pool, Call, and_then,
  ◌>>=◌, ◌>>◌, return, raise, modify,
}
use uni_tasks.Tasks.{Task, Callee, Pointer, function, member_function, set_request_id_impl}
use uni_tasks.Factory.{
  Target, callable, method, Member, member, const_member, wrapped, Wrapper, ptr2wrapper,
  const_ptr2wrapper, unwrap, create_task_ptr,
}
use uni_tasks.Pool.{Pool, new_pool, cancel_pending_impl, on_one_of_threads_impl}
use uni_tasks.ThreadPool
use uni_tasks.Pool.Tasks.{task_type}

-- `std::unordered_map< std::string, ThreadPool >`, its elements in the order of an iteration, which
-- the standard leaves open.
abbrev pub Pools : Type 0
Pools = List (String × Pool Task)

-- The dispatcher and the counters of `create_request_id` and `create_sequence_id`.
pub record Dispatcher : Type 0 where
  pub pools : Pools
  pub counters : Counters

unfoldable pub find : String → Pools → Option (Pool Task)
find name [] = none
find name ((n, p) ∷ ps) = if str_eq n name then some p else find name ps

-- The pool of that name after a call on a reference to it.
unfoldable pub update : String → Pool Task → Pools → Pools
update name q [] = []
update name q ((n, p) ∷ ps) = if str_eq n name then (n, q) ∷ ps else (n, p) ∷ update name q ps

-- `emplace`: a name that is there already keeps its pool.
unfoldable pub emplace : String → ℕ → Pools → Pools
unfolding find new_pool
emplace name threads_count ps = elim (find name ps) [
  | some _ ↦ ps
  | none ↦ ps ++ (name, new_pool threads_count) ∷ []
]

-- The loop of the constructor.
unfoldable pub configure : List (String × ℕ) → Pools → Pools
unfolding emplace
configure [] ps = ps
configure ((name, threads_count) ∷ cs) ps = configure cs (emplace name threads_count ps)

-- `find_thread_pool`, and a call on the pool that it returns.
unfoldable pub on_pool {ℓ} : {R : Type ℓ} → String → Call (Pool Task) R → Call Dispatcher R
unfolding find update
on_pool name f d = elim (find name d.pools) [
  | none ↦ raise (logic_error (unknown_thread_pool name)) d
  | some p ↦ let (r, p') = f p in (r, record d { pools = update name p' d.pools })
]

-- `start_impl` calls `start` of one pool after the other, and ends where one throws. `ids` are the
-- ids of the new threads of each pool.
unfoldable pub start_all : (String → ℕ → ℕ) → Call Pools (Unit {0})
start_all ids [] = (ok tt, [])
start_all ids ((n, p) ∷ ps) =
    let (r, p') = ThreadPool.start (ids n) p in
    let rest = start_all ids ps in
    elim r [ ok _ ↦ (rest.0, (n, p') ∷ rest.1) | throw e ↦ (throw e, (n, p') ∷ ps) ]

-- `stop_impl` likewise. `joined` is what a pool has become when `join` comes back.
unfoldable pub stop_all : (Pool Task → Pool Task) → Call Pools (Unit {0})
stop_all joined [] = (ok tt, [])
stop_all joined ((n, p) ∷ ps) =
    let (r, p') = ThreadPool.stop p in
    let rest = stop_all joined ps in
    elim r [ ok _ ↦ (rest.0, (n, joined p') ∷ rest.1) | throw e ↦ (throw e, (n, p') ∷ ps) ]

unfoldable pub start : (String → ℕ → ℕ) → Call Dispatcher (Unit {0})
unfolding start_all
start ids d = let (r, ps) = start_all ids d.pools in (r, record d { pools = ps })

unfoldable pub stop : (Pool Task → Pool Task) → Call Dispatcher (Unit {0})
unfolding stop_all
stop joined d = let (r, ps) = stop_all joined d.pools in (r, record d { pools = ps })

-- A name that is not there is no error here.
unfoldable pub cancel_pending : String → RequestId → Dispatcher → Dispatcher
unfolding find update cancel_pending_impl
cancel_pending name id d = elim (find name d.pools) [
  | none ↦ d
  | some p ↦ record d { pools = update name (ThreadPool.cancel_pending task_type id p).1 d.pools }
]

unfoldable pub assert_execution_context : (self : ℕ) → String → Call Dispatcher (Unit {0})
unfolding on_pool on_one_of_threads_impl
assert_execution_context self name = on_pool name λ p.
    if ThreadPool.on_one_of_threads self p
    then (ok tt, p)
    else (throw (logic_error (wrong_thread_pool name)), p)

-- `utils::create_request_id`.
unfoldable pub new_request_id : Call Dispatcher RequestId
unfolding create_request_id
new_request_id d = let (id, c) = create_request_id d.counters in (ok id, record d { counters = c })

-- `dispatch_impl` with a request id.
unfoldable pub dispatch_request :
    (choice : ℕ) → String → RequestId → Task → Call Dispatcher (Unit {0})
unfolding on_pool set_request_id_impl
dispatch_request choice name id task =
    on_pool name (ThreadPool.add_task task_type choice (set_request_id_impl id task))

-- `dispatch_impl` for a task without one.
unfoldable pub dispatch_task : (choice : ℕ) → String → Task → Call Dispatcher (Unit {0})
unfolding new_request_id dispatch_request
dispatch_task choice name task = new_request_id >>= λ id. dispatch_request choice name id task

-- `create_task_ptr` on the counters of the program.
unfoldable pub make_task : (now : ℤ) → Target → List ℕ → Call Dispatcher Task
unfolding create_task_ptr
make_task now target args d =
    let (task, c) = create_task_ptr now target args d.counters in
    (ok task, record d { counters = c })

-- The other overloads of `dispatch_impl`: they differ in the overload of `create_task_ptr`.
unfoldable pub dispatch :
    (choice : ℕ) (now : ℤ) → String → Target → List ℕ → Call Dispatcher (Unit {0})
unfolding make_task dispatch_task
dispatch choice now name target args =
    make_task now target args >>= λ task. dispatch_task choice name task

unfoldable pub cancel :
    (choice : ℕ) (now : ℤ) → String → RequestId → (f : ℕ) → Call Dispatcher (Unit {0})
unfolding cancel_pending dispatch
cancel choice now name id f d = dispatch choice now name (callable f) [] (cancel_pending name id d)

-- `dispatch_or_execute_impl`, called by the thread `self`. `call` is the code behind a callee, which
-- may use the dispatcher itself; `W` is the rest of the program.
module _ {ℓ} {W : Type ℓ} (call : Callee → Call (Dispatcher × W) (Unit {0})) (self choice : ℕ)
    (now : ℤ) (name : String) where
  -- The body that the overloads share: the call of `dispatch_impl`, or the call of the callee.
  unfoldable pub either_way : Target → Callee → List ℕ → Call (Dispatcher × W) Bool
  either_way target callee args (d, w) = elim (find name d.pools) [
    | none ↦ (throw (logic_error (unknown_thread_pool name)), (d, w))
    | some p ↦
        let queued = dispatch choice now name target args d in
        if ThreadPool.on_one_of_threads self p
        then and_then (call callee (d, w)) (λ _. return true)
        else and_then (queued.0, (queued.1, w)) (λ _. return false)
  ]

  unfoldable pub dispatch_or_execute_wrapper :
      Pointer → Wrapper → List ℕ → Call (Dispatcher × W) Bool
  unfolding either_way unwrap
  dispatch_or_execute_wrapper object f args =
      either_way (method object (wrapped f)) (member_function object (unwrap f) args) args

  unfoldable pub dispatch_or_execute : Target → List ℕ → Call (Dispatcher × W) Bool
  unfolding either_way dispatch_or_execute_wrapper ptr2wrapper const_ptr2wrapper
  dispatch_or_execute (callable f) args = either_way (callable f) (function f args) args
  dispatch_or_execute (method object (wrapped f)) args = dispatch_or_execute_wrapper object f args
  dispatch_or_execute (method object (member f)) args =
      dispatch_or_execute_wrapper object (ptr2wrapper f) args
  dispatch_or_execute (method object (const_member f)) args =
      dispatch_or_execute_wrapper object (const_ptr2wrapper f) args
