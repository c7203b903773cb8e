-- ===== src/TaskDispatcherBasic.antt =====
-- public/uni/common/TaskDispatcherBasic.hpp, details/TaskDispatcherBasic.inl and
-- src/uni/common/TaskDispatcherBasic.cpp: the dispatcher of a runtime. It takes tasks, and plain
-- member functions of objects behind plain pointers.
pub mod Calls
use uni_tasks.Prelude.{ℕ, String, Bool, List, []}
use uni_tasks.Prelude.Int.{ℤ}
use uni_tasks.Ids.{RequestId, Counters}
use uni_tasks.Errors.{Result, Call, ok, ◌>>=◌, return}
use uni_tasks.Tasks.{Task, Callee, raw}
use uni_tasks.Factory.{method, member}
use uni_tasks.Pool.{Pool}
use uni_tasks.Dispatcher.{Dispatcher, configure}
use uni_tasks.Dispatcher
use uni_tasks.TaskDispatcher.{without_rest}

-- The constructor; the counters belong to the program.
unfoldable pub create : List (String × ℕ) → Counters → Dispatcher
unfolding configure
create configurations c = record { pools = configure configurations []; counters = c }

unfoldable pub start : (String → ℕ → ℕ) → Call Dispatcher (Unit {0})
unfolding Dispatcher.start
start ids = Dispatcher.start ids

unfoldable pub stop : (Pool Task → Pool Task) → Call Dispatcher (Unit {0})
unfolding Dispatcher.stop
stop joined = Dispatcher.stop joined

unfoldable pub cancel_pending : String → RequestId → Call Dispatcher (Unit {0})
unfolding Dispatcher.cancel_pending
cancel_pending name id d = (ok tt, Dispatcher.cancel_pending name id d)

unfoldable pub cancel :
    (choice : ℕ) (now : ℤ) → String → RequestId → (f : ℕ) → Call Dispatcher (Unit {0})
unfolding Dispatcher.cancel
cancel choice now name id f = Dispatcher.cancel choice now name id f

unfoldable pub dispatch_request :
    (choice : ℕ) → String → RequestId → Task → Call Dispatcher (Unit {0})
unfolding Dispatcher.dispatch_request
dispatch_request choice name id task = Dispatcher.dispatch_request choice name id task

unfoldable pub assert_execution_context : (self : ℕ) → String → Call Dispatcher (Unit {0})
unfolding Dispatcher.assert_execution_context
assert_execution_context self name = Dispatcher.assert_execution_context self name

-- The templates, for the member function `f` of the object `object`.
unfoldable pub dispatch_member :
    (choice : ℕ) (now : ℤ) → String → (object f : ℕ) → List ℕ → Call Dispatcher (Unit {0})
unfolding Dispatcher.dispatch
dispatch_member choice now name object f args =
    Dispatcher.dispatch choice now name (method (raw object) (member f)) args

unfoldable pub dispatch_or_execute {ℓ} :
    {W : Type ℓ}
    → (Callee → Call (Dispatcher × W) (Unit {0}))
    → (self choice : ℕ) (now : ℤ) → String
    → (object f : ℕ) → List ℕ
    → Call (Dispatcher × W) Bool
unfolding Dispatcher.dispatch_or_execute
dispatch_or_execute call self choice now name object f args =
    Dispatcher.dispatch_or_execute call self choice now name (method (raw object) (member f)) args

-- The calls of the member functions.
pub data Op : Type 0 where
  starts : (String → ℕ → ℕ) → Op
  stops : Op
  asserts : (self : ℕ) → String → Op
  cancels_pending : String → RequestId → Op
  cancels : (choice : ℕ) (now : ℤ) → String → RequestId → (f : ℕ) → Op
  dispatches_request : (choice : ℕ) → String → RequestId → Task → Op
  dispatches_member : (choice : ℕ) (now : ℤ) → String → (object f : ℕ) → List ℕ → Op
  -- What the callee ends with, if it is called at once; its own calls are further calls.
  dispatches_or_executes :
      (outcome : Result (Unit {0})) (self choice : ℕ) (now : ℤ)
      → String
      → (object f : ℕ) → List ℕ
      → Op

-- `joined` says what a pool has become when its `join` comes back.
module _ (joined : Pool Task → Pool Task) where
  unfoldable pub perform : Op → Call Dispatcher (Unit {0})
  unfolding start stop assert_execution_context cancel_pending cancel dispatch_request
      dispatch_member dispatch_or_execute
  perform (starts ids) = start ids
  perform stops = stop joined
  perform (asserts self name) = assert_execution_context self name
  perform (cancels_pending name id) = cancel_pending name id
  perform (cancels choice now name id f) = cancel choice now name id f
  perform (dispatches_request choice name id task) = dispatch_request choice name id task
  perform (dispatches_member choice now name object f args) =
      dispatch_member choice now name object f args
  perform (dispatches_or_executes outcome self choice now name object f args) = without_rest (
      dispatch_or_execute (λ _ s. (outcome, s)) self choice now name object f args
      >>= (λ _. return tt))
