-- ===== src/TaskDispatcher.antt =====
-- public/uni/common/TaskDispatcher.hpp, details/TaskDispatcher.inl and src/uni/common/TaskDispatcher.cpp:
-- the class that clients see. TaskDispatcherBasic has the same member functions, fewer of them.
pub mod Kept
pub mod Order
pub mod Together
pub mod Steps
pub mod Refines
pub mod Joining
pub mod Life
use uni_tasks.Prelude.{ℕ, String, Bool, true, false, List, [], ◌∷◌}
use uni_tasks.Prelude.Int.{ℤ}
use uni_tasks.Ids.{RequestId, Counters}
use uni_tasks.Errors.{Result, Call, ok, ◌>>=◌, return}
use uni_tasks.Tasks.{Task, Callee}
use uni_tasks.Factory.{Target}
use uni_tasks.Pool.{Pool}
use uni_tasks.Dispatcher.{Dispatcher, configure}
use uni_tasks.Dispatcher

-- The constructor; the counters belong to the program.
unfoldable pub create : List (String × ℕ) → Counters → Dispatcher
unfolding configure
create configurations c = record { pools = configure configurations []; counters = c }

unfoldable pub start : (String → ℕ → ℕ) → Call Dispatcher (Unit {0})
unfolding Dispatcher.start
start ids = Dispatcher.start ids

unfoldable pub stop : (Pool Task → Pool Task) → Call Dispatcher (Unit {0})
unfolding Dispatcher.stop
stop joined = Dispatcher.stop joined

unfoldable pub cancel_pending : String → RequestId → Call Dispatcher (Unit {0})
unfolding Dispatcher.cancel_pending
cancel_pending name id d = (ok tt, Dispatcher.cancel_pending name id d)

unfoldable pub cancel :
    (choice : ℕ) (now : ℤ) → String → RequestId → (f : ℕ) → Call Dispatcher (Unit {0})
unfolding Dispatcher.cancel
cancel choice now name id f = Dispatcher.cancel choice now name id f

unfoldable pub dispatch_task : (choice : ℕ) → String → Task → Call Dispatcher (Unit {0})
unfolding Dispatcher.dispatch_task
dispatch_task choice name task = Dispatcher.dispatch_task choice name task

unfoldable pub dispatch_request :
    (choice : ℕ) → String → RequestId → Task → Call Dispatcher (Unit {0})
unfolding Dispatcher.dispatch_request
dispatch_request choice name id task = Dispatcher.dispatch_request choice name id task

-- The overloads of TaskDispatcher.inl.
unfoldable pub dispatch :
    (choice : ℕ) (now : ℤ) → String → Target → List ℕ → Call Dispatcher (Unit {0})
unfolding Dispatcher.dispatch
dispatch choice now name target args = Dispatcher.dispatch choice now name target args

unfoldable pub assert_execution_context : (self : ℕ) → String → Call Dispatcher (Unit {0})
unfolding Dispatcher.assert_execution_context
assert_execution_context self name = Dispatcher.assert_execution_context self name

unfoldable pub dispatch_or_execute {ℓ} :
    {W : Type ℓ}
    → (Callee → Call (Dispatcher × W) (Unit {0}))
    → (self choice : ℕ) (now : ℤ) → String
    → Target
    → List ℕ
    → Call (Dispatcher × W) Bool
unfolding Dispatcher.dispatch_or_execute
dispatch_or_execute call self choice now name target args =
    Dispatcher.dispatch_or_execute call self choice now name target args

-- A call that uses nothing but the dispatcher, not the rest of the program.
abbrev pub without_rest : {A : Type 0} → Call (Dispatcher × Unit {0}) A → Call Dispatcher A
without_rest call d = ((call (d, tt)).0, (call (d, tt)).1.0)

-- The calls of the member functions.
pub data Op : Type 0 where
  starts : (String → ℕ → ℕ) → Op
  stops : Op
  cancels_pending : String → RequestId → Op
  cancels : (choice : ℕ) (now : ℤ) → String → RequestId → (f : ℕ) → Op
  dispatches_task : (choice : ℕ) → String → Task → Op
  dispatches_request : (choice : ℕ) → String → RequestId → Task → Op
  dispatches : (choice : ℕ) (now : ℤ) → String → Target → List ℕ → Op
  asserts : (self : ℕ) → String → Op
  -- What the callee ends with, if it is called at once; its own calls are further calls.
  dispatches_or_executes :
      (outcome : Result (Unit {0})) (self choice : ℕ) (now : ℤ) → String → Target → List ℕ → Op

abbrev pub is_start : Op → Bool
is_start (starts _) = true
is_start _ = false

abbrev pub is_stop : Op → Bool
is_stop stops = true
is_stop _ = false

-- `joined` says what a pool has become when its `join` comes back.
module _ (joined : Pool Task → Pool Task) where
  unfoldable pub perform : Op → Call Dispatcher (Unit {0})
  unfolding start stop cancel_pending cancel dispatch_task dispatch_request dispatch
      assert_execution_context dispatch_or_execute
  perform (starts ids) = start ids
  perform stops = stop joined
  perform (cancels_pending name id) = cancel_pending name id
  perform (cancels choice now name id f) = cancel choice now name id f
  perform (dispatches_task choice name task) = dispatch_task choice name task
  perform (dispatches_request choice name id task) = dispatch_request choice name id task
  perform (dispatches choice now name target args) = dispatch choice now name target args
  perform (asserts self name) = assert_execution_context self name
  perform (dispatches_or_executes outcome self choice now name target args) = without_rest (
      dispatch_or_execute (λ _ s. (outcome, s)) self choice now name target args
      >>= (λ _. return tt))

  -- One call after the other; the exceptions are caught.
  unfoldable pub perform_all : List Op → Dispatcher → Dispatcher
  unfolding perform
  perform_all [] d = d
  perform_all (op ∷ ops) d = perform_all ops (perform op d).1
