-- ===== src/Runtime.antt =====
-- src/uni/common/RuntimeImpl.cpp, Runtime.cpp and RuntimeFactory.cpp: the runtime that poll engines
-- share. Its copies have one `RuntimeImpl` in common, so one value stands for all of them.
use uni_tasks.Prelude.{ℕ, String, List}
use uni_tasks.Ids.{Counters}
use uni_tasks.Errors.{Call}
use uni_tasks.Dispatcher.{Dispatcher}
use uni_tasks.TaskDispatcherBasic

pub record Runtime : Type 0 where
  pub dispatcher : Dispatcher

-- The constructors of RuntimeImpl and of Runtime.
unfoldable pub new_runtime_impl : List (String × ℕ) → Counters → Runtime
unfolding TaskDispatcherBasic.create
new_runtime_impl configurations c = record {
  dispatcher = TaskDispatcherBasic.create configurations c;
}

abbrev pub new_runtime : List (String × ℕ) → Counters → Runtime
new_runtime configurations c = new_runtime_impl configurations c

abbrev pub create_runtime : List (String × ℕ) → Counters → Runtime
create_runtime configurations c = new_runtime configurations c

-- `task_dispatcher_basic` returns a reference: a call on it changes the runtime's dispatcher.
abbrev pub task_dispatcher_basic_impl {ℓ} : {R : Type ℓ} → Call Dispatcher R → Call Runtime R
task_dispatcher_basic_impl f runtime =
    let (r, d) = f runtime.dispatcher in (r, record { dispatcher = d })

abbrev pub task_dispatcher_basic {ℓ} : {R : Type ℓ} → Call Dispatcher R → Call Runtime R
task_dispatcher_basic f runtime = task_dispatcher_basic_impl f runtime
