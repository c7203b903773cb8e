-- ===== src/ThreadPool.antt =====
-- public/uni/concurrency/ThreadPool.hpp: the class that the dispatcher holds. Each member function
-- forwards to ThreadPoolImpl; `stop` up to its join is `begin_stop` of Pool.
use uni_tasks.Prelude.{ℕ, Bool}
use uni_tasks.Ids.{RequestId}
use uni_tasks.Errors.{Call}
use uni_tasks.Pool.{
  TaskType, Pool, start_impl, begin_stop, add_task_impl, cancel_pending_impl,
  on_one_of_threads_impl,
}

module _ {ℓ} {A : Type ℓ} where
  abbrev pub start : (ids : ℕ → ℕ) → Call (Pool A) (Unit {0})
  start ids p = start_impl ids p

  abbrev pub stop : Call (Pool A) (Unit {0})
  stop p = begin_stop p

  abbrev pub add_task : TaskType A → (choice : ℕ) → A → Call (Pool A) (Unit {0})
  add_task T choice task p = add_task_impl T choice task p

  abbrev pub on_one_of_threads : (self : ℕ) → Pool A → Bool
  on_one_of_threads self p = on_one_of_threads_impl self p

  abbrev pub cancel_pending : TaskType A → RequestId → Pool A → Bool × Pool A
  cancel_pending T id p = cancel_pending_impl T id p
