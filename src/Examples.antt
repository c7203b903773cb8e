-- ===== src/Examples.antt =====
-- Concrete tasks, pools and runs for the theorems and definitions of the other files.
mod Sleeps
mod Chains
mod Queues
mod Consumers
mod Lives
mod Cancels
mod Runs
mod Pools
mod Tasks
mod Dispatchers
mod Requests
mod Polls
mod Demos
mod Runtimes
use uni_tasks.Prelude.{ℕ, Bool, true, false, List, [], ◌∷◌}
use uni_tasks.Prelude.Int.{ℤ, pos}
use uni_tasks.Tasks.{Task, function, nothing_yet}
use uni_tasks.Queue.{Queue}
use uni_tasks.Pool.{Stage, Thread, Pool}

-- A task with a due time in ticks; the number serves as its request id and its sequence number.
abbrev pub task_at : ℕ → ℕ → Task
task_at due number = record {
  callee = function 7 [];
  due = pos due;
  request = number;
  sequence = number;
  promised = nothing_yet;
  future_taken = false;
}

abbrev pub early : Task
early = task_at 0 1

abbrev pub middle : Task
middle = task_at 5_000_000 2

abbrev pub late : Task
late = task_at 9_000_000 3

abbrev pub queue_of : List Task → Bool → Queue Task
queue_of tasks closed = record { elements = tasks; closed = closed }

abbrev pub thread_at : ℕ → Stage Task → Thread Task
thread_at id stage = record { id = id; joinable = true; stage = stage }

abbrev pub pool_of : List Task → (closed started : Bool) → List (Thread Task) → Pool Task
pool_of tasks closed started threads = record {
  queue = queue_of tasks closed;
  threads_count = 1;
  started = started;
  threads = threads;
}
