-- ===== src/TaskDispatcher/Life/Answered.antt =====
-- TaskDispatcherImpl.cpp with TaskBaseImpl.cpp: what the futures of all tasks tell when `stop` of the
-- dispatcher comes back.
use uni_tasks.Prelude.{ℕ, String, ◌≡◌, ◌<◌, true, List, [], ◌∷◌, All}
use uni_tasks.Prelude.Int.{ℤ}
use uni_tasks.Errors.{Result}
use uni_tasks.Tasks.{Invocation}
use uni_tasks.Pool.System.Futures.{IsUnrun, IsAnswered, unrun-IsAnswered}
use uni_tasks.TaskDispatcher.Life.{Way, Systems, came_back, Program, initial, Reach}
use uni_tasks.TaskDispatcher.Life.Stopped.{IsFinished, Reach-came_back}

module _ {ℓ} {W : Type ℓ} (call : Invocation → W → Result (Unit {0}) × List ℕ × W) where
  pools-IsAnswered :
      (es : Systems)
      → All (λ e. IsFinished e.1) es
      → All (λ e. All IsUnrun e.1.accepted) es
      → All (λ e. IsAnswered call e.1) es
  pools-IsAnswered [] finished fresh = tt
  pools-IsAnswered ((name, u) ∷ es) finished fresh =
      (unrun-IsAnswered call u finished.0.2 fresh.0, pools-IsAnswered es finished.1 fresh.1)

  -- If each pool that a dispatcher is configured with has at least one thread, in a state that its
  -- clients, its workers, calls of `stop` and its destructor can reach `stop` or the destructor
  -- has come back, to a thread that was in none of the pools when it joined them, and the promises
  -- of all tasks that the pools took held nothing when they were given to them, then in each pool
  -- each task has been run, was cancelled or was dropped, as often as it was taken; a run of such
  -- a task, in whatever state of the program, ends the program, or the worker goes back to the
  -- queue and the future tells what the callee returned or threw; and the destruction of a task
  -- that was cancelled or dropped breaks its promise.
  pub came_back-IsAnswered :
      (configurations : List (String × ℕ)) (now : ℤ) (way : Way) {p : Program}
      → All (λ c. 0 < c.1) configurations
      → Reach (initial configurations now) p
      → p.call ≡ came_back way
      → p.outside ≡ true
      → All (λ e. All IsUnrun e.1.accepted) p.systems
      → All (λ e. IsAnswered call e.1) p.systems
  came_back-IsAnswered configurations now way {p} positive r back out fresh =
      pools-IsAnswered p.systems (Reach-came_back configurations now way positive r back out) fresh
