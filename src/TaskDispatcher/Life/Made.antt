-- ===== src/TaskDispatcher/Life/Made.antt =====
-- TaskDispatcherImpl.cpp with TaskFactory.hpp: a dispatcher whose tasks were made by the factory.
use uni_tasks.Prelude.{
  ℕ, String, ◌+◌, ◌≡◌, ◌≤◌, ◌<◌, ap, Bool, true, List, [], ◌∷◌, count, length, All, arith,
}
use uni_tasks.Prelude.Int.{ℤ}
use uni_tasks.Ids.{size_t_mod, Counters}
use uni_tasks.Tasks.{Task, sequence_id_impl}
use uni_tasks.Factory.{Creation, create_all}
use uni_tasks.Factory.Session.{numbered, numbered-le-one}
use uni_tasks.Pool.System
use uni_tasks.Pool.System.Dropped.{dropped-none}
use uni_tasks.TaskDispatcher.Life.{Way, Systems, came_back, Program, initial, Reach}
use uni_tasks.TaskDispatcher.Life.Good.{Good}
use uni_tasks.TaskDispatcher.Life.Stopped.{IsFinished, Reach-came_back, initial-Reach-Inv}

-- The pool was given each of the tasks at most once. A task keeps its number when its request id or
-- its due time is set.
abbrev pub IsGiven : List Task → System.System Task → Type 0
IsGiven tasks u = (m : ℕ) → numbered m u.accepted ≤ numbered m tasks

-- Each task that the pool took was run or cancelled, as often as it was taken.
abbrev pub HasRun : System.System Task → Type 0
HasRun u = (f : Task → Bool) → count f u.accepted ≡ count f u.finished + count f u.cancelled

module _ (xs : List Creation) (c : Counters) (few : length xs ≤ size_t_mod) where
  pool-HasRun :
      (u : System.System Task) → Good u → IsFinished u → IsGiven (create_all xs c).0 u → HasRun u
  pool-HasRun u good finished given f = omega (
    arith,
    finished.2 f,
    ap (count f) (
        dropped-none good.n good.now good.reached λ x.
          omega (arith, given (sequence_id_impl x), numbered-le-one (sequence_id_impl x) xs c few)),
  )

  pools-HasRun :
      (es : Systems)
      → All (λ e. Good e.1) es
      → All (λ e. IsFinished e.1) es
      → All (λ e. IsGiven (create_all xs c).0 e.1) es
      → All (λ e. HasRun e.1) es
  pools-HasRun [] goods finished given = tt
  pools-HasRun ((name, u) ∷ es) goods finished given =
      (pool-HasRun u goods.0 finished.0 given.0, pools-HasRun es goods.1 finished.1 given.1)

  -- If at most 2^64 calls of `create_task` and `create_task_ptr` make the tasks, each pool that a
  -- dispatcher is configured with has at least one thread, and in a state that its clients, its
  -- workers, calls of `stop` and its destructor can reach `stop` or the destructor has come back,
  -- to a thread that was in none of the pools when it joined them, and no pool has taken more
  -- tasks of a sequence number than were made with it, then each task that a pool took has been
  -- run or was cancelled, as often as it was taken.
  pub came_back-HasRun :
      (configurations : List (String × ℕ)) (now : ℤ) (way : Way) {p : Program}
      → All (λ c. 0 < c.1) configurations
      → Reach (initial configurations now) p
      → p.call ≡ came_back way
      → p.outside ≡ true
      → All (λ e. IsGiven (create_all xs c).0 e.1) p.systems
      → All (λ e. HasRun e.1) p.systems
  came_back-HasRun configurations now way {p} positive r back out given =
      pools-HasRun p.systems (initial-Reach-Inv configurations now positive r).good
        (Reach-came_back configurations now way positive r back out) given
