-- ===== src/Tasks/Life.antt =====
-- ITask.hpp and TaskBaseImpl.cpp: what a task and its promise go through from the task's creation to
-- its end, whatever is called on it in whatever order.
pub mod Futures
use uni_tasks.Prelude.{
  ℕ, suc, ◌+◌, ◌≤◌, ◌≡◌, ◌≢◌, refl, sym, ap, ◌∙◌, Bool, true, false, not, ◌||◌, ◌&&◌, bit, any,
  if◌then◌else◌, Bool-cases, List, [], ◌∷◌, ◌⊎◌, inl, inr, arith,
}
use uni_tasks.Prelude.Int.{ℤ}
use uni_tasks.Ids.{RequestId}
use uni_tasks.Errors.{Result, ok, throw, is_ok, foreign, broken_promise}
use uni_tasks.Tasks.{
  Invocation, call_impl, Task, Promised, nothing_yet, value, exception, run_impl,
  set_request_id_impl, set_due_time_impl, get_future_impl,
}
use uni_tasks.Tasks.Run.{promised_by, run_impl-fresh, run_impl-settled}
use uni_tasks.Tasks.Virtual.{ITask, virtual, overrides, task, overrides-task, run-run_impl}

-- The calls that change a task.
pub data Event : Type 0 where
  runs : Event
  sets_request_id : RequestId → Event
  sets_due_time : (now delay : ℤ) → Event
  gets_future : Event

-- `~TaskBaseImpl` destroys the promise: if it holds nothing, its future gets an exception.
unfoldable pub destroyed : Promised → Promised
destroyed nothing_yet = exception broken_promise
destroyed p = p

-- What the future tells its holder after callees with these results: the first result or exception,
-- but for exceptions that are no `std::exception`.
abbrev pub settle : Promised → List (Result (Unit {0})) → Promised
settle p [] = p
settle nothing_yet (r ∷ rs) = settle (promised_by r) rs
settle p (r ∷ rs) = p

-- The results that reach the promise.
abbrev pub settles : Result (Unit {0}) → Bool
settles (throw (foreign _)) = false
settles _ = true

abbrev pub gets : Event → Bool
gets gets_future = true
gets _ = false

module _ {ℓ} {W : Type ℓ} (call : Invocation → W → Result (Unit {0}) × List ℕ × W) where
  -- One call through the interface: whether it comes back, and what it leaves.
  unfoldable pub happen : Event → Task → W → Bool × Task × W
  unfolding overrides
  happen runs t w = let (r, t', w') = virtual call (λ i. i.run) t w in (is_ok r, t', w')
  happen (sets_request_id id) t w = (true, virtual call (λ i. i.set_request_id id) t, w)
  happen (sets_due_time now delay) t w = (true, virtual call (λ i. i.set_due_time now delay) t, w)
  happen gets_future t w = let (r, t') = virtual call (λ i. i.get_future) t in (is_ok r, t', w)

  -- One call after the other; the exceptions are caught.
  unfoldable pub happen_all : List Event → Task → W → Task × W
  unfolding happen
  happen_all [] t w = (t, w)
  happen_all (e ∷ es) t w = let (back, t', w') = happen e t w in happen_all es t' w'

  -- What the callee returns or throws, run after run.
  unfoldable pub outcomes : List Event → Task → W → List (Result (Unit {0}))
  unfolding happen
  outcomes [] t w = []
  outcomes (runs ∷ es) t w =
      (call (call_impl t.callee) w).0 ∷ outcomes es (happen runs t w).1 (happen runs t w).2
  outcomes (e ∷ es) t w = outcomes es (happen e t w).1 (happen e t w).2

  -- How often the future is handed out.
  unfoldable pub futures : List Event → Task → W → ℕ
  unfolding happen
  futures [] t w = 0
  futures (gets_future ∷ es) t w =
      bit (happen gets_future t w).0 + futures es (happen gets_future t w).1 w
  futures (e ∷ es) t w = futures es (happen e t w).1 (happen e t w).2
