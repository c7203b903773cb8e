-- ===== src/Pool/System/Work.antt =====
-- ThreadPoolImpl.hpp: what the workers do by themselves. No client takes a step, and no wait ends
-- before its time or for no reason.
use uni_tasks.Prelude.{◌≡◌, refl, ◌∙◌, true, false, some, List, ◌∷◌, ◌++◌}
use uni_tasks.Prelude.Int.{ℤ, ◌+ℤ◌, ◌≤ℤ◌, scale}
use uni_tasks.Errors.{Result}
use uni_tasks.Tasks.{ticks_per_ms}
use uni_tasks.Queue.{WaitPoint, idle, polling, draining}
use uni_tasks.Pool.{
  TaskType, Stage, waiting, woken, running, Thread, wants_mutex, wake_thread, after_run,
}
use uni_tasks.Pool.System.{
  System, with_thread, worked, Step, tick, turn, wakes, finishes, Reach, here, next,
}

-- The limit of a wait that began at `since` is over: `wait_for` of the delay. The wait without a
-- limit has none.
abbrev pub IsOver : WaitPoint → (since now : ℤ) → Type 0
IsOver idle since now = true ≡ false
IsOver (polling delay) since now = since +ℤ scale ticks_per_ms delay ≤ℤ now
IsOver (draining delay) since now = since +ℤ scale ticks_per_ms delay ≤ℤ now

module _ {ℓ} {A : Type ℓ} (T : TaskType A) where
  pub data Work (s t : System A) : Type ℓ where
    passes : (later : ℤ) → s.now ≤ℤ later → t ≡ record s { now = later } → Work s t
    takes_turn :
        (front : List (Thread A)) (th : Thread A) (back : List (Thread A))
        → s.pool.threads ≡ front ++ th ∷ back
        → wants_mutex th.stage ≡ true
        → t ≡ worked T front th back s
        → Work s t
    times_out :
        (front : List (Thread A)) (th : Thread A) (back : List (Thread A)) (point : WaitPoint)
        (since : ℤ)
        → s.pool.threads ≡ front ++ th ∷ back
        → th.stage ≡ waiting point since
        → IsOver point since s.now
        → t ≡ record s { pool = with_thread front th back (woken point) s.pool }
        → Work s t
    -- The task comes back.
    comes_back :
        (front : List (Thread A)) (th : Thread A) (back : List (Thread A)) (x : A)
        (r : Result (Unit {0})) (stage : Stage A)
        → s.pool.threads ≡ front ++ th ∷ back
        → th.stage ≡ running x
        → after_run r ≡ some stage
        → t ≡ record s { pool = with_thread front th back stage s.pool; finished = x ∷ s.finished }
        → Work s t

  pub data Works (s : System A) : System A → Type ℓ where
    done : Works s s
    then : {t u : System A} → Works s t → Work t u → Works s u

  pub Works-trans : {s t u : System A} → Works s t → Works t u → Works s u
  Works-trans w done = w
  Works-trans w (then v st) = then (Works-trans w v) st

  pub Work-Step : {s t : System A} → Work s t → Step T s t
  unfolding wake_thread
  Work-Step (passes later le e) = tick later le e
  Work-Step (takes_turn front th back at wants e) = turn front th back at wants e
  Work-Step (times_out front th back point since at waits _ e) =
      wakes front th back at (rw waits refl) (e ∙ rw waits refl)
  Work-Step (comes_back front th back x r stage at runs_x after e) =
      finishes front th back x r stage at runs_x after e

  -- The workers' own steps are steps of the pool.
  pub Works-Reach : {s t : System A} → Works s t → Reach T s t
  Works-Reach done = here
  Works-Reach (then w st) = next (Works-Reach w) (Work-Step st)
