-- ===== src/Pool/System/OnTime.antt =====
-- ThreadPoolImpl.hpp with the notifications of Queue.hpp, for the tasks of the dispatcher: how long a
-- worker waits while the first task of the queue becomes due.
use uni_tasks.Prelude.{ℕ, ◌≡◌, refl, subst, Bool, true, false, List, ◌∷◌, any, arith}
use uni_tasks.Prelude.Int.{ℤ, pos, ◌+ℤ◌, ◌≤ℤ◌, ◌<ℤ◌, ltb_ℤ, scale, quot, +ℤ_parts, -ℤ_parts}
use uni_tasks.Tasks.{
  Task, ticks_per_ms, due_time_impl, delay_impl, get_task_delay, task_before, sequence_id_impl,
}
use uni_tasks.Queue.{idle, polling, draining}
use uni_tasks.Pool.{Stage, entering, waiting, woken, running, ended, wants_mutex}
use uni_tasks.Pool.Tasks.{task_type}
use uni_tasks.Pool.System.{System, initial, Reach}
use uni_tasks.Pool.System.Serving.{Service, Served}
use uni_tasks.Pool.System.Served.{Reach-Served}
use uni_tasks.Queue.{is_empty}

-- A wait that began at `since` and lasts `ms` milliseconds ends before the millisecond in which the
-- task is due is over.
abbrev pub ends_in_time : (since ms : ℤ) → Task → Bool
ends_in_time since ms x =
    ltb_ℤ (since +ℤ scale ticks_per_ms ms) (scale ticks_per_ms (due_time_impl x +ℤ pos 1))

-- The worker wants the mutex, runs a task, or waits, but not too long for the task.
abbrev pub gets_to : Task → Stage Task → Bool
gets_to x entering = true
gets_to x (woken _) = true
gets_to x (running _) = true
gets_to x (waiting idle since) = false
gets_to x (waiting (polling ms) since) = ends_in_time since ms x
gets_to x (waiting (draining ms) since) = ends_in_time since ms x
gets_to x ended = false

awake_gets_to : (x : Task) (stage : Stage Task) → wants_mutex stage ≡ true → gets_to x stage ≡ true
awake_gets_to x entering h = refl
awake_gets_to x (woken _) h = refl
awake_gets_to x (waiting _ _) h = absurd cc
awake_gets_to x (running _) h = absurd cc
awake_gets_to x ended h = absurd cc

delay-ends_in_time :
    (now : ℤ) (x : Task)
    → pos 0 <ℤ get_task_delay now x
    → ends_in_time now (get_task_delay now x) x ≡ true
unfolding get_task_delay delay_impl due_time_impl scale quot
delay-ends_in_time now x h = ground (
  arith,
  -ℤ_parts x.due now,
  +ℤ_parts now (scale ticks_per_ms (get_task_delay now x)),
  +ℤ_parts (due_time_impl x) (pos 1),
)

scale_later :
    (a b : ℤ) → a ≤ℤ b → scale ticks_per_ms (a +ℤ pos 1) ≤ℤ scale ticks_per_ms (b +ℤ pos 1)
unfolding scale
scale_later a b h = ground (arith, +ℤ_parts a (pos 1), +ℤ_parts b (pos 1))

ends_in_time-behind :
    (since ms : ℤ) (x y : Task)
    → task_before x y ≡ true
    → ends_in_time since ms x ≡ true
    → ends_in_time since ms y ≡ true
unfolding task_before due_time_impl sequence_id_impl
ends_in_time-behind since ms x y b h =
    ground (arith, scale_later (due_time_impl x) (due_time_impl y))

on_time : Service task_type
on_time = record {
  serves = gets_to;
  awake = awake_gets_to;
  runs = λ x y. refl;
  polls = delay-ends_in_time;
  behind = λ x y stage. gets_to-behind x y stage;
}
  where
    gets_to-behind :
        (x y : Task) (stage : Stage Task)
        → task_before x y ≡ true
        → gets_to x stage ≡ true
        → gets_to y stage ≡ true
    gets_to-behind x y entering b h = refl
    gets_to-behind x y (woken _) b h = refl
    gets_to-behind x y (running _) b h = refl
    gets_to-behind x y (waiting idle since) b h = absurd cc
    gets_to-behind x y (waiting (polling ms) since) b h = ends_in_time-behind since ms x y b h
    gets_to-behind x y (waiting (draining ms) since) b h = ends_in_time-behind since ms x y b h
    gets_to-behind x y ended b h = absurd cc

-- In each state that a pool of the dispatcher can reach, if its queue is open and not empty and it
-- has a thread, then some thread wants the mutex, runs a task, or waits with a limit that ends
-- before the millisecond in which the first task of the queue is due is over. No notification is
-- lost such that all workers sleep past a due time.
pub Reach-on_time :
    (n : ℕ) (now : ℤ) (x : Task) (xs : List Task) {s : System Task}
    → Reach task_type (initial n now) s
    → s.pool.queue.closed ≡ false
    → s.pool.queue.elements ≡ x ∷ xs
    → is_empty s.pool.threads ≡ false
    → any (λ th. gets_to x th.stage) s.pool.threads ≡ true
unfolding on_time
Reach-on_time n now x xs {s} r o e t =
    subst (λ ys. Served on_time ys s.pool.threads) e (Reach-Served on_time n now r o t)
