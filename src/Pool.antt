-- ===== src/Pool.antt =====
-- public/uni/concurrency/details/ThreadPoolImpl.hpp: a queue and the threads that take tasks from
-- it. What a thread does is cut where it takes or leaves the queue's mutex.
pub mod Starting
pub mod Calls
pub mod System
pub mod Tasks
pub mod Running
pub mod Spec
use uni_tasks.Prelude.{
  ℕ, zero, suc, ◌-◌, ◌==◌, Bool, true, false, not, ◌&&◌, ◌||◌, Option, some, none, List, [], ◌∷◌,
  ◌++◌, map, any, if◌then◌else◌,
}
use uni_tasks.Prelude.Int.{ℤ}
use uni_tasks.Ids.{RequestId}
use uni_tasks.Errors.{
  Exception, Result, ok, throw, foreign, thread_pool_stopped, logic_error, pool_already_started,
  pool_already_stopped, Call, ◌>>◌, return, raise, modify,
}
use uni_tasks.Order.{StrictWeakOrder}
use uni_tasks.Queue.{Queue, new_queue, Pop, returned, waits, WaitPoint}
use uni_tasks.Queue
use uni_tasks.Queue.Ordered
use mathlib.Core.Option

-- What the templates `ThreadPool< TaskType, TaskCmp >` use of their arguments.
pub record TaskType {ℓ} (A : Type ℓ) : Type ℓ where
  pub before : A → A → Bool
  pub order : StrictWeakOrder before
  pub request_id : A → RequestId
  pub delay : (now : ℤ) → A → ℤ

-- Where a thread of the pool stands in `worker_thread`. `waiting` has the time at which the wait
-- began; `woken` has been notified, or its time is over, and it wants the mutex back.
pub data Stage {ℓ} (A : Type ℓ) : Type ℓ where
  entering : Stage A
  waiting : WaitPoint → (since : ℤ) → Stage A
  woken : WaitPoint → Stage A
  running : A → Stage A
  ended : Stage A

-- A `std::thread` of `m_threads`. Its id names a thread only while it is joinable.
pub record Thread {ℓ} (A : Type ℓ) : Type ℓ where
  pub id : ℕ
  pub joinable : Bool
  pub stage : Stage A

pub record Pool {ℓ} (A : Type ℓ) : Type ℓ where
  pub queue : Queue A
  pub threads_count : ℕ
  pub started : Bool
  pub threads : List (Thread A)

module _ {ℓ} {A : Type ℓ} where
  unfoldable pub new_pool : ℕ → Pool A
  new_pool threads_count = record {
    queue = new_queue;
    threads_count = threads_count;
    started = false;
    threads = [];
  }

  -- `do_start`: `ids` are the ids that the system gives the new threads.
  unfoldable pub spawn : ℕ → (ℕ → ℕ) → List (Thread A)
  spawn zero ids = []
  spawn (suc n) ids =
      record { id = ids 0; joinable = true; stage = entering } ∷ spawn n (λ i. ids (suc i))

  unfoldable pub start_impl : (ℕ → ℕ) → Call (Pool A) (Unit {0})
  unfolding spawn
  start_impl ids p =
      if p.started
      then raise (logic_error pool_already_started) p
      else return tt (record p { started = true; threads = p.threads ++ spawn p.threads_count ids })

  -- `std::condition_variable`: a notification ends the wait of one waiting thread, which the system
  -- picks (`choice`), or of all.
  abbrev pub is_waiting : Stage A → Bool
  is_waiting (waiting _ _) = true
  is_waiting _ = false

  -- The stages in which a worker wants the mutex.
  abbrev pub wants_mutex : Stage A → Bool
  wants_mutex entering = true
  wants_mutex (woken _) = true
  wants_mutex _ = false

  abbrev pub wake : Stage A → Stage A
  wake (waiting point _) = woken point
  wake stage = stage

  unfoldable pub wake_thread : Thread A → Thread A
  wake_thread th = record th { stage = wake th.stage }

  unfoldable pub notify_one : (choice : ℕ) → List (Thread A) → List (Thread A)
  unfolding wake_thread
  notify_one choice [] = []
  notify_one choice (th ∷ ths) =
      let next = th ∷ notify_one (choice - 1) ths in
      let passed = th ∷ notify_one choice ths in
      if is_waiting th.stage
      then (if choice == 0 || not (any (λ u. is_waiting u.stage) ths)
          then wake_thread th ∷ ths
          else next)
      else passed

  -- The notification of a `push` that did not throw.
  unfoldable pub notified : (choice : ℕ) → Result (Unit {0}) → List (Thread A) → List (Thread A)
  unfolding notify_one
  notified choice (ok _) ths = notify_one choice ths
  notified choice (throw _) ths = ths

  unfoldable pub notify_all : List (Thread A) → List (Thread A)
  unfolding wake_thread
  notify_all = map wake_thread

  unfoldable pub throw_if_stopped : Call (Pool A) (Unit {0})
  throw_if_stopped p = if p.started then return tt p else raise thread_pool_stopped p

  -- `Queue::close` marks the queue under its mutex, and notifies when it has freed it.
  unfoldable pub close_queue : Pool A → Pool A
  unfolding Queue.close
  close_queue p = record p { queue = Queue.close p.queue }

  unfoldable pub wake_all : Pool A → Pool A
  unfolding notify_all
  wake_all p = record p { threads = notify_all p.threads }

  unfoldable pub close : Pool A → Pool A
  unfolding close_queue wake_all
  close p = wake_all (close_queue p)

  -- `stop_impl` up to `do_stop`.
  unfoldable pub clear_started : Call (Pool A) (Unit {0})
  clear_started p =
      if p.started
      then return tt (record p { started = false })
      else raise (logic_error pool_already_stopped) p

  -- `stop_impl` up to `join`, when no other thread comes in between.
  unfoldable pub begin_stop : Call (Pool A) (Unit {0})
  unfolding clear_started close
  begin_stop = clear_started >> modify close

  abbrev pub has_ended : Stage A → Bool
  has_ended ended = true
  has_ended _ = false

  -- `join`, called by the thread `self`: `none` as long as a thread has not ended. A thread that
  -- would join itself is skipped, since the exception that this throws is caught.
  unfoldable pub join : (self : ℕ) → List (Thread A) → Option (List (Thread A))
  join self [] = some []
  join self (th ∷ ths) =
      let rest = join self ths in
      if not th.joinable || th.id == self
      then Option.map (λ us. th ∷ us) rest
      else (if has_ended th.stage
          then Option.map (λ us. record th { joinable = false } ∷ us) rest
          else none)

  unfoldable pub on_one_of_threads_impl : (self : ℕ) → Pool A → Bool
  on_one_of_threads_impl self p = any (λ th. th.joinable && self == th.id) p.threads

  -- Where `wait_pop` leaves a worker: without a task it returns.
  abbrev pub stage_after : (now : ℤ) → Pop A → Stage A
  stage_after now (returned none) = ended
  stage_after now (returned (some x)) = running x
  stage_after now (waits point) = waiting point now

module _ {ℓ} {A : Type ℓ} (T : TaskType A) where
  open T use {before, request_id, delay}

  -- `m_queue.push`, with the notification that it makes if it does not throw.
  unfoldable pub push_task : (choice : ℕ) → A → Call (Pool A) (Unit {0})
  unfolding notified Ordered.push
  push_task choice x p =
      let (result, q) = Ordered.push before x p.queue in
      (result, record p { queue = q; threads = notified choice result p.threads })

  unfoldable pub add_task_impl : (choice : ℕ) → A → Call (Pool A) (Unit {0})
  unfolding throw_if_stopped push_task
  add_task_impl choice x = throw_if_stopped >> push_task choice x

  unfoldable pub cancel_pending_impl : RequestId → Pool A → Bool × Pool A
  unfolding Ordered.remove
  cancel_pending_impl id p =
      let (removed, q) = Ordered.remove (λ t. id == request_id t) p.queue in
      (removed, record p { queue = q })

  -- `worker_thread` from the moment when it takes the mutex to the moment when it frees it.
  unfoldable pub take_turn : (now : ℤ) → Stage A → Queue A → Stage A × Queue A
  unfolding Ordered.wait_pop Ordered.resume
  take_turn now entering q =
      let (pop, q') = Ordered.wait_pop (delay now) q in (stage_after now pop, q')
  take_turn now (woken point) q =
      let (pop, q') = Ordered.resume (delay now) point q in (stage_after now pop, q')
  take_turn now stage q = (stage, q)

-- `worker_thread` after `task.run()`: an exception derived from `std::exception` is caught and the
-- loop goes on. Any other leaves the thread's function, which ends the program: `none`.
unfoldable pub after_run {ℓ} : {A : Type ℓ} → Result (Unit {0}) → Option (Stage A)
after_run (throw (foreign _)) = none
after_run _ = some entering
