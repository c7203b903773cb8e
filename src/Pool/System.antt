-- ===== src/Pool/System.antt =====
-- A thread pool among its clients: one step is what one thread does while it holds the queue's
-- mutex, or outside it. Any number of clients and workers take their steps in any order.
pub mod Stages
pub mod Turn
pub mod Parts
pub mod Invariant
pub mod Drained
pub mod Closing
pub mod Progress
pub mod Dropped
pub mod Futures
pub mod Dozing
pub mod Serving
pub mod Served
pub mod OnTime
pub mod Awake
pub mod Work
pub mod Drains
pub mod Ends
pub mod Stop
pub mod Finishes
pub mod Cancelled
pub mod View
pub mod Refines
use uni_tasks.Prelude.{
  ℕ, ◌≡◌, Bool, true, false, not, ◌&&◌, ◌==◌, Option, some, none, List, [], ◌∷◌, ◌++◌,
  if◌then◌else◌,
}
use uni_tasks.Prelude.Int.{ℤ, ◌≤ℤ◌}
use uni_tasks.Ids.{RequestId}
use uni_tasks.Errors.{Result, ok, throw}
use uni_tasks.OrderedSet.{contains, erase_if}
use uni_tasks.Pool.{
  TaskType, Stage, entering, woken, waiting, running, wake_thread, is_waiting, wants_mutex, Thread,
  Pool, new_pool, start_impl, throw_if_stopped, push_task, clear_started, close_queue, wake_all,
  join, cancel_pending_impl, take_turn, after_run,
}

-- How far a call of `stop` or the destructor has come. Calls of `start` and `stop` do not overlap:
-- their test of `m_started` and its change are two accesses.
pub data Control : Type 0 where
  free : Control
  closing : Control  -- `m_started` is false
  notifying : Control  -- the queue is closed
  joining : Control

-- Beside the pool: the time, the calls of `add_task` that have passed their test and have not yet
-- pushed, and what became of each task that `add_task` took.
pub record System {ℓ} (A : Type ℓ) : Type ℓ where
  pub pool : Pool A
  pub now : ℤ
  pub control : Control
  pub adding : List A
  pub accepted : List A
  pub dropped : List A  -- an equivalent task was in the set
  pub cancelled : List A
  pub finished : List A

module _ {ℓ} {A : Type ℓ} where
  abbrev pub initial : ℕ → ℤ → System A
  initial threads_count now = record {
    pool = new_pool threads_count;
    now = now;
    control = free;
    adding = [];
    accepted = [];
    dropped = [];
    cancelled = [];
    finished = [];
  }

  -- The pool with the thread between `front` and `back` at another stage.
  abbrev pub with_thread : List (Thread A) → Thread A → List (Thread A) → Stage A → Pool A → Pool A
  with_thread front th back stage p = record p {
    threads = front ++ record th { stage = stage } ∷ back;
  }

module _ {ℓ} {A : Type ℓ} (T : TaskType A) where
  open T use {before, request_id}

  -- The end of a call of `add_task` for `x`; the other calls go on.
  unfoldable pub pushed : (choice : ℕ) → A → List A → System A → System A
  pushed choice x others s = record s {
    pool = (push_task T choice x s.pool).1;
    adding = others;
    accepted = if s.pool.queue.closed then s.accepted else x ∷ s.accepted;
    dropped =
        if not s.pool.queue.closed && contains before x s.pool.queue.elements
        then x ∷ s.dropped
        else s.dropped;
  }

  unfoldable pub cancel : RequestId → System A → System A
  cancel id s = record s {
    pool = (cancel_pending_impl T id s.pool).1;
    cancelled = erase_if (λ t. not (id == request_id t)) s.pool.queue.elements ++ s.cancelled;
  }

  unfoldable pub worked : List (Thread A) → Thread A → List (Thread A) → System A → System A
  worked front th back s =
      let (stage, q) = take_turn T s.now th.stage s.pool.queue in
      record s { pool = with_thread front th back stage (record s.pool { queue = q }) }

  pub data Step (s t : System A) : Type ℓ where
    tick : (later : ℤ) → s.now ≤ℤ later → t ≡ record s { now = later } → Step s t
    start :
        (ids : ℕ → ℕ)
        → s.control ≡ free
        → t ≡ record s { pool = (start_impl ids s.pool).1 }
        → Step s t
    stop :
        s.control ≡ free
        → t ≡ record s {
          pool = (clear_started s.pool).1;
          control = if s.pool.started then closing else free;
        }
        → Step s t
    destroy : s.control ≡ free → t ≡ record s { control = closing } → Step s t
    closes :
        s.control ≡ closing
        → t ≡ record s { pool = close_queue s.pool; control = notifying }
        → Step s t
    notifies :
        s.control ≡ notifying
        → t ≡ record s { pool = wake_all s.pool; control = joining }
        → Step s t
    joins :
        (self : ℕ) (ths : List (Thread A))
        → s.control ≡ joining
        → join self s.pool.threads ≡ some ths
        → t ≡ record s { pool = record s.pool { threads = ths }; control = free }
        → Step s t
    begin_add :
        (x : A)
        → (throw_if_stopped s.pool).0 ≡ ok tt
        → t ≡ record s { adding = x ∷ s.adding }
        → Step s t
    end_add :
        (choice : ℕ) (front : List A) (x : A) (back : List A)
        → s.adding ≡ front ++ x ∷ back
        → t ≡ pushed choice x (front ++ back) s
        → Step s t
    cancels : (id : RequestId) → t ≡ cancel id s → Step s t
    turn :
        (front : List (Thread A)) (th : Thread A) (back : List (Thread A))
        → s.pool.threads ≡ front ++ th ∷ back
        → wants_mutex th.stage ≡ true
        → t ≡ worked front th back s
        → Step s t
    -- The time of a wait is over, or it ends for no reason.
    wakes :
        (front : List (Thread A)) (th : Thread A) (back : List (Thread A))
        → s.pool.threads ≡ front ++ th ∷ back
        → is_waiting th.stage ≡ true
        → t ≡ record s { pool = record s.pool { threads = front ++ wake_thread th ∷ back } }
        → Step s t
    finishes :
        (front : List (Thread A)) (th : Thread A) (back : List (Thread A)) (x : A)
        (r : Result (Unit {0})) (stage : Stage A)
        → s.pool.threads ≡ front ++ th ∷ back
        → th.stage ≡ running x
        → after_run r ≡ some stage
        → t ≡ record s { pool = with_thread front th back stage s.pool; finished = x ∷ s.finished }
        → Step s t

  pub data Reach (s : System A) : System A → Type ℓ where
    here : Reach s s
    next : {t u : System A} → Reach s t → Step t u → Reach s u
