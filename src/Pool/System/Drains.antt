-- ===== src/Pool/System/Drains.antt =====
-- ThreadPoolImpl.hpp: one worker and the pending tasks, with a queue that is open or closed.
use uni_tasks.Prelude.{
  ℕ, ◌≡◌, refl, Bool, true, false, List, [], ◌∷◌, ◌++◌, Bool-cases, inl, inr, arith,
}
use uni_tasks.Prelude.Int.{ℤ, ◌≤ℤ◌, ◌+ℤ◌, scale, leb_ℤ}
use uni_tasks.Errors.{ok}
use uni_tasks.Tasks.{ticks_per_ms}
use uni_tasks.Queue.{Queue, WaitPoint, idle, polling, draining, is_empty, is_not_empty_or_closed}
use uni_tasks.Queue.Ordered.{poll_loop, drain_loop, extract_or_wait}
use uni_tasks.Pool.{
  TaskType, Stage, entering, waiting, woken, running, ended, has_ended, wants_mutex, Thread,
  take_turn, after_run,
}
use uni_tasks.Pool.System.{System, Control, worked}
use uni_tasks.Pool.System.Dozing.{IsUp}
use uni_tasks.Pool.System.Progress.{IsDue}
use uni_tasks.Pool.System.Work.{
  IsOver, passes, takes_turn, times_out, comes_back, Works, done, then, Works-trans,
}

-- A time from which on two times are past.
pub later_than : (now a : ℤ) → (later : ℤ) × (now ≤ℤ later) × (a ≤ℤ later)
later_than now a = elim (Bool-cases (leb_ℤ now a)) [
  | inl h ↦ (a, ground arith, omega arith)
  | inr h ↦ (now, omega arith, ground arith)
]

module _ {ℓ} {A : Type ℓ} (T : TaskType A) where
  open T use {delay}

  abbrev pub queue_with : Bool → List A → Queue A
  queue_with closed xs = record { elements = xs; closed = closed }

  -- A worker that comes from anywhere takes the first task, if that is due.
  turn_due :
      (now : ℤ) (closed : Bool) (stage : Stage A) (x : A) (xs : List A)
      → wants_mutex stage ≡ true
      → IsDue T now x
      → take_turn T now stage (queue_with closed (x ∷ xs)) ≡ (running x, queue_with closed xs)
  unfolding take_turn poll_loop drain_loop extract_or_wait is_not_empty_or_closed is_empty
  turn_due now true entering x xs w due = rw due
  turn_due now false entering x xs w due = rw due
  turn_due now true (woken idle) x xs w due = rw due
  turn_due now false (woken idle) x xs w due = rw due
  turn_due now true (woken (polling _)) x xs w due = rw due
  turn_due now false (woken (polling _)) x xs w due = rw due
  turn_due now closed (woken (draining _)) x xs w due = rw due
  turn_due now closed (waiting _ _) x xs w due = cc
  turn_due now closed (running _) x xs w due = cc
  turn_due now closed ended x xs w due = cc

  -- Every task becomes due, and is due from then on.
  abbrev pub ComesDue : Type ℓ
  ComesDue = (now : ℤ) (x : A) → (later : ℤ) × (now ≤ℤ later) × IsDue T later x

  module _ (come_due : ComesDue) (closed : Bool) (threads_count : ℕ) (started : Bool)
      (control : Control) (adding accepted dropped cancelled : List A) where
    abbrev pub state : (pending finished : List A) → ℤ → List (Thread A) → System A
    state pending finished now threads = record {
      pool = record {
        queue = queue_with closed pending;
        threads_count = threads_count;
        started = started;
        threads = threads;
      };
      now = now;
      control = control;
      adding = adding;
      accepted = accepted;
      dropped = dropped;
      cancelled = cancelled;
      finished = finished;
    }

    module _ (front : List (Thread A)) (th : Thread A) (back : List (Thread A)) where
      abbrev pub at : Stage A → List (Thread A)
      at stage = front ++ record th { stage = stage } ∷ back

      -- From a stage of the one thread, its own steps empty the queue, and it wants the mutex again.
      abbrev pub Empties : List A → List A → ℤ → Stage A → Type ℓ
      Empties pending finished now stage =
          (finished' : List A) × (now' : ℤ) × (stage' : Stage A) × Works T
            (state pending finished now (at stage)) (state [] finished' now' (at stage'))
          × (wants_mutex stage' ≡ true)

      before_empty :
          (pending pending' finished finished' : List A) (now now' : ℤ) (stage stage' : Stage A)
          → Works T
              (state pending finished now (at stage))
              (state pending' finished' now' (at stage'))
          → Empties pending' finished' now' stage'
          → Empties pending finished now stage
      before_empty pending pending' finished finished' now now' stage stage' w (f, n, u, rest, h) =
          (f, n, u, Works-trans T w rest, h)

      pub run_one :
          (x : A) (pending finished : List A) (now : ℤ)
          → Works T
              (state pending finished now (at (running x)))
              (state pending (x ∷ finished) now (at entering))
      unfolding after_run
      run_one x pending finished now = then done (
          comes_back front (record th { stage = running x }) back x (ok tt) entering refl refl refl
            refl)

      works_off :
          (pending finished : List A) (now : ℤ) (stage : Stage A)
          → wants_mutex stage ≡ true
          → Empties pending finished now stage
      unfolding worked
      works_off [] finished now stage wants = (finished, now, stage, done, wants)
      works_off (x ∷ xs) finished now stage wants =
          let (later, le, due) = come_due now x in
          before_empty (x ∷ xs) xs finished (x ∷ finished) now later stage entering
            (Works-trans T
              (then (then done (passes later le refl)) (
                takes_turn front (record th { stage = stage }) back refl wants
                  (rw (turn_due later closed stage x xs wants due) refl)))
              (run_one x xs finished later))
            (works_off xs (x ∷ finished) later entering refl)

      wait_over :
          (pending finished : List A) (now since delay' : ℤ) (point : WaitPoint)
          → ((t : ℤ) → since +ℤ scale ticks_per_ms delay' ≤ℤ t → IsOver point since t)
          → Empties pending finished now (waiting point since)
      wait_over pending finished now since delay' point over =
          let (later, le, past) = later_than now (since +ℤ scale ticks_per_ms delay') in
          before_empty pending pending finished finished now later (waiting point since)
            (woken point)
            (then (then done (passes later le refl)) (
              times_out front (record th { stage = waiting point since }) back point since refl refl
                (over later past) refl))
            (works_off pending finished later (woken point) refl)

      pub empties :
          (pending finished : List A) (now : ℤ) (stage : Stage A)
          → IsUp stage
          → has_ended stage ≡ false
          → Empties pending finished now stage
      empties pending finished now entering up on = works_off pending finished now entering refl
      empties pending finished now (woken point) up on =
          works_off pending finished now (woken point) refl
      empties pending finished now (waiting idle since) up on = absurd cc
      empties pending finished now (waiting (polling d) since) up on =
          wait_over pending finished now since d (polling d) (λ t h. h)
      empties pending finished now (waiting (draining d) since) up on =
          wait_over pending finished now since d (draining d) (λ t h. h)
      empties pending finished now (running x) up on =
          before_empty pending pending finished (x ∷ finished) now now (running x) entering
            (run_one x pending finished now) (works_off pending (x ∷ finished) now entering refl)
      empties pending finished now ended up on = absurd cc
