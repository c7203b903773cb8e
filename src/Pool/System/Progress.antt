-- ===== src/Pool/System/Progress.antt =====
-- ThreadPoolImpl.hpp: one worker alone with a closed queue.
use uni_tasks.Prelude.{ℕ, ◌≡◌, refl, Bool, true, List, [], ◌∷◌, ◌++◌, All}
use uni_tasks.Prelude.Int.{ℤ, pos, leb_ℤ}
use uni_tasks.Errors.{ok}
use uni_tasks.Queue.Ordered.{poll_loop, extract_or_wait, drain_loop}
use uni_tasks.Pool.{TaskType, Stage, entering, running, ended, Thread, take_turn, after_run}
use uni_tasks.Pool.System.{System, Control, worked, turn, finishes, Reach, here, next}

module _ {ℓ} {A : Type ℓ} (T : TaskType A) where
  open T use {delay}

  pub Reach-trans : {s t u : System A} → Reach T s t → Reach T t u → Reach T s u
  Reach-trans r here = r
  Reach-trans r (next q st) = next (Reach-trans r q) st

  -- A task is due.
  abbrev pub IsDue : ℤ → A → Type 0
  IsDue now x = leb_ℤ (delay now x) (pos 0) ≡ true

  module _ (threads_count : ℕ) (started joinable : Bool) (id : ℕ) (front back : List (Thread A))
      (now : ℤ) (control : Control) (adding accepted dropped cancelled : List A) where
    -- A system whose queue is closed and holds `pending`, with a thread at `stage`.
    abbrev pub shut_with : (pending finished : List A) → Stage A → System A
    shut_with pending finished stage = record {
      pool = record {
        queue = record { elements = pending; closed = true };
        threads_count = threads_count;
        started = started;
        threads = front ++ record { id = id; joinable = joinable; stage = stage } ∷ back;
      };
      now = now;
      control = control;
      adding = adding;
      accepted = accepted;
      dropped = dropped;
      cancelled = cancelled;
      finished = finished;
    }

    abbrev thread : Stage A → Thread A
    thread stage = record { id = id; joinable = joinable; stage = stage }

    -- The tasks of the queue, run one after the other before the ones of the second list.
    abbrev pub run_in_order : List A → List A → List A
    run_in_order [] finished = finished
    run_in_order (x ∷ xs) finished = run_in_order xs (x ∷ finished)

    -- If all pending tasks of a closed queue are due and a worker enters its loop, then steps of
    -- this worker alone lead to the state in which it has run all of them, in the order of the
    -- queue, and has ended.
    pub drains :
        (pending finished : List A)
        → All (IsDue now) pending
        → Reach T
            (shut_with pending finished entering)
            (shut_with [] (run_in_order pending finished) ended)
    unfolding worked take_turn after_run poll_loop drain_loop extract_or_wait
    drains [] finished due = next here (turn front (thread entering) back refl refl refl)
    drains (x ∷ xs) finished due =
        Reach-trans
          (next (next here (turn front (thread entering) back refl refl (rw due.0)))
            (finishes front (thread (running x)) back x (ok tt) entering refl refl refl refl))
          (drains xs (x ∷ finished) due.1)
