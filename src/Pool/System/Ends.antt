-- ===== src/Pool/System/Ends.antt =====
-- ThreadPoolImpl.hpp: one worker with a closed queue, to its end.
use uni_tasks.Prelude.{ℕ, ◌≡◌, refl, Bool, true, false, List, [], ◌∷◌, ◌++◌}
use uni_tasks.Prelude.Int.{ℤ}
use uni_tasks.Queue.{Queue, idle, polling, draining, is_empty, is_not_empty_or_closed}
use uni_tasks.Queue.Ordered.{poll_loop, drain_loop}
use uni_tasks.Pool.{
  TaskType, Stage, entering, waiting, woken, running, ended, has_ended, wants_mutex, Thread,
  take_turn,
}
use uni_tasks.Pool.System.{System, Control, worked}
use uni_tasks.Pool.System.Stages.{IsSound}
use uni_tasks.Pool.System.Dozing.{IsUp}
use uni_tasks.Pool.System.Work.{takes_turn, Works, done, then}
use uni_tasks.Pool.System.Drains
use uni_tasks.Pool.System.Drains.{queue_with, ComesDue, empties}

module _ {ℓ} {A : Type ℓ} (T : TaskType A) where
  abbrev pub shut_queue : List A → Queue A
  shut_queue xs = queue_with T true xs

  turn_empty :
      (now : ℤ) (stage : Stage A)
      → wants_mutex stage ≡ true
      → take_turn T now stage (shut_queue []) ≡ (ended, shut_queue [])
  unfolding take_turn poll_loop drain_loop is_not_empty_or_closed is_empty
  turn_empty now entering w = refl
  turn_empty now (woken idle) w = refl
  turn_empty now (woken (polling _)) w = refl
  turn_empty now (woken (draining _)) w = refl
  turn_empty now (waiting _ _) w = cc
  turn_empty now (running _) w = cc
  turn_empty now ended w = cc

  module _ (come_due : ComesDue T) (threads_count : ℕ) (started : Bool) (control : Control)
      (adding accepted dropped cancelled : List A) where
    abbrev pub state : (pending finished : List A) → ℤ → List (Thread A) → System A
    state =
        Drains.state T come_due true threads_count started control adding accepted dropped cancelled

    module _ (front : List (Thread A)) (th : Thread A) (back : List (Thread A)) where
      abbrev at : Stage A → List (Thread A)
      at stage = front ++ record th { stage = stage } ∷ back

      -- From a stage of the one thread, its own steps lead to its end, and empty the queue.
      abbrev pub Ends : List A → List A → ℤ → Stage A → Type ℓ
      Ends pending finished now stage =
          (finished' : List A) × (now' : ℤ) × Works T (state pending finished now (at stage))
            (state [] finished' now' (at ended))

      still_on :
          (pending finished : List A) (now : ℤ) (stage : Stage A)
          → IsUp stage
          → has_ended stage ≡ false
          → Ends pending finished now stage
      unfolding worked
      still_on pending finished now stage up on =
          let (finished', now', stage', w, wants) =
            empties T come_due true threads_count started control adding accepted dropped cancelled
              front th back pending finished now stage up on in
          (
            finished',
            now',
            then w (
                takes_turn front (record th { stage = stage' }) back refl wants
                  (rw (turn_empty now' stage' wants) refl)),
          )

      pub comes_to_end :
          (pending finished : List A) (now : ℤ) (stage : Stage A)
          → IsUp stage
          → IsSound (shut_queue pending) stage
          → Ends pending finished now stage
      unfolding is_empty
      comes_to_end [] finished now ended up sound = (finished, now, done)
      comes_to_end (x ∷ xs) finished now ended up sound = absurd cc
      comes_to_end pending finished now entering up sound =
          still_on pending finished now entering up refl
      comes_to_end pending finished now (woken point) up sound =
          still_on pending finished now (woken point) up refl
      comes_to_end pending finished now (waiting point since) up sound =
          still_on pending finished now (waiting point since) up refl
      comes_to_end pending finished now (running x) up sound =
          still_on pending finished now (running x) up refl
