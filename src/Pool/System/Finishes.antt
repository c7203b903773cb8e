-- ===== src/Pool/System/Finishes.antt =====
-- ThreadPoolImpl.hpp with the notifications of Queue.hpp: what becomes of the tasks of an open pool.
use uni_tasks.Prelude.{
  ℕ, ◌+◌, ◌≡◌, refl, sym, ap, subst, Bool, true, false, List, [], ◌∷◌, ◌++◌, any, count, Bool-cases,
  inl, inr, arith,
}
use mathlib.Core.List.{append_assoc}
use uni_tasks.Prelude.Int.{ℤ}
use uni_tasks.Tasks.{Task}
use uni_tasks.Queue.{idle, polling, draining, is_empty}
use uni_tasks.Pool.{Stage, entering, waiting, woken, running, ended, has_ended, Thread}
use uni_tasks.Pool.Tasks.{task_type}
use uni_tasks.Pool.System.{System, Control, initial, Reach}
use uni_tasks.Pool.System.Stages.{count_running, runs}
use uni_tasks.Pool.System.Invariant.{Reach-initial-Inv}
use uni_tasks.Pool.System.Dozing.{IsUp}
use uni_tasks.Pool.System.Progress.{Reach-trans}
use uni_tasks.Pool.System.Work.{Works, done, Works-trans, Works-Reach}
use uni_tasks.Pool.System.Drains.{queue_with, state, run_one, empties}
use uni_tasks.Pool.System.OnTime.{gets_to, Reach-on_time}
use uni_tasks.Pool.System.Stop.{task_type-ComesDue}

-- A list with an element that passes a test, taken apart there.
split_at_any {ℓ} :
    {A : Type ℓ} (p : A → Bool) (xs : List A)
    → any p xs ≡ true
    → (front : List A) × (x : A) × (back : List A) × (xs ≡ front ++ x ∷ back) × (p x ≡ true)
split_at_any p [] h = absurd cc
split_at_any p (x ∷ xs) h = elim (Bool-cases (p x)) [
  | inl here ↦ ([], x, xs, refl, here)
  | inr there ↦
      let (front, y, back, e, passes) = split_at_any p xs (ground arith) in
      (x ∷ front, y, back, ap (λ ys. x ∷ ys) e, passes)
]

gets_to-IsUp : (x : Task) (stage : Stage Task) → gets_to x stage ≡ true → IsUp stage
gets_to-IsUp x entering h = refl
gets_to-IsUp x (woken _) h = refl
gets_to-IsUp x (waiting idle _) h = absurd cc
gets_to-IsUp x (waiting (polling _) _) h = refl
gets_to-IsUp x (waiting (draining _) _) h = refl
gets_to-IsUp x (running _) h = refl
gets_to-IsUp x ended h = refl

gets_to-alive : (x : Task) (stage : Stage Task) → gets_to x stage ≡ true → has_ended stage ≡ false
gets_to-alive x ended h = absurd cc
gets_to-alive x _ h = refl

module _ (threads_count : ℕ) (started : Bool) (control : Control)
    (adding accepted dropped cancelled : List Task) where
  abbrev open_state : (pending finished : List Task) → ℤ → List (Thread Task) → System Task
  open_state =
      state task_type task_type-ComesDue false threads_count started control adding accepted dropped
        cancelled

  -- A task that a thread runs comes back.
  thread_returns :
      (front : List (Thread Task)) (th : Thread Task) (back : List (Thread Task))
      (pending finished : List Task) (now : ℤ) (stage : Stage Task)
      → (stage' : Stage Task) × (finished' : List Task) × Works task_type
          (open_state pending finished now (front ++ record th { stage = stage } ∷ back))
          (open_state pending finished' now (front ++ record th { stage = stage' } ∷ back))
        × ((f : Task → Bool) → runs f stage' ≡ 0)
  thread_returns front th back pending finished now (running x) = (
    entering,
    x ∷ finished,
    run_one task_type task_type-ComesDue false threads_count started control adding accepted dropped
        cancelled front th back x pending finished now,
    λ f. refl,
  )
  thread_returns front th back pending finished now entering = (entering, finished, done, λ f. refl)
  thread_returns front th back pending finished now (waiting point since) =
      (waiting point since, finished, done, λ f. refl)
  thread_returns front th back pending finished now (woken point) =
      (woken point, finished, done, λ f. refl)
  thread_returns front th back pending finished now ended = (ended, finished, done, λ f. refl)

  -- All running tasks come back, one thread after the other.
  threads_return :
      (front ths : List (Thread Task)) (pending finished : List Task) (now : ℤ)
      → (ths' : List (Thread Task)) × (finished' : List Task) × Works task_type
          (open_state pending finished now (front ++ ths))
          (open_state pending finished' now (front ++ ths'))
        × ((f : Task → Bool) → count_running f ths' ≡ 0)
  threads_return front [] pending finished now = ([], finished, done, λ f. refl)
  threads_return front (th ∷ ths) pending finished now =
      let (stage, finished₁, w, first_idle) =
        thread_returns front th ths pending finished now th.stage in
      let first : Thread Task = record th { stage = stage } in
      let (ths', finished', v, others_idle) =
        threads_return (front ++ first ∷ []) ths pending finished₁ now in
      (
        first ∷ ths',
        finished',
        Works-trans task_type w (
            subst
              (λ us.
                Works task_type (open_state pending finished₁ now us)
                  (open_state pending finished' now (front ++ first ∷ ths')))
              (append_assoc front (first ∷ []) ths)
              (subst
                (λ us.
                  Works task_type (open_state pending finished₁ now ((front ++ first ∷ []) ++ ths))
                    (open_state pending finished' now us))
                (append_assoc front (first ∷ []) ths') v)),
        λ f. omega (arith, first_idle f, others_idle f),
      )

  -- The pending tasks are run, one after the other, by a thread that gets to the first of them.
  pending_run :
      (threads : List (Thread Task)) (pending finished : List Task) (now : ℤ)
      → ((x : Task) (xs : List Task)
          → pending ≡ x ∷ xs
          → any (λ th. gets_to x th.stage) threads ≡ true)
      → (threads' : List (Thread Task)) × (finished' : List Task) × (now' : ℤ) × Works task_type
          (open_state pending finished now threads)
          (open_state [] finished' now' threads')
  pending_run threads [] finished now serves = (threads, finished, now, done)
  pending_run threads (x ∷ xs) finished now serves =
      let (front, th, back, e, gets) =
        split_at_any (λ th. gets_to x th.stage) threads (serves x xs refl) in
      let (finished', now', stage, w, _) =
        empties task_type task_type-ComesDue false threads_count started control adding accepted
          dropped cancelled front th back (x ∷ xs) finished now th.stage
          (gets_to-IsUp x th.stage gets) (gets_to-alive x th.stage gets) in
      (
        front ++ record th { stage = stage } ∷ back,
        finished',
        now',
        subst
            (λ us.
              Works task_type (open_state (x ∷ xs) finished now us)
                (open_state [] finished' now' (front ++ record th { stage = stage } ∷ back)))
            (sym e) w,
      )

-- What is pending or runs is done, and nothing else is changed.
pub record AllRun (s t : System Task) : Type 0 where
  pub same_accepted : t.accepted ≡ s.accepted
  pub same_cancelled : t.cancelled ≡ s.cancelled
  pub same_dropped : t.dropped ≡ s.dropped
  pub empty : t.pool.queue.elements ≡ []
  pub done :
      (f : Task → Bool)
      → count f t.accepted ≡ count f t.finished + count f t.cancelled + count f t.dropped

open_system :
    (s : System Task)
    → s.pool.queue.closed ≡ false
    → s ≡ record s {
      pool = record s.pool { queue = queue_with task_type false s.pool.queue.elements };
    }
open_system s c =
    ap (λ b. record s { pool = record s.pool { queue = record s.pool.queue { closed = b } } }) c

-- If a pool of the dispatcher is in a state that it can reach, its queue is open and it has a
-- thread, then the workers' own steps, without a call of a client and without a wait that ends
-- early, lead to a state in which nothing is pending and each task that the pool took has been
-- run, if it was not cancelled or dropped: as often as it was taken, provided that the running
-- tasks come back.
pub Reach-AllRun :
    (n : ℕ) (now : ℤ) {s : System Task}
    → Reach task_type (initial n now) s
    → s.pool.queue.closed ≡ false
    → is_empty s.pool.threads ≡ false
    → (t : System Task) × Works task_type s t × AllRun s t
Reach-AllRun n now {s} r o some_thread =
    let (threads₁, finished₁, now₁, w) =
      pending_run s.pool.threads_count s.pool.started s.control s.adding s.accepted s.dropped
        s.cancelled s.pool.threads s.pool.queue.elements s.finished s.now
        (λ x xs e. Reach-on_time n now x xs r o e some_thread) in
    let (threads₂, finished₂, v, idle_now) =
      threads_return s.pool.threads_count s.pool.started s.control s.adding s.accepted s.dropped
        s.cancelled [] threads₁ [] finished₁ now₁ in
    let last =
      open_state s.pool.threads_count s.pool.started s.control s.adding s.accepted s.dropped
        s.cancelled [] finished₂ now₁ threads₂ in
    let works : Works task_type s last =
      subst (λ u. Works task_type u last) (sym (open_system s o)) (Works-trans task_type w v) in
    (
      last,
      works,
      record {
        same_accepted = refl;
        same_cancelled = refl;
        same_dropped = refl;
        empty = refl;
        done = λ f. omega (
          arith,
          idle_now f,
          (Reach-initial-Inv task_type n now
                (Reach-trans task_type r (Works-Reach task_type works))).kept
              f,
        );
      },
    )
