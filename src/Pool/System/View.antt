-- ===== src/Pool/System/View.antt =====
-- ThreadPoolImpl.hpp: a pool seen as tasks without order, and what leaves that view as it is.
use uni_tasks.Prelude.{
  ℕ, ◌+◌, ◌≡◌, refl, ap, Bool, not, inl, inr, List, [], ◌∷◌, ◌++◌, count, count-append, Bool-cases,
  arith,
}
use uni_tasks.Bag.{of_list, same_bag}
use uni_tasks.Pool.{
  TaskType, Stage, entering, waiting, woken, running, ended, Thread, Pool, start_impl, spawn,
  clear_started,
}
use uni_tasks.Pool.Spec.{Contract, Change, nothing}
use uni_tasks.Pool.System.{System}
use uni_tasks.Pool.System.Stages.{runs, count_running, count_running-append, count_running-spawn}

module _ {ℓ} {A : Type ℓ} where
  -- The tasks that the workers run.
  abbrev pub running_of : Stage A → List A
  running_of (running x) = x ∷ []
  running_of _ = []

  abbrev pub running_tasks : List (Thread A) → List A
  running_tasks [] = []
  running_tasks (th ∷ ths) = running_of th.stage ++ running_tasks ths

  pub count-running_tasks :
      (p : A → Bool) (ths : List (Thread A)) → count p (running_tasks ths) ≡ count_running p ths
  count-running_tasks p [] = refl
  count-running_tasks p (th ∷ ths) = omega (
    arith,
    count-append p (running_of th.stage) (running_tasks ths),
    one th.stage,
    count-running_tasks p ths,
  )
    where
      one : (stage : Stage A) → count p (running_of stage) ≡ runs p stage
      one (running x) = omega arith
      one entering = refl
      one (waiting _ _) = refl
      one (woken _) = refl
      one ended = refl

  pub same_running :
      (ths us : List (Thread A))
      → ((p : A → Bool) → count_running p ths ≡ count_running p us)
      → of_list (running_tasks ths) ≡ of_list (running_tasks us)
  same_running ths us h =
      same_bag (λ p. omega (arith, count-running_tasks p ths, count-running_tasks p us, h p))

  abbrev pub view : System A → Contract A
  view s = record {
    pending = of_list s.pool.queue.elements;
    running = of_list (running_tasks s.pool.threads);
    finished = of_list s.finished;
    cancelled = of_list s.cancelled;
    accepting = not s.pool.queue.closed;
  }

  pub contract_ext :
      {a b : Contract A}
      → a.pending ≡ b.pending
      → a.running ≡ b.running
      → a.finished ≡ b.finished
      → a.cancelled ≡ b.cancelled
      → a.accepting ≡ b.accepting
      → a ≡ b
  contract_ext e f g h k = cc

module _ {ℓ} {A : Type ℓ} (T : TaskType A) where
  open T use {before, request_id, delay, order}

  -- A change of the threads that no task begins or ends with.
  pub quiet :
      (s t : System A)
      → t.pool.queue ≡ s.pool.queue
      → ((p : A → Bool) → count_running p t.pool.threads ≡ count_running p s.pool.threads)
      → t.finished ≡ s.finished
      → t.cancelled ≡ s.cancelled
      → Change T s.now (view s) (view t)
  quiet s t q r f c = nothing (
      contract_ext (ap (λ u. of_list u.elements) q) (same_running t.pool.threads s.pool.threads r)
        (ap of_list f) (ap of_list c) (ap (λ u. not u.closed) q))

  pub start-count :
      (ids : ℕ → ℕ) (p : Pool A) (f : A → Bool)
      → count_running f (start_impl ids p).1.threads ≡ count_running f p.threads
  unfolding start_impl
  start-count ids p f = elim (Bool-cases p.started) [
    | inl e ↦ rw e
    | inr e ↦ rw e (
        omega (
          arith,
          count_running-append f p.threads (spawn p.threads_count ids),
          count_running-spawn f p.threads_count ids,
        ))
  ]

  pub clear_started-count :
      (p : Pool A) (f : A → Bool)
      → count_running f (clear_started p).1.threads ≡ count_running f p.threads
  unfolding clear_started
  clear_started-count p f = elim (Bool-cases p.started) [ inl e ↦ rw e | inr e ↦ rw e ]

  pub replace-count :
      (f : A → Bool) (front : List (Thread A)) (th : Thread A) (back ths : List (Thread A))
      (stage : Stage A)
      → ths ≡ front ++ th ∷ back
      → count_running f (front ++ record th { stage = stage } ∷ back) + runs f th.stage
        ≡ count_running f ths + runs f stage
  replace-count f front th back ths stage at = rw at (
      omega (
        arith,
        count_running-append f front (th ∷ back),
        count_running-append f front (record th { stage = stage } ∷ back),
      ))
