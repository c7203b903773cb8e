-- ===== src/TaskDispatcher/Life/Settled.antt =====
-- ThreadPoolImpl.hpp: a pool that has done with its tasks, over further steps.
use uni_tasks.Prelude.{
  ℕ, ◌+◌, ◌≡◌, ◌≤◌, refl, ap, Bool, true, not, ◌==◌, List, [], ◌∷◌, count, count-append, arith,
}
use uni_tasks.OrderedSet.{erase_if}
use uni_tasks.Pool.{TaskType}
use uni_tasks.Pool.System.{
  System, pushed, cancel, worked, Step, tick, start, stop, destroy, closes, notifies, joins,
  begin_add, end_add, cancels, turn, wakes, finishes, here, next,
}
use uni_tasks.Pool.System.Parts.{Inv}
use uni_tasks.Pool.System.Closing.{Reach-IsShut}

module _ {ℓ} {A : Type ℓ} (T : TaskType A) where
  -- How many of the tasks that pass a test were run, cancelled or dropped.
  abbrev pub through : (A → Bool) → System A → ℕ
  through f s = count f s.finished + count f s.cancelled + count f s.dropped

  grows : (f : A → Bool) {s t : System A} → Step T s t → through f s ≤ through f t
  unfolding pushed cancel worked
  grows f {s} (tick later le e) = rw e (omega arith)
  grows f {s} (start ids _ e) = rw e (omega arith)
  grows f {s} (stop _ e) = rw e (omega arith)
  grows f {s} (destroy _ e) = rw e (omega arith)
  grows f {s} (closes _ e) = rw e (omega arith)
  grows f {s} (notifies _ e) = rw e (omega arith)
  grows f {s} (joins self ths _ all e) = rw e (omega arith)
  grows f {s} (begin_add x _ e) = rw e (omega arith)
  grows f {s} (end_add choice front x back _ e) = rw e (ground arith)
  grows f {s} (cancels id e) = rw e (
      omega (
        arith,
        count-append f (erase_if (λ t. not (id == T.request_id t)) s.pool.queue.elements)
            s.cancelled,
      ))
  grows f {s} (turn front th back at _ e) = rw e (omega arith)
  grows f {s} (wakes front th back at _ e) = rw e (omega arith)
  grows f {s} (finishes front th back x r stage at _ _ e) = rw e (omega arith)

  -- The queue is closed, and each task that was taken has been run, was cancelled or was dropped.
  pub record Settled (s : System A) : Type ℓ where
    pub shut : s.pool.queue.closed ≡ true
    pub done : (f : A → Bool) → count f s.accepted ≤ through f s

  pub Step-Settled : {s t : System A} → Step T s t → Settled s → Settled t
  Step-Settled {s} {t} st v = record {
    shut = stays.1;
    done = λ f. omega (arith, v.done f, grows f st, ap (count f) stays.0);
  }
    where
      stays : (t.accepted ≡ s.accepted) × (t.pool.queue.closed ≡ true)
      stays = Reach-IsShut T s.accepted (next here st) (refl, v.shut)

  none_left : (xs : List A) → count (λ _. true) xs ≡ 0 → xs ≡ []
  none_left [] h = refl
  none_left (x ∷ xs) h = absurd (omega (arith, h))

  -- Then nothing is pending, and each task has been run, was cancelled or was dropped as often as
  -- it was taken.
  pub Settled-kept :
      {s : System A}
      → Inv T s
      → Settled s
      → (s.pool.queue.elements ≡ []) × ((f : A → Bool) → count f s.accepted ≡ through f s)
  Settled-kept {s} v d = (
    none_left s.pool.queue.elements (omega (arith, v.kept (λ _. true), d.done (λ _. true))),
    λ f. omega (arith, v.kept f, d.done f),
  )
