-- ===== src/Pool/System/Cancelled.antt =====
-- ThreadPoolImpl.hpp: the tasks of a request after `cancel_pending`.
use uni_tasks.Prelude.{
  ℕ, ◌+◌, ◌==◌, ◌≡◌, refl, sym, ap, subst, Bool, true, false, bit, List, ◌∷◌, ◌++◌, count,
  count-append, All-append_right, Bool-cases, inl, inr, arith,
}
use uni_tasks.Prelude.Int.{ℤ}
use uni_tasks.Ids.{RequestId}
use uni_tasks.OrderedSet.{erase_if}
use uni_tasks.OrderedSet.Contents.{count-insert, count-erase_if-not, count-erase_if_self}
use uni_tasks.Queue.{throw_if_closed}
use uni_tasks.Queue.Ordered.{push}
use uni_tasks.Queue.Ordered.Remove.{remove_loop-erase_if}
use uni_tasks.Pool.{
  TaskType, running, wants_mutex, Thread, push_task, close_queue, wake_all, cancel_pending_impl,
  take_turn,
}
use uni_tasks.Pool.System.{
  System, initial, pushed, cancel, worked, Step, tick, start, stop, destroy, closes, notifies,
  joins, begin_add, end_add, cancels, turn, wakes, finishes, Reach, next,
}
use uni_tasks.Pool.System.Stages.{IsSound, Everywhere, runs}
use uni_tasks.Pool.System.Turn.{take_turn-GoodTurn, GoodTurn}
use uni_tasks.Pool.System.Parts.{Inv}
use uni_tasks.Pool.System.Invariant.{Step-Inv, Reach-initial-Inv}
use uni_tasks.Pool.System.Closing.{start-queue, clear_started-queue}

module _ {ℓ} {A : Type ℓ} (T : TaskType A) (id : RequestId) where
  open T use {before, order, request_id}

  abbrev pub of_request : A → Bool
  of_request x = id == request_id x

  -- No call of `add_task` for a task of the request begins in the step.
  abbrev pub Avoids : {s t : System A} → Step T s t → Type 0
  Avoids (begin_add x _ _) = of_request x ≡ false
  Avoids _ = Unit

  pub data Goes (s : System A) : System A → Type ℓ where
    stays : Goes s s
    goes : {t u : System A} → Goes s t → (st : Step T t u) → Avoids st → Goes s u

  -- No task of the request is pending or about to be.
  abbrev Gone : System A → Type 0
  Gone s = (count of_request s.pool.queue.elements ≡ 0) × (count of_request s.adding ≡ 0)

  erased :
      (p : A → Bool) (xs : List A) → count of_request xs ≡ 0 → count of_request (erase_if p xs) ≡ 0
  erased p xs h = omega (arith, h, count-erase_if-not p of_request xs)

  cancel-Gone : (other : RequestId) (s : System A) → Gone s → Gone (cancel T other s)
  unfolding cancel cancel_pending_impl
  cancel-Gone other s g = (
    rw (remove_loop-erase_if (λ t. other == request_id t) false s.pool.queue.elements)
        (erased (λ t. other == request_id t) s.pool.queue.elements g.0),
    g.1,
  )

  push-Gone :
      (choice : ℕ) (front : List A) (x : A) (back : List A) (s : System A)
      → Inv T s
      → s.adding ≡ front ++ x ∷ back
      → Gone s
      → Gone (pushed T choice x (front ++ back) s)
  unfolding pushed push_task push throw_if_closed
  push-Gone choice front x back s v at g = (
    elim (Bool-cases s.pool.queue.closed) [
      | inl e ↦ rw e g.0
      | inr e ↦ rw e (
          ground
            (arith, count-insert order of_request x s.pool.queue.elements v.ordered, in_list, g.0))
    ],
    omega (arith, in_list, count-append of_request front back),
  )
    where
      in_list : count of_request front + (bit (of_request x) + count of_request back) ≡ 0
      in_list =
          omega (arith, ap (count of_request) at, g.1, count-append of_request front (x ∷ back))

  good_turn :
      (front : List (Thread A)) (th : Thread A) (back : List (Thread A)) (s : System A)
      → s.pool.threads ≡ front ++ th ∷ back
      → wants_mutex th.stage ≡ true
      → Inv T s
      → GoodTurn T s.now s.pool.queue
          (take_turn T s.now th.stage s.pool.queue).0
          (take_turn T s.now th.stage s.pool.queue).1
  good_turn front th back s at wants v =
      take_turn-GoodTurn T s.now th.stage s.pool.queue wants
        (All-append_right _ front (th ∷ back)
          (subst (Everywhere (IsSound s.pool.queue)) at v.sound)).0

  Step-Gone : {s t : System A} (st : Step T s t) → Avoids st → Inv T s → Gone s → Gone t
  unfolding close_queue wake_all worked
  Step-Gone (tick later le e) a v g = subst Gone (sym e) g
  Step-Gone {s} (start ids _ e) a v g = subst Gone (sym e) (rw (start-queue ids s.pool) g.0, g.1)
  Step-Gone {s} (stop _ e) a v g = subst Gone (sym e) (rw (clear_started-queue s.pool) g.0, g.1)
  Step-Gone (destroy _ e) a v g = subst Gone (sym e) g
  Step-Gone (closes _ e) a v g = subst Gone (sym e) g
  Step-Gone (notifies _ e) a v g = subst Gone (sym e) g
  Step-Gone (joins self ths _ all e) a v g = subst Gone (sym e) g
  Step-Gone (begin_add x _ e) a v g = subst Gone (sym e) (g.0, rw a (omega (arith, g.1)))
  Step-Gone {s} (end_add choice front x back at e) a v g =
      subst Gone (sym e) (push-Gone choice front x back s v at g)
  Step-Gone {s} (cancels other e) a v g = subst Gone (sym e) (cancel-Gone other s g)
  Step-Gone {s} (turn front th back at wants e) a v g =
      subst Gone (sym e)
        ((omega (arith, (good_turn front th back s at wants v).kept of_request, g.0), g.1))
  Step-Gone (wakes front th back at _ e) a v g = subst Gone (sym e) g
  Step-Gone (finishes front th back x r stage at _ _ e) a v g = subst Gone (sym e) g

  Goes-Gone : {s t : System A} → Goes s t → Inv T s → Gone s → Inv T t × Gone t
  Goes-Gone stays v g = (v, g)
  Goes-Gone (goes r st a) v g =
      let (v', g') = Goes-Gone r v g in (Step-Inv T st v', Step-Gone st a v' g')

  -- The queue right after `cancel_pending`.
  cancelled-Gone : (s : System A) → count of_request s.adding ≡ 0 → Gone (cancel T id s)
  unfolding cancel cancel_pending_impl
  cancelled-Gone s h = (
    rw (remove_loop-erase_if of_request false s.pool.queue.elements)
        (count-erase_if_self of_request s.pool.queue.elements),
    h,
  )

  -- If a pool is in a state that it can reach, no call of `add_task` for a task of a request is
  -- under way, and `cancel_pending` is called for the request, then whatever steps follow, as long
  -- as no call of `add_task` for a task of the request begins, a task that a worker takes from the
  -- queue and begins to run is not one of the request.
  pub cancel-begins_none :
      (n : ℕ) (now : ℤ) {s t : System A} (front : List (Thread A)) (th : Thread A)
      (back : List (Thread A)) (x : A)
      → Reach T (initial n now) s
      → count of_request s.adding ≡ 0
      → Goes (cancel T id s) t
      → t.pool.threads ≡ front ++ th ∷ back
      → wants_mutex th.stage ≡ true
      → (take_turn T t.now th.stage t.pool.queue).0 ≡ running x
      → (id == request_id x) ≡ false
  cancel-begins_none n now {s} {t} front th back x r none_adding r' at wants begins =
      let (v, g) =
        Goes-Gone r' (Reach-initial-Inv T n now (next r (cancels id refl)))
          (cancelled-Gone s none_adding) in
      ground (
        arith,
        (good_turn front th back t at wants v).kept of_request,
        ap (runs of_request) begins,
        g.0,
      )
