-- ===== src/Pool/System/Served.antt =====
-- ThreadPoolImpl.hpp with the notifications of Queue.hpp: the first task of an open queue and the
-- workers, over the steps of clients and workers.
use uni_tasks.Prelude.{
  ℕ, ◌≡◌, refl, sym, ◌∙◌, ap, subst, true, false, List, [], ◌∷◌, ◌++◌, ◌==◌, All-append_right,
  All-map, map, Bool-cases, inl, inr,
}
use uni_tasks.Prelude.Int.{ℤ}
use uni_tasks.OrderedSet.{IsSorted}
use uni_tasks.Queue.{Queue, is_empty, throw_if_closed}
use uni_tasks.Queue.Ordered.{push}
use uni_tasks.Queue.Ordered.Remove.{remove_loop-erase_if}
use uni_tasks.Pool.{
  TaskType, Stage, entering, waiting, woken, running, ended, has_ended, wants_mutex, Thread, Pool,
  new_pool, start_impl, spawn, notify_one, notified, notify_all, push_task, clear_started,
  close_queue, wake_all, cancel_pending_impl, take_turn,
}
use uni_tasks.Pool.Calls.{joined, join-some}
use uni_tasks.Pool.System.{
  System, initial, pushed, cancel, worked, Step, tick, start, stop, destroy, closes, notifies,
  joins, begin_add, end_add, cancels, turn, wakes, finishes, Reach, here, next,
}
use uni_tasks.Pool.System.Stages.{Everywhere, IsSound}
use uni_tasks.Pool.System.Parts.{Inv, after_run-entering}
use uni_tasks.Pool.System.Invariant.{Reach-initial-Inv}
use uni_tasks.Pool.System.Turn.{take_turn-closed}
use uni_tasks.Pool.System.Serving.{
  Service, some_serves, Served, all-Served, erase_if-Served, some_serves-middle, some_serves-append,
  wake_thread-serves, notify_one-serves, notify_all-serves, some_serves-joined, some_serves-spawn,
  take_turn-Leaves,
}

-- With the queue open, no thread has ended.
none_ended {ℓ} :
    {A : Type ℓ} (q : Queue A)
    → q.closed ≡ false
    → (stage : Stage A) → IsSound q stage
    → has_ended stage ≡ false
none_ended q o entering s = refl
none_ended q o (waiting _ _) s = refl
none_ended q o (woken _) s = refl
none_ended q o (running _) s = refl
none_ended q o ended s = absurd (cc (o, s.0))

module _ {ℓ} {A : Type ℓ} {T : TaskType A} (S : Service T) where
  open S use {awake}

  -- An open queue whose pool has a thread has its first task served.
  abbrev IsServed : Queue A → List (Thread A) → Type 0
  IsServed q ths = q.closed ≡ false → is_empty ths ≡ false → Served S q.elements ths

  Served-map :
      (ths us : List (Thread A))
      → ((x : A) → some_serves S x ths ≡ true → some_serves S x us ≡ true)
      → (xs : List A) → Served S xs ths
      → Served S xs us
  Served-map ths us f [] h = tt
  Served-map ths us f (x ∷ xs) h = f x h

  start-IsServed :
      (ids : ℕ → ℕ) (p : Pool A)
      → IsServed p.queue p.threads
      → IsServed (start_impl ids p).1.queue (start_impl ids p).1.threads
  unfolding start_impl is_empty
  start-IsServed ids p h = elim (Bool-cases p.started) [
    | inl e ↦ rw e h
    | inr e ↦ rw e (λ o. with_spawned p.queue.elements p.threads (h o))
  ]
    where
      with_spawned :
          (xs : List A) (ths : List (Thread A))
          → (is_empty ths ≡ false → Served S xs ths)
          → is_empty (ths ++ spawn p.threads_count ids) ≡ false
          → Served S xs (ths ++ spawn p.threads_count ids)
      with_spawned [] ths g k = tt
      with_spawned (x ∷ xs) [] g k = some_serves-spawn S x p.threads_count ids k
      with_spawned (x ∷ xs) (th ∷ ths) g k = some_serves-append S x (th ∷ ths) _ (g refl)

  clear_started-IsServed :
      (p : Pool A)
      → IsServed p.queue p.threads
      → IsServed (clear_started p).1.queue (clear_started p).1.threads
  unfolding clear_started
  clear_started-IsServed p h = elim (Bool-cases p.started) [ inl e ↦ rw e h | inr e ↦ rw e h ]

  push-IsServed :
      (choice : ℕ) (x : A) (p : Pool A)
      → Everywhere (IsSound p.queue) p.threads
      → IsServed (push_task T choice x p).1.queue (push_task T choice x p).1.threads
  unfolding push_task push throw_if_closed notified notify_one is_empty
  push-IsServed choice x p sound = elim (Bool-cases p.queue.closed) [
    | inl e ↦ rw e (λ o k. absurd cc)
    | inr e ↦ rw e (λ o k.
        woken_one p.threads (All-map _ _ (λ th. none_ended p.queue e th.stage) p.threads sound) k _)
  ]
    where
      woken_one :
          (ths : List (Thread A))
          → Everywhere (λ stage. has_ended stage ≡ false) ths
          → is_empty (notify_one choice ths) ≡ false
          → (xs : List A) → Served S xs (notify_one choice ths)
      woken_one [] e k = absurd cc
      woken_one (th ∷ ths) e k =
          all-Served S (notify_one choice (th ∷ ths))
            (λ y. notify_one-serves S choice y (th ∷ ths) e refl)

  notify_all-IsServed :
      (q : Queue A) (ths : List (Thread A)) → IsServed q ths → IsServed q (notify_all ths)
  unfolding notify_all is_empty
  notify_all-IsServed q [] h o k = absurd cc
  notify_all-IsServed q (th ∷ ths) h o k =
      Served-map (th ∷ ths) (notify_all (th ∷ ths)) (λ x. notify_all-serves S x (th ∷ ths))
        q.elements (h o refl)

  joined-IsServed :
      (self : ℕ) (q : Queue A) (ths : List (Thread A))
      → IsServed q ths
      → IsServed q (map (joined self) ths)
  unfolding is_empty
  joined-IsServed self q [] h o k = absurd cc
  joined-IsServed self q (th ∷ ths) h o k =
      Served-map (th ∷ ths) (map (joined self) (th ∷ ths))
        (λ x g. some_serves-joined S x self (th ∷ ths) ∙ g) q.elements (h o refl)

  cancel_pending-IsServed :
      (id : ℕ) (p : Pool A)
      → IsSorted T.before p.queue.elements
      → IsServed p.queue p.threads
      → IsServed (cancel_pending_impl T id p).1.queue p.threads
  unfolding cancel_pending_impl
  cancel_pending-IsServed id p s h =
      rw (remove_loop-erase_if (λ t. id == T.request_id t) false p.queue.elements)
        (λ o k. erase_if-Served S _ p.queue.elements p.threads s (h o k))

  turn-IsServed :
      (now : ℤ) (q : Queue A) (front : List (Thread A)) (th : Thread A) (back : List (Thread A))
      → wants_mutex th.stage ≡ true
      → IsSound q th.stage
      → IsServed
          (take_turn T now th.stage q).1
          (front ++ record th { stage = (take_turn T now th.stage q).0 } ∷ back)
  turn-IsServed now q front th back w s o k = first (take_turn T now th.stage q).1.elements refl
    where
      first :
          (xs : List A)
          → (take_turn T now th.stage q).1.elements ≡ xs
          → Served S xs (front ++ record th { stage = (take_turn T now th.stage q).0 } ∷ back)
      first [] e = tt
      first (x ∷ xs) e = some_serves-middle S x front _ back (
          take_turn-Leaves S now th.stage q w s x xs (sym (take_turn-closed T now th.stage q) ∙ o)
            e)

  ServedSystem : System A → Type 0
  ServedSystem s = IsServed s.pool.queue s.pool.threads

  woken_or_entering :
      (q : Queue A) (front : List (Thread A)) (th : Thread A) (back : List (Thread A))
      → ((x : A) → S.serves x th.stage ≡ true)
      → IsServed q (front ++ th ∷ back)
  woken_or_entering q front th back h o k =
      all-Served S _ (λ x. some_serves-middle S x front th back (h x)) q.elements

  Step-Served : {s t : System A} → Step T s t → Inv T s → ServedSystem s → ServedSystem t
  unfolding close_queue wake_all pushed cancel worked ServedSystem cancel_pending_impl
  Step-Served (tick _ _ e) v h = subst ServedSystem (sym e) h
  Step-Served {s} (start ids _ e) v h = subst ServedSystem (sym e) (start-IsServed ids s.pool h)
  Step-Served {s} (stop _ e) v h = subst ServedSystem (sym e) (clear_started-IsServed s.pool h)
  Step-Served (destroy _ e) v h = subst ServedSystem (sym e) h
  Step-Served (closes _ e) v h = subst ServedSystem (sym e) (λ o k. absurd cc)
  Step-Served {s} (notifies _ e) v h =
      subst ServedSystem (sym e) (notify_all-IsServed s.pool.queue s.pool.threads h)
  Step-Served {s} (joins self us _ all e) v h = subst ServedSystem (sym e) (
      rw ((join-some self s.pool.threads us all).0)
        (joined-IsServed self s.pool.queue s.pool.threads h))
  Step-Served (begin_add _ _ e) v h = subst ServedSystem (sym e) h
  Step-Served {s} (end_add choice front x back _ e) v h =
      subst ServedSystem (sym e) (push-IsServed choice x s.pool v.sound)
  Step-Served {s} (cancels id e) v h =
      subst ServedSystem (sym e) (cancel_pending-IsServed id s.pool v.ordered h)
  Step-Served {s} (turn front th back at wants e) v h = subst ServedSystem (sym e) (
      turn-IsServed s.now s.pool.queue front th back wants
        (All-append_right _ front (th ∷ back)
          (subst (Everywhere (IsSound s.pool.queue)) at v.sound)).0)
  Step-Served {s} (wakes front th back _ waits e) v h =
      subst ServedSystem (sym e)
        (woken_or_entering s.pool.queue front _ back (λ x. wake_thread-serves S x th waits))
  Step-Served {s} (finishes front th back x r stage _ _ after e) v h = subst ServedSystem (sym e) (
      woken_or_entering s.pool.queue front _ back
        (λ y. ap (S.serves y) (after_run-entering r stage after) ∙ awake y entering refl))

  -- In each state that a pool can reach, some thread serves the first task of an open queue.
  pub Reach-Served :
      (n : ℕ) (now : ℤ) {s : System A}
      → Reach T (initial n now) s
      → s.pool.queue.closed ≡ false
      → is_empty s.pool.threads ≡ false
      → Served S s.pool.queue.elements s.pool.threads
  unfolding new_pool ServedSystem
  Reach-Served n now here o k = tt
  Reach-Served n now (next r st) o k =
      Step-Served st (Reach-initial-Inv T n now r) (Reach-Served n now r) o k
