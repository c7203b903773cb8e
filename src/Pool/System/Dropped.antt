-- ===== src/Pool/System/Dropped.antt =====
-- ThreadPoolImpl.hpp with the set of Queue.hpp: when a task that `add_task` takes does not get into
-- the queue.
use uni_tasks.Prelude.{
  ap, some, false, ◌≢◌, ◌+◌, ℕ, ◌≤◌, ◌≡◌, refl, sym, subst, Bool, true, List, [], ◌∷◌, All, All-map,
  count, bit, Bool-cases, inl, inr, arith,
}
use uni_tasks.Prelude.Int.{ℤ}
use uni_tasks.OrderedSet.{contains, equivalent}
use uni_tasks.Tasks.{Task, sequence_id_impl}
use uni_tasks.Factory.Session.{numbered, equivalent-numbered}
use uni_tasks.Pool.{TaskType, Thread, join, on_one_of_threads_impl}
use uni_tasks.Pool.Tasks.{task_type}
use uni_tasks.Pool.System.{
  System, initial, pushed, cancel, worked, Step, tick, start, stop, destroy, closes, notifies,
  joins, begin_add, end_add, cancels, turn, wakes, finishes, Reach, here, next,
}
use uni_tasks.Pool.System.Parts.{Inv}
use uni_tasks.Pool.System.Drained.{join-all_done}
use uni_tasks.Pool.System.Invariant.{Reach-initial-Inv}

count-contains {ℓ} :
    {A : Type ℓ} (lt : A → A → Bool) (x : A) (ys : List A)
    → contains lt x ys ≡ true
    → 1 ≤ count (equivalent lt x) ys
unfolding contains
count-contains lt x [] h = absurd cc
count-contains lt x (y ∷ ys) h = ground (arith, count-contains lt x ys)

module _ {ℓ} {A : Type ℓ} (T : TaskType A) where
  open T use {before, order}

  -- A task that was taken is equivalent to two, itself among them.
  abbrev HasTwin : List A → A → Type 0
  HasTwin taken x = 2 ≤ count (equivalent before x) taken

  abbrev Twins : System A → Type 0
  Twins s = All (HasTwin s.accepted) s.dropped

  itself : (x : A) → bit (equivalent before x x) ≡ 1
  itself x = ground (arith, order.irrefl x)

  pushed-Twins :
      (choice : ℕ) (x : A) (others : List A) (s : System A)
      → Inv T s
      → Twins s
      → Twins (pushed T choice x others s)
  unfolding pushed
  pushed-Twins choice x others s v twins = elim (Bool-cases s.pool.queue.closed) [
    | inl e ↦ rw e twins
    | inr e ↦ elim (Bool-cases (contains before x s.pool.queue.elements)) [
      | inr fresh ↦ rw (e, fresh) later
      | inl known ↦
          rw (e, known)
            (
              omega (
                arith,
                itself x,
                v.kept (equivalent before x),
                count-contains before x s.pool.queue.elements known,
              ),
              later,
            )
    ]
  ]
    where
      later : All (HasTwin (x ∷ s.accepted)) s.dropped
      later = All-map _ _ (λ y h. omega (arith, h)) s.dropped twins

  Step-Twins : {s t : System A} → Step T s t → Inv T s → Twins s → Twins t
  unfolding cancel worked
  Step-Twins (tick _ _ e) v h = subst Twins (sym e) h
  Step-Twins (start _ _ e) v h = subst Twins (sym e) h
  Step-Twins (stop _ e) v h = subst Twins (sym e) h
  Step-Twins (destroy _ e) v h = subst Twins (sym e) h
  Step-Twins (closes _ e) v h = subst Twins (sym e) h
  Step-Twins (notifies _ e) v h = subst Twins (sym e) h
  Step-Twins (joins _ _ _ _ e) v h = subst Twins (sym e) h
  Step-Twins (begin_add _ _ e) v h = subst Twins (sym e) h
  Step-Twins {s} (end_add choice front x back _ e) v h =
      subst Twins (sym e) (pushed-Twins choice x _ s v h)
  Step-Twins (cancels _ e) v h = subst Twins (sym e) h
  Step-Twins (turn _ _ _ _ _ e) v h = subst Twins (sym e) h
  Step-Twins (wakes _ _ _ _ _ e) v h = subst Twins (sym e) h
  Step-Twins (finishes _ _ _ _ _ _ _ _ _ e) v h = subst Twins (sym e) h

  Reach-Twins : (n : ℕ) (now : ℤ) {s : System A} → Reach T (initial n now) s → Twins s
  Reach-Twins n now here = tt
  Reach-Twins n now (next r st) = Step-Twins st (Reach-initial-Inv T n now r) (Reach-Twins n now r)

-- How many of the tasks have the sequence number of `x`.
abbrev pub same_number : Task → List Task → ℕ
same_number x = numbered (sequence_id_impl x)

-- In each state that a pool of the dispatcher can reach, if no two of the tasks that it has taken
-- have the same sequence number, then none was dropped: each of them got into the queue.
pub dropped-none :
    (n : ℕ) (now : ℤ) {s : System Task}
    → Reach task_type (initial n now) s
    → ((x : Task) → same_number x s.accepted ≤ 1)
    → s.dropped ≡ []
dropped-none n now {s} r distinct = none_dropped s.dropped (Reach-Twins task_type n now r)
  where
    none_dropped : (xs : List Task) → All (HasTwin task_type s.accepted) xs → xs ≡ []
    none_dropped [] h = refl
    none_dropped (x ∷ xs) h =
        absurd (omega (arith, h.0, distinct x, equivalent-numbered x s.accepted))

-- If a pool of the dispatcher is in a state that it can reach, it has at least one thread, `join`
-- comes back to a caller that is not one of its threads, and no two of the tasks that it took have
-- the same sequence number, then each task that it took has been run or was cancelled, as often as
-- it was taken.
pub join-all_run :
    (n : ℕ) (now : ℤ) {s : System Task} (self : ℕ) (us : List (Thread Task))
    → Reach task_type (initial n now) s
    → s.pool.threads ≢ []
    → on_one_of_threads_impl self s.pool ≡ false
    → join self s.pool.threads ≡ some us
    → ((x : Task) → same_number x s.accepted ≤ 1)
    → (p : Task → Bool) → count p s.accepted ≡ count p s.finished + count p s.cancelled
join-all_run n now {s} self us r some_thread outside back distinct p = omega (
  arith,
  (join-all_done task_type n now self us r some_thread outside back).2 p,
  ap (λ xs. count p xs) (dropped-none n now r distinct),
)
