-- ===== src/TaskDispatcher/Life/Stopped.antt =====
-- TaskDispatcherImpl.cpp: the pools of a dispatcher when its `stop` comes back.
use uni_tasks.Prelude.{
  ℕ, suc, String, ◌+◌, ◌≡◌, ◌<◌, refl, sym, subst, Bool, true, false, not, ◌&&◌, some, List, [],
  ◌∷◌, ◌++◌, count, length, All, All-append_right, ◌⊎◌, inl, inr, Bool-cases, arith,
}
use uni_tasks.Prelude.Int.{ℤ}
use uni_tasks.Tasks.{Task}
use uni_tasks.Pool.{Thread, join, on_one_of_threads_impl}
use uni_tasks.Pool.Tasks.{task_type}
use uni_tasks.Pool.System
use uni_tasks.Pool.System.{Control, free}
use uni_tasks.Pool.System.Invariant.{Reach-initial-Inv}
use uni_tasks.TaskDispatcher.Life.{
  Way, Systems, stopping, came_back, Program, initial, with_system, begins_stop, joined, Step,
  within, begins, stops, throws, joins, comes_back, Reach, here, next,
}
use uni_tasks.TaskDispatcher.Life.Settled.{Step-Settled, Settled-kept}
use uni_tasks.TaskDispatcher.Life.Good.{Good, stop-Step, Step-Good, join-Step, join-Settled}
use uni_tasks.TaskDispatcher.Life.Configured.{configure-IsNew, idles-Good}
use uni_tasks.TaskDispatcher.Life.Passed.{
  Done, DoneBy, DoneTo-suc, DoneTo-All, All-replace, DoneBy-replace,
}

-- All pools are good, and those that `stop` has passed have done with their tasks, unless its thread
-- was one of theirs.
pub record Inv (p : Program) : Type 0 where
  pub good : All (λ e. Good e.1) p.systems
  pub done : (p.outside ≡ false) ⊎ DoneBy p.call p.systems

within-Inv :
    (p : Program) (front : Systems) (name : String) (u v : System.System Task) (back : Systems)
    → p.systems ≡ front ++ (name, u) ∷ back
    → System.Step task_type u v
    → Inv p
    → Inv (with_system front name v back p)
within-Inv p front name u v back at st i = record {
  good =
      All-replace (λ e. Good e.1) front (name, u) (name, v) back (Step-Good st)
        (subst (All (λ e. Good e.1)) at i.good);
  done = elim i.done [
    | inl inside ↦ inl inside
    | inr d ↦ inr (
        DoneBy-replace p.call front (name, u) (name, v) back (Step-Settled task_type st)
          (subst (DoneBy p.call) at d))
  ];
}

joins-Inv :
    (p : Program) (way : Way) (self : ℕ) (front : Systems) (name : String) (u : System.System Task)
    (back : Systems) (ths : List (Thread Task))
    → p.call ≡ stopping way self (length front)
    → p.systems ≡ front ++ (name, u) ∷ back
    → u.control ≡ System.joining
    → join self u.pool.threads ≡ some ths
    → Inv p
    → Inv (record (with_system front name (joined ths u) back p) {
      call = stopping way self (suc (length front));
      outside = p.outside && not (on_one_of_threads_impl self u.pool);
    })
joins-Inv p way self front name u back ths there at c back_there i = record {
  good =
      All-replace (λ e. Good e.1) front (name, u) (name, joined ths u) back
        (Step-Good (join-Step self u ths c back_there)) goods;
  done = elim i.done [
    | inl h ↦ inl (rw h refl)
    | inr d ↦ elim (Bool-cases (on_one_of_threads_impl self u.pool)) [
      | inl on ↦ inl (inside p.outside on)
      | inr off ↦ inr (
          DoneTo-suc front (name, u) (name, joined ths u) back
            (join-Settled self u ths c back_there off (All-append_right _ front _ goods).0)
            (subst (λ k. DoneBy k (front ++ (name, u) ∷ back)) there (subst (DoneBy p.call) at d)))
    ]
  ];
}
  where
    goods : All (λ e. Good e.1) (front ++ (name, u) ∷ back)
    goods = subst (All (λ e. Good e.1)) at i.good

    inside :
        (outside : Bool)
        → on_one_of_threads_impl self u.pool ≡ true
        → (outside && not (on_one_of_threads_impl self u.pool)) ≡ false
    inside outside on = ground arith

Step-Inv : {p q : Program} → Step p q → Inv p → Inv q
Step-Inv {p} (within front name u v back at st _ e) i =
    subst Inv (sym e) (within-Inv p front name u v back at st i)
Step-Inv (begins way self _ e) i = subst Inv (sym e) (record { good = i.good; done = inr tt })
Step-Inv {p} (stops way self front name u back _ at c can e) i =
    subst Inv (sym e)
      (within-Inv p front name u (begins_stop way u) back at (stop-Step way u c can) i)
Step-Inv (throws self front name u back _ _ _ _ e) i =
    subst Inv (sym e) (record { good = i.good; done = inr tt })
Step-Inv {p} (joins way self front name u back ths there at c back_there e) i =
    subst Inv (sym e) (joins-Inv p way self front name u back ths there at c back_there i)
Step-Inv {p} (comes_back way self there e) i = subst Inv (sym e) (record {
  good = i.good;
  done = elim i.done [
    | inl inside ↦ inl inside
    | inr d ↦ inr (DoneTo-All p.systems (subst (λ k. DoneBy k p.systems) there d))
  ];
})

Reach-Inv : {p q : Program} → Reach p q → Inv p → Inv q
Reach-Inv here i = i
Reach-Inv (next r st) i = Step-Inv st (Reach-Inv r i)

initial-Inv :
    (configurations : List (String × ℕ)) (now : ℤ)
    → All (λ c. 0 < c.1) configurations
    → Inv (initial configurations now)
unfolding initial
initial-Inv configurations now positive = record {
  good = idles-Good now _ (configure-IsNew configurations [] positive tt);
  done = inr tt;
}

pub initial-Reach-Inv :
    (configurations : List (String × ℕ)) (now : ℤ) {p : Program}
    → All (λ c. 0 < c.1) configurations
    → Reach (initial configurations now) p
    → Inv p
initial-Reach-Inv configurations now positive r =
    Reach-Inv r (initial-Inv configurations now positive)

-- The queue of the pool is closed and empty, and each task that was taken was run, cancelled or
-- dropped as often as it was taken.
abbrev pub IsFinished : System.System Task → Type 0
IsFinished u =
    (u.pool.queue.closed ≡ true)
    × (u.pool.queue.elements ≡ [])
    × ((f : Task → Bool)
        → count f u.accepted ≡ count f u.finished + count f u.cancelled + count f u.dropped)

settled-IsFinished :
    (es : Systems) → All (λ e. Good e.1) es → All Done es → All (λ e. IsFinished e.1) es
settled-IsFinished [] g d = tt
settled-IsFinished ((name, u) ∷ es) g d = (
  (
    d.0.shut,
    (Settled-kept task_type (Reach-initial-Inv task_type g.0.n g.0.now g.0.reached) d.0).0,
    (Settled-kept task_type (Reach-initial-Inv task_type g.0.n g.0.now g.0.reached) d.0).1,
  ),
  settled-IsFinished es g.1 d.1,
)

-- If each pool that a dispatcher is configured with has at least one thread, then in each state
-- that its clients, its workers, calls of `stop` and its destructor can reach in which `stop` or
-- the destructor has come back, to a thread that was in none of the pools when it joined them, the
-- queue of every pool is closed and empty, and each task that a pool took has been run, was
-- cancelled or was dropped because an equivalent task was in the set: as often as it was taken.
pub Reach-came_back :
    (configurations : List (String × ℕ)) (now : ℤ) (way : Way) {p : Program}
    → All (λ c. 0 < c.1) configurations
    → Reach (initial configurations now) p
    → p.call ≡ came_back way
    → p.outside ≡ true
    → All (λ e. IsFinished e.1) p.systems
Reach-came_back configurations now way {p} positive r back out =
    settled-IsFinished p.systems i.good (elim i.done [
      | inl inside ↦ absurd (cc (inside, out))
      | inr d ↦ subst (λ k. DoneBy k p.systems) back d
    ])
  where
    i : Inv p
    i = initial-Reach-Inv configurations now positive r
