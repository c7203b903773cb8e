-- ===== src/TaskDispatcher/Life/Ends.antt =====
-- TaskDispatcherImpl.cpp: `stop` of the dispatcher and the workers that it waits for.
use uni_tasks.Prelude.{
  ℕ, suc, String, ◌≡◌, refl, sym, ap, ◌∙◌, subst, Bool, not, ◌&&◌, List, [], ◌∷◌, ◌++◌, ◌<◌, length,
  length-snoc, All, ◌⊎◌, inl, inr,
}
use mathlib.Core.List.{append-nil, append_assoc}
use uni_tasks.Prelude.Int.{ℤ}
use uni_tasks.Tasks.{Task}
use uni_tasks.Pool.{on_one_of_threads_impl}
use uni_tasks.Pool.Tasks.{task_type}
use uni_tasks.Pool.System
use uni_tasks.Pool.System.{free}
use uni_tasks.Pool.System.Work
use uni_tasks.Pool.System.Work.{Works, Works-Reach, Work-Step}
use uni_tasks.Pool.System.Stop.{join-terminates}
use uni_tasks.TaskDispatcher.Life.{
  by_stop, by_destructor, begins_stop, Way, CanStop, Systems, Stopping, stopping, came_back,
  Program, initial, is_free, joined, Step, within, begins, stops, joins, comes_back, Reach,
}
use uni_tasks.TaskDispatcher.Life.Good.{Good, stop-Step}
use uni_tasks.TaskDispatcher.Life.Stopped.{initial-Reach-Inv}

-- The close and the notification that `stop` of a pool makes.
abbrev pub IsClose : {u v : System.System Task} → System.Step task_type u v → Type 0
IsClose (System.closes _ _) = Unit
IsClose (System.notifies _ _) = Unit
IsClose _ = ⊥

-- A step of a worker by itself, or of the thread that stops the dispatcher.
abbrev pub IsOwn : {p q : Program} → Step p q → Type 0
IsOwn (within _ _ u v _ _ st _ _) = Work.Work task_type u v ⊎ IsClose st
IsOwn (begins _ _ _ _) = ⊥
IsOwn _ = Unit

pub data Own (p : Program) : Program → Type 0 where
  nothing : Own p p
  also : {q r : Program} → Own p q → (st : Step q r) → IsOwn st → Own p r

Own-trans : {p q r : Program} → Own p q → Own q r → Own p r
Own-trans o nothing = o
Own-trans o (also w st own) = also (Own-trans o w) st own

Work-control : {u v : System.System Task} → Work.Work task_type u v → v.control ≡ u.control
unfolding System.worked
Work-control (Work.passes later le e) = rw e refl
Work-control (Work.takes_turn front th back at wants e) = rw e refl
Work-control (Work.times_out front th back point since at waits _ e) = rw e refl
Work-control (Work.comes_back front th back x r stage at runs_x after e) = rw e refl

Works-control : {u v : System.System Task} → Works task_type u v → v.control ≡ u.control
Works-control Work.done = refl
Works-control (Work.then w st) = Work-control st ∙ Works-control w

abbrev program : Systems → Stopping → Bool → Program
program systems call outside = record { systems = systems; call = call; outside = outside }

module _ (way : Way) (self : ℕ) (front : Systems) (name : String) (back : Systems) where
  abbrev at_pool : System.System Task → ℕ → Bool → Program
  at_pool u k outside = program (front ++ (name, u) ∷ back) (stopping way self k) outside

  Works-Own :
      {u v : System.System Task} (k : ℕ) (outside : Bool)
      → Works task_type u v
      → Own (at_pool u k outside) (at_pool v k outside)
  Works-Own k outside Work.done = nothing
  Works-Own k outside (Work.then {t} {u} w st) =
      also (Works-Own k outside w)
        (within front name t u back refl (Work-Step task_type st) (ap is_free (Work-control st))
          refl)
        (inl st)

  -- `stop` of the pool that it has come to, up to its `join`.
  closing_pool :
      (u : System.System Task) (outside : Bool) (n : ℕ) (now : ℤ)
      → System.Reach task_type (System.initial n now) u
      → u.control ≡ free
      → CanStop way u
      → (v : System.System Task) × System.Reach task_type (System.initial n now) v
        × (v.control ≡ System.joining)
        × Own (at_pool u (length front) outside) (at_pool v (length front) outside)
  closing_pool u outside n now r c on = (
    _,
    System.next
        (System.next (System.next r (stop-Step way u c on)) (System.closes (begun way) refl))
        (System.notifies refl refl),
    refl,
    also
        (also (also nothing (stops way self front name u back refl refl c on refl) tt)
          (within front name _ _ back refl (System.closes (begun way) refl)
            (ap is_free (sym (begun way))) refl)
          (inr tt))
        (within front name _ _ back refl (System.notifies refl refl) refl refl) (inr tt),
  )
    where
      begun : (by : Way) → (begins_stop by u).control ≡ System.closing
      begun by_stop = refl
      begun by_destructor = refl

  -- `stop` of that pool until it comes back.
  pool_stops :
      (u : System.System Task) (outside : Bool) (n : ℕ) (now : ℤ)
      → System.Reach task_type (System.initial n now) u
      → u.control ≡ free
      → CanStop way u
      → (v : System.System Task) × (outside' : Bool) × Own
          (at_pool u (length front) outside)
          (at_pool v (suc (length front)) outside')
  pool_stops u outside n now r c on =
      let (v, reached, joins_now, closed) = closing_pool u outside n now r c on in
      let (t, w, us, over) = join-terminates n now self reached joins_now in
      (
        joined us t,
        outside && not (on_one_of_threads_impl self t.pool),
        also (Own-trans closed (Works-Own (length front) outside w))
            (joins way self front name t back us refl refl (Works-control w ∙ joins_now) over refl)
            tt,
      )

abbrev pub IsReady : Way → String × System.System Task → Type 0
IsReady way e = (e.1.control ≡ free) × CanStop way e.1

-- One pool after the other.
pools_stop :
    (way : Way) (self : ℕ) (front es : Systems) (outside : Bool)
    → All (λ e. Good e.1) es
    → All (IsReady way) es
    → (q : Program) × Own (program (front ++ es) (stopping way self (length front)) outside) q
      × (q.call ≡ came_back way)
pools_stop way self front [] outside good on = (
  _,
  also nothing
      (comes_back way self (ap (λ xs. stopping way self (length xs)) (sym (append-nil front))) refl)
      tt,
  refl,
)
pools_stop way self front ((name, u) ∷ es) outside good on =
    let (v, outside', first) =
      pool_stops way self front name es u outside good.0.n good.0.now good.0.reached on.0.0
        on.0.1 in
    let (q, rest, back) = pools_stop way self (front ++ (name, v) ∷ []) es outside' good.1 on.1 in
    (
      q,
      Own-trans first (
          subst (λ k. Own (program (front ++ (name, v) ∷ es) (stopping way self k) outside') q)
            (length-snoc front (name, v))
            (subst
              (λ xs.
                Own (program xs (stopping way self (length (front ++ (name, v) ∷ []))) outside') q)
              (append_assoc front ((name, v) ∷ []) es) rest)),
      back,
    )

-- If each pool that a dispatcher is configured with has at least one thread, and in a state that
-- it can reach its destructor begins, or `stop` begins while every pool is started, and no `stop`
-- of a pool is under way, then steps of the stopping thread and the workers' own steps, without a
-- call of a client and without a wait that ends early, lead to a state in which `stop` or the
-- destructor has come back, provided that the running tasks come back.
pub stop-comes_back :
    (configurations : List (String × ℕ)) (now : ℤ) (way : Way) (self : ℕ) {p : Program}
    → All (λ c. 0 < c.1) configurations
    → Reach (initial configurations now) p
    → p.call ≡ stopping way self 0
    → All (IsReady way) p.systems
    → (q : Program) × Own p q × (q.call ≡ came_back way)
stop-comes_back configurations now way self {p} positive r begun on =
    subst (λ c. (q : Program) × Own (program p.systems c p.outside) q × (q.call ≡ came_back way))
      (sym begun)
      (pools_stop way self [] p.systems p.outside
        (initial-Reach-Inv configurations now positive r).good on)
