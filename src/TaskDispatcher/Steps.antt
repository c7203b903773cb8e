-- ===== src/TaskDispatcher/Steps.antt =====
-- TaskDispatcher and ThreadPoolImpl: what a call of the dispatcher is in the steps that Pool/System has
-- of a pool among its clients.
use uni_tasks.Prelude.{
  ℕ, String, str_eq, ◌+◌, ◌%◌, ◌≡◌, refl, ap, ◌∙◌, Bool, true, false, List, [], ◌∷◌, map, some,
  none, Bool-cases, Option-cases, inl, inr, if◌then◌else◌, arith,
}
use uni_tasks.Prelude.Int.{ℤ}
use uni_tasks.Ids.{RequestId, Counters, size_t_mod}
use uni_tasks.Errors.{Call, ok}
use uni_tasks.Tasks.{Task, Callee, function, new_task}
use uni_tasks.Factory.{callee_of}
use uni_tasks.Pool.{
  Pool, add_task_impl, push_task, throw_if_stopped, cancel_pending_impl, on_one_of_threads_impl,
}
use uni_tasks.Pool.Tasks.{task_type}
use uni_tasks.Pool.System.{System, begin_add, end_add, pushed, cancel, Reach, here, next}
use uni_tasks.Pool.System
use uni_tasks.Pool.System.Progress.{Reach-trans}
use uni_tasks.Dispatcher.{Dispatcher, Pools, find, update, on_pool}
use uni_tasks.Dispatcher.Pools.{on_pool-none, on_pool-some}
use uni_tasks.TaskDispatcher.{
  Op, cancels_pending, cancels, dispatches_task, dispatches_request, dispatches,
  dispatches_or_executes,
}

-- The pools of a dispatcher, each among its clients and workers.
abbrev pub Systems : Type 0
Systems = List (String × System Task)

abbrev pub pools_of : Systems → Pools
pools_of ss = map (λ e. (e.0, e.1.pool)) ss

-- What a call brings to a pool.
pub data Effect : Type 0 where
  cancelling : RequestId → Effect
  adding : (choice : ℕ) → Task → Effect

-- In steps of the pool: the one of `cancel_pending`, or the two of `add_task`, which a pool that is
-- not started does not make.
abbrev add_steps : (started : Bool) (choice : ℕ) → Task → System Task → System Task
add_steps true choice x s = pushed task_type choice x s.adding (record s { adding = x ∷ s.adding })
add_steps false choice x s = s

abbrev pub apply : Effect → System Task → System Task
apply (cancelling id) s = cancel task_type id s
apply (adding choice x) s = add_steps s.pool.started choice x s

-- The pool of a name.
unfoldable pub at : String → (System Task → System Task) → Systems → Systems
at name f [] = []
at name f ((n, s) ∷ ss) = if str_eq n name then (n, f s) ∷ ss else (n, s) ∷ at name f ss

unfoldable pub deliver : List (String × Effect) → Systems → Systems
unfolding at
deliver [] ss = ss
deliver ((name, e) ∷ es) ss = deliver es (at name (apply e) ss)

-- The same names, and each pool gets by steps of its own to its new state.
abbrev pub AllReach : Systems → Systems → Type 0
AllReach [] [] = Unit
AllReach ((n, s) ∷ ss) ((m, t) ∷ ts) = (n ≡ m) × Reach task_type s t × AllReach ss ts
AllReach _ _ = ⊥

abbrev pub next_id : Counters → RequestId
next_id c = (c.request + 1) % size_t_mod

-- A task for a callee, with the next identifiers.
abbrev pub made : (now : ℤ) → Callee → Counters → Task
made now callee c = record (new_task now callee c).0 { request = next_id c }

unfoldable pub is_executed : (self : ℕ) → String → Pools → Bool
is_executed self name ps = elim (find name ps) [
  | none ↦ false
  | some p ↦ on_one_of_threads_impl self p
]

pub is_executed-none :
    (self : ℕ) (name : String) (ps : Pools) → find name ps ≡ none → is_executed self name ps ≡ false
unfolding is_executed
is_executed-none self name ps h = rw (h, is_executed) refl

pub is_executed-some :
    (self : ℕ) (name : String) (ps : Pools) (p : Pool Task)
    → find name ps ≡ some p
    → is_executed self name ps ≡ on_one_of_threads_impl self p
unfolding is_executed
is_executed-some self name ps p h = rw (h, is_executed) refl

-- What each call but `start` and `stop` brings to which pool.
unfoldable pub effects : Op → Dispatcher → List (String × Effect)
effects (cancels_pending name id) d = (name, cancelling id) ∷ []
effects (cancels choice now name id f) d =
    (name, cancelling id) ∷ (name, adding choice (made now (function f []) d.counters)) ∷ []
effects (dispatches_task choice name task) d =
    (name, adding choice (record task { request = next_id d.counters })) ∷ []
effects (dispatches_request choice name id task) d =
    (name, adding choice (record task { request = id })) ∷ []
effects (dispatches choice now name target args) d =
    (name, adding choice (made now (callee_of target args) d.counters)) ∷ []
effects (dispatches_or_executes outcome self choice now name target args) d =
    if is_executed self name d.pools
    then []
    else (name, adding choice (made now (callee_of target args) d.counters)) ∷ []
effects _ d = []

abbrev effect_on_pool : Effect → Pool Task → Pool Task
effect_on_pool (cancelling id) p = (cancel_pending_impl task_type id p).1
effect_on_pool (adding choice x) p = (add_task_impl task_type choice x p).1

push_task-add_task :
    (choice : ℕ) (x : Task) (p : Pool Task)
    → p.started ≡ true
    → (push_task task_type choice x p).1 ≡ (add_task_impl task_type choice x p).1
unfolding add_task_impl
push_task-add_task choice x p on = rw on refl

add_task-refused :
    (choice : ℕ) (x : Task) (p : Pool Task)
    → p.started ≡ false
    → p ≡ (add_task_impl task_type choice x p).1
unfolding add_task_impl
add_task-refused choice x p off = rw off refl

add_steps-pool :
    (b : Bool) (choice : ℕ) (x : Task) (s : System Task)
    → s.pool.started ≡ b
    → (add_steps b choice x s).pool ≡ (add_task_impl task_type choice x s.pool).1
unfolding pushed
add_steps-pool true choice x s on = push_task-add_task choice x s.pool on
add_steps-pool false choice x s off = add_task-refused choice x s.pool off

apply-pool : (e : Effect) (s : System Task) → (apply e s).pool ≡ effect_on_pool e s.pool
unfolding cancel
apply-pool (cancelling id) s = refl
apply-pool (adding choice x) s = add_steps-pool s.pool.started choice x s refl

passes : (p : Pool Task) → p.started ≡ true → (throw_if_stopped p).0 ≡ ok tt
unfolding throw_if_stopped
passes p on = rw on refl

add_steps-Reach :
    (b : Bool) (choice : ℕ) (x : Task) (s : System Task)
    → s.pool.started ≡ b
    → Reach task_type s (add_steps b choice x s)
add_steps-Reach true choice x s on =
    next (next here (begin_add x (passes s.pool on) refl)) (end_add choice [] x s.adding refl refl)
add_steps-Reach false choice x s off = here

apply-Reach : (e : Effect) (s : System Task) → Reach task_type s (apply e s)
apply-Reach (cancelling id) s = next here (System.cancels id refl)
apply-Reach (adding choice x) s = add_steps-Reach s.pool.started choice x s refl

pub at-none :
    (name : String) (f : System Task → System Task) (ss : Systems)
    → find name (pools_of ss) ≡ none
    → pools_of (at name f ss) ≡ pools_of ss
unfolding at find
at-none name f [] h = refl
at-none name f ((n, s) ∷ ss) h = ground (arith, at-none name f ss)

pub at-some :
    (name : String) (e : Effect) (p : Pool Task) (ss : Systems)
    → find name (pools_of ss) ≡ some p
    → pools_of (at name (apply e) ss) ≡ update name (effect_on_pool e p) (pools_of ss)
unfolding at find update
at-some name e p [] h = refl
at-some name e p ((n, s) ∷ ss) h = ground (arith, apply-pool e s, at-some name e p ss)

pub on_pool-at :
    (name : String) (e : Effect) (f : Call (Pool Task) (Unit {0})) (d : Dispatcher) (ss : Systems)
    → ((p : Pool Task) → effect_on_pool e p ≡ (f p).1)
    → pools_of ss ≡ d.pools
    → pools_of (at name (apply e) ss) ≡ (on_pool name f d).1.pools
on_pool-at name e f d ss same h = elim (Option-cases (find name d.pools)) [
  | inl missing ↦ rw (on_pool-none name f d missing) (at-none name (apply e) ss (rw h missing) ∙ h)
  | inr (p, there) ↦ rw (on_pool-some name f d p there) (
      at-some name e p ss (rw h there)
      ∙ ap (λ q. update name q (pools_of ss)) (same p)
      ∙ ap (λ ps. update name (f p).1 ps) h)
]

pub AllReach-refl : (ss : Systems) → AllReach ss ss
AllReach-refl [] = tt
AllReach-refl ((n, s) ∷ ss) = (refl, here, AllReach-refl ss)

AllReach-trans : (ss ts us : Systems) → AllReach ss ts → AllReach ts us → AllReach ss us
AllReach-trans [] [] [] h k = tt
AllReach-trans ((n, s) ∷ ss) ((m, t) ∷ ts) ((l, u) ∷ us) (e, r, h) (e', r', k) =
    (e ∙ e', Reach-trans task_type r r', AllReach-trans ss ts us h k)
AllReach-trans [] [] (_ ∷ _) h k = absurd k
AllReach-trans [] (_ ∷ _) us h k = absurd h
AllReach-trans (_ ∷ _) [] us h k = absurd h
AllReach-trans (_ ∷ _) (_ ∷ _) [] h k = absurd k

at-AllReach : (name : String) (e : Effect) (ss : Systems) → AllReach ss (at name (apply e) ss)
unfolding at
at-AllReach name e [] = tt
at-AllReach name e ((n, s) ∷ ss) = elim (Bool-cases (str_eq n name)) [
  | inl here_it ↦ rw here_it (refl, apply-Reach e s, AllReach-refl ss)
  | inr other ↦ rw other (refl, here, at-AllReach name e ss)
]

pub deliver-AllReach : (es : List (String × Effect)) (ss : Systems) → AllReach ss (deliver es ss)
unfolding deliver
deliver-AllReach [] ss = AllReach-refl ss
deliver-AllReach ((name, e) ∷ es) ss =
    AllReach-trans ss (at name (apply e) ss) (deliver es (at name (apply e) ss))
      (at-AllReach name e ss) (deliver-AllReach es (at name (apply e) ss))
