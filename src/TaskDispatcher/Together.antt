-- ===== src/TaskDispatcher/Together.antt =====
-- TaskDispatcher: its pools are started and stopped together.
use uni_tasks.Prelude.{
  ℕ, String, ◌≡◌, refl, sym, ◌∙◌, Bool, true, false, not, any, List, [], ◌∷◌, map, All, All-append,
  ◌⊎◌, inl, inr, Bool-cases, Option-cases, arith,
}
use uni_tasks.Ids.{RequestId, Counters}
use uni_tasks.Tasks.{Task}
use uni_tasks.Pool.{
  Pool, new_pool, start_impl, begin_stop, clear_started, add_task_impl, push_task,
  cancel_pending_impl,
}
use uni_tasks.Pool.Tasks.{task_type}
use uni_tasks.Dispatcher.{Dispatcher, Pools, find, emplace, configure, start_all, stop_all}
use uni_tasks.Dispatcher
use uni_tasks.Dispatcher.Pools.{is_started, start_all_lem, stop_all_lem}
use uni_tasks.TaskDispatcher.Kept.{Kept, perform-AllKept}
use uni_tasks.TaskDispatcher.{create, Op, starts, stops, is_start, is_stop, perform, perform_all}

-- All pools are started, or none is.
abbrev AllAre : Bool → Pools → Type 0
AllAre b = All (λ e. e.1.started ≡ b)

abbrev pub Together : Pools → Type 0
Together ps = All (λ e. e.1.started ≡ true) ps ⊎ All (λ e. e.1.started ≡ false) ps

add_task-started :
    (b : Bool) (choice : ℕ) (x : Task) (p : Pool Task)
    → p.started ≡ b
    → (add_task_impl task_type choice x p).1.started ≡ b
unfolding add_task_impl push_task
add_task-started b choice x p h = elim (Bool-cases p.started) [
  | inl e ↦ rw e (sym e ∙ h)
  | inr e ↦ rw e (sym e ∙ h)
]

cancel_pending-started :
    (b : Bool) (id : RequestId) (p : Pool Task)
    → p.started ≡ b
    → (cancel_pending_impl task_type id p).1.started ≡ b
unfolding cancel_pending_impl
cancel_pending-started b id p h = h

Kept-started : (b : Bool) → Kept (λ p. p.started ≡ b)
Kept-started b = record { add_task = add_task-started b; cancel_pending = cancel_pending-started b }

any-AllAre : (ps : Pools) → AllAre false ps → any is_started ps ≡ false
any-AllAre [] h = refl
any-AllAre ((n, p) ∷ ps) h = ground (arith, any-AllAre ps h.1)

any-not-AllAre : (ps : Pools) → AllAre true ps → any (λ e. not (is_started e)) ps ≡ false
any-not-AllAre [] h = refl
any-not-AllAre ((n, p) ∷ ps) h = ground (arith, any-not-AllAre ps h.1)

-- Where all are started, `start` changes nothing; where none is, it starts all.
start_all-started : (ids : String → ℕ → ℕ) (ps : Pools) → AllAre true ps → (start_all ids ps).1 ≡ ps
unfolding start_all start_impl
start_all-started ids [] h = refl
start_all-started ids ((n, p) ∷ ps) h = rw (h.0, start_impl) refl

start_all-Together :
    (ids : String → ℕ → ℕ) (ps : Pools) → Together ps → Together (start_all ids ps).1
start_all-Together ids ps (inl on) = inl (rw (start_all-started ids ps on) on)
start_all-Together ids ps (inr off) = elim (start_all_lem ids ps) [
  | inl (one_on, _) ↦ absurd (cc (one_on, any-AllAre ps off))
  | inr (_, _, on) ↦ inl on
]

emplace-AllAre :
    (name : String) (n : ℕ) (ps : Pools) → AllAre false ps → AllAre false (emplace name n ps)
unfolding emplace new_pool
emplace-AllAre name n ps h = elim (Option-cases (find name ps)) [
  | inl none_there ↦
      rw (none_there, emplace) (All-append _ ps ((name, new_pool n) ∷ []) h (refl, tt))
  | inr (p, there) ↦ rw (there, emplace) h
]

configure-AllAre :
    (cs : List (String × ℕ)) (ps : Pools) → AllAre false ps → AllAre false (configure cs ps)
unfolding configure
configure-AllAre [] ps h = h
configure-AllAre ((name, n) ∷ cs) ps h =
    configure-AllAre cs (emplace name n ps) (emplace-AllAre name n ps h)

module _ (joined : Pool Task → Pool Task)
    (keeps : (p : Pool Task) → (joined p).started ≡ p.started) where
  stop_all-stopped : (ps : Pools) → AllAre false ps → (stop_all joined ps).1 ≡ ps
  unfolding stop_all begin_stop clear_started
  stop_all-stopped [] h = refl
  stop_all-stopped ((n, p) ∷ ps) h = rw (h.0, begin_stop) refl

  stop_all-Together : (ps : Pools) → Together ps → Together (stop_all joined ps).1
  stop_all-Together ps (inr off) = inr (rw (stop_all-stopped ps off) off)
  stop_all-Together ps (inl on) = elim (stop_all_lem joined ps keeps) [
    | inl (one_off, _) ↦ absurd (cc (one_off, any-not-AllAre ps on))
    | inr (_, _, off) ↦ inr off
  ]

  others-AllAre :
      (b : Bool) (op : Op) (d : Dispatcher)
      → is_start op ≡ false
      → is_stop op ≡ false
      → AllAre b d.pools
      → AllAre b (perform joined op d).1.pools
  others-AllAre b op d not_start not_stop h =
      (perform-AllKept (Kept-started b) (map (λ e. e.0) d.pools) joined op d (refl, h)
        (λ e. absurd (cc (e, not_start))) (λ e. absurd (cc (e, not_stop)))).1

  perform-Together :
      (op : Op) (d : Dispatcher) → Together d.pools → Together (perform joined op d).1.pools
  unfolding perform Dispatcher.start Dispatcher.stop
  perform-Together (starts ids) d h = start_all-Together ids d.pools h
  perform-Together stops d h = stop_all-Together d.pools h
  perform-Together op d (inl on) = inl (others-AllAre true op d refl refl on)
  perform-Together op d (inr off) = inr (others-AllAre false op d refl refl off)

  calls-Together :
      (ops : List Op) (d : Dispatcher)
      → Together d.pools
      → Together (perform_all joined ops d).pools
  unfolding perform_all
  calls-Together [] d h = h
  calls-Together (op ∷ ops) d h =
      calls-Together ops (perform joined op d).1 (perform-Together op d h)

  -- If what happens in a pool until its `join` comes back neither starts nor stops it, then after
  -- any calls of the member functions of a new dispatcher, whatever they throw, either all its
  -- pools are started or none is. A call of `dispatch_or_execute` counts with what its callee ends
  -- with, and the calls that the callee makes count as further calls.
  pub perform_all-Together :
      (configurations : List (String × ℕ)) (c : Counters) (ops : List Op)
      → Together (perform_all joined ops (create configurations c)).pools
  unfolding create
  perform_all-Together configurations c ops =
      calls-Together ops (create configurations c) (inr (configure-AllAre configurations [] tt))
