-- ===== src/TaskDispatcher/Kept.antt =====
-- TaskDispatcher: what its calls keep of every pool, if the calls of a pool keep it.
use uni_tasks.Prelude.{
  ℕ, String, str_eq, ◌≡◌, refl, ap, sym, subst, ◌∙◌, true, false, some, List, [], ◌∷◌, All, All-map,
  map, Bool-cases, Option-cases, inl, inr, arith,
}
use uni_tasks.Prelude.Int.{ℤ}
use uni_tasks.Ids.{RequestId}
use uni_tasks.Errors.{Result, ok, throw, Call, and_then}
use uni_tasks.Tasks.{Task, set_request_id_impl}
use uni_tasks.Factory.{Target, callable, create_task_ptr}
use uni_tasks.Pool.{Pool, start_impl, begin_stop, add_task_impl, cancel_pending_impl}
use uni_tasks.Pool.Tasks.{task_type}
use uni_tasks.Dispatcher.{Dispatcher, Pools, find, update, on_pool, start_all, stop_all}
use uni_tasks.Dispatcher
use uni_tasks.Dispatcher.Pools.{on_pool-none, on_pool-some}
use uni_tasks.Dispatcher.Execute.{
  assert_execution_context_lem, dispatch_or_execute_lem, dispatch_or_execute-none,
}
use uni_tasks.TaskDispatcher.{
  Op, starts, stops, cancels_pending, cancels, dispatches_task, dispatches_request, dispatches,
  asserts, dispatches_or_executes, is_start, is_stop, perform,
}

pub and_then-state {ℓ} :
    {A B : Type 0} {S : Type ℓ} (r : Result A × S) (b : B) → (and_then r (λ _ s. (ok b, s))).1 ≡ r.1
and_then-state (ok _, s) b = refl
and_then-state (throw _, s) b = refl

-- A property of pools that each call but `start` and `stop` keeps.
pub record Kept {κ} (P : Pool Task → Type κ) : Type κ where
  pub add_task :
      (choice : ℕ) (x : Task) (p : Pool Task) → P p → P (add_task_impl task_type choice x p).1
  pub cancel_pending :
      (id : RequestId) (p : Pool Task) → P p → P (cancel_pending_impl task_type id p).1

-- The pools have these names, and each has the property.
abbrev pub AllKept {κ} : (P : Pool Task → Type κ) → List String → Pools → Type κ
AllKept P names ps = (map (λ e. e.0) ps ≡ names) × All (λ e. P e.1) ps

names-update :
    (name : String) (q : Pool Task) (ps : Pools)
    → map (λ e. e.0) (update name q ps) ≡ map (λ e. e.0) ps
unfolding update
names-update name q [] = refl
names-update name q ((n, p) ∷ ps) = ground (arith, names-update name q ps)

-- `stop` stops the pools in turn, and leaves those behind one that throws.
pub stop_all-AllKept {κ μ} :
    (P : Pool Task → Type κ) (Q : Pool Task → Type μ) (joined : Pool Task → Pool Task)
    → ((p : Pool Task) → P p → Q p)
    → ((p : Pool Task) → P p → Q (begin_stop p).1)
    → ((p : Pool Task) → P p → Q (joined (begin_stop p).1))
    → (ps : Pools) → All (λ e. P e.1) ps
    → AllKept Q (map (λ e. e.0) ps) (stop_all joined ps).1
unfolding stop_all
stop_all-AllKept P Q joined left stopped came_back [] hs = (refl, tt)
stop_all-AllKept P Q joined left stopped came_back ((n, p) ∷ ps) hs =
    either (begin_stop p).0 (stop_all-AllKept P Q joined left stopped came_back ps hs.1)
  where
    either :
        (r : Result (Unit {0}))
        → AllKept Q (map (λ e. e.0) ps) (stop_all joined ps).1
        → AllKept Q
            (n ∷ map (λ e. e.0) ps)
            (elim r as (λ _. Result (Unit {0}) × Pools) [
              | ok _ ↦
                  ((stop_all joined ps).0, (n, joined (begin_stop p).1) ∷ (stop_all joined ps).1)
              | throw e ↦ (throw e, (n, (begin_stop p).1) ∷ ps)
            ]).1
    either (ok _) rest = (ap (λ ns. n ∷ ns) rest.0, (came_back p hs.0, rest.1))
    either (throw e) rest = (refl, (stopped p hs.0, All-map _ _ (λ e. left e.1) ps hs.1))

module _ {κ} {P : Pool Task → Type κ} (K : Kept P) where
  update-All :
      (name : String) (q : Pool Task) (ps : Pools)
      → All (λ e. P e.1) ps
      → P q
      → All (λ e. P e.1) (update name q ps)
  unfolding update
  update-All name q [] hs h = tt
  update-All name q ((n, p) ∷ ps) hs h = elim (Bool-cases (str_eq n name)) [
    | inl e ↦ rw e (h, hs.1)
    | inr e ↦ rw e (hs.0, update-All name q ps hs.1 h)
  ]

  find-All :
      (name : String) (p : Pool Task) (ps : Pools)
      → All (λ e. P e.1) ps
      → find name ps ≡ some p
      → P p
  unfolding find
  find-All name p [] hs h = absurd cc
  find-All name p ((n, q) ∷ ps) hs h = elim (Bool-cases (str_eq n name)) [
    | inl e ↦ let same : q ≡ p = ground (arith, e, h) in rw (← same) hs.0
    | inr e ↦ find-All name p ps hs.1 (ground (arith, e, h))
  ]

  on_pool-AllKept :
      {R : Type 0} (names : List String) (name : String) (f : Call (Pool Task) R) (d : Dispatcher)
      → ((p : Pool Task) → P p → P (f p).1)
      → AllKept P names d.pools
      → AllKept P names (on_pool name f d).1.pools
  on_pool-AllKept names name f d keeps h = elim (Option-cases (find name d.pools)) [
    | inl e ↦ rw (on_pool-none name f d e) h
    | inr (p, e) ↦ rw (on_pool-some name f d p e) (
      names-update name (f p).1 d.pools ∙ h.0,
      update-All name (f p).1 d.pools h.1 (keeps p (find-All name p d.pools h.1 e)),
    )
  ]

  start_all-AllKept :
      (ids : String → ℕ → ℕ) (ps : Pools)
      → ((is : ℕ → ℕ) (p : Pool Task) → P p → P (start_impl is p).1)
      → All (λ e. P e.1) ps
      → AllKept P (map (λ e. e.0) ps) (start_all ids ps).1
  unfolding start_all
  start_all-AllKept ids [] start hs = (refl, tt)
  start_all-AllKept ids ((n, p) ∷ ps) start hs =
      either (start_impl (ids n) p).0 (start_all-AllKept ids ps start hs.1)
    where
      begun : P (start_impl (ids n) p).1
      begun = start (ids n) p hs.0

      either :
          (r : Result (Unit {0}))
          → AllKept P (map (λ e. e.0) ps) (start_all ids ps).1
          → AllKept P
              (n ∷ map (λ e. e.0) ps)
              (elim r as (λ _. Result (Unit {0}) × Pools) [
                | ok _ ↦
                    ((start_all ids ps).0, (n, (start_impl (ids n) p).1) ∷ (start_all ids ps).1)
                | throw e ↦ (throw e, (n, (start_impl (ids n) p).1) ∷ ps)
              ]).1
      either (ok _) rest = (ap (λ ns. n ∷ ns) rest.0, (begun, rest.1))
      either (throw e) rest = (refl, (begun, hs.1))

  module _ (names : List String) where
    dispatch_request-AllKept :
        (choice : ℕ) (name : String) (id : RequestId) (task : Task) (d : Dispatcher)
        → AllKept P names d.pools
        → AllKept P names (Dispatcher.dispatch_request choice name id task d).1.pools
    unfolding Dispatcher.dispatch_request
    dispatch_request-AllKept choice name id task d h =
        on_pool-AllKept names name _ d (K.add_task choice (set_request_id_impl id task)) h

    cancel_pending-AllKept :
        (name : String) (id : RequestId) (d : Dispatcher)
        → AllKept P names d.pools
        → AllKept P names (Dispatcher.cancel_pending name id d).pools
    unfolding Dispatcher.cancel_pending
    cancel_pending-AllKept name id d h = elim (Option-cases (find name d.pools)) [
      | inl e ↦ rw (e, Dispatcher.cancel_pending) h
      | inr (p, e) ↦
          rw (e, Dispatcher.cancel_pending)
            (
              names-update name (cancel_pending_impl task_type id p).1 d.pools ∙ h.0,
              update-All name (cancel_pending_impl task_type id p).1 d.pools h.1
                  (K.cancel_pending id p (find-All name p d.pools h.1 e)),
            )
    ]

    dispatch-AllKept :
        (choice : ℕ) (now : ℤ) (name : String) (target : Target) (args : List ℕ) (d : Dispatcher)
        → AllKept P names d.pools
        → AllKept P names (Dispatcher.dispatch choice now name target args d).1.pools
    unfolding Dispatcher.dispatch Dispatcher.dispatch_task Dispatcher.make_task
        Dispatcher.new_request_id
    dispatch-AllKept choice now name target args d h =
        dispatch_request-AllKept choice name _ (create_task_ptr now target args d.counters).0 _ h

    dispatch_or_execute-AllKept :
        (outcome : Result (Unit {0})) (self choice : ℕ) (now : ℤ) (name : String) (target : Target)
        (args : List ℕ) (d : Dispatcher)
        → AllKept P names d.pools
        → AllKept P names
            (Dispatcher.dispatch_or_execute
              (λ _ s. (outcome, s))
              self
              choice
              now
              name
              target
              args
              (d, tt {0})).1.0.pools
    dispatch_or_execute-AllKept outcome self choice now name target args d h =
        elim (Option-cases (find name d.pools)) [
          | inl e ↦
              rw
                (dispatch_or_execute-none {0} {W = Unit {0}} (λ _ s. (outcome, s)) self choice now
                  name target args d tt e)
                h
          | inr (p, e) ↦
              elim (dispatch_or_execute_lem {0} {W = Unit {0}} (λ _ s. (outcome, s)) self choice now
                name target args d tt p e) [
                  | inl (_, r) ↦
                      rw (r, and_then-state {S = Dispatcher × Unit {0}} (outcome, (d, tt)) true) h
                  | inr (_, r) ↦
                      rw (r, and_then-state {S = Dispatcher × Unit {0}} _ false)
                        (dispatch-AllKept choice now name _ args d h)
                ]
        ]

    -- `start`, if it keeps the property.
    pub starts-AllKept :
        (joined : Pool Task → Pool Task) (op : Op) (d : Dispatcher)
        → ((ids : ℕ → ℕ) (p : Pool Task) → P p → P (start_impl ids p).1)
        → AllKept P names d.pools
        → is_start op ≡ true
        → AllKept P names (perform joined op d).1.pools
    unfolding perform Dispatcher.start
    starts-AllKept joined (starts ids) d start h e =
        let all_started = start_all-AllKept ids d.pools start h.1 in
        (all_started.0 ∙ h.0, all_started.1)
    starts-AllKept joined stops d start h e = absurd cc
    starts-AllKept joined (cancels_pending _ _) d start h e = absurd cc
    starts-AllKept joined (cancels _ _ _ _ _) d start h e = absurd cc
    starts-AllKept joined (dispatches_task _ _ _) d start h e = absurd cc
    starts-AllKept joined (dispatches_request _ _ _ _) d start h e = absurd cc
    starts-AllKept joined (dispatches _ _ _ _ _) d start h e = absurd cc
    starts-AllKept joined (asserts _ _) d start h e = absurd cc
    starts-AllKept joined (dispatches_or_executes _ _ _ _ _ _ _) d start h e = absurd cc

    -- Any call but `start` and `stop`; for these, their own lemmas.
    pub perform-AllKept :
        (joined : Pool Task → Pool Task) (op : Op) (d : Dispatcher)
        → AllKept P names d.pools
        → (is_start op ≡ true → AllKept P names (perform joined op d).1.pools)
        → (is_stop op ≡ true → AllKept P names (perform joined op d).1.pools)
        → AllKept P names (perform joined op d).1.pools
    unfolding perform Dispatcher.cancel Dispatcher.dispatch Dispatcher.dispatch_task
        Dispatcher.make_task Dispatcher.new_request_id Dispatcher.assert_execution_context
    perform-AllKept joined (starts ids) d h j k = j refl
    perform-AllKept joined stops d h j k = k refl
    perform-AllKept joined (cancels_pending name id) d h j k = cancel_pending-AllKept name id d h
    perform-AllKept joined (cancels choice now name id f) d h j k =
        dispatch-AllKept choice now name (callable f) [] (Dispatcher.cancel_pending name id d)
          (cancel_pending-AllKept name id d h)
    perform-AllKept joined (dispatches_task choice name task) d h j k =
        dispatch_request-AllKept choice name _ task _ h
    perform-AllKept joined (dispatches_request choice name id task) d h j k =
        dispatch_request-AllKept choice name id task d h
    perform-AllKept joined (dispatches choice now name target args) d h j k =
        dispatch-AllKept choice now name target args d h
    perform-AllKept joined (asserts self name) d h j k =
        elim (assert_execution_context_lem self name d) [
          | inl (_, e) ↦ rw e h
          | inr (inl (_, _, _, e)) ↦ rw e h
          | inr (inr (_, _, _, e)) ↦ rw e h
        ]
    perform-AllKept joined (dispatches_or_executes outcome self choice now name target args) d h j
          k =
        subst (λ (s : Dispatcher × Unit {0}). AllKept P names s.0.pools) (sym (and_then-state _ tt))
          (dispatch_or_execute-AllKept outcome self choice now name target args d h)
