-- ===== src/Dispatcher/Pools.antt =====
-- TaskDispatcherImpl.cpp: the map of pools, its construction, and `start` and `stop` of them all.
use uni_tasks.Prelude.{
  ℕ, String, str_eq, eq_iff, ◌≡◌, ◌≢◌, refl, subst, Bool, true, false, not, Option, some, none, ◌⊎◌,
  inl, inr, List, [], ◌∷◌, ◌++◌, All, any, Bool-cases, Option-cases, arith, if◌then◌else◌,
}
use uni_tasks.Errors.{
  ok, throw, logic_error, unknown_thread_pool, Call, pool_already_started, pool_already_stopped,
}
use uni_tasks.Tasks.{Task}
use uni_tasks.Pool.{Pool, new_pool, start_impl, begin_stop}
use uni_tasks.Dispatcher.{
  Dispatcher, Pools, on_pool, find, update, emplace, configure, start_all, stop_all,
}

pub find-update_self :
    (name : String) (p q : Pool Task) (ps : Pools)
    → find name ps ≡ some p
    → find name (update name q ps) ≡ some q
unfolding find update
find-update_self name p q [] h = cc
find-update_self name p q ((n, r) ∷ ps) h = ground (arith, find-update_self name p q ps)

pub find-update_ne :
    (name other : String) (q : Pool Task) (ps : Pools)
    → name ≢ other
    → find other (update name q ps) ≡ find other ps
unfolding find update
find-update_ne name other q [] ne = refl
find-update_ne name other q ((n, r) ∷ ps) ne =
    ground (arith, eq_iff n name, eq_iff n other, find-update_ne name other q ps ne)

-- A reference that nothing is changed through.
pub update-find :
    (name : String) (p : Pool Task) (ps : Pools) → find name ps ≡ some p → update name p ps ≡ ps
unfolding find update
update-find name p [] h = refl
update-find name p ((n, r) ∷ ps) h = ground (arith, update-find name p ps)

-- A call on the pool of a name, where there is none and where there is one.
pub on_pool-none {ℓ} :
    {R : Type ℓ} (name : String) (f : Call (Pool Task) R) (d : Dispatcher)
    → find name d.pools ≡ none
    → on_pool name f d ≡ (throw (logic_error (unknown_thread_pool name)), d)
unfolding on_pool
on_pool-none name f d h = rw (h, on_pool)

pub on_pool-some {ℓ} :
    {R : Type ℓ} (name : String) (f : Call (Pool Task) R) (d : Dispatcher) (p : Pool Task)
    → find name d.pools ≡ some p
    → on_pool name f d ≡ ((f p).0, record d { pools = update name (f p).1 d.pools })
unfolding on_pool
on_pool-some name f d p h = rw (h, on_pool)

-- The first of two pools.
abbrev pub or_else : Option (Pool Task) → Option (Pool Task) → Option (Pool Task)
or_else (some p) q = some p
or_else none q = q

or_else-none : (p : Option (Pool Task)) → p ≡ or_else p none
or_else-none none = refl
or_else-none (some p) = refl

-- The pool of the first configuration of a name.
pub configured : String → List (String × ℕ) → Option (Pool Task)
unfolding new_pool
configured name [] = none
configured name ((n, threads_count) ∷ cs) =
    let rest = configured name cs in if str_eq n name then some (new_pool threads_count) else rest

find-append :
    (name : String) (ps qs : Pools) → find name (ps ++ qs) ≡ or_else (find name ps) (find name qs)
unfolding find
find-append name [] qs = refl
find-append name ((n, p) ∷ ps) qs = ground (arith, find-append name ps qs)

find-emplace :
    (name n : String) (threads_count : ℕ) (ps : Pools)
    → find name (emplace n threads_count ps)
      ≡ or_else (find name ps) (if str_eq n name then some (new_pool threads_count) else none)
unfolding emplace
find-emplace name n threads_count ps = elim (Option-cases (find n ps)) [
  | inl e ↦ rw (e, emplace) (find-append name ps ((n, new_pool threads_count) ∷ []))
  | inr (p, e) ↦ rw (e, emplace) (kept p e (Bool-cases (str_eq n name)))
]
  where
    kept :
        (p : Pool Task)
        → find n ps ≡ some p
        → (str_eq n name ≡ true) ⊎ (str_eq n name ≡ false)
        → find name ps
          ≡ or_else (find name ps) (if str_eq n name then some (new_pool threads_count) else none)
    kept p e (inl same) =
        let found : find name ps ≡ some p =
          subst (λ k. find k ps ≡ some p) ((eq_iff n name).0 same) e in
        rw found
    kept p e (inr other) = rw other (or_else-none (find name ps))

find-configure_from :
    (name : String) (cs : List (String × ℕ)) (ps : Pools)
    → find name (configure cs ps) ≡ or_else (find name ps) (configured name cs)
unfolding configure configured
find-configure_from name [] ps = ground arith
find-configure_from name ((n, threads_count) ∷ cs) ps = ground (
  arith,
  find-configure_from name cs (emplace n threads_count ps),
  find-emplace name n threads_count ps,
)

-- The constructor of the dispatcher makes one pool for each name that is configured, and of
-- several configurations of a name the first one counts.
pub find-configure :
    (name : String) (cs : List (String × ℕ)) → find name (configure cs []) ≡ configured name cs
unfolding find
find-configure name cs = find-configure_from name cs []

abbrev pub is_started : String × Pool Task → Bool
is_started e = e.1.started

-- `start` of the dispatcher throws that a pool was already started if one of its pools was started
-- before; else it comes back and every pool is started.
pub start_all_lem :
    (ids : String → ℕ → ℕ) (ps : Pools)
    → ((any is_started ps ≡ true)
        × ((start_all ids ps).0 ≡ throw (logic_error pool_already_started)))
      ⊎ ((any is_started ps ≡ false)
          × ((start_all ids ps).0 ≡ ok tt)
          × All (λ e. is_started e ≡ true) (start_all ids ps).1)
unfolding start_all start_impl
start_all_lem ids [] = inr (refl, refl, tt)
start_all_lem ids ((n, p) ∷ ps) = ground (arith, start_all_lem ids ps)

-- If what happens in a pool until its `join` comes back neither starts nor stops it, then `stop`
-- of the dispatcher throws that a pool was already stopped if one of its pools was not started
-- before; else it comes back and no pool is started.
pub stop_all_lem :
    (joined : Pool Task → Pool Task) (ps : Pools)
    → ((p : Pool Task) → (joined p).started ≡ p.started)
    → ((any (λ e. not (is_started e)) ps ≡ true)
        × ((stop_all joined ps).0 ≡ throw (logic_error pool_already_stopped)))
      ⊎ ((any (λ e. not (is_started e)) ps ≡ false)
          × ((stop_all joined ps).0 ≡ ok tt)
          × All (λ e. is_started e ≡ false) (stop_all joined ps).1)
unfolding stop_all begin_stop
stop_all_lem joined [] keeps = inr (refl, refl, tt)
stop_all_lem joined ((n, p) ∷ ps) keeps =
    ground (arith, stop_all_lem joined ps keeps, keeps (begin_stop p).1)
