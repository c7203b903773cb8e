-- ===== src/Dispatcher/Execute.antt =====
-- TaskDispatcherImpl.hpp, `dispatch_or_execute_impl`, and `assert_execution_context_impl`.
use uni_tasks.Prelude.{
  ℕ, String, ◌≡◌, refl, Bool, true, false, some, none, ◌⊎◌, inl, inr, List, Bool-cases,
  Option-cases,
}
use uni_tasks.Prelude.Int.{ℤ}
use uni_tasks.Errors.{
  Result, ok, throw, logic_error, unknown_thread_pool, wrong_thread_pool, Call, and_then,
}
use uni_tasks.Tasks.{Task, Callee}
use uni_tasks.Factory.{
  Target, callable, method, member, const_member, wrapped, wrapper, const_wrapper, callee_of,
}
use uni_tasks.Pool.{Pool, on_one_of_threads_impl}
use uni_tasks.Dispatcher.{
  Dispatcher, find, update, dispatch, assert_execution_context, either_way, dispatch_or_execute,
}
use uni_tasks.Dispatcher.Pools.{on_pool-none, on_pool-some, update-find}

-- `assert_execution_context` changes nothing. It throws that the pool is unknown if there is none
-- of that name, comes back if the calling thread is one of the pool's threads, and throws that it
-- is the wrong pool else.
pub assert_execution_context_lem :
    (self : ℕ) (name : String) (d : Dispatcher)
    → ((find name d.pools ≡ none)
        × (assert_execution_context self name d
            ≡ (throw (logic_error (unknown_thread_pool name)), d)))
      ⊎ ((p : Pool Task) × (find name d.pools ≡ some p)
          × (on_one_of_threads_impl self p ≡ true)
          × (assert_execution_context self name d ≡ (ok tt, d)))
      ⊎ ((p : Pool Task) × (find name d.pools ≡ some p)
          × (on_one_of_threads_impl self p ≡ false)
          × (assert_execution_context self name d
              ≡ (throw (logic_error (wrong_thread_pool name)), d)))
unfolding assert_execution_context
assert_execution_context_lem self name d = elim (Option-cases (find name d.pools)) [
  | inl e ↦ inl (e, on_pool-none name _ d e)
  | inr (p, e) ↦ elim (Bool-cases (on_one_of_threads_impl self p)) [
    | inl on ↦ inr (inl (p, e, on, rw (on_pool-some name _ d p e, on) (same p e)))
    | inr off ↦ inr (inr (p, e, off, rw (on_pool-some name _ d p e, off) (same p e)))
  ]
]
  where
    same :
        {r : Result (Unit {0})} (p : Pool Task)
        → find name d.pools ≡ some p
        → ◌≡◌ {A = Result (Unit {0}) × Dispatcher}
            (r, record d { pools = update name p d.pools })
            (r, d)
    same p e = rw (update-find name p d.pools e)

module _ {ℓ} {W : Type ℓ} (call : Callee → Call (Dispatcher × W) (Unit {0})) (self choice : ℕ)
    (now : ℤ) (name : String) where
  -- On a thread of the pool: the callee is called at once, and `true` comes back unless it throws.
  -- Elsewhere: the task goes to the pool, and `false` comes back unless that throws.
  abbrev pub Either :
      Target
      → Callee
      → List ℕ
      → Dispatcher
      → W
      → Pool Task
      → Result Bool × (Dispatcher × W)
      → Type ℓ
  Either target callee args d w p r =
      ((on_one_of_threads_impl self p ≡ true)
        × (r ≡ and_then (call callee (d, w)) (λ _ s. (ok true, s))))
      ⊎ ((on_one_of_threads_impl self p ≡ false)
          × (r
              ≡ and_then
                  (
                    (dispatch choice now name target args d).0,
                    ((dispatch choice now name target args d).1, w),
                  )
                  (λ _ s. (ok false, s))))

  either_way-Either :
      (target : Target) (callee : Callee) (args : List ℕ) (d : Dispatcher) (w : W) (p : Pool Task)
      → find name d.pools ≡ some p
      → Either target callee args d w p
          (either_way call self choice now name target callee args (d, w))
  unfolding either_way
  either_way-Either target callee args d w p h = elim (Bool-cases (on_one_of_threads_impl self p)) [
    | inl on ↦ inl (on, rw (h, either_way, on) refl)
    | inr off ↦ inr (off, rw (h, either_way, off) refl)
  ]

  -- The overload that `dispatch_or_execute` hands on to `dispatch`: pointers have become wrappers.
  abbrev pub handed_on : Target → Target
  handed_on (callable f) = callable f
  handed_on (method object (member f)) = method object (wrapped (wrapper f))
  handed_on (method object (const_member f)) = method object (wrapped (const_wrapper f))
  handed_on (method object (wrapped f)) = method object (wrapped f)

  -- If the named pool exists, every overload of `dispatch_or_execute` does one of two things. On a
  -- thread of the pool it calls the callee that is meant, and returns true unless that throws.
  -- Elsewhere it dispatches a task for it, and returns false unless that throws.
  pub dispatch_or_execute_lem :
      (target : Target) (args : List ℕ) (d : Dispatcher) (w : W) (p : Pool Task)
      → find name d.pools ≡ some p
      → Either
          (handed_on target)
          (callee_of target args)
          args
          d
          w
          p
          (dispatch_or_execute call self choice now name target args (d, w))
  unfolding dispatch_or_execute
  dispatch_or_execute_lem (callable f) args d w p h = either_way-Either _ _ args d w p h
  dispatch_or_execute_lem (method o (member f)) args d w p h = either_way-Either _ _ args d w p h
  dispatch_or_execute_lem (method o (const_member f)) args d w p h =
      either_way-Either _ _ args d w p h
  dispatch_or_execute_lem (method o (wrapped (wrapper f))) args d w p h =
      either_way-Either _ _ args d w p h
  dispatch_or_execute_lem (method o (wrapped (const_wrapper f))) args d w p h =
      either_way-Either _ _ args d w p h

  either_way-none :
      (target : Target) (callee : Callee) (args : List ℕ) (d : Dispatcher) (w : W)
      → find name d.pools ≡ none
      → either_way call self choice now name target callee args (d, w)
        ≡ (throw (logic_error (unknown_thread_pool name)), (d, w))
  unfolding either_way
  either_way-none target callee args d w h = rw (h, either_way) refl

  pub dispatch_or_execute-none :
      (target : Target) (args : List ℕ) (d : Dispatcher) (w : W)
      → find name d.pools ≡ none
      → dispatch_or_execute call self choice now name target args (d, w)
        ≡ (throw (logic_error (unknown_thread_pool name)), (d, w))
  unfolding dispatch_or_execute
  dispatch_or_execute-none (callable f) args d w h = either_way-none _ _ args d w h
  dispatch_or_execute-none (method o (member f)) args d w h = either_way-none _ _ args d w h
  dispatch_or_execute-none (method o (const_member f)) args d w h = either_way-none _ _ args d w h
  dispatch_or_execute-none (method o (wrapped f)) args d w h = either_way-none _ _ args d w h
