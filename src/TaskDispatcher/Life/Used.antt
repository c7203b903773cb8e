-- ===== src/TaskDispatcher/Life/Used.antt =====
-- ThreadPoolImpl.hpp: a pool that has no threads, over the steps of its clients and workers.
use uni_tasks.Prelude.{
  ℕ, ◌≡◌, ◌<◌, refl, sym, ap, ◌∙◌, subst, false, List, [], ◌∷◌, ◌++◌, map, length, length-append,
  ◌⊎◌, inl, inr, arith,
}
use uni_tasks.Pool.{
  TaskType, wake_thread, Pool, start_impl, spawn, notify_all, throw_if_stopped, clear_started,
  close_queue, wake_all, cancel_pending_impl,
}
use uni_tasks.Pool.Calls.{joined, join-some}
use uni_tasks.Pool.System.{
  System, cancel, Step, tick, start, stop, destroy, closes, notifies, joins, begin_add, end_add,
  cancels, turn, wakes, finishes,
}
use uni_tasks.TaskDispatcher.Life.Manned.{length-spawn, IsManned, Step-IsManned}

module _ {ℓ} {A : Type ℓ} where
  -- The pool has not been started yet, and nothing was given to it.
  pub record Fresh (s : System A) : Type ℓ where
    pub off : s.pool.started ≡ false
    pub none : s.pool.threads ≡ []
    pub no_calls : s.adding ≡ []
    pub no_tasks : s.accepted ≡ []

  -- A pool is fresh, or has a thread.
  abbrev pub IsUsed : System A → Type ℓ
  IsUsed s = Fresh s ⊎ (0 < length s.pool.threads)

not_in_none {ℓ} :
    {A : Type ℓ} (xs front : List A) (x : A) (back : List A) → xs ≡ [] → xs ≡ front ++ x ∷ back → ⊥
not_in_none xs front x back none at =
    omega (arith, ap length (sym none ∙ at), length-append front (x ∷ back))

module _ {ℓ} {A : Type ℓ} (T : TaskType A) (n : ℕ) (positive : 0 < n) where
  start-begins :
      (ids : ℕ → ℕ) (p : Pool A)
      → IsManned n p
      → p.started ≡ false
      → 0 < length (start_impl ids p).1.threads
  unfolding start_impl
  start-begins ids p m off = rw off (
      omega (
        arith,
        positive,
        m.same,
        length-append p.threads (spawn p.threads_count ids),
        length-spawn A p.threads_count ids,
      ))

  Step-Fresh : {s t : System A} → Step T s t → IsManned n s.pool → Fresh s → IsUsed t
  unfolding close_queue wake_all notify_all cancel cancel_pending_impl clear_started
      throw_if_stopped
  Step-Fresh (tick later le e) m f =
      subst IsUsed (sym e)
        (inl (record { off = f.off; none = f.none; no_calls = f.no_calls; no_tasks = f.no_tasks }))
  Step-Fresh {s} (start ids _ e) m f = subst IsUsed (sym e) (inr (start-begins ids s.pool m f.off))
  Step-Fresh {s} (stop _ e) m f = subst IsUsed (sym e) (
      inl (record {
        off = rw (f.off, clear_started) refl;
        none = rw (f.off, clear_started) f.none;
        no_calls = f.no_calls;
        no_tasks = f.no_tasks;
      }))
  Step-Fresh (destroy _ e) m f =
      subst IsUsed (sym e)
        (inl (record { off = f.off; none = f.none; no_calls = f.no_calls; no_tasks = f.no_tasks }))
  Step-Fresh (closes _ e) m f =
      subst IsUsed (sym e)
        (inl (record { off = f.off; none = f.none; no_calls = f.no_calls; no_tasks = f.no_tasks }))
  Step-Fresh {s} (notifies _ e) m f = subst IsUsed (sym e) (
      inl (record {
        off = f.off;
        none = ap (map wake_thread) f.none;
        no_calls = f.no_calls;
        no_tasks = f.no_tasks;
      }))
  Step-Fresh {s} (joins self ths _ all e) m f = subst IsUsed (sym e) (
      inl (record {
        off = f.off;
        none = (join-some self s.pool.threads ths all).0 ∙ ap (map (joined self)) f.none;
        no_calls = f.no_calls;
        no_tasks = f.no_tasks;
      }))
  Step-Fresh {s} (begin_add x on e) m f = absurd (ground (arith, f.off, on))
  Step-Fresh {s} (end_add choice front x back at e) m f =
      absurd (not_in_none s.adding front x back f.no_calls at)
  Step-Fresh (cancels id e) m f =
      subst IsUsed (sym e)
        (inl (record { off = f.off; none = f.none; no_calls = f.no_calls; no_tasks = f.no_tasks }))
  Step-Fresh {s} (turn front th back at _ e) m f =
      absurd (not_in_none s.pool.threads front th back f.none at)
  Step-Fresh {s} (wakes front th back at _ e) m f =
      absurd (not_in_none s.pool.threads front th back f.none at)
  Step-Fresh {s} (finishes front th back x r stage at _ _ e) m f =
      absurd (not_in_none s.pool.threads front th back f.none at)

  pub Step-IsUsed : {s t : System A} → Step T s t → IsManned n s.pool → IsUsed s → IsUsed t
  Step-IsUsed st m (inl f) = Step-Fresh st m f
  Step-IsUsed st m (inr some_thread) = inr (omega (arith, some_thread, (Step-IsManned T n st m).1))
