-- ===== src/TaskDispatcher/Life/Configured.antt =====
-- TaskDispatcherImpl.cpp: the pools that the constructor makes.
use uni_tasks.Prelude.{
  ℕ, String, ◌≡◌, ◌<◌, refl, sym, subst, List, [], ◌∷◌, map, All, All-append, inl, inr,
  Option-cases,
}
use uni_tasks.Prelude.Int.{ℤ}
use uni_tasks.Tasks.{Task}
use uni_tasks.Pool.{Pool, new_pool}
use uni_tasks.Pool.System
use uni_tasks.Pool.System.{Control, free}
use uni_tasks.Dispatcher.{Pools, find, emplace, configure}
use uni_tasks.TaskDispatcher.Life.{idle}
use uni_tasks.TaskDispatcher.Life.Good.{Good}

-- A pool of at least one thread that nothing has been done with.
unfoldable pub IsNew : String × Pool Task → Type 0
IsNew e = (n : ℕ) × (0 < n) × (e.1 ≡ new_pool n)

emplace-IsNew :
    (name : String) (n : ℕ) (ps : Pools) → 0 < n → All IsNew ps → All IsNew (emplace name n ps)
unfolding emplace IsNew
emplace-IsNew name n ps positive h = elim (Option-cases (find name ps)) [
  | inl none_there ↦
      rw (none_there, emplace)
        (All-append IsNew ps ((name, new_pool n) ∷ []) h ((n, positive, refl), tt))
  | inr (p, there) ↦ rw (there, emplace) h
]

pub configure-IsNew :
    (cs : List (String × ℕ)) (ps : Pools)
    → All (λ c. 0 < c.1) cs
    → All IsNew ps
    → All IsNew (configure cs ps)
unfolding configure
configure-IsNew [] ps positive h = h
configure-IsNew ((name, n) ∷ cs) ps positive h =
    configure-IsNew cs (emplace name n ps) positive.1 (emplace-IsNew name n ps positive.0 h)

idle-Good : (now : ℤ) (n : ℕ) (p : Pool Task) → 0 < n → p ≡ new_pool n → Good (idle now p)
unfolding new_pool
idle-Good now n p positive e =
    subst (λ q. Good (idle now q)) (sym e)
      (record {
        n = n;
        now = now;
        positive = positive;
        reached = System.here;
        manned = record { same = refl; begun = inl refl };
        used = inl (record { off = refl; none = refl; no_calls = refl; no_tasks = refl });
      })

pub idles-Good :
    (now : ℤ) (ps : Pools)
    → All IsNew ps
    → All (λ (e : String × System.System Task). Good e.1) (map (λ e. (e.0, idle now e.1)) ps)
unfolding IsNew
idles-Good now [] h = tt
idles-Good now ((name, p) ∷ ps) ((n, positive, e), h) =
    (idle-Good now n p positive e, idles-Good now ps h)
