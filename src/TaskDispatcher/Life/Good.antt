-- ===== src/TaskDispatcher/Life/Good.antt =====
-- ThreadPoolImpl.hpp: a pool of a dispatcher over the steps of its clients, its workers and `stop`.
use uni_tasks.Prelude.{
  ℕ, ◌≡◌, ◌≢◌, ◌≤◌, ◌<◌, refl, ap, Bool, false, some, List, [], count, length, inl, inr, arith,
}
use uni_tasks.Prelude.Int.{ℤ}
use uni_tasks.Tasks.{Task}
use uni_tasks.Pool.{Thread, join, on_one_of_threads_impl}
use uni_tasks.Pool.Tasks.{task_type}
use uni_tasks.Pool.System
use uni_tasks.Pool.System.{Control, free}
use uni_tasks.Pool.System.Drained.{join-all_done}
use uni_tasks.TaskDispatcher.Life.{Way, by_stop, by_destructor, CanStop, begins_stop, joined}
use uni_tasks.TaskDispatcher.Life.Used.{IsUsed, Step-IsUsed}
use uni_tasks.Pool.System.Awake.{Reach-Awake}
use uni_tasks.TaskDispatcher.Life.Manned.{IsManned, Step-IsManned}
use uni_tasks.TaskDispatcher.Life.Settled.{Settled, through}

-- A pool that is to have at least one thread, in a state that it can reach.
pub record Good (u : System.System Task) : Type 0 where
  pub n : ℕ
  pub now : ℤ
  pub positive : 0 < n
  pub reached : System.Reach task_type (System.initial n now) u
  pub manned : IsManned n u.pool
  pub used : IsUsed u

some_element {ℓ} : {A : Type ℓ} (xs : List A) → 0 < length xs → xs ≢ []
some_element xs h e = absurd (omega (arith, h, ap length e))

-- The step that the begin of a pool's `stop` or destructor is, and the one that the end of its `join`
-- is.
pub stop-Step :
    (way : Way) (u : System.System Task)
    → u.control ≡ free
    → CanStop way u
    → System.Step task_type u (begins_stop way u)
stop-Step by_stop u c on = System.stop c (rw on refl)
stop-Step by_destructor u c on = System.destroy c refl

pub join-Step :
    (self : ℕ) (u : System.System Task) (ths : List (Thread Task))
    → u.control ≡ System.joining
    → join self u.pool.threads ≡ some ths
    → System.Step task_type u (joined ths u)
join-Step self u ths c back = System.joins self ths c back refl

pub Step-Good : {u v : System.System Task} → System.Step task_type u v → Good u → Good v
Step-Good st g = record {
  n = g.n;
  now = g.now;
  positive = g.positive;
  reached = System.next g.reached st;
  manned = (Step-IsManned task_type g.n st g.manned).0;
  used = Step-IsUsed task_type g.n g.positive st g.manned g.used;
}

-- A pool that was joined from outside has done with its tasks.
pub join-Settled :
    (self : ℕ) (u : System.System Task) (ths : List (Thread Task))
    → u.control ≡ System.joining
    → join self u.pool.threads ≡ some ths
    → on_one_of_threads_impl self u.pool ≡ false
    → Good u
    → Settled task_type (joined ths u)
join-Settled self u ths c back off g = record {
  shut = (Reach-Awake task_type g.n g.now g.reached).shut (rw c refl);
  done = λ f. by_use f g.used;
}
  where
    by_use : (f : Task → Bool) → IsUsed u → count f u.accepted ≤ through task_type f u
    by_use f (inl fresh) = omega (arith, ap (count f) fresh.no_tasks)
    by_use f (inr some_thread) = omega (
      arith,
      (join-all_done task_type g.n g.now self ths g.reached
            (some_element u.pool.threads some_thread) off back).2
          f,
    )
