-- ===== src/TaskDispatcher/Life.antt =====
-- TaskDispatcherImpl.cpp, its constructor, `stop_impl` and its destructor, with the pools among
-- their clients and workers: one step is one step of one pool, or what the thread that stops the
-- dispatcher does between two of them. The steps come in any order. The clocks of the pools run
-- apart, which allows all that one clock does.
pub mod Manned
pub mod Used
pub mod Settled
pub mod Good
pub mod Configured
pub mod Passed
pub mod Stopped
pub mod Ends
pub mod Made
pub mod Answered
use uni_tasks.Prelude.{
  ℕ, suc, String, ◌≡◌, Bool, true, false, not, ◌&&◌, some, List, [], ◌∷◌, ◌++◌, map, length,
}
use uni_tasks.Prelude.Int.{ℤ}
use uni_tasks.Tasks.{Task}
use uni_tasks.Pool.{Pool, Thread, clear_started, join, on_one_of_threads_impl}
use uni_tasks.Pool.Tasks.{task_type}
use uni_tasks.Pool.System.{
  System, Control, free, closing, joining, initial as new_system, Step as PoolStep,
}
use uni_tasks.Dispatcher.{Pools, configure}

abbrev pub Systems : Type 0
Systems = List (String × System Task)

-- The dispatcher is stopped by `stop`, or by its destructor, which destroys the pools.
pub data Way : Type 0 where
  by_stop : Way
  by_destructor : Way

-- How far a call of `stop` or of the destructor has come: it is at the pool with this index in the
-- order of the iteration, called by the thread `self`.
pub data Stopping : Type 0 where
  no_stop : Stopping
  stopping : Way → (self : ℕ) (index : ℕ) → Stopping
  came_back : Way → Stopping

-- The pools with their clients and workers, the call that stops them, and whether its thread was
-- in none of the pools that it has joined.
pub record Program : Type 0 where
  pub systems : Systems
  pub call : Stopping
  pub outside : Bool

-- The pool that the constructor makes, before any call.
abbrev pub idle : ℤ → Pool Task → System Task
idle now p = record (new_system 0 now) { pool = p }

unfoldable pub initial : List (String × ℕ) → ℤ → Program
initial configurations now = record {
  systems = map (λ e. (e.0, idle now e.1)) (configure configurations []);
  call = no_stop;
  outside = true;
}

abbrev pub is_free : Control → Bool
is_free free = true
is_free _ = false

-- A call may begin when none is under way and the dispatcher is not destroyed.
abbrev pub may_begin : Stopping → Bool
may_begin no_stop = true
may_begin (came_back by_stop) = true
may_begin _ = false

-- The program with the pool between `front` and `back` in another state.
abbrev pub with_system : Systems → String → System Task → Systems → Program → Program
with_system front name v back p = record p { systems = front ++ (name, v) ∷ back }

-- `stop` of a pool asks that it is started, and stores that it is not; the destructor does neither.
abbrev pub CanStop : Way → System Task → Type 0
CanStop by_stop u = u.pool.started ≡ true
CanStop by_destructor u = Unit

abbrev pub begins_stop : Way → System Task → System Task
begins_stop by_stop u = record u { pool = (clear_started u.pool).1; control = closing }
begins_stop by_destructor u = record u { control = closing }

abbrev pub joined : List (Thread Task) → System Task → System Task
joined ths u = record u { pool = record u.pool { threads = ths }; control = free }

pub data Step (p q : Program) : Type 0 where
  -- Any step of a pool but the begin and the end of its `stop` or destructor: a call of a client, a
  -- turn of a worker, or the close and the notification.
  within :
      (front : Systems) (name : String) (u v : System Task) (back : Systems)
      → p.systems ≡ front ++ (name, u) ∷ back
      → PoolStep task_type u v
      → is_free v.control ≡ is_free u.control
      → q ≡ with_system front name v back p
      → Step p q
  begins :
      (way : Way) (self : ℕ)
      → may_begin p.call ≡ true
      → q ≡ record p { call = stopping way self 0; outside = true }
      → Step p q
  stops :
      (way : Way) (self : ℕ) (front : Systems) (name : String) (u : System Task) (back : Systems)
      → p.call ≡ stopping way self (length front)
      → p.systems ≡ front ++ (name, u) ∷ back
      → u.control ≡ free
      → CanStop way u
      → q ≡ with_system front name (begins_stop way u) back p
      → Step p q
  -- `stop` of a pool that is not started throws, and `stop` of the dispatcher with it.
  throws :
      (self : ℕ) (front : Systems) (name : String) (u : System Task) (back : Systems)
      → p.call ≡ stopping by_stop self (length front)
      → p.systems ≡ front ++ (name, u) ∷ back
      → u.control ≡ free
      → u.pool.started ≡ false
      → q ≡ record p { call = no_stop }
      → Step p q
  joins :
      (way : Way) (self : ℕ) (front : Systems) (name : String) (u : System Task) (back : Systems)
      (ths : List (Thread Task))
      → p.call ≡ stopping way self (length front)
      → p.systems ≡ front ++ (name, u) ∷ back
      → u.control ≡ joining
      → join self u.pool.threads ≡ some ths
      → q ≡ record (with_system front name (joined ths u) back p) {
        call = stopping way self (suc (length front));
        outside = p.outside && not (on_one_of_threads_impl self u.pool);
      }
      → Step p q
  comes_back :
      (way : Way) (self : ℕ)
      → p.call ≡ stopping way self (length p.systems)
      → q ≡ record p { call = came_back way }
      → Step p q

pub data Reach (s : Program) : Program → Type 0 where
  here : Reach s s
  next : {p q : Program} → Reach s p → Step p q → Reach s q
