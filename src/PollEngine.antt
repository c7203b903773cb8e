-- ===== src/PollEngine.antt =====
-- src/uni/common/PollEngine.cpp: the class that clients see. Its copies share one PollEngineImpl, so
-- one value stands for all of them, and each member function forwards to it.
use uni_tasks.Prelude.{ℕ, String, Option}
use uni_tasks.Prelude.Int.{ℤ}
use uni_tasks.Errors.{Call}
use uni_tasks.Runtime.{Runtime}
use uni_tasks.Poll.{
  State, new_engine, start_impl, stop_impl, set_poll_interval_impl, set_poll_callback_impl,
}

-- The constructor: the engine keeps a copy of the runtime, which shares the dispatcher.
abbrev pub create {ℓ} : {W : Type ℓ} → Runtime → String → W → State W
create runtime name world = record { engine = new_engine name; runtime = runtime; world = world }

module _ {ℓ} {W : Type ℓ} where
  -- `self` is the address of the PollEngineImpl and `poll` its member function `poll_impl`.
  abbrev pub start : (self poll choice : ℕ) (now : ℤ) → Call (State W) (Unit {0})
  start self poll choice now s = start_impl self poll choice now s

  abbrev pub stop : Call (State W) (Unit {0})
  stop s = stop_impl s

  abbrev pub set_poll_interval : ℤ → Call (State W) (Unit {0})
  set_poll_interval ms s = set_poll_interval_impl ms s

  abbrev pub set_poll_callback : Option ℕ → Call (State W) (Unit {0})
  set_poll_callback callback s = set_poll_callback_impl callback s
