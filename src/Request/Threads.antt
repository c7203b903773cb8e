-- ===== src/Request/Threads.antt =====
-- RequestImpl.cpp among threads: `start_impl` and `cancel_impl` cut at their accesses of the request,
-- in the order of the source. A thread makes one access, or the call of a callback, after the other;
-- in between other threads may make theirs.
pub mod Alone
pub mod Races
use uni_tasks.Prelude.{ℕ, zero, suc, true, false, Option, some, none, List, [], ◌∷◌, if◌then◌else◌}
use uni_tasks.Errors.{
  Result, ok, throw, logic_error, request_already_started, request_already_cancelled,
  bad_function_call,
}
use uni_tasks.Request.{Request, Callbacks}

-- What the thread does next.
pub data Stage {ℓ} (F : Type ℓ) : Type ℓ where
  tests_start : Stage F  -- `if ( m_started )` of `start_impl`
  marks : Stage F
  calls_start : Stage F
  stores_future : Option F → Stage F
  drops_start : Stage F
  tests_cancel : Stage F  -- `if ( !m_started )` of `cancel_impl`
  unmarks : Stage F
  calls_cancel : Stage F
  drops_cancel : Stage F
  ended : Result (Unit {0}) → Stage F

module _ {ℓ} {F W : Type ℓ} (code : Callbacks F W) where
  open code use {on_start, on_cancel}

  -- A callback that has come back, and one that has thrown.
  after_start : Result (Option F) × (Request F × W) → Stage F × (Request F × W)
  after_start (ok future, s) = (stores_future future, s)
  after_start (throw e, s) = (ended (throw e), s)

  after_cancel : Result (Unit {0}) × (Request F × W) → Stage F × (Request F × W)
  after_cancel (ok _, s) = (drops_cancel, s)
  after_cancel (throw e, s) = (ended (throw e), s)

  -- The call of a callback, or of an empty `std::function`.
  call_start : Option ℕ → Request F × W → Stage F × (Request F × W)
  unfolding after_start
  call_start none s = (ended (throw bad_function_call), s)
  call_start (some f) s = after_start (on_start f s)

  call_cancel : Option ℕ → Option F → Request F × W → Stage F × (Request F × W)
  unfolding after_cancel
  call_cancel none future s = (ended (throw bad_function_call), s)
  call_cancel (some g) future s = after_cancel (on_cancel g future s)

  -- One step of a thread. The call of a callback is one step.
  unfoldable pub advance : Stage F → Request F × W → Stage F × (Request F × W)
  unfolding call_start call_cancel
  advance tests_start (r, w) =
      if r.started
      then (ended (throw (logic_error request_already_started)), (r, w))
      else (marks, (r, w))
  advance marks (r, w) = (calls_start, (record r { started = true }, w))
  advance calls_start (r, w) = call_start r.start_callback (r, w)
  advance (stores_future future) (r, w) = (drops_start, (record r { future = future }, w))
  advance drops_start (r, w) = (ended (ok tt), (record r { start_callback = none }, w))
  advance tests_cancel (r, w) =
      if r.started
      then (unmarks, (r, w))
      else (ended (throw (logic_error request_already_cancelled)), (r, w))
  advance unmarks (r, w) = (calls_cancel, (record r { started = false }, w))
  advance calls_cancel (r, w) =
      call_cancel r.cancel_callback r.future (record r { future = none }, w)
  advance drops_cancel (r, w) = (ended (ok tt), (record r { cancel_callback = none }, w))
  advance (ended result) s = (ended result, s)

  -- A step of the thread with this index.
  unfoldable pub turn : ℕ → List (Stage F) × (Request F × W) → List (Stage F) × (Request F × W)
  unfolding advance
  turn i ([], s) = ([], s)
  turn zero (th ∷ ths, s) = let (th', s') = advance th s in (th' ∷ ths, s')
  turn (suc i) (th ∷ ths, s) = let (ths', s') = turn i (ths, s) in (th ∷ ths', s')

  -- The threads take their turns in the order of the list.
  unfoldable pub run : List ℕ → List (Stage F) × (Request F × W) → List (Stage F) × (Request F × W)
  unfolding turn
  run [] v = v
  run (i ∷ is) v = run is (turn i v)
