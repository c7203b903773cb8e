-- ===== src/Request.antt =====
-- src/uni/common/RequestImpl.cpp and RequestImpl.hpp, with Request.cpp and RequestFactory.cpp that
-- forward to them: a request that is started and cancelled through callbacks of its creator.
pub mod Lifecycle
pub mod Within
pub mod Threads
use uni_tasks.Prelude.{
  ℕ, ◌+◌, ◌&&◌, bit, Bool, true, false, Option, some, none, List, [], ◌∷◌, if◌then◌else◌,
}
use uni_tasks.Ids.{RequestId}
use uni_tasks.Errors.{
  Result, ok, throw, logic_error, request_already_started, request_already_cancelled,
  bad_function_call, Call, is_ok,
}

-- `F` is what a `std::shared_future< void >` refers to; `none` is a future without a state. A
-- callback is the number of a function of the creator's, or an empty `std::function`.
pub record Request {ℓ} (F : Type ℓ) : Type ℓ where
  pub request_id : RequestId
  pub start_callback : Option ℕ
  pub cancel_callback : Option ℕ
  pub started : Bool
  pub future : Option F

-- The code of the callbacks, which may use the request itself; `W` is the rest of the program.
pub record Callbacks {ℓ} (F W : Type ℓ) : Type ℓ where
  pub on_start : ℕ → Call (Request F × W) (Option F)
  pub on_cancel : ℕ → Option F → Call (Request F × W) (Unit {0})

module _ {ℓ} {F : Type ℓ} where
  -- The constructor of RequestImpl.
  unfoldable pub new_request_impl : RequestId → (start cancel : ℕ) → Request F
  new_request_impl id start cancel = record {
    request_id = id;
    start_callback = some start;
    cancel_callback = some cancel;
    started = false;
    future = none;
  }

  -- The constructor of Request. Its copies share the RequestImpl, so one value stands for all.
  abbrev pub new_request : RequestId → (start cancel : ℕ) → Request F
  new_request id start cancel = new_request_impl id start cancel

  abbrev pub create_request : RequestId → (start cancel : ℕ) → Request F
  create_request id start cancel = new_request id start cancel

  unfoldable pub request_id_impl : Request F → RequestId
  request_id_impl r = r.request_id

  abbrev pub get_request_id : Request F → RequestId
  get_request_id r = request_id_impl r

module _ {ℓ} {F W : Type ℓ} (code : Callbacks F W) where
  open code use {on_start, on_cancel}

  -- After the call of the start callback: it is dropped, unless it threw.
  keep_future : Result (Option F) × (Request F × W) → Result (Unit {0}) × (Request F × W)
  keep_future (ok future, (r, w)) =
      (ok tt, (record r { future = future; start_callback = none }, w))
  keep_future (throw e, s) = (throw e, s)

  begin : Option ℕ → Call (Request F × W) (Unit {0})
  unfolding keep_future
  begin none s = (throw bad_function_call, s)
  begin (some f) s = keep_future (on_start f s)

  unfoldable pub start_impl : Call (Request F × W) (Unit {0})
  unfolding begin
  start_impl (r, w) =
      if r.started
      then (throw (logic_error request_already_started), (r, w))
      else begin r.start_callback (record r { started = true }, w)

  drop_cancel : Result (Unit {0}) × (Request F × W) → Result (Unit {0}) × (Request F × W)
  drop_cancel (ok _, (r, w)) = (ok tt, (record r { cancel_callback = none }, w))
  drop_cancel (throw e, s) = (throw e, s)

  -- `future` has been moved into the argument of the callback.
  end : Option ℕ → Option F → Call (Request F × W) (Unit {0})
  unfolding drop_cancel
  end none future s = (throw bad_function_call, s)
  end (some f) future s = drop_cancel (on_cancel f future s)

  unfoldable pub cancel_impl : Call (Request F × W) (Unit {0})
  unfolding end
  cancel_impl (r, w) =
      if r.started
      then end r.cancel_callback r.future (record r { started = false; future = none }, w)
      else (throw (logic_error request_already_cancelled), (r, w))

  abbrev pub start : Call (Request F × W) (Unit {0})
  start s = start_impl s

  abbrev pub cancel : Call (Request F × W) (Unit {0})
  cancel s = cancel_impl s

-- Calls of `start` and `cancel`.
pub data Op : Type 0 where
  starts cancels : Op

abbrev pub is_start : Op → Bool
is_start starts = true
is_start cancels = false

module _ {ℓ} {F W : Type ℓ} (code : Callbacks F W) where
  abbrev pub perform : Op → Call (Request F × W) (Unit {0})
  perform starts = start code
  perform cancels = cancel code

  -- How many calls of one kind come back, of a list of calls whose exceptions the caller catches.
  pub successes : (Op → Bool) → List Op → Request F × W → ℕ
  successes kind [] s = 0
  successes kind (op ∷ ops) s =
      let (r, s') = perform op s in bit (kind op && is_ok r) + successes kind ops s'
