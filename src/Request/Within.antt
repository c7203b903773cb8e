-- ===== src/Request/Within.antt =====
-- RequestImpl.cpp: calls of a request from within its own callbacks.
use uni_tasks.Prelude.{ℕ, ◌≡◌, refl, true, Option, none}
use uni_tasks.Ids.{RequestId}
use uni_tasks.Errors.{ok, throw, logic_error, request_already_cancelled}
use uni_tasks.Request.Lifecycle.{spent}
use uni_tasks.Request.{
  Callbacks, new_request_impl, create_request, start_impl, cancel_impl, start, cancel,
}

module _ {ℓ} {F W : Type ℓ} (code : Callbacks F W) where
  open code use {on_start, on_cancel}

  -- If the start callback of a new request cancels the request, both callbacks come back, and the
  -- cancel callback leaves the request alone, then `start` comes back, and yet the request is not
  -- started, holds the future that the start callback returned, and `cancel` throws that it was
  -- already cancelled.
  pub cancel_within_start :
      (id : RequestId) (f g : ℕ) (w w' : W) (future : Option F)
      → on_start f (record (create_request id f g) { started = true }, w)
        ≡ (ok future, (cancel code (record (create_request id f g) { started = true }, w)).1)
      → on_cancel g none (create_request id f g, w) ≡ (ok tt, (create_request id f g, w'))
      → (start code (create_request id f g, w)
          ≡ (ok tt, (record (spent id) { future = future }, w')))
        × (cancel code (record (spent id) { future = future }, w') ≡ (
          throw (logic_error request_already_cancelled),
          (record (spent id) { future = future }, w'),
        ))
  unfolding start_impl cancel_impl new_request_impl
  cancel_within_start id f g w w' future h k = (rw (h, k) refl, refl)
