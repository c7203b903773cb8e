-- ===== src/Request/Threads/Races.antt =====
-- RequestImpl.cpp: what calls that overlap can do.
use uni_tasks.Prelude.{ℕ, ◌≡◌, refl, true, Option, none, List, [], ◌∷◌}
use uni_tasks.Ids.{RequestId}
use uni_tasks.Errors.{ok}
use uni_tasks.Request.{Callbacks, new_request_impl, create_request}
use uni_tasks.Request.Threads.{tests_start, tests_cancel, ended, call_start, call_cancel, run}

module _ {ℓ} {F W : Type ℓ} (code : Callbacks F W) where
  open code use {on_start, on_cancel}

  -- If two threads call `start` of a new request whose start callback comes back twice and leaves
  -- the request alone, there is an order of their accesses in which both calls come back without
  -- an exception, the callback has been called twice, and the request holds the second future
  -- only.
  pub start_twice :
      (id : RequestId) (f g : ℕ) (w w' w'' : W) (first second : Option F)
      → on_start f (record (create_request id f g) { started = true }, w)
        ≡ (ok first, (record (create_request id f g) { started = true }, w'))
      → on_start f (record (create_request id f g) { started = true }, w')
        ≡ (ok second, (record (create_request id f g) { started = true }, w''))
      → (order : List ℕ) × (run code order
            (tests_start ∷ tests_start ∷ [], (create_request id f g, w))
          ≡ (
            ended (ok tt) ∷ ended (ok tt) ∷ [],
            (
              record (create_request id f g) {
                start_callback = none;
                started = true;
                future = second;
              },
              w'',
            ),
          ))
  unfolding run new_request_impl call_start
  start_twice id f g w w' w'' first second h k =
      (0 ∷ 1 ∷ 0 ∷ 1 ∷ 0 ∷ 1 ∷ 0 ∷ 1 ∷ 0 ∷ 1 ∷ [], rw (h, k) refl)

  -- Two threads cancel a started request: the cancel callback can be called twice, the second time
  -- without a future.
  pub cancel_twice :
      (id : RequestId) (f g : ℕ) (w w' w'' : W) (future : Option F)
      → on_cancel g future (record (create_request id f g) { start_callback = none }, w)
        ≡ (ok tt, (record (create_request id f g) { start_callback = none }, w'))
      → on_cancel g none (record (create_request id f g) { start_callback = none }, w')
        ≡ (ok tt, (record (create_request id f g) { start_callback = none }, w''))
      → (order : List ℕ) × ((run code order (
        tests_cancel ∷ tests_cancel ∷ [],
        (
          record (create_request id f g) { start_callback = none; started = true; future = future },
          w,
        ),
      )).0
          ≡ ended (ok tt) ∷ ended (ok tt) ∷ [])
  unfolding run new_request_impl call_cancel
  cancel_twice id f g w w' w'' future h k = (0 ∷ 1 ∷ 0 ∷ 1 ∷ 0 ∷ 1 ∷ 0 ∷ 1 ∷ [], rw (h, k) refl)
