-- ===== src/Request/Lifecycle.antt =====
-- RequestImpl.cpp: what a request does over its life.
use uni_tasks.Prelude.{
  ℕ, ◌+◌, ◌≤◌, ◌≡◌, refl, ap, Bool-cases, is_some, bit, true, false, Option, some, none, List, [],
  ◌∷◌, arith, inl, inr,
}
use uni_tasks.Ids.{RequestId}
use uni_tasks.Errors.{Result, ok, throw, bad_function_call, is_ok}
use uni_tasks.Request.{
  Request, Callbacks, new_request_impl, create_request, start_impl, cancel_impl, start, cancel,
  begin, end, keep_future, drop_cancel, Op, starts, cancels, is_start, successes,
}

-- A request that has been started and cancelled.
abbrev pub spent {ℓ} : {F : Type ℓ} → RequestId → Request F
spent id = record {
  request_id = id;
  start_callback = none;
  cancel_callback = none;
  started = false;
  future = none;
}

module _ {ℓ} {F W : Type ℓ} (code : Callbacks F W) where
  open code use {on_start, on_cancel}

  -- If both callbacks of a new request come back and leave the request itself alone, then `start`
  -- comes back, and `cancel` after it calls the cancel callback with the future that the start
  -- callback returned, in the world that this left; the request then has neither callbacks nor a
  -- future and is not started.
  pub cancel-start :
      (id : RequestId) (f g : ℕ) (w w' w'' : W) (future : Option F)
      → on_start f (record (create_request id f g) { started = true }, w)
        ≡ (ok future, (record (create_request id f g) { started = true }, w'))
      → on_cancel g future (record (create_request id f g) { start_callback = none }, w')
        ≡ (ok tt, (record (create_request id f g) { start_callback = none }, w''))
      → (start code (create_request id f g, w)).0 ≡ ok tt
        × (cancel code (start code (create_request id f g, w)).1 ≡ (ok tt, (spent id, w'')))
  unfolding start_impl cancel_impl new_request_impl
  cancel-start id f g w w' w'' future h k = (rw h refl, rw (h, k) refl)

  -- Callbacks that leave the request alone.
  pub record Apart : Type ℓ where
    pub start_apart : (f : ℕ) (s : Request F × W) → (on_start f s).1.0 ≡ s.0
    pub cancel_apart :
        (f : ℕ) (future : Option F) (s : Request F × W) → (on_cancel f future s).1.0 ≡ s.0

  begin_step :
      (callback : Option ℕ) (s : Request F × W)
      → Apart
      → s.0.start_callback ≡ callback
      → bit (is_ok (begin code callback s).0)
          + bit (is_some (begin code callback s).1.0.start_callback)
        ≤ bit (is_some callback)
  unfolding begin
  begin_step none s apart h = rw h (omega arith)
  begin_step (some f) s apart h =
      kept (on_start f s) (ap (λ r. r.start_callback) (apart.start_apart f s))
    where
      kept :
          (a : Result (Option F) × (Request F × W))
          → a.1.0.start_callback ≡ s.0.start_callback
          → bit (is_ok (keep_future code a).0)
              + bit (is_some (keep_future code a).1.0.start_callback)
            ≤ 1
      kept (ok future, s') e = omega arith
      kept (throw _, s') e = rw (e, h) (omega arith)

  start_step :
      (s : Request F × W)
      → Apart
      → bit (is_ok (start_impl code s).0) + bit (is_some (start_impl code s).1.0.start_callback)
        ≤ bit (is_some s.0.start_callback)
  unfolding start_impl
  start_step (r, w) apart = elim (Bool-cases r.started) [
    | inl e ↦ rw e (omega arith)
    | inr e ↦ rw e (begin_step r.start_callback (record r { started = true }, w) apart refl)
  ]

  end_step :
      (callback : Option ℕ) (future : Option F) (s : Request F × W)
      → Apart
      → (end code callback future s).1.0.start_callback ≡ s.0.start_callback
  unfolding end
  end_step none future s apart = refl
  end_step (some f) future s apart =
      kept (on_cancel f future s) (ap (λ r. r.start_callback) (apart.cancel_apart f future s))
    where
      kept :
          (a : Result (Unit {0}) × (Request F × W))
          → a.1.0.start_callback ≡ s.0.start_callback
          → (drop_cancel code a).1.0.start_callback ≡ s.0.start_callback
      kept (ok _, s') e = e
      kept (throw _, s') e = e

  cancel_step :
      (s : Request F × W) → Apart → (cancel_impl code s).1.0.start_callback ≡ s.0.start_callback
  unfolding cancel_impl
  cancel_step (r, w) apart = elim (Bool-cases r.started) [
    | inl e ↦
        rw e (
          end_step r.cancel_callback r.future (record r { started = false; future = none }, w)
            apart)
    | inr e ↦ rw e
  ]

  successes_le :
      (ops : List Op) (s : Request F × W)
      → Apart
      → successes code is_start ops s ≤ bit (is_some s.0.start_callback)
  unfolding successes
  successes_le [] s apart = omega arith
  successes_le (starts ∷ ops) s apart =
      omega (arith, start_step s apart, successes_le ops (start_impl code s).1 apart)
  successes_le (cancels ∷ ops) s apart = omega (
    arith,
    successes_le ops (cancel_impl code s).1 apart,
    ap (λ o. bit (is_some o)) (cancel_step s apart),
  )

  -- If the callbacks leave the request itself alone, then whatever calls of `start` and `cancel`
  -- are made of a new request, and whatever its callbacks throw, `start` comes back without an
  -- exception at most once.
  pub start_at_most_once :
      (id : RequestId) (f g : ℕ) (w : W) (ops : List Op)
      → Apart
      → successes code is_start ops (create_request id f g, w) ≤ 1
  unfolding new_request_impl
  start_at_most_once id f g w ops apart = successes_le ops (create_request id f g, w) apart

  -- If both callbacks of a new request come back and leave the request itself alone, then `start`
  -- after `start` and `cancel` throws `std::bad_function_call`, and yet the request counts as
  -- started afterwards.
  pub start-cancel :
      (id : RequestId) (f g : ℕ) (w w' w'' : W) (future : Option F)
      → on_start f (record (create_request id f g) { started = true }, w)
        ≡ (ok future, (record (create_request id f g) { started = true }, w'))
      → on_cancel g future (record (create_request id f g) { start_callback = none }, w')
        ≡ (ok tt, (record (create_request id f g) { start_callback = none }, w''))
      → start code (cancel code (start code (create_request id f g, w)).1).1
        ≡ (throw bad_function_call, (record (spent id) { started = true }, w''))
  unfolding start_impl begin
  start-cancel id f g w w' w'' future h k = rw ((cancel-start id f g w w' w'' future h k).1) refl
