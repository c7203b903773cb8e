-- ===== src/Request/Threads/Alone.antt =====
-- RequestImpl.cpp: a call that no other thread interrupts.
use uni_tasks.Prelude.{
  ℕ, zero, suc, ◌≡◌, refl, true, false, Option, some, none, Bool-cases, inl, inr,
}
use uni_tasks.Errors.{Result, ok, throw}
use uni_tasks.Request.{
  Request, Callbacks, start_impl, cancel_impl, begin, end, keep_future, drop_cancel,
}
use uni_tasks.Request.Threads.{
  Stage, tests_start, tests_cancel, ended, advance, call_start, call_cancel, after_start,
  after_cancel,
}

module _ {ℓ} {F W : Type ℓ} (code : Callbacks F W) where
  open code use {on_start, on_cancel}

  -- A number of steps, one after the other.
  unfoldable pub steps : ℕ → Stage F × (Request F × W) → Stage F × (Request F × W)
  unfolding advance
  steps zero v = v
  steps (suc n) v = steps n (advance code v.0 v.1)

  call_start-begin :
      (callback : Option ℕ) (s : Request F × W)
      → steps 2 (call_start code callback s)
        ≡ (ended (begin code callback s).0, (begin code callback s).1)
  unfolding steps call_start begin
  call_start-begin none s = refl
  call_start-begin (some f) s = came_back (on_start f s)
    where
      came_back :
          (a : Result (Option F) × (Request F × W))
          → steps 2 (after_start code a) ≡ (ended (keep_future code a).0, (keep_future code a).1)
      came_back (ok future, s') = refl
      came_back (throw e, s') = refl

  call_cancel-end :
      (callback : Option ℕ) (future : Option F) (s : Request F × W)
      → steps 1 (call_cancel code callback future s)
        ≡ (ended (end code callback future s).0, (end code callback future s).1)
  unfolding steps call_cancel end
  call_cancel-end none future s = refl
  call_cancel-end (some g) future s = came_back (on_cancel g future s)
    where
      came_back :
          (a : Result (Unit {0}) × (Request F × W))
          → steps 1 (after_cancel code a) ≡ (ended (drop_cancel code a).0, (drop_cancel code a).1)
      came_back (ok _, s') = refl
      came_back (throw e, s') = refl

  -- A call of `start` or of `cancel` that goes from access to access without an access of another
  -- thread in between ends with the result, and leaves the request and the program, as the call
  -- does that is one step, on every branch.
  pub steps-start_impl :
      (s : Request F × W)
      → (steps 5 (tests_start, s) ≡ (ended (start_impl code s).0, (start_impl code s).1))
        × (steps 4 (tests_cancel, s) ≡ (ended (cancel_impl code s).0, (cancel_impl code s).1))
  unfolding steps start_impl cancel_impl
  steps-start_impl (r, w) = elim (Bool-cases r.started) [
    | inl on ↦ rw on (
      refl,
      call_cancel-end r.cancel_callback r.future (record r { started = false; future = none }, w),
    )
    | inr off ↦ rw off (call_start-begin r.start_callback (record r { started = true }, w), refl)
  ]
