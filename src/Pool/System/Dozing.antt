-- ===== src/Pool/System/Dozing.antt =====
-- ThreadPoolImpl.hpp: the workers that wait without a limit, and what wakes them.
use uni_tasks.Prelude.{
  ℕ, ◌≡◌, refl, Bool, true, false, some, none, List, [], ◌∷◌, ◌++◌, map, All-append,
  All-append_left, All-append_right, subst, arith,
}
use uni_tasks.Prelude.Int.{ℤ}
use uni_tasks.Queue.{Queue, Pop, returned, waits, idle, polling, draining}
use uni_tasks.Queue.Ordered.{wait_pop, resume}
use uni_tasks.Queue.Ordered.WaitPop.{PopsRight, wait_pop-PopsRight, resume-PopsRight}
use uni_tasks.Pool.{
  TaskType, Stage, entering, waiting, woken, running, ended, wants_mutex, wake, wake_thread, Thread,
  notify_all, stage_after, take_turn,
}
use uni_tasks.Pool.Calls.{joined}
use uni_tasks.Pool.System.Stages.{IsSound, Everywhere}
use uni_tasks.Pool.System.Turn.{IsSound-Agrees}

module _ {ℓ} {A : Type ℓ} where
  -- A worker that only a notification gets on, apart from a wait that ends for no reason.
  abbrev pub dozes : Stage A → Bool
  dozes (waiting idle _) = true
  dozes _ = false

  abbrev pub IsUp : Stage A → Type 0
  IsUp stage = dozes stage ≡ false

  pub wake-IsUp : (stage : Stage A) → IsUp stage → IsUp (wake stage)
  wake-IsUp (waiting _ _) h = refl
  wake-IsUp entering h = refl
  wake-IsUp (woken _) h = refl
  wake-IsUp (running _) h = refl
  wake-IsUp ended h = refl

  pub notify_all-Up : (ths : List (Thread A)) → Everywhere IsUp (notify_all ths)
  unfolding notify_all wake_thread
  notify_all-Up [] = tt
  notify_all-Up (th ∷ ths) = (ground arith, notify_all-Up ths)

  pub joined-Up :
      (self : ℕ) (ths : List (Thread A))
      → Everywhere IsUp ths
      → Everywhere IsUp (map (joined self) ths)
  joined-Up self [] h = tt
  joined-Up self (th ∷ ths) h = ground (arith, joined-Up self ths h.1)

  pub replace-Up :
      (front : List (Thread A)) (th : Thread A) (back ths : List (Thread A)) (stage : Stage A)
      → ths ≡ front ++ th ∷ back
      → IsUp stage
      → Everywhere IsUp ths
      → Everywhere IsUp (front ++ record th { stage = stage } ∷ back)
  replace-Up front th back ths stage at up h =
      let all_up = subst (Everywhere IsUp) at h in
      All-append _ front (record th { stage = stage } ∷ back)
        (All-append_left _ front (th ∷ back) all_up)
        (up, (All-append_right _ front (th ∷ back) all_up).1)

module _ {ℓ} {A : Type ℓ} (T : TaskType A) (now : ℤ) where
  open T use {delay}

  -- A worker dozes off only where the queue is open and empty.
  abbrev Rests : Queue A → Stage A × Queue A → Type ℓ
  Rests q r = dozes r.0 ≡ true → (r.1 ≡ q) × (q.closed ≡ false) × (q.elements ≡ [])

  PopsRight-Rests :
      (q : Queue A) (r : Pop A × Queue A)
      → PopsRight (delay now) q r
      → Rests q (stage_after now r.0, r.1)
  PopsRight-Rests q (returned none, q') h d = cc
  PopsRight-Rests q (returned (some x), q') h d = cc
  PopsRight-Rests q (waits idle, q') h d = h
  PopsRight-Rests q (waits (polling _), q') h d = cc
  PopsRight-Rests q (waits (draining _), q') h d = cc

  pub take_turn-Rests :
      (stage : Stage A) (q : Queue A)
      → wants_mutex stage ≡ true
      → IsSound q stage
      → Rests q (take_turn T now stage q)
  unfolding take_turn
  take_turn-Rests entering q w s =
      PopsRight-Rests q (wait_pop (delay now) q) (wait_pop-PopsRight (delay now) q)
  take_turn-Rests (woken point) q w s =
      PopsRight-Rests q (resume (delay now) point q)
        (resume-PopsRight (delay now) point q (IsSound-Agrees T now q point s))
  take_turn-Rests (waiting _ _) q w s = cc
  take_turn-Rests (running _) q w s = cc
  take_turn-Rests ended q w s = cc
