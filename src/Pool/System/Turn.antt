-- ===== src/Pool/System/Turn.antt =====
-- ThreadPoolImpl.hpp: a worker's turn with the queue, and the other changes of the queue.
use uni_tasks.Prelude.{
  ◌+◌, ◌≡◌, refl, sym, ◌∙◌, subst, Bool, true, inl, inr, some, none, List, [], ◌∷◌, count, arith,
  Bool-cases,
}
use uni_tasks.Prelude.Int.{ℤ}
use uni_tasks.OrderedSet.{erase_if, IsSorted}
use uni_tasks.Queue.{
  Queue, Pop, WaitPoint, returned, waits, idle, polling, draining, is_empty, throw_if_closed,
}
use uni_tasks.Queue.Ordered.{push, resume, wait_pop, drain_loop, poll_loop}
use uni_tasks.Queue.Ordered.WaitPop.{PopsRight, wait_pop-PopsRight, resume-PopsRight, Agrees}
use uni_tasks.Pool.{
  TaskType, wants_mutex, Stage, entering, waiting, woken, running, ended, stage_after, take_turn,
}
use uni_tasks.Pool.System.Stages.{IsSound, Follows, runs}

module _ {ℓ} {A : Type ℓ} where
  pub Follows-refl : (q : Queue A) → Follows q q
  Follows-refl q = (λ h. h, λ h k. k)

  pub push-Follows : (lt : A → A → Bool) (x : A) (q : Queue A) → Follows q (push lt x q).1
  unfolding push throw_if_closed
  push-Follows lt x q = elim (Bool-cases q.closed) [
    | inl e ↦ (rw e (λ h. refl), rw (e, push) (λ h k. k))
    | inr e ↦ ((λ h. cc), λ h k. cc)
  ]

  pub erase_if-Follows :
      (p : A → Bool) (xs : List A) (closed : Bool)
      → Follows
          (record { elements = xs; closed = closed })
          (record { elements = erase_if p xs; closed = closed })
  unfolding erase_if is_empty
  erase_if-Follows p [] closed = (λ h. h, λ h k. k)
  erase_if-Follows p (x ∷ xs) closed = (λ h. h, λ h k. cc)

module _ {ℓ} {A : Type ℓ} (T : TaskType A) (now : ℤ) where
  open T use {before, delay}

  -- What a turn with the queue `q` may lead to.
  pub record GoodTurn (q : Queue A) (stage : Stage A) (q' : Queue A) : Type ℓ where
    pub sound : IsSound q' stage
    pub follows : Follows q q'
    pub kept : (p : A → Bool) → count p q.elements ≡ count p q'.elements + runs p stage
    pub sorted : IsSorted before q.elements → IsSorted before q'.elements

  unchanged :
      (q : Queue A) (point : WaitPoint) {q' : Queue A}
      → IsSound q (waiting point now)
      → q' ≡ q
      → GoodTurn q (waiting point now) q'
  unchanged q point s e =
      subst (GoodTurn q (waiting point now)) (sym e)
        (record { sound = s; follows = Follows-refl q; kept = λ p. omega arith; sorted = λ h. h })

  PopsRight-GoodTurn :
      (q : Queue A) (r : Pop A × Queue A)
      → PopsRight (delay now) q r
      → GoodTurn q (stage_after now r.0) r.1
  unfolding is_empty
  PopsRight-GoodTurn q (returned none, q') h = record {
    sound = rw (h.0, h.2) (h.1, refl);
    follows = rw h.0 (Follows-refl q);
    kept = λ p. rw h.0 (omega arith);
    sorted = λ s. rw h.0 s;
  }
  PopsRight-GoodTurn q (returned (some x), q') h = record {
    sound = tt;
    follows = ((λ e. h.1 ∙ e), λ e k. ground arith);
    kept = λ p. rw h.0 (omega arith);
    sorted = λ s. (subst (IsSorted before) h.0 s).1;
  }
  PopsRight-GoodTurn q (waits idle, q') h = unchanged q idle tt h.0
  PopsRight-GoodTurn q (waits (polling d), q') h = unchanged q (polling d) tt h.2
  PopsRight-GoodTurn q (waits (draining d), q') h = unchanged q (draining d) h.3 h.2

  pub IsSound-Agrees : (q : Queue A) (point : _) → IsSound q (woken point) → Agrees point q
  IsSound-Agrees q idle h = tt
  IsSound-Agrees q (polling _) h = tt
  IsSound-Agrees q (draining _) h = h

  pub take_turn-GoodTurn :
      (stage : Stage A) (q : Queue A)
      → wants_mutex stage ≡ true
      → IsSound q stage
      → GoodTurn q (take_turn T now stage q).0 (take_turn T now stage q).1
  unfolding take_turn
  take_turn-GoodTurn entering q w s =
      PopsRight-GoodTurn q (wait_pop (delay now) q) (wait_pop-PopsRight (delay now) q)
  take_turn-GoodTurn (woken point) q w s =
      PopsRight-GoodTurn q (resume (delay now) point q)
        (resume-PopsRight (delay now) point q (IsSound-Agrees q point s))
  take_turn-GoodTurn (waiting _ _) q w s = cc
  take_turn-GoodTurn (running _) q w s = cc
  take_turn-GoodTurn ended q w s = cc

module _ {ℓ} {A : Type ℓ} (delay : A → ℤ) where
  drain_loop-closed : (q : Queue A) → (drain_loop delay q).1.closed ≡ q.closed
  unfolding drain_loop
  drain_loop-closed q = ground arith

  poll_loop-closed : (q : Queue A) → (poll_loop delay q).1.closed ≡ q.closed
  unfolding poll_loop
  poll_loop-closed q = ground arith

module _ {ℓ} {A : Type ℓ} (T : TaskType A) (now : ℤ) where
  open T use {delay}

  -- No turn closes the queue or opens it.
  pub take_turn-closed :
      (stage : Stage A) (q : Queue A) → (take_turn T now stage q).1.closed ≡ q.closed
  unfolding take_turn
  take_turn-closed entering q = poll_loop-closed (delay now) q
  take_turn-closed (woken idle) q = resume_idle-closed q
    where
      resume_idle-closed : (u : Queue A) → (resume (delay now) idle u).1.closed ≡ u.closed
      resume_idle-closed u = ground (arith, poll_loop-closed (delay now) u)
  take_turn-closed (woken (polling _)) q = poll_loop-closed (delay now) q
  take_turn-closed (woken (draining _)) q = drain_loop-closed (delay now) q
  take_turn-closed (waiting _ _) q = refl
  take_turn-closed (running _) q = refl
  take_turn-closed ended q = refl
