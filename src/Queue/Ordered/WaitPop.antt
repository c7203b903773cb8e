-- ===== src/Queue/Ordered/WaitPop.antt =====
-- Queue.hpp, `wait_pop` of the ordered queue.
use uni_tasks.Prelude.{
  ◌≡◌, refl, subst, Bool, Bool-cases, inl, inr, true, false, some, none, List, [], ◌∷◌, All, arith,
}
use uni_tasks.Prelude.Int.{ℤ, pos, ◌≤ℤ◌, ◌<ℤ◌, leb_ℤ}
use uni_tasks.OrderedSet.{IsSorted}
use uni_tasks.Queue.{Queue, Pop, returned, waits, WaitPoint, idle, polling, draining}
use uni_tasks.Queue.Ordered.{extract_or_wait, drain_loop, poll_loop, resume, wait_pop, IsOrdered}

module _ {ℓ} {A : Type ℓ} (delay : A → ℤ) (q : Queue A) where
  -- The wait at `closed` is for the delay of the first element.
  abbrev pub WaitsForFirst : Bool → ℤ → Queue A → Type ℓ
  WaitsForFirst closed d q' =
      (x : A) × (xs : List A) × (q' ≡ q)
      × (q.closed ≡ closed)
      × (q.elements ≡ x ∷ xs)
      × (d ≡ delay x)
      × (pos 0 <ℤ d)

  -- What `wait_pop` may do to the queue `q`: it ends with nothing when the queue is closed and
  -- empty, it ends with the first element when that is due, and it waits otherwise.
  abbrev pub PopsRight : Pop A × Queue A → Type ℓ
  PopsRight (returned none, q') = (q' ≡ q) × (q.closed ≡ true) × (q.elements ≡ [])
  PopsRight (returned (some x), q') =
      (q.elements ≡ x ∷ q'.elements) × (q'.closed ≡ q.closed) × (delay x ≤ℤ pos 0)
  PopsRight (waits idle, q') = (q' ≡ q) × (q.closed ≡ false) × (q.elements ≡ [])
  PopsRight (waits (polling d), q') = WaitsForFirst false d q'
  PopsRight (waits (draining d), q') = WaitsForFirst true d q'

-- The wait of the second loop is reached only when the queue is closed, and it stays closed.
abbrev pub Agrees {ℓ} : {A : Type ℓ} → WaitPoint → Queue A → Type 0
Agrees (draining _) q = q.closed ≡ true
Agrees _ q = Unit

module _ {ℓ} {A : Type ℓ} (delay : A → ℤ) where
  abbrev queue : List A → Bool → Queue A
  queue xs closed = record { elements = xs; closed = closed }

  extract_or_wait-due :
      (point : ℤ → WaitPoint) (x : A) (xs : List A) (closed : Bool)
      → leb_ℤ (delay x) (pos 0) ≡ true
      → PopsRight delay
          (queue (x ∷ xs) closed)
          (extract_or_wait delay point x xs (queue (x ∷ xs) closed))
  unfolding extract_or_wait
  extract_or_wait-due point x xs closed due = rw due (refl, refl, ground arith)

  drain_loop-PopsRight :
      (xs : List A) (closed : Bool)
      → closed ≡ true
      → PopsRight delay (queue xs closed) (drain_loop delay (queue xs closed))
  unfolding drain_loop
  drain_loop-PopsRight [] closed h = (refl, h, refl)
  drain_loop-PopsRight (x ∷ xs) closed h = elim (Bool-cases (leb_ℤ (delay x) (pos 0))) [
    | inl due ↦ extract_or_wait-due draining x xs closed due
    | inr later ↦ rw (extract_or_wait, later) (x, xs, refl, h, refl, refl, ground arith)
  ]

  poll_loop-PopsRight :
      (xs : List A) (closed : Bool)
      → PopsRight delay (queue xs closed) (poll_loop delay (queue xs closed))
  unfolding poll_loop
  poll_loop-PopsRight xs true = drain_loop-PopsRight xs true refl
  poll_loop-PopsRight [] false = (refl, refl, refl)
  poll_loop-PopsRight (x ∷ xs) false = elim (Bool-cases (leb_ℤ (delay x) (pos 0))) [
    | inl due ↦ extract_or_wait-due polling x xs false due
    | inr later ↦ rw (extract_or_wait, later) (x, xs, refl, refl, refl, refl, ground arith)
  ]

  -- `wait_pop`, from its start and from each of its waits, does what `PopsRight` says.
  pub resume-PopsRight :
      (point : WaitPoint) (q : Queue A) → Agrees point q → PopsRight delay q (resume delay point q)
  unfolding resume
  resume-PopsRight idle q h = resume_idle q.elements q.closed
    where
      resume_idle :
          (xs : List A) (closed : Bool)
          → PopsRight delay (queue xs closed) (resume delay idle (queue xs closed))
      resume_idle [] true = poll_loop-PopsRight [] true
      resume_idle (x ∷ xs) true = poll_loop-PopsRight (x ∷ xs) true
      resume_idle [] false = (refl, refl, refl)
      resume_idle (x ∷ xs) false = poll_loop-PopsRight (x ∷ xs) false
  resume-PopsRight (polling _) q h = poll_loop-PopsRight q.elements q.closed
  resume-PopsRight (draining _) q h = drain_loop-PopsRight q.elements q.closed h

  -- `wait_pop` on the ordered queue returns nothing when the queue is closed and empty, takes out
  -- the first element when that is due, waits without a limit when the queue is open and empty,
  -- and else waits for the delay of the first element, which is positive, at the wait that belongs
  -- to an open or a closed queue.
  pub wait_pop-PopsRight : (q : Queue A) → PopsRight delay q (wait_pop delay q)
  unfolding wait_pop
  wait_pop-PopsRight q = poll_loop-PopsRight q.elements q.closed

  first_of_sorted :
      (lt : A → A → Bool) (q : Queue A) (x : A) (r : Pop A × Queue A)
      → PopsRight delay q r
      → IsOrdered lt q
      → r.0 ≡ returned (some x)
      → All (λ y. lt x y ≡ true) r.1.elements × IsOrdered lt r.1 × (delay x ≤ℤ pos 0)
  first_of_sorted lt q x (returned none, q') right s e = cc
  first_of_sorted lt q x (returned (some y), q') right s e =
      let sorted : IsSorted lt (y ∷ q'.elements) = subst (IsSorted lt) right.0 s in
      let same : y ≡ x = cc in rw (← same) (sorted.0, sorted.1, right.2)
  first_of_sorted lt q x (waits w, q') right s e = cc

  -- If a wait of `wait_pop` ends on an ordered queue, which is closed if the wait is the one of
  -- the second loop, and an element is returned, then that element precedes all that stay, it is
  -- due, and what stays is ordered.
  pub resume-first :
      (lt : A → A → Bool) (point : WaitPoint) (q : Queue A) (x : A)
      → Agrees point q
      → IsOrdered lt q
      → (resume delay point q).0 ≡ returned (some x)
      → All (λ y. lt x y ≡ true) (resume delay point q).1.elements
        × IsOrdered lt (resume delay point q).1
        × (delay x ≤ℤ pos 0)
  resume-first lt point q x agrees s h =
      first_of_sorted lt q x (resume delay point q) (resume-PopsRight point q agrees) s h

  pub wait_pop-first :
      (lt : A → A → Bool) (q : Queue A) (x : A)
      → IsOrdered lt q
      → (wait_pop delay q).0 ≡ returned (some x)
      → All (λ y. lt x y ≡ true) (wait_pop delay q).1.elements
        × IsOrdered lt (wait_pop delay q).1
        × (delay x ≤ℤ pos 0)
  wait_pop-first lt q x s h = first_of_sorted lt q x (wait_pop delay q) (wait_pop-PopsRight q) s h
