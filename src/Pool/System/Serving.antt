-- ===== src/Pool/System/Serving.antt =====
-- ThreadPoolImpl.hpp with the notifications of Queue.hpp: which workers will get to the first task of
-- the queue, for any measure of it that has the laws of a service.
use uni_tasks.Prelude.{
  ℕ, zero, suc, ◌-◌, ◌≡◌, refl, sym, ap, ◌∙◌, subst, Bool, true, false, List, [], ◌∷◌, ◌++◌, All,
  map, any, some, none, arith, Bool-cases, inl, inr,
}
use uni_tasks.Prelude.Int.{ℤ, pos, ◌<ℤ◌}
use uni_tasks.OrderedSet.{IsSorted, erase_if}
use uni_tasks.OrderedSet.Sorted.{erase_if-All}
use uni_tasks.Queue.{Queue, Pop, returned, waits, idle, polling, draining, is_empty}
use uni_tasks.Queue.Ordered.{wait_pop, resume}
use uni_tasks.Queue.Ordered.WaitPop.{PopsRight, wait_pop-PopsRight, resume-PopsRight}
use uni_tasks.Pool.{
  TaskType, Stage, entering, waiting, woken, running, ended, is_waiting, wants_mutex, has_ended,
  wake, wake_thread, Thread, spawn, notify_one, notify_all, stage_after, take_turn,
}
use uni_tasks.Pool.Calls.{joined}
use uni_tasks.Pool.System.Stages.{IsSound, Everywhere}
use uni_tasks.Pool.System.Turn.{IsSound-Agrees}

-- `serves x stage`: a worker at this stage will get to the task `x` without a notification.
pub record Service {ℓ} {A : Type ℓ} (T : TaskType A) : Type ℓ where
  pub serves : A → Stage A → Bool
  pub awake : (x : A) (stage : Stage A) → wants_mutex stage ≡ true → serves x stage ≡ true
  pub runs : (x y : A) → serves x (running y) ≡ true
  pub polls :
      (now : ℤ) (x : A)
      → pos 0 <ℤ T.delay now x
      → serves x (waiting (polling (T.delay now x)) now) ≡ true
  pub behind :
      (x y : A) (stage : Stage A)
      → T.before x y ≡ true
      → serves x stage ≡ true
      → serves y stage ≡ true

module _ {ℓ} {A : Type ℓ} {T : TaskType A} (S : Service T) where
  open S use {serves, awake, runs, polls, behind}

  abbrev pub some_serves : A → List (Thread A) → Bool
  some_serves x ths = any (λ th. serves x th.stage) ths

  -- Some thread serves the first of the tasks.
  abbrev pub Served : List A → List (Thread A) → Type 0
  Served [] ths = Unit
  Served (x ∷ xs) ths = some_serves x ths ≡ true

  pub all-Served :
      (ths : List (Thread A)) → ((x : A) → some_serves x ths ≡ true) → (xs : List A) → Served xs ths
  all-Served ths h [] = tt
  all-Served ths h (x ∷ xs) = h x

  some_serves-behind :
      (x y : A) (ths : List (Thread A))
      → T.before x y ≡ true
      → some_serves x ths ≡ true
      → some_serves y ths ≡ true
  some_serves-behind x y [] b h = h
  some_serves-behind x y (th ∷ ths) b h =
      ground (arith, behind x y th.stage b, some_serves-behind x y ths b)

  pub erase_if-Served :
      (p : A → Bool) (xs : List A) (ths : List (Thread A))
      → IsSorted T.before xs
      → Served xs ths
      → Served (erase_if p xs) ths
  unfolding erase_if
  erase_if-Served p [] ths s h = tt
  erase_if-Served p (x ∷ xs) ths s h = elim (Bool-cases (p x)) [
    | inr kept ↦ rw kept h
    | inl erased ↦
        rw erased (first_left (erase_if p xs) (erase_if-All p (λ y. T.before x y ≡ true) xs s.0))
  ]
    where
      first_left : (ys : List A) → All (λ y. T.before x y ≡ true) ys → Served ys ths
      first_left [] b = tt
      first_left (y ∷ ys) b = some_serves-behind x y ths b.0 h

  pub some_serves-middle :
      (x : A) (front : List (Thread A)) (th : Thread A) (back : List (Thread A))
      → serves x th.stage ≡ true
      → some_serves x (front ++ th ∷ back) ≡ true
  some_serves-middle x [] th back h = ground arith
  some_serves-middle x (u ∷ front) th back h = ground (arith, some_serves-middle x front th back h)

  pub some_serves-append :
      (x : A) (front back : List (Thread A))
      → some_serves x front ≡ true
      → some_serves x (front ++ back) ≡ true
  some_serves-append x [] back h = absurd cc
  some_serves-append x (th ∷ front) back h = ground (arith, some_serves-append x front back)

  woken-serves : (x : A) (stage : Stage A) → is_waiting stage ≡ true → serves x (wake stage) ≡ true
  woken-serves x (waiting point _) h = awake x (woken point) refl
  woken-serves x entering h = absurd cc
  woken-serves x (woken _) h = absurd cc
  woken-serves x (running _) h = absurd cc
  woken-serves x ended h = absurd cc

  pub wake_thread-serves :
      (x : A) (th : Thread A) → is_waiting th.stage ≡ true → serves x (wake_thread th).stage ≡ true
  unfolding wake_thread
  wake_thread-serves x th h = woken-serves x th.stage h

  wake-serves : (x : A) (stage : Stage A) → serves x stage ≡ true → serves x (wake stage) ≡ true
  wake-serves x (waiting point _) h = awake x (woken point) refl
  wake-serves x entering h = h
  wake-serves x (woken _) h = h
  wake-serves x (running _) h = h
  wake-serves x ended h = h

  -- A worker that does not wait and has not ended serves every task.
  at_work :
      (x : A) (stage : Stage A)
      → is_waiting stage ≡ false
      → has_ended stage ≡ false
      → serves x stage ≡ true
  at_work x entering w e = awake x entering refl
  at_work x (woken point) w e = awake x (woken point) refl
  at_work x (running y) w e = runs x y
  at_work x (waiting _ _) w e = absurd cc
  at_work x ended w e = absurd cc

  pub notify_one-serves :
      (choice : ℕ) (x : A) (ths : List (Thread A))
      → Everywhere (λ stage. has_ended stage ≡ false) ths
      → is_empty ths ≡ false
      → some_serves x (notify_one choice ths) ≡ true
  unfolding notify_one is_empty
  notify_one-serves choice x [] e h = absurd cc
  notify_one-serves choice x (th ∷ ths) e h = elim (Bool-cases (is_waiting th.stage)) [
    | inr busy ↦ rw busy (ground (arith, at_work x th.stage busy e.0))
    | inl asleep ↦ ground (
      arith,
      wake_thread-serves x th asleep,
      notify_one-serves (choice - 1) x ths e.1,
      some_waits ths,
    )
  ]
    where
      some_waits :
          (us : List (Thread A)) → any (λ u. is_waiting u.stage) us ≡ true → is_empty us ≡ false
      some_waits [] k = absurd cc
      some_waits (u ∷ us) k = refl

  pub notify_all-serves :
      (x : A) (ths : List (Thread A))
      → some_serves x ths ≡ true
      → some_serves x (notify_all ths) ≡ true
  unfolding notify_all wake_thread
  notify_all-serves x [] h = h
  notify_all-serves x (th ∷ ths) h = ground (arith, wake-serves x th.stage, notify_all-serves x ths)

  pub some_serves-joined :
      (x : A) (self : ℕ) (ths : List (Thread A))
      → some_serves x (map (joined self) ths) ≡ some_serves x ths
  some_serves-joined x self [] = refl
  some_serves-joined x self (th ∷ ths) = ground (arith, some_serves-joined x self ths)

  pub some_serves-spawn :
      (x : A) (n : ℕ) (ids : ℕ → ℕ)
      → is_empty (spawn {A = A} n ids) ≡ false
      → some_serves x (spawn n ids) ≡ true
  unfolding spawn is_empty
  some_serves-spawn x zero ids h = cc
  some_serves-spawn x (suc n) ids h = rw (awake x entering refl) refl

  module _ (now : ℤ) where
    -- A worker that leaves an open queue with tasks in it serves the first one.
    abbrev Leaves : Queue A → Stage A × Queue A → Type ℓ
    Leaves q r =
        (x : A) (xs : List A) → q.closed ≡ false → r.1.elements ≡ x ∷ xs → serves x r.0 ≡ true

    PopsRight-Leaves :
        (q : Queue A) (r : Pop A × Queue A)
        → PopsRight (T.delay now) q r
        → Leaves q (stage_after now r.0, r.1)
    PopsRight-Leaves q (returned none, q') h x xs o e = absurd (cc (h.1, o))
    PopsRight-Leaves q (returned (some y), q') h x xs o e = runs x y
    PopsRight-Leaves q (waits idle, q') h x xs o e =
        absurd (cc (sym e ∙ ap (λ u. u.elements) h.0 ∙ h.2))
    PopsRight-Leaves q (waits (polling d), q') h x xs o e =
        polls_first (sym (ap (λ u. u.elements) h.2) ∙ e)
      where
        polls_first : q.elements ≡ x ∷ xs → serves x (waiting (polling d) now) ≡ true
        polls_first first =
            let same : h.0 ≡ x = cc (first, h.4) in
            let its_delay : d ≡ T.delay now x = h.5 ∙ ap (T.delay now) same in
            subst (λ e. serves x (waiting (polling e) now) ≡ true) (sym its_delay)
              (polls now x (subst (λ e. pos 0 <ℤ e) its_delay h.6))
    PopsRight-Leaves q (waits (draining d), q') h x xs o e = absurd (cc (h.3, o))

    pub take_turn-Leaves :
        (stage : Stage A) (q : Queue A)
        → wants_mutex stage ≡ true
        → IsSound q stage
        → Leaves q (take_turn T now stage q)
    unfolding take_turn
    take_turn-Leaves entering q w s =
        PopsRight-Leaves q (wait_pop (T.delay now) q) (wait_pop-PopsRight (T.delay now) q)
    take_turn-Leaves (woken point) q w s =
        PopsRight-Leaves q (resume (T.delay now) point q)
          (resume-PopsRight (T.delay now) point q (IsSound-Agrees T now q point s))
    take_turn-Leaves (waiting _ _) q w s = absurd cc
    take_turn-Leaves (running _) q w s = absurd cc
    take_turn-Leaves ended q w s = absurd cc
