-- ===== src/Queue/Deque/System.antt =====
-- Queue.hpp, the template over `std::deque`, among producers and consumers: one step is what one
-- thread does while it holds the queue's mutex, or outside it. Any number of threads take their steps
-- in any order.
use uni_tasks.Prelude.{
  ℕ, suc, ◌-◌, ◌==◌, ◌≡◌, Bool, true, false, not, ◌||◌, some, none, List, [], ◌∷◌, ◌++◌, map, any,
  if◌then◌else◌,
}
use uni_tasks.Errors.{Result, ok, throw}
use uni_tasks.OrderedSet.{erase_if}
use uni_tasks.Queue.{Queue, new_queue, Pop, returned, waits}
use uni_tasks.Queue.Deque.{push, wait_pop, remove, close}

-- A thread that may call `wait_pop`: outside of it, asleep in its wait, or woken and about to take
-- the mutex and look at the predicate again.
pub data Consumer : Type 0 where
  outside : Consumer
  waiting : Consumer
  woken : Consumer

abbrev pub is_waiting : Consumer → Bool
is_waiting waiting = true
is_waiting _ = false

abbrev pub is_woken : Consumer → Bool
is_woken woken = true
is_woken _ = false

abbrev pub wake : Consumer → Consumer
wake waiting = woken
wake c = c

-- `notify_one` ends one wait, which the system picks; `notify_all` ends all.
unfoldable pub notify_one : (choice : ℕ) → List Consumer → List Consumer
notify_one choice [] = []
notify_one choice (c ∷ cs) =
    let next = c ∷ notify_one (choice - 1) cs in
    let passed = c ∷ notify_one choice cs in
    if is_waiting c
    then (if choice == 0 || not (any is_waiting cs) then wake c ∷ cs else next)
    else passed

-- A `push` that throws notifies nobody.
unfoldable pub notified : (choice : ℕ) → Result (Unit {0}) → List Consumer → List Consumer
unfolding notify_one
notified choice (ok _) cs = notify_one choice cs
notified choice (throw _) cs = cs

-- The queue, the threads that pop from it, the calls of `close` that have not notified yet, and what
-- was pushed, popped and removed so far, first to last.
pub record System {ℓ} (A : Type ℓ) : Type ℓ where
  pub queue : Queue A
  pub consumers : List Consumer
  pub closing : ℕ
  pub pushed : List A
  pub popped : List A
  pub removed : List A

module _ {ℓ} {A : Type ℓ} where
  abbrev pub initial : List Consumer → System A
  initial consumers = record {
    queue = new_queue;
    consumers = consumers;
    closing = 0;
    pushed = [];
    popped = [];
    removed = [];
  }

  -- Where a call of `wait_pop` leaves its thread, and what it hands out.
  abbrev pub after : Pop A → Consumer
  after (returned _) = outside
  after (waits _) = waiting

  abbrev pub handed_out : Pop A → List A
  handed_out (returned (some x)) = x ∷ []
  handed_out (returned none) = []
  handed_out (waits _) = []

  unfoldable pub pushes : (choice : ℕ) → A → System A → System A
  unfolding push notified
  pushes choice x s =
      let (result, q) = push x s.queue in
      record s {
        queue = q;
        consumers = notified choice result s.consumers;
        pushed = if s.queue.closed then s.pushed else s.pushed ++ x ∷ [];
      }

  -- `wait_pop` from its begin, or from the end of its wait: both look at the predicate first.
  unfoldable pub pops : (front back : List Consumer) → System A → System A
  unfolding wait_pop
  pops front back s =
      let (pop, q) = wait_pop s.queue in
      record s {
        queue = q;
        consumers = front ++ after pop ∷ back;
        popped = s.popped ++ handed_out pop;
      }

  unfoldable pub removes : (A → Bool) → System A → System A
  unfolding remove
  removes p s = record s {
    queue = (remove p s.queue).1;
    removed = erase_if (λ x. not (p x)) s.queue.elements ++ s.removed;
  }

  pub data Step (s t : System A) : Type ℓ where
    pushing : (choice : ℕ) (x : A) → t ≡ pushes choice x s → Step s t
    popping :
        (front : List Consumer) (c : Consumer) (back : List Consumer)
        → s.consumers ≡ front ++ c ∷ back
        → is_waiting c ≡ false
        → t ≡ pops front back s
        → Step s t
    -- A wait that ends for no reason.
    wakes :
        (front back : List Consumer)
        → s.consumers ≡ front ++ waiting ∷ back
        → t ≡ record s { consumers = front ++ woken ∷ back }
        → Step s t
    -- `close` marks the queue under the mutex, and notifies when it has freed it.
    closes : t ≡ record s { queue = close s.queue; closing = suc s.closing } → Step s t
    notifies :
        (n : ℕ)
        → s.closing ≡ suc n
        → t ≡ record s { consumers = map wake s.consumers; closing = n }
        → Step s t
    removing : (p : A → Bool) → t ≡ removes p s → Step s t

  pub data Reach (s : System A) : System A → Type ℓ where
    here : Reach s s
    next : {t u : System A} → Reach s t → Step t u → Reach s u
