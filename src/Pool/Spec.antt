-- ===== src/Pool/Spec.antt =====
-- What the pool of public/uni/concurrency/ThreadPool.hpp promises: tasks that are taken, begun when
-- they are due and none precedes them, and ended, or cancelled. Which thread does what, how the
-- tasks are kept and who waits for what is left open.
use uni_tasks.Prelude.{◌==◌, ◌≡◌, Bool, true, false, not, List, []}
use uni_tasks.Prelude.Int.{ℤ, pos, ◌≤ℤ◌}
use uni_tasks.Ids.{RequestId}
use uni_tasks.Bag.{Bag, of_list, items, put, put_all}
use uni_tasks.Pool.{TaskType}

pub record Contract {ℓ} (A : Type ℓ) : Type ℓ where
  pub pending : Bag A
  pub running : Bag A
  pub finished : Bag A
  pub cancelled : Bag A
  pub accepting : Bool

module _ {ℓ} {A : Type ℓ} where
  abbrev pub idle_contract : Contract A
  idle_contract = record {
    pending = of_list [];
    running = of_list [];
    finished = of_list [];
    cancelled = of_list [];
    accepting = true;
  }

module _ {ℓ} {A : Type ℓ} (T : TaskType A) where
  open T use {before, request_id, delay}

  -- What may happen at a time.
  pub data Change (now : ℤ) (a b : Contract A) : Type ℓ where
    nothing : b ≡ a → Change now a b
    takes :
        (x : A) → a.accepting ≡ true → b ≡ record a { pending = put x a.pending } → Change now a b
    closes : b ≡ record a { accepting = false } → Change now a b
    cancels :
        (id : RequestId) (xs : List A) (rest : Bag A)
        → a.pending ≡ put_all xs rest
        → items (λ t. not (id == request_id t)) (of_list xs) ≡ 0
        → items (λ t. id == request_id t) rest ≡ 0
        → b ≡ record a { pending = rest; cancelled = put_all xs a.cancelled }
        → Change now a b
    begins :
        (x : A) (rest : Bag A)
        → a.pending ≡ put x rest
        → items (λ y. before y x) rest ≡ 0
        → delay now x ≤ℤ pos 0
        → b ≡ record a { pending = rest; running = put x a.running }
        → Change now a b
    ends :
        (x : A) (rest : Bag A)
        → a.running ≡ put x rest
        → b ≡ record a { running = rest; finished = put x a.finished }
        → Change now a b

  -- Changes one after the other, each at its time, while the time passes from `begin` to `now`.
  pub data Changes (begin : ℤ) (a : Contract A) : (now : ℤ) → Contract A → Type ℓ where
    none : Changes begin a begin a
    passes :
        {b : Contract A} {now later : ℤ}
        → Changes begin a now b
        → now ≤ℤ later
        → Changes begin a later b
    more :
        {b c : Contract A} {now : ℤ}
        → Changes begin a now b
        → Change now b c
        → Changes begin a now c
