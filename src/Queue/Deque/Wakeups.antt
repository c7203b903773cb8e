-- ===== src/Queue/Deque/Wakeups.antt =====
-- Queue.hpp, the template over `std::deque`: which consumers sleep.
use uni_tasks.Prelude.{
  ℕ, zero, suc, ◌+◌, ◌-◌, ◌≤◌, ◌<◌, ◌≡◌, refl, sym, ◌∙◌, subst, Bool, true, false, ◌⊎◌, inl, inr,
  Bool-cases, List, [], ◌∷◌, ◌++◌, map, any, bit, count, count-append, length, length-append, arith,
}
use uni_tasks.OrderedSet.{erase_if}
use uni_tasks.Queue.{Queue, Pop, throw_if_closed}
use uni_tasks.Queue.Deque
use uni_tasks.Queue.Deque.System.{
  Consumer, outside, waiting, woken, is_waiting, is_woken, wake, notify_one, notified, System,
  initial, after, pushes, pops, removes, Step, pushing, popping, wakes, closes, notifies, removing,
  Reach, here, next,
}

-- How many consumers sleep and how many are woken.
abbrev pub asleep : List Consumer → ℕ
asleep = count is_waiting

abbrev pub awake : List Consumer → ℕ
awake = count is_woken

none_asleep : (cs : List Consumer) → any is_waiting cs ≡ false → asleep cs ≡ 0
none_asleep [] h = refl
none_asleep (c ∷ cs) h = ground (arith, none_asleep cs)

-- A notification wakes one consumer that sleeps, if there is one.
notify_one-awake :
    (choice : ℕ) (cs : List Consumer)
    → 0 < asleep cs
    → (suc (asleep (notify_one choice cs)) ≡ asleep cs)
      × (awake (notify_one choice cs) ≡ suc (awake cs))
unfolding notify_one
notify_one-awake choice [] h = absurd (omega arith)
notify_one-awake choice (outside ∷ cs) h = ground (arith, notify_one-awake choice cs)
notify_one-awake choice (woken ∷ cs) h = ground (arith, notify_one-awake choice cs)
notify_one-awake choice (waiting ∷ cs) h =
    ground (arith, notify_one-awake (choice - 1) cs, none_asleep cs, some_asleep cs)
  where
    some_asleep : (us : List Consumer) → any is_waiting us ≡ true → 0 < asleep us
    some_asleep [] k = absurd cc
    some_asleep (u ∷ us) k = ground (arith, some_asleep us)

notify_one-asleep : (choice : ℕ) (cs : List Consumer) → asleep cs ≡ 0 → notify_one choice cs ≡ cs
unfolding notify_one
notify_one-asleep choice [] h = refl
notify_one-asleep choice (outside ∷ cs) h = ground (arith, notify_one-asleep choice cs)
notify_one-asleep choice (woken ∷ cs) h = ground (arith, notify_one-asleep choice cs)
notify_one-asleep choice (waiting ∷ cs) h = absurd (omega arith)

all_awake : (cs : List Consumer) → asleep (map wake cs) ≡ 0
all_awake [] = refl
all_awake (c ∷ cs) = ground (arith, all_awake cs)

-- None sleeps when the queue is closed and every `close` has notified.
abbrev pub Shut : Bool → ℕ → List Consumer → Type 0
Shut closed closing cs = closed ≡ true → closing ≡ 0 → asleep cs ≡ 0

closed_cases :
    (closed : Bool) (closing : ℕ) (cs : List Consumer)
    → Shut closed closing cs
    → (closed ≡ false) ⊎ ((0 < closing) ⊎ (asleep cs ≡ 0))
closed_cases false closing cs h = inl refl
closed_cases true zero cs h = inr (inr (h refl refl))
closed_cases true (suc n) cs h = inr (inl (omega arith))

zero_or_more : (n : ℕ) → (n ≡ 0) ⊎ (0 < n)
zero_or_more zero = inl refl
zero_or_more (suc n) = inr (omega arith)

replaced :
    (front : List Consumer) (c d : Consumer) (back : List Consumer)
    → (asleep (front ++ d ∷ back) + bit (is_waiting c)
        ≡ asleep (front ++ c ∷ back) + bit (is_waiting d))
      × (awake (front ++ d ∷ back) + bit (is_woken c)
          ≡ awake (front ++ c ∷ back) + bit (is_woken d))
replaced front c d back = (
  omega (arith, count-append is_waiting front (d ∷ back), count-append is_waiting front (c ∷ back)),
  omega (arith, count-append is_woken front (d ∷ back), count-append is_woken front (c ∷ back)),
)

module _ {ℓ} {A : Type ℓ} where
  length-erase_if : (p : A → Bool) (xs : List A) → length (erase_if p xs) ≤ length xs
  unfolding erase_if
  length-erase_if p [] = omega arith
  length-erase_if p (x ∷ xs) = ground (arith, length-erase_if p xs)

  -- While a consumer sleeps, there are no more elements than woken consumers.
  abbrev pub Enough : List A → List Consumer → Type 0
  Enough xs cs = (asleep cs ≡ 0) ⊎ (length xs ≤ awake cs)

  pub record IsAwake (s : System A) : Type ℓ where
    pub enough : Enough s.queue.elements s.consumers
    pub shut : Shut s.queue.closed s.closing s.consumers

  notify_one-Enough :
      (choice : ℕ) (x : A) (xs : List A) (cs : List Consumer)
      → Enough xs cs
      → Enough (xs ++ x ∷ []) (notify_one choice cs)
  notify_one-Enough choice x xs cs h = elim (zero_or_more (asleep cs)) [
    | inl none_sleeps ↦ inl (rw (notify_one-asleep choice cs none_sleeps) none_sleeps)
    | inr some_sleeps ↦
        inr (ground (arith, notify_one-awake choice cs some_sleeps, length-append xs (x ∷ [])))
  ]

  pushes-IsAwake : (choice : ℕ) (x : A) (s : System A) → IsAwake s → IsAwake (pushes choice x s)
  unfolding pushes Deque.push throw_if_closed notified
  pushes-IsAwake choice x s h = elim (Bool-cases s.queue.closed) [
    | inl e ↦ record { enough = rw e h.enough; shut = rw e (λ c. h.shut e) }
    | inr e ↦ record {
      enough = rw e (notify_one-Enough choice x s.queue.elements s.consumers h.enough);
      shut = λ c. absurd (cc (c, e));
    }
  ]

  wait_pop-Enough :
      (front : List Consumer) (c : Consumer) (back : List Consumer) (xs : List A) (closed : Bool)
      → is_waiting c ≡ false
      → Enough xs (front ++ c ∷ back)
      → let result : Pop A × Queue A = Deque.wait_pop (record { elements = xs; closed = closed }) in
        Enough result.1.elements (front ++ after result.0 ∷ back)
  unfolding Deque.wait_pop
  wait_pop-Enough front c back [] true w h = inr (omega arith)
  wait_pop-Enough front c back [] false w h = inr (omega arith)
  wait_pop-Enough front outside back (x ∷ xs) closed w h =
      ground (arith, replaced front outside outside back)
  wait_pop-Enough front woken back (x ∷ xs) closed w h =
      ground (arith, replaced front woken outside back)
  wait_pop-Enough front waiting back (x ∷ xs) closed w h = absurd cc

  wait_pop-Shut :
      (front : List Consumer) (c : Consumer) (back : List Consumer) (q : Queue A)
      → q.closed ≡ true
      → is_waiting c ≡ false
      → asleep (front ++ c ∷ back) ≡ 0
      → asleep (front ++ after (Deque.wait_pop q).0 ∷ back) ≡ 0
  unfolding Deque.wait_pop
  wait_pop-Shut front c back q closed w h = ground (arith, replaced front c outside back)

  wait_pop-closed : (q : Queue A) → (Deque.wait_pop q).1.closed ≡ q.closed
  unfolding Deque.wait_pop
  wait_pop-closed q = ground arith

  pops-IsAwake :
      (front : List Consumer) (c : Consumer) (back : List Consumer) (s : System A)
      → s.consumers ≡ front ++ c ∷ back
      → is_waiting c ≡ false
      → IsAwake s
      → IsAwake (pops front back s)
  unfolding pops
  pops-IsAwake front c back s at w h = record {
    enough =
        wait_pop-Enough front c back s.queue.elements s.queue.closed w
          (subst (Enough s.queue.elements) at h.enough);
    shut = λ closed notified.
        let was_closed = sym (wait_pop-closed s.queue) ∙ closed in
        wait_pop-Shut front c back s.queue was_closed w
          (subst (λ cs. asleep cs ≡ 0) at (h.shut was_closed notified));
  }

  wakes-IsAwake :
      (front back : List Consumer) (s : System A)
      → s.consumers ≡ front ++ waiting ∷ back
      → IsAwake s
      → IsAwake (record s { consumers = front ++ woken ∷ back })
  wakes-IsAwake front back s at h =
      let counts = replaced front waiting woken back in
      let enough : Enough s.queue.elements (front ++ waiting ∷ back) =
        subst (Enough s.queue.elements) at h.enough in
      record {
        enough = ground (arith, counts, enough);
        shut = λ closed notified.
            let none_sleeps : asleep (front ++ waiting ∷ back) ≡ 0 =
              subst (λ cs. asleep cs ≡ 0) at (h.shut closed notified) in
            omega (arith, none_sleeps, counts.0);
      }

  removes-IsAwake : (p : A → Bool) (s : System A) → IsAwake s → IsAwake (removes p s)
  unfolding removes Deque.remove
  removes-IsAwake p s h = record {
    enough = ground (arith, length-erase_if p s.queue.elements, h.enough);
    shut = h.shut;
  }

  Step-IsAwake : {s t : System A} → Step s t → IsAwake s → IsAwake t
  unfolding Deque.close
  Step-IsAwake {s} (pushing choice x e) h = subst IsAwake (sym e) (pushes-IsAwake choice x s h)
  Step-IsAwake {s} (popping front c back at w e) h =
      subst IsAwake (sym e) (pops-IsAwake front c back s at w h)
  Step-IsAwake {s} (wakes front back at e) h =
      subst IsAwake (sym e) (wakes-IsAwake front back s at h)
  Step-IsAwake {s} (closes e) h =
      subst IsAwake (sym e) (record { enough = h.enough; shut = λ c n. absurd (omega arith) })
  Step-IsAwake {s} (notifies n closing e) h =
      subst IsAwake (sym e)
        (record { enough = inl (all_awake s.consumers); shut = λ c k. all_awake s.consumers })
  Step-IsAwake {s} (removing p e) h = subst IsAwake (sym e) (removes-IsAwake p s h)

  Reach-IsAwake :
      (cs : List Consumer) {s : System A} → asleep cs ≡ 0 → Reach (initial cs) s → IsAwake s
  Reach-IsAwake cs h here = record { enough = inl h; shut = λ c n. h }
  Reach-IsAwake cs h (next r st) = Step-IsAwake st (Reach-IsAwake cs h r)

  -- If no consumer of a new queue over a deque sleeps, then in each state that producers and
  -- consumers can reach, no consumer sleeps, or the queue has at most as many elements as there
  -- are woken consumers, so that no element waits without a consumer on its way to it; and the
  -- queue is open, a call of `close` has still to notify, or no consumer sleeps.
  pub Reach-Enough :
      (cs : List Consumer) {s : System A}
      → asleep cs ≡ 0
      → Reach (initial cs) s
      → ((asleep s.consumers ≡ 0) ⊎ (length s.queue.elements ≤ awake s.consumers))
        × ((s.queue.closed ≡ false) ⊎ ((0 < s.closing) ⊎ (asleep s.consumers ≡ 0)))
  Reach-Enough cs {s} h r =
      let i = Reach-IsAwake cs h r in
      (i.enough, closed_cases s.queue.closed s.closing s.consumers i.shut)
