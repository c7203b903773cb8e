-- ===== src/Order.antt =====
-- What `std::set` asks of its comparator (Compare of the C++ standard): a strict weak order.
use uni_tasks.Prelude.{◌≡◌, Bool, true, false, ◌⊎◌}

pub record StrictWeakOrder {ℓ} {A : Type ℓ} (lt : A → A → Bool) : Type ℓ where
  pub irrefl : (a : A) → lt a a ≡ false
  pub trans : (a b c : A) → lt a b ≡ true → lt b c ≡ true → lt a c ≡ true
  -- If `a` precedes `c`, every `b` comes after `a` or before `c`.
  pub split : (a b c : A) → lt a c ≡ true → (lt a b ≡ true) ⊎ (lt b c ≡ true)
