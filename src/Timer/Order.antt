-- ===== src/Timer/Order.antt =====
-- `Timer::Comparator` (serverframework/util/timer.cc) is a strict total order, as `std::set` asks.
use my_server_framework.Prelude.{ℕ, ◌≡◌, arith, true, false, Option}
use my_server_framework.Timer.{Heap, less, comparator}

pub less_irrefl : (h : Heap) (a : ℕ) → less h a a ≡ false
less_irrefl h a = ground arith

pub less_trans : (h : Heap) (a b c : ℕ) → less h a b ≡ true → less h b c ≡ true → less h a c ≡ true
less_trans h a b c p q = ground arith

less_asym : (h : Heap) (a b : ℕ) → less h a b ≡ true → less h b a ≡ false
less_asym h a b p = ground arith

pub less_total : (h : Heap) (a b : ℕ) → less h a b ≡ false → less h b a ≡ false → a ≡ b
less_total h a b p q = ground arith

-- The comparator orders no pointer before itself, is transitive, and leaves two pointers unordered
-- only if they are the same, null pointers included: timers due at one time are told apart.
comparator_strict_total :
    (h : Heap) (a b c : Option ℕ)
    → (comparator h a a ≡ false)
      × (comparator h a b ≡ true → comparator h b c ≡ true → comparator h a c ≡ true)
      × (comparator h a b ≡ false → comparator h b a ≡ false → a ≡ b)
unfolding comparator
comparator_strict_total h a b c = ground arith
