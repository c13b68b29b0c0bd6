-- ===== src/Idx/Divisor.antt =====
-- `StrengthReducedU64` of the crate `strength_reduce`, which is not part of this repository: a divisor
-- prepared for fast division. The laws are its documentation: it divides as `/` and `%` do, gives its
-- divisor back, and cannot be made from 0.
use hidefix.Base.{◌==◌, if◌then◌else◌, Result, ok, panic, ℕ, ◌/◌, ◌%◌, ◌<◌, ◌≡◌, refl, arith}

pub record Divisor (Sr : Type 0) : Type 0 where
  pub new : ℕ → Result Sr
  pub get : Sr → ℕ
  pub div : ℕ → Sr → ℕ
  pub rem : ℕ → Sr → ℕ
  pub new-zero : new 0 ≡ panic
  pub new-pos : (n : ℕ) → 0 < n → (s : Sr) × (new n ≡ ok s) × (get s ≡ n)
  pub div-eq : (x : ℕ) (s : Sr) → div x s ≡ x / get s
  pub rem-eq : (x : ℕ) (s : Sr) → rem x s ≡ x % get s

abbrev pub number_new : ℕ → Result ℕ
number_new n = if n == 0 then panic else ok n

pub number_new-pos : (n : ℕ) → 0 < n → (s : ℕ) × (number_new n ≡ ok s) × (s ≡ n)
number_new-pos n h = (n, ground arith, refl)

-- Plain division meets the laws.
instance abbrev pub number : Divisor ℕ
number = record {
  new = number_new;
  get = λ s. s;
  div = λ x s. x / s;
  rem = λ x s. x % s;
  new-zero = refl;
  new-pos = number_new-pos;
  div-eq = λ x s. refl;
  rem-eq = λ x s. refl;
}
