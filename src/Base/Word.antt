-- ===== src/Base/Word.antt =====
-- `u64` arithmetic of a release build, where overflow wraps around. `usize` is 64 bits wide.
use Prim.Native.Nat.{ℕ, ◌+◌, ◌-◌, ◌*◌, ◌/◌, ◌%◌, ◌^◌, ◌≤◌, ◌<◌}
use mathlib.Core.Path.{◌≡◌, ◌∙◌, sym, ap}
use mathlib.Core.List.{List, [], ◌∷◌, foldl}
use native.Mathlib.Nat.{
  mod-eq_of_lt, mod-lt, mod-add-div, add-mul-mod_self_left, mul-one, one-mul, mul_assoc,
}
use native.Mathlib.Omega.{arith}
use hidefix.Base.Lists.{product}

abbrev pub word : ℕ
word = 2 ^ 64

unfoldable pub add64 : ℕ → ℕ → ℕ
add64 a b = (a + b) % word

unfoldable pub sub64 : ℕ → ℕ → ℕ
sub64 a b = (a + word - b) % word

unfoldable pub mul64 : ℕ → ℕ → ℕ
mul64 a b = a * b % word

pub add64-eq-add : (a b : ℕ) → a + b < word → add64 a b ≡ a + b
unfolding add64
add64-eq-add a b h = mod-eq_of_lt h

pub sub64-eq-sub : (a b : ℕ) → b ≤ a → a < word → sub64 a b ≡ a - b
unfolding sub64
sub64-eq-sub a b h k = omega arith

pub mul64-eq-mul : (a b : ℕ) → a * b < word → mul64 a b ≡ a * b
unfolding mul64
mul64-eq-mul a b h = mod-eq_of_lt h

pub mul64-lt : (a b : ℕ) → mul64 a b < word
unfolding mul64
mul64-lt a b = mod-lt (a * b) (omega arith)

-- `iter().product::<u64>()`
unfoldable pub product64 : List ℕ → ℕ
product64 ns = foldl mul64 1 ns

pub mul-mod_left_of_mod : (a b m : ℕ) → a % m * b % m ≡ a * b % m
mul-mod_left_of_mod a b m =
    sym (add-mul-mod_self_left (a % m * b) m (a / m * b)) ∙ ap (λ t. t % m) whole
  where
    whole : a % m * b + m * (a / m * b) ≡ a * b
    whole = omega (arith, ap (λ (t : ℕ). t * b) (mod-add-div a m))

module _ where
  product_loop : (acc : ℕ) (ns : List ℕ) → foldl mul64 (acc % word) ns ≡ acc * product ns % word
  unfolding mul64
  product_loop acc [] = rw mul-one
  product_loop acc (n ∷ ns) =
      rw (mul-mod_left_of_mod acc n word, product_loop (acc * n) ns) (rw mul_assoc)

pub product64-eq-mod : (ns : List ℕ) → product64 ns ≡ product ns % word
unfolding product64
product64-eq-mod ns = product_loop 1 ns ∙ ap (λ x. x % word) (one-mul (product ns))

-- Only the whole product has to fit.
pub product64-eq-product : (ns : List ℕ) → product ns < word → product64 ns ≡ product ns
unfolding product64
product64-eq-product ns h = product_loop 1 ns ∙ mod-eq_of_lt (rw one-mul h) ∙ one-mul (product ns)
