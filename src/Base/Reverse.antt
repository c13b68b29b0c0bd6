-- ===== src/Base/Reverse.antt =====
-- Lemmas on `reverse`.
use mathlib.Core.List.{List, [], ◌∷◌, map, reverse, reverse_aux}
use mathlib.Core.Path.{◌≡◌, refl, ◌∙◌}
use Prim.Native.Nat.{ℕ, ◌+◌, ◌*◌}
use native.Mathlib.Omega.{arith}
use native.Mathlib.Nat.{mul-one}
use hidefix.Base.Lists.{sum, product, All}

map-reverse_aux {ℓ κ} :
    {A : Type ℓ} {B : Type κ} (f : A → B) (xs ys : List A)
    → map f (reverse_aux xs ys) ≡ reverse_aux (map f xs) (map f ys)
map-reverse_aux f [] ys = refl
map-reverse_aux f (x ∷ xs) ys = map-reverse_aux f xs (x ∷ ys)

pub map-reverse {ℓ κ} :
    {A : Type ℓ} {B : Type κ} (f : A → B) (xs : List A) → map f (reverse xs) ≡ reverse (map f xs)
map-reverse f xs = map-reverse_aux f xs []

sum-reverse_aux : (xs ys : List ℕ) → sum (reverse_aux xs ys) ≡ sum xs + sum ys
sum-reverse_aux [] ys = omega arith
sum-reverse_aux (x ∷ xs) ys = omega (arith, sum-reverse_aux xs (x ∷ ys))

pub sum-reverse : (xs : List ℕ) → sum (reverse xs) ≡ sum xs
sum-reverse xs = omega (arith, sum-reverse_aux xs [])

All-reverse_aux {ℓ κ} :
    {A : Type ℓ} (holds : A → Type κ) (xs ys : List A)
    → All holds xs
    → All holds ys
    → All holds (reverse_aux xs ys)
All-reverse_aux P [] ys p q = q
All-reverse_aux P (x ∷ xs) ys p q = All-reverse_aux P xs (x ∷ ys) p.1 (p.0, q)

pub All-reverse {ℓ κ} : {A : Type ℓ} (P : A → Type κ) (xs : List A) → All P xs → All P (reverse xs)
All-reverse P xs p = All-reverse_aux P xs [] p tt

product-reverse_aux : (xs ys : List ℕ) → product (reverse_aux xs ys) ≡ product xs * product ys
product-reverse_aux [] ys = omega arith
product-reverse_aux (x ∷ xs) ys = product-reverse_aux xs (x ∷ ys) ∙ omega arith

pub product-reverse : (xs : List ℕ) → product (reverse xs) ≡ product xs
product-reverse xs = product-reverse_aux xs [] ∙ mul-one (product xs)
