-- ===== src/Base/Loop.antt =====
-- Memory as a list that is read and written at an index, and loops `for i in first..first + n`.
use mathlib.Core.List.{List, [], ◌∷◌}
use mathlib.Core.Path.{◌≡◌, refl}
use mathlib.Core.Logic.{◌≢◌}
use Prim.Native.Nat.{ℕ, zero, suc, ◌+◌, ◌<◌, ◌≤◌}
use native.Mathlib.Omega.{arith}
use native.Mathlib.Decide.{ℕ_discrete}
use hidefix.Base.Lists.{length}

-- The byte at an index, which the code knows to be in bounds.
abbrev pub load : List ℕ → ℕ → ℕ
load (x ∷ xs) zero = x
load (x ∷ xs) (suc a) = load xs a
load [] a = 0

abbrev pub store : List ℕ → (a v : ℕ) → List ℕ
store (x ∷ xs) zero v = v ∷ xs
store (x ∷ xs) (suc a) v = x ∷ store xs a v
store [] a v = []

pub length-store : (xs : List ℕ) (a v : ℕ) → length (store xs a v) ≡ length xs
length-store (x ∷ xs) zero v = refl
length-store (x ∷ xs) (suc a) v = omega (arith, length-store xs a v)
length-store [] a v = refl

pub load-store : (xs : List ℕ) (a v : ℕ) → a < length xs → load (store xs a v) a ≡ v
load-store (x ∷ xs) zero v h = refl
load-store (x ∷ xs) (suc a) v h = load-store xs a v (omega arith)
load-store [] a v h = absurd (omega arith)

pub load-store_other : (xs : List ℕ) (a b v : ℕ) → b ≢ a → load (store xs a v) b ≡ load xs b
load-store_other (x ∷ xs) zero zero v h = absurd (h refl)
load-store_other (x ∷ xs) zero (suc b) v h = refl
load-store_other (x ∷ xs) (suc a) zero v h = refl
load-store_other (x ∷ xs) (suc a) (suc b) v h = load-store_other xs a b v (omega arith)
load-store_other [] a b v h = refl

-- Lists that read alike.
pub load_ext :
    (xs ys : List ℕ)
    → length xs ≡ length ys
    → ((a : ℕ) → a < length xs → load xs a ≡ load ys a)
    → xs ≡ ys
load_ext (x ∷ xs) (y ∷ ys) len h =
    rw (h 0 (omega arith), load_ext xs ys (omega arith) (λ a lt. h (suc a) (omega arith))) refl
load_ext (x ∷ xs) [] len h = absurd (omega arith)
load_ext [] (y ∷ ys) len h = absurd (omega arith)
load_ext [] [] len h = refl

unfoldable pub for_range {ℓ} : {S : Type ℓ} → (n first : ℕ) → (ℕ → S → S) → S → S
for_range zero first body s = s
for_range (suc n) first body s = for_range n (suc first) body (body first s)

-- What every round keeps, the loop keeps.
pub for_range_keeps {ℓ} :
    {S : Type ℓ} (P : S → Type 0) (body : ℕ → S → S) (n first : ℕ)
    → ((i : ℕ) → first ≤ i → i < first + n → (s : S) → P s → P (body i s))
    → (s : S) → P s
    → P (for_range n first body s)
unfolding for_range
for_range_keeps P body zero first keeps s p = p
for_range_keeps P body (suc n) first keeps s p =
    for_range_keeps P body n (suc first) (λ i le lt. keeps i (omega arith) (omega arith))
      (body first s) (keeps first (omega arith) (omega arith) s p)

-- What every round keeps, and the round `i` brings about from any state that has `Q`, which every
-- round keeps, the loop brings about.
pub for_range_reaches {ℓ} :
    {S : Type ℓ} (P Q : S → Type 0) (body : ℕ → S → S) (n first : ℕ)
    → ((i : ℕ) → first ≤ i → i < first + n → (s : S) → P s → P (body i s))
    → ((i : ℕ) → first ≤ i → i < first + n → (s : S) → Q s → Q (body i s))
    → (i : ℕ) → first ≤ i
    → i < first + n
    → ((s : S) → Q s → P (body i s))
    → (s : S) → Q s
    → P (for_range n first body s)
unfolding for_range
for_range_reaches P Q body zero first keeps q i le lt h s k = absurd (omega arith)
for_range_reaches P Q body (suc n) first keeps q i le lt h s k = elim (ℕ_discrete i first) [
  | yes e ↦
      for_range_keeps P body n (suc first) (λ i' le' lt'. keeps i' (omega arith) (omega arith))
        (body first s) (rw e at (h s k))
  | no ne ↦
      for_range_reaches P Q body n (suc first) (λ i' le' lt'. keeps i' (omega arith) (omega arith))
        (λ i' le' lt'. q i' (omega arith) (omega arith)) i (omega arith) (omega arith) h
        (body first s) (q first (omega arith) (omega arith) s k)
]
