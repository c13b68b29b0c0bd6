-- ===== src/Base/Ranges.antt =====
-- Slices `&xs[start..end]`, and a destination that is filled from the front.
use mathlib.Core.List.{List, [], ◌∷◌, ◌++◌}
use mathlib.Core.Path.{◌≡◌, refl, ap, sym, ◌∙◌}
use mathlib.Core.Bool.{Bool, true, false, ◌&&◌}
use mathlib.Core.Logic.{inl, inr}
use Prim.Native.Nat.{ℕ, zero, suc, ◌+◌, ◌-◌, ◌≤◌}
use native.Mathlib.Nat.{suc-add}
use native.Mathlib.Omega.{arith}
use hidefix.Base.Lists.{length, take, drop, length-take, length-drop}
use hidefix.Base.Outcome.{Result, ok, panic}
use hidefix.Base.Tests.{leb, if◌then◌else◌, leb→le, le→leb, Bool-cases}

-- `&xs[start..end]`, which panics on a start behind the end and on an end behind the list.
unfoldable pub sub_slice : List ℕ → (start end : ℕ) → Result (List ℕ)
sub_slice xs start end =
    if leb start end && leb end (length xs) then ok (take (end - start) (drop start xs)) else panic

-- The list behind the bytes that were written at its front.
abbrev pub fill : (dst bytes : List ℕ) → List ℕ
fill dst bytes = bytes ++ drop (length bytes) dst

&&-true : (a b : Bool) → (a && b) ≡ true → (a ≡ true) × (b ≡ true)
&&-true true true h = (refl, refl)
&&-true true false h = (refl, h)
&&-true false b h = cc

pub sub_slice-ok :
    (xs : List ℕ) (start end : ℕ)
    → start ≤ end
    → end ≤ length xs
    → sub_slice xs start end ≡ ok (take (end - start) (drop start xs))
unfolding sub_slice
sub_slice-ok xs start end h k = rw (le→leb start end h, le→leb end (length xs) k) refl

pub length-sub_slice :
    (xs ys : List ℕ) (start end : ℕ)
    → sub_slice xs start end ≡ ok ys
    → (start ≤ end) × (length ys ≡ end - start)
unfolding sub_slice
length-sub_slice xs ys start end h = elim (Bool-cases (leb start end && leb end (length xs))) [
  | inl e ↦
      let (a, b) = &&-true (leb start end) (leb end (length xs)) e in
      let le = leb→le start end a in
      let le' = leb→le end (length xs) b in
      let h' : ok (take (end - start) (drop start xs)) ≡ ok ys = rw e at h in
      let whole : take (end - start) (drop start xs) ≡ ys = cc in
      (
        le,
        ap length (sym whole)
            ∙ length-take (end - start) (drop start xs)
            ∙ omega (arith, length-drop start xs),
      )
  | inr e ↦ let h' : panic ≡ ok ys = rw e at h in absurd cc
]

pub drop-drop {ℓ} : {A : Type ℓ} (n m : ℕ) (xs : List A) → drop m (drop n xs) ≡ drop (n + m) xs
drop-drop zero m xs = ap (λ i. drop i xs) (omega arith)
drop-drop (suc n) zero [] = rw (suc-add n 0) refl
drop-drop (suc n) (suc m) [] = rw (suc-add n (suc m)) refl
drop-drop (suc n) m (x ∷ xs) = rw (suc-add n m) (drop-drop n m xs)
