-- ===== src/Base/Permutes.antt =====
-- Predicates on lists that a permutation keeps.
use mathlib.Core.List.{List, [], ◌∷◌, Permᴰ}
use mathlib.Core.Path.{subst}
use mathlib.Core.Logic.{◌⊎◌, inl, inr}
use hidefix.Base.Lists.{All}

-- The predicate holds of some element.
abbrev pub Some {ℓ} : {A : Type ℓ} (holds : A → Type 0) → List A → Type 0
Some holds [] = ⊥
Some holds (x ∷ xs) = holds x ⊎ Some holds xs

module _ {A : Type 0} (P : A → Type 0) where
  pub All-Permᴰ : {xs ys : List A} → Permᴰ xs ys → All P xs → All P ys
  All-Permᴰ Permᴰ.nil p = tt
  All-Permᴰ (Permᴰ.cons e d) p = (subst P e p.0, All-Permᴰ d p.1)
  All-Permᴰ (Permᴰ.swap e e') p = (subst P e' p.1.0, (subst P e p.0, p.1.1))
  All-Permᴰ (Permᴰ.trans d d') p = All-Permᴰ d' (All-Permᴰ d p)

  pub Some-Permᴰ : {xs ys : List A} → Permᴰ xs ys → Some P xs → Some P ys
  Some-Permᴰ Permᴰ.nil p = p
  Some-Permᴰ (Permᴰ.cons e d) (inl p) = inl (subst P e p)
  Some-Permᴰ (Permᴰ.cons e d) (inr p) = inr (Some-Permᴰ d p)
  Some-Permᴰ (Permᴰ.swap e e') (inl p) = inr (inl (subst P e p))
  Some-Permᴰ (Permᴰ.swap e e') (inr (inl p)) = inl (subst P e' p)
  Some-Permᴰ (Permᴰ.swap e e') (inr (inr p)) = inr (inr p)
  Some-Permᴰ (Permᴰ.trans d d') p = Some-Permᴰ d' (Some-Permᴰ d p)
