-- ===== src/Idx/Slicer/Collected.antt =====
-- src/idx/dataset/dataset.rs: the pieces that an iterator gives, one by one.
use hidefix.Base.{
  Result, ◌>>=◌, ok, err, panic, stuck, ℕ, suc, ◌≡◌, refl, ◌⊎◌, inl, inr, Option, none, some, List,
  [], ◌∷◌,
}
use hidefix.Idx.Divisor.{Divisor}
use hidefix.Idx.Slicer.{Slice, ChunkSlicer, collect_slices, next}

module _ {Sr : Type 0} ⦃r : Divisor Sr⦄ where
  -- The items end here, or there is a first one and the rest.
  pub collect_slices-next :
      (n : ℕ) (it : ChunkSlicer Sr) (xs : List Slice)
      → collect_slices (suc n) it ≡ ok xs
      → ((next it ≡ ok none) × (xs ≡ []))
        ⊎ ((x : Slice) × (it' : ChunkSlicer Sr) × (ys : List Slice) × (next it ≡ ok (some (x, it')))
            × (collect_slices n it' ≡ ok ys)
            × (xs ≡ x ∷ ys))
  unfolding collect_slices
  collect_slices-next n it xs h = go (next it) refl h
    where
      rest :
          (x : Slice) (it' : ChunkSlicer Sr) (m : Result (List Slice))
          → collect_slices n it' ≡ m
          → (m >>= λ ys. ok (x ∷ ys)) ≡ ok xs
          → (ys : List Slice) × (collect_slices n it' ≡ ok ys) × (xs ≡ x ∷ ys)
      rest x it' (ok ys) e k = (ys, e, cc)
      rest x it' (err e') e k = absurd cc
      rest x it' panic e k = absurd cc
      rest x it' stuck e k = absurd cc

      go :
          (m : Result (Option (Slice × ChunkSlicer Sr)))
          → next it ≡ m
          → (m >>= elim [
            | none ↦ ok []
            | some (x, it') ↦ collect_slices n it' >>= λ ys. ok (x ∷ ys)
          ])
            ≡ ok xs
          → ((next it ≡ ok none) × (xs ≡ []))
            ⊎ ((x : Slice) × (it' : ChunkSlicer Sr) × (ys : List Slice) × (next it
                  ≡ ok (some (x, it')))
                × (collect_slices n it' ≡ ok ys)
                × (xs ≡ x ∷ ys))
      go (ok none) e k = inl (e, cc)
      go (ok (some (x, it'))) e k =
          let (ys, ran, whole) = rest x it' (collect_slices n it') refl k in
          inr (x, it', ys, e, ran, whole)
      go (err e') e k = absurd cc
      go panic e k = absurd cc
      go stuck e k = absurd cc
