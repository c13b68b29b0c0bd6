-- ===== src/Tests/Sorting.antt =====
-- Insertion sort by a comparison, which meets the interface of the `sort` of slices.
use mathlib.Core.List.{Permᴰ}
use mathlib.Core.List.Permᴰ as Permutation
use hidefix.Base.{All, All-Permᴰ, Ordering, ◌≡◌, refl, ◌≢◌, List, [], ◌∷◌}
use hidefix.Idx.Chunk.Sorted.{IsSortedBy, IsTotalOn, SliceSort}

module _ {A : Type 0} where
  -- An element before a list, or behind its first element.
  abbrev put : (o : Ordering) (x y : A) (ys rest : List A) → List A
  put Ordering.gt x y ys rest = y ∷ rest
  put _ x y ys rest = x ∷ y ∷ ys

  abbrev insert : (A → A → Ordering) → A → List A → List A
  insert order x [] = x ∷ []
  insert order x (y ∷ ys) = put (order x y) x y ys (insert order x ys)

  abbrev sort : (A → A → Ordering) → List A → List A
  sort order [] = []
  sort order (x ∷ xs) = insert order x (sort order xs)

  put-Permᴰ :
      (o : Ordering) (x y : A) (ys rest : List A)
      → Permᴰ (x ∷ ys) rest
      → Permᴰ (x ∷ y ∷ ys) (put o x y ys rest)
  put-Permᴰ Ordering.gt x y ys rest d = Permᴰ.trans (Permᴰ.swap refl refl) (Permᴰ.cons refl d)
  put-Permᴰ Ordering.lt x y ys rest d = Permutation.refl (x ∷ y ∷ ys)
  put-Permᴰ Ordering.eq x y ys rest d = Permutation.refl (x ∷ y ∷ ys)

  insert-Permᴰ :
      (order : A → A → Ordering) (x : A) (ys : List A) → Permᴰ (x ∷ ys) (insert order x ys)
  insert-Permᴰ order x [] = Permutation.refl (x ∷ [])
  insert-Permᴰ order x (y ∷ ys) =
      put-Permᴰ (order x y) x y ys (insert order x ys) (insert-Permᴰ order x ys)

  pub sort-Permᴰ : (order : A → A → Ordering) (xs : List A) → Permᴰ xs (sort order xs)
  sort-Permᴰ order [] = Permᴰ.nil
  sort-Permᴰ order (x ∷ xs) =
      Permᴰ.trans (Permᴰ.cons refl (sort-Permᴰ order xs)) (insert-Permᴰ order x (sort order xs))

  module _ (order : A → A → Ordering) (P : A → Type 0) (total : IsTotalOn order P) where
    abbrev Le : A → A → Type 0
    Le a b = order a b ≢ Ordering.gt

    All-behind :
        (x y : A) (ys : List A) → P x → P y → All P ys → Le x y → All (Le y) ys → All (Le x) ys
    All-behind x y [] p q ps h all = tt
    All-behind x y (z ∷ zs) p q ps h all =
        (total.passes_on x y z p q ps.0 h all.0, All-behind x y zs p q ps.1 h all.1)

    put-IsSortedBy :
        (o : Ordering) (x y : A) (ys : List A)
        → order x y ≡ o
        → P x
        → All P (y ∷ ys)
        → IsSortedBy Le (y ∷ ys)
        → IsSortedBy Le (insert order x ys)
        → IsSortedBy Le (put o x y ys (insert order x ys))
    put-IsSortedBy Ordering.gt x y ys e p ps s rest =
        let back = total.flips x y p ps.0 e in
        (All-Permᴰ (Le y) (insert-Permᴰ order x ys) ((λ h. cc), s.0), rest)
    put-IsSortedBy Ordering.lt x y ys e p ps s rest =
        (((λ h. cc), All-behind x y ys p ps.0 ps.1 (λ h. cc) s.0), s)
    put-IsSortedBy Ordering.eq x y ys e p ps s rest =
        (((λ h. cc), All-behind x y ys p ps.0 ps.1 (λ h. cc) s.0), s)

    insert-IsSortedBy :
        (x : A) (ys : List A)
        → P x
        → All P ys
        → IsSortedBy Le ys
        → IsSortedBy Le (insert order x ys)
    insert-IsSortedBy x [] p ps s = (tt, tt)
    insert-IsSortedBy x (y ∷ ys) p ps s =
        put-IsSortedBy (order x y) x y ys refl p ps s (insert-IsSortedBy x ys p ps.1 s.1)

    pub sort-IsSortedBy : (xs : List A) → All P xs → IsSortedBy Le (sort order xs)
    sort-IsSortedBy [] ps = tt
    sort-IsSortedBy (x ∷ xs) ps =
        insert-IsSortedBy x (sort order xs) ps.0 (All-Permᴰ P (sort-Permᴰ order xs) ps.1)
          (sort-IsSortedBy xs ps.1)

abbrev pub insertion_sort : SliceSort
insertion_sort = record {
  sort = λ order xs. sort order xs;
  permutes = λ order xs. sort-Permᴰ order xs;
  orders = λ order P total xs all. sort-IsSortedBy order P total xs all;
}
