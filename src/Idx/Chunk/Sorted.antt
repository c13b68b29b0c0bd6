-- ===== src/Idx/Chunk/Sorted.antt =====
-- src/idx/chunk.rs: sorting chunks by `Ord for Chunk`. The stable `sort` of the standard library is an
-- interface.
use mathlib.Core.List.{Permᴰ, Perm}
use mathlib.Core.List.Perm
use mathlib.Core.List.Permᴰ as Permutation
use hidefix.Base.{
  length, All, All-Permᴰ, ℕ, Ordering, ◌≡◌, refl, sym, subst, ap₂, ◌∙◌, ◌≢◌, List, [], ◌∷◌, map,
  arith,
}
use hidefix.Idx.Chunk.{Chunk, cmp_loop, cmp}
use hidefix.Idx.Chunk.Codec.{HasRank}
use hidefix.Idx.Chunk.Order.{Means, cmp_loop-Means}

-- Every element is related to those behind it.
abbrev pub IsSortedBy : {A : Type 0} (le : A → A → Type 0) → List A → Type 0
IsSortedBy le [] = Unit
IsSortedBy le (x ∷ xs) = All (le x) xs × IsSortedBy le xs

-- A list has one sorted permutation, if the relation is antisymmetric on its elements.
pub sorted_unique :
    {A : Type 0} (le : A → A → Type 0) (P : A → Type 0)
    → ((a b : A) → IsProp (le a b))
    → ((a : A) → le a a)
    → ((a b : A) → P a → P b → le a b → le b a → a ≡ b)
    → (xs ys : List A) → All P xs
    → All P ys
    → IsSortedBy le xs
    → IsSortedBy le ys
    → Perm xs ys
    → xs ≡ ys
sorted_unique le P prop self anti [] ys p q s t perm = Perm.nil-eq perm
sorted_unique le P prop self anti (x ∷ xs) [] p q s t perm = Perm.eq-nil perm
sorted_unique {A} le P prop self anti (x ∷ xs) (y ∷ ys) p q s t perm =
    let below : le x y =
      ∥∥₁_rec (prop x y) (λ (d : Permᴰ (x ∷ xs) (y ∷ ys)). (All-Permᴰ (le x) d (self x, s.0)).0)
        perm in
    let above : le y x =
      ∥∥₁_rec (prop y x)
        (λ (d : Permᴰ (x ∷ xs) (y ∷ ys)). (All-Permᴰ (le y) (Permutation.symm d) (self y, t.0)).0)
        perm in
    let heads = anti x y p.0 q.0 below above in
    let tails = Perm.cons_inv (subst (λ z. Perm (x ∷ xs) (z ∷ ys)) (sym heads) perm) in
    ap₂ ◌∷◌ heads (sorted_unique le P prop self anti xs ys p.1 q.1 s.1 t.1 tails)

-- Not behind, in the order of `cmp`.
abbrev pub NotBehind : (as' bs : List ℕ) → Type 0
NotBehind as' bs = cmp_loop as' bs ≢ Ordering.gt

NotBehind-prop : (as' bs : List ℕ) → IsProp (NotBehind as' bs)
NotBehind-prop as' bs = hlevel

cmp_loop_refl : (as' : List ℕ) → cmp_loop as' as' ≡ Ordering.eq
unfolding cmp_loop
cmp_loop_refl [] = refl
cmp_loop_refl (a ∷ as') = ground (arith, cmp_loop_refl as')

cmp_loop-flip : (as' bs : List ℕ) → cmp_loop as' bs ≡ Ordering.lt → cmp_loop bs as' ≡ Ordering.gt
unfolding cmp_loop
cmp_loop-flip [] [] h = cc
cmp_loop-flip [] (b ∷ bs) h = cc
cmp_loop-flip (a ∷ as') [] h = cc
cmp_loop-flip (a ∷ as') (b ∷ bs) h = ground (arith, cmp_loop-flip as' bs)

cmp_loop-flip_gt : (as' bs : List ℕ) → cmp_loop as' bs ≡ Ordering.gt → cmp_loop bs as' ≡ Ordering.lt
unfolding cmp_loop
cmp_loop-flip_gt [] [] h = cc
cmp_loop-flip_gt [] (b ∷ bs) h = cc
cmp_loop-flip_gt (a ∷ as') [] h = cc
cmp_loop-flip_gt (a ∷ as') (b ∷ bs) h = ground (arith, cmp_loop-flip_gt as' bs)

cmp_loop_trans :
    (as' bs cs : List ℕ)
    → length as' ≡ length bs
    → length bs ≡ length cs
    → NotBehind as' bs
    → NotBehind bs cs
    → NotBehind as' cs
unfolding cmp_loop
cmp_loop_trans [] [] [] e e' h k = λ p. cc
cmp_loop_trans [] [] (c ∷ cs) e e' h k = absurd (omega arith)
cmp_loop_trans [] (b ∷ bs) cs e e' h k = absurd (omega arith)
cmp_loop_trans (a ∷ as') [] cs e e' h k = absurd (omega arith)
cmp_loop_trans (a ∷ as') (b ∷ bs) [] e e' h k = absurd (omega arith)
cmp_loop_trans (a ∷ as') (b ∷ bs) (c ∷ cs) e e' h k =
    ground (arith, cmp_loop_trans as' bs cs (omega arith) (omega arith))

NotBehind-antisym :
    (as' bs : List ℕ) → length as' ≡ length bs → NotBehind as' bs → NotBehind bs as' → as' ≡ bs
NotBehind-antisym as' bs e h k = go (cmp_loop as' bs) refl (cmp_loop-Means as' bs e)
  where
    go : (o : Ordering) → cmp_loop as' bs ≡ o → Means as' bs o → as' ≡ bs
    go Ordering.lt e' m = absurd (k (cmp_loop-flip as' bs e'))
    go Ordering.eq e' m = m
    go Ordering.gt e' m = absurd (h e')

-- What `sort` asks of an order on some values.
pub record IsTotalOn {A : Type 0} (order : A → A → Ordering) (P : A → Type 0) : Type 0 where
  pub flips : (a b : A) → P a → P b → order a b ≡ Ordering.gt → order b a ≡ Ordering.lt
  pub passes_on :
      (a b c : A)
      → P a
      → P b
      → P c
      → order a b ≢ Ordering.gt
      → order b c ≢ Ordering.gt
      → order a c ≢ Ordering.gt

-- Sorting permutes the values, and sorts them by a total order.
pub record SliceSort : Type 1 where
  pub sort : {A : Type 0} → (A → A → Ordering) → List A → List A
  pub permutes : {A : Type 0} (order : A → A → Ordering) (xs : List A) → Permᴰ xs (sort order xs)
  pub orders :
      {A : Type 0} (order : A → A → Ordering) (P : A → Type 0)
      → IsTotalOn order P
      → (xs : List A) → All P xs
      → IsSortedBy (λ a b. order a b ≢ Ordering.gt) (sort order xs)

-- Chunks of a rank have a total order.
cmp-IsTotalOn : (d : ℕ) → IsTotalOn cmp (HasRank d)
unfolding cmp
cmp-IsTotalOn d = record {
  flips = λ a b p q h. cmp_loop-flip_gt a.offset b.offset h;
  passes_on =
      λ a b c p q s h k. cmp_loop_trans a.offset b.offset c.offset (p ∙ sym q) (q ∙ sym s) h k;
}

module _ (s : SliceSort) (d : ℕ) where
  offsets-IsSortedBy :
      (cs : List Chunk)
      → IsSortedBy (λ a b. cmp a b ≢ Ordering.gt) cs
      → IsSortedBy NotBehind (map (λ c. c.offset) cs)
  unfolding cmp
  offsets-IsSortedBy [] h = tt
  offsets-IsSortedBy (c ∷ cs) h = (each cs h.0, offsets-IsSortedBy cs h.1)
    where
      each :
          (xs : List Chunk)
          → All (λ x. cmp c x ≢ Ordering.gt) xs
          → All (NotBehind c.offset) (map (λ x. x.offset) xs)
      each [] p = tt
      each (x ∷ xs) p = (p.0, each xs p.1)

  offsets-rank :
      (cs : List Chunk)
      → All (HasRank d) cs
      → All (λ (o : List ℕ). length o ≡ d) (map (λ c. c.offset) cs)
  offsets-rank [] h = tt
  offsets-rank (c ∷ cs) h = (h.0, offsets-rank cs h.1)

  -- Chunks in any order are sorted into the one order of their offsets.
  pub sort-offsets :
      (cs : List Chunk) (os : List (List ℕ))
      → All (HasRank d) cs
      → IsSortedBy NotBehind os
      → Permᴰ (map (λ c. c.offset) cs) os
      → map (λ c. c.offset) (s.sort cmp cs) ≡ os
  sort-offsets cs os ranks sorted perm =
      let moved : Permᴰ cs (s.sort cmp cs) = s.permutes cmp cs in
      let perm' : Permᴰ (map (λ (c : Chunk). c.offset) (s.sort cmp cs)) os =
        Permᴰ.trans (Permutation.map (λ (c : Chunk). c.offset) (Permutation.symm moved)) perm in
      sorted_unique NotBehind (λ o. length o ≡ d) NotBehind-prop
        (λ o h. let e : Ordering.eq ≡ Ordering.gt = sym (cmp_loop_refl o) ∙ h in cc)
        (λ a b p q. NotBehind-antisym a b (p ∙ sym q)) (map (λ c. c.offset) (s.sort cmp cs)) os
        (offsets-rank (s.sort cmp cs) (All-Permᴰ (HasRank d) moved ranks))
        (All-Permᴰ (λ (o : List ℕ). length o ≡ d) perm (offsets-rank cs ranks))
        (offsets-IsSortedBy (s.sort cmp cs) (s.orders cmp (HasRank d) (cmp-IsTotalOn d) cs ranks))
        sorted ∣ perm' ∣₁
