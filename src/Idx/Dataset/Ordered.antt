-- ===== src/Idx/Dataset/Ordered.antt =====
-- src/idx/dataset/dataset.rs: row-major order is the order of the chunks.
use hidefix.Base.{
  length, All, All-append, ℕ, zero, suc, ◌+◌, ◌*◌, ◌≤◌, ◌<◌, ◌≡◌, refl, ap, List, [], ◌∷◌, ◌++◌,
  map, arith,
}
use hidefix.Idx.Chunk.{cmp_loop}
use hidefix.Idx.Chunk.Sorted.{IsSortedBy, NotBehind}
use hidefix.Idx.Dataset.Grid.{blocks, rows, grid}

module _ {A : Type 0} (le : A → A → Type 0) where
  IsSortedBy-append :
      (xs ys : List A)
      → IsSortedBy le xs
      → IsSortedBy le ys
      → All (λ x. All (le x) ys) xs
      → IsSortedBy le (xs ++ ys)
  IsSortedBy-append [] ys s t h = t
  IsSortedBy-append (x ∷ xs) ys s t h =
      (All-append (le x) xs ys s.0 h.0, IsSortedBy-append xs ys s.1 t h.1)

NotBehind-cons : (a : ℕ) (os ps : List ℕ) → NotBehind os ps → NotBehind (a ∷ os) (a ∷ ps)
unfolding cmp_loop
NotBehind-cons a os ps h = ground arith

NotBehind-lt : (a b : ℕ) (os ps : List ℕ) → a < b → NotBehind (a ∷ os) (b ∷ ps)
unfolding cmp_loop
NotBehind-lt a b os ps h = ground arith

cons-IsSortedBy :
    (a : ℕ) (os : List (List ℕ))
    → IsSortedBy NotBehind os
    → IsSortedBy NotBehind (map (λ o. a ∷ o) os)
cons-IsSortedBy a [] s = tt
cons-IsSortedBy a (o ∷ os) s = (each os s.0, cons-IsSortedBy a os s.1)
  where
    each :
        (ps : List (List ℕ)) → All (NotBehind o) ps → All (NotBehind (a ∷ o)) (map (λ p. a ∷ p) ps)
    each [] p = tt
    each (q ∷ ps) p = (NotBehind-cons a o q p.0, each ps p.1)

-- An offset whose first coordinate is at least `n`.
abbrev BeginsFrom : ℕ → List ℕ → Type 0
BeginsFrom n [] = ⊥
BeginsFrom n (a ∷ os) = n ≤ a

rows-BeginsFrom :
    (c : ℕ) (inner : List (List ℕ)) (n k b : ℕ) → n ≤ b * c → All (BeginsFrom n) (rows c inner k b)
rows-BeginsFrom c inner n zero b h = tt
rows-BeginsFrom c inner n (suc k) b h =
    All-append (BeginsFrom n) (map (λ o. b * c ∷ o) inner) (rows c inner k (suc b)) (each inner)
      (rows-BeginsFrom c inner n k (suc b) (omega arith))
  where
    each : (os : List (List ℕ)) → All (BeginsFrom n) (map (λ o. b * c ∷ o) os)
    each [] = tt
    each (o ∷ os) = (h, each os)

rows-IsSortedBy :
    (c : ℕ) (inner : List (List ℕ)) (k b : ℕ)
    → 0 < c
    → IsSortedBy NotBehind inner
    → IsSortedBy NotBehind (rows c inner k b)
rows-IsSortedBy c inner zero b pos_c s = tt
rows-IsSortedBy c inner (suc k) b pos_c s =
    IsSortedBy-append NotBehind (map (λ o. b * c ∷ o) inner) (rows c inner k (suc b))
      (cons-IsSortedBy (b * c) inner s) (rows-IsSortedBy c inner k (suc b) pos_c s) (each inner)
  where
    behind :
        (o : List ℕ) (ps : List (List ℕ))
        → All (BeginsFrom (b * c + c)) ps
        → All (NotBehind (b * c ∷ o)) ps
    behind o [] p = tt
    behind o ([] ∷ ps) p = absurd p.0
    behind o ((a ∷ q) ∷ ps) p = (NotBehind-lt (b * c) a o q (omega arith), behind o ps p.1)

    each :
        (os : List (List ℕ))
        → All (λ o. All (NotBehind o) (rows c inner k (suc b))) (map (λ o. b * c ∷ o) os)
    each [] = tt
    each (o ∷ os) = (
      behind o (rows c inner k (suc b))
          (rows-BeginsFrom c inner (b * c + c) k (suc b) (omega arith)),
      each os,
    )

-- The offsets of the chunks of a shape are sorted.
pub grid-IsSortedBy :
    (shape chunk_shape : List ℕ)
    → All (λ c. 0 < c) chunk_shape
    → IsSortedBy NotBehind (grid shape chunk_shape)
grid-IsSortedBy [] cs p = (tt, tt)
grid-IsSortedBy (s ∷ ss) [] p = (tt, tt)
grid-IsSortedBy (s ∷ ss) (c ∷ cs) p =
    rows-IsSortedBy c (grid ss cs) (blocks s c) 0 p.0 (grid-IsSortedBy ss cs p.1)

rows-rank :
    (c d : ℕ) (inner : List (List ℕ)) (k b : ℕ)
    → All (λ (o : List ℕ). length o ≡ d) inner
    → All (λ (o : List ℕ). length o ≡ suc d) (rows c inner k b)
rows-rank c d inner zero b p = tt
rows-rank c d inner (suc k) b p =
    All-append (λ (o : List ℕ). length o ≡ suc d) (map (λ o. b * c ∷ o) inner)
      (rows c inner k (suc b)) (each inner p) (rows-rank c d inner k (suc b) p)
  where
    each :
        (os : List (List ℕ))
        → All (λ (o : List ℕ). length o ≡ d) os
        → All (λ (o : List ℕ). length o ≡ suc d) (map (λ o. b * c ∷ o) os)
    each [] q = tt
    each (o ∷ os) q = (ap suc q.0, each os q.1)

-- Each has the rank of the shape.
pub grid-rank :
    (shape chunk_shape : List ℕ)
    → length shape ≡ length chunk_shape
    → All (λ (o : List ℕ). length o ≡ length shape) (grid shape chunk_shape)
grid-rank [] cs e = (refl, tt)
grid-rank (s ∷ ss) [] e = absurd (omega arith)
grid-rank (s ∷ ss) (c ∷ cs) e =
    rows-rank c (length ss) (grid ss cs) (blocks s c) 0 (grid-rank ss cs (omega arith))
