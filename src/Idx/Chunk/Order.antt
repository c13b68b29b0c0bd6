-- ===== src/Idx/Chunk/Order.antt =====
-- src/idx/chunk.rs: the order of chunks, and where a point lies.
use hidefix.Base.{
  length, ok, panic, word, add64-eq-add, ℕ, ◌+◌, ◌≤◌, ◌<◌, compare, Ordering, ◌≡◌, refl, ap₂, ◌≢◌,
  ◌↔◌, ◌⊎◌, List, [], ◌∷◌, arith,
}
use hidefix.Idx.Chunk.{Chunk, contains_loop, contains, cmp_loop, cmp}

-- The point lies within the chunk in every dimension.
abbrev pub Inside : (i chunk_shape offset : List ℕ) → Type 0
Inside (i ∷ is) (s ∷ ss) (o ∷ os) = ((o ≤ i) × (i < o + s)) × Inside is ss os
Inside _ _ _ = Unit

-- No chunk ends beyond the largest `u64`.
abbrev pub Fits : (chunk_shape offset : List ℕ) → Type 0
Fits (s ∷ ss) (o ∷ os) = (o + s < word) × Fits ss os
Fits _ _ = Unit

contains_loop-Inside :
    (i ss os : List ℕ) → Fits ss os → (contains_loop i ss os ≡ Ordering.eq) ↔ Inside i ss os
unfolding contains_loop
contains_loop-Inside [] ss os h = ((λ _. tt), (λ _. refl))
contains_loop-Inside (i ∷ is) [] os h = ((λ _. tt), (λ _. refl))
contains_loop-Inside (i ∷ is) (s ∷ ss) [] h = ((λ _. tt), (λ _. refl))
contains_loop-Inside (i ∷ is) (s ∷ ss) (o ∷ os) h = rw (add64-eq-add o s h.0) (
  (λ e. ground (arith, (contains_loop-Inside is ss os h.1).0)),
  (λ e. ground (arith, (contains_loop-Inside is ss os h.1).1)),
)

-- Where no chunk end overflows, `contains` answers `Equal` exactly for the points of the chunk, and panics exactly on a point or
-- a shape of another rank.
pub contains-Inside :
    (c : Chunk) (i ss : List ℕ)
    → Fits ss c.offset
    → ((contains c i ss ≡ ok Ordering.eq)
        ↔ ((length i ≡ length ss) × (length i ≡ length c.offset) × Inside i ss c.offset))
      × ((contains c i ss ≡ panic) ↔ ((length i ≢ length ss) ⊎ (length i ≢ length c.offset)))
unfolding contains
contains-Inside c i ss h =
    let inside = contains_loop-Inside i ss c.offset h in
    (
      ((λ e. ground (arith, inside.0)), (λ e. ground (arith, inside.1))),
      ((λ e. ground arith), (λ e. ground arith)),
    )

-- The lexicographic order, as a relation.
pub data Before : List ℕ → List ℕ → Type 0 where
  first : {a b : ℕ} {as' bs : List ℕ} → a < b → Before (a ∷ as') (b ∷ bs)
  later : {a b : ℕ} {as' bs : List ℕ} → a ≡ b → Before as' bs → Before (a ∷ as') (b ∷ bs)

-- What each answer of a comparison says.
abbrev pub Means : List ℕ → List ℕ → Ordering → Type 0
Means as' bs Ordering.lt = Before as' bs
Means as' bs Ordering.eq = as' ≡ bs
Means as' bs Ordering.gt = Before bs as'

pub cmp_loop-Means : (as' bs : List ℕ) → length as' ≡ length bs → Means as' bs (cmp_loop as' bs)
unfolding cmp_loop
cmp_loop-Means [] [] h = refl
cmp_loop-Means [] (b ∷ bs) h = absurd (omega arith)
cmp_loop-Means (a ∷ as') [] h = absurd (omega arith)
cmp_loop-Means (a ∷ as') (b ∷ bs) h =
    go (compare a b) refl (cmp_loop as' bs) (cmp_loop-Means as' bs (omega arith))
  where
    go :
        (o : Ordering)
        → compare a b ≡ o
        → (r : Ordering) → Means as' bs r
        → Means
            (a ∷ as')
            (b ∷ bs)
            (elim o [ Ordering.gt ↦ Ordering.gt | Ordering.lt ↦ Ordering.lt | Ordering.eq ↦ r ])
    go Ordering.lt e r m = first (ground arith)
    go Ordering.gt e r m = first (ground arith)
    go Ordering.eq e Ordering.lt m = later (ground arith) m
    go Ordering.eq e Ordering.eq m = ap₂ ◌∷◌ (ground arith) m
    go Ordering.eq e Ordering.gt m = later (ground arith) m

-- Chunks of one rank are compared lexicographically by their offsets.
pub cmp-Means :
    (a b : Chunk) → length a.offset ≡ length b.offset → Means a.offset b.offset (cmp a b)
unfolding cmp
cmp-Means a b h = cmp_loop-Means a.offset b.offset h
