-- ===== src/Filters/Shuffle/Fill.antt =====
-- src/filters/shuffle.rs: two loops of writes, as the shuffle filter and its inverses have them.
use hidefix.Base.{
  length, load, store, length-store, load-store, load-store_other, for_range, for_range_keeps,
  for_range_reaches, ℕ, ◌<◌, ◌≡◌, refl, ◌∙◌, List, ℕ_discrete, arith,
}

-- Two loops that store at each address what `goal` says of it.
module _ (goal : ℕ → ℕ) (len : ℕ) where
  abbrev Settled : ℕ → List ℕ → Type 0
  Settled a d = (length d ≡ len) × (load d a ≡ goal a)

  store-Settled :
      (a b v : ℕ) → a < len → v ≡ goal b → (d : List ℕ) → Settled a d → Settled a (store d b v)
  store-Settled a b v lt e d p = elim (ℕ_discrete a b) [
    | yes same ↦
        (length-store d b v ∙ p.0, rw (same, e, load-store d b (goal b) (omega arith)) refl)
    | no other ↦ (length-store d b v ∙ p.0, load-store_other d b a v other ∙ p.1)
  ]

  module _ (rows cols : ℕ) (at_ v : ℕ → ℕ → ℕ)
      (agrees : (i j : ℕ) → i < rows → j < cols → v i j ≡ goal (at_ i j)) where
    abbrev row : ℕ → List ℕ → List ℕ
    row i d = for_range cols 0 (λ j d'. store d' (at_ i j) (v i j)) d

    row-length : (i : ℕ) (d : List ℕ) → length d ≡ len → length (row i d) ≡ len
    row-length i d h =
        for_range_keeps (λ d'. length d' ≡ len) _ cols 0
          (λ j le lt d' p. length-store d' (at_ i j) (v i j) ∙ p) d h

    row-Settled : (a i : ℕ) → a < len → i < rows → (d : List ℕ) → Settled a d → Settled a (row i d)
    row-Settled a i lt hi d p =
        for_range_keeps (Settled a) _ cols 0
          (λ j le lt' d' q. store-Settled a (at_ i j) (v i j) lt (agrees i j hi (omega arith)) d' q)
          d p

    row-reaches :
        (i j : ℕ)
        → i < rows
        → j < cols
        → at_ i j < len
        → (d : List ℕ) → length d ≡ len
        → Settled (at_ i j) (row i d)
    row-reaches i j hi hj lt d h =
        for_range_reaches (Settled (at_ i j)) (λ d'. length d' ≡ len) _ cols 0
          (λ j' le lt' d' q.
            store-Settled (at_ i j) (at_ i j') (v i j') lt (agrees i j' hi (omega arith)) d' q)
          (λ j' le lt' d' p. length-store d' (at_ i j') (v i j') ∙ p) j (omega arith) (omega arith)
          (λ d' p. (
            length-store d' (at_ i j) (v i j) ∙ p,
            load-store d' (at_ i j) (v i j) (omega arith) ∙ agrees i j hi hj,
          ))
          d h

    pub loops-length : (d : List ℕ) → length d ≡ len → length (for_range rows 0 row d) ≡ len
    loops-length d h =
        for_range_keeps (λ d'. length d' ≡ len) _ rows 0 (λ i le lt d' p. row-length i d' p) d h

    pub loops-load :
        (i j : ℕ)
        → i < rows
        → j < cols
        → at_ i j < len
        → (d : List ℕ) → length d ≡ len
        → load (for_range rows 0 row d) (at_ i j) ≡ goal (at_ i j)
    loops-load i j hi hj lt d h =
        (for_range_reaches (Settled (at_ i j)) (λ d'. length d' ≡ len) _ rows 0
          (λ i' le lt' d' q. row-Settled (at_ i j) i' lt (omega arith) d' q)
          (λ i' le lt' d' p. row-length i' d' p) i (omega arith) (omega arith)
          (λ d' p. row-reaches i j hi hj lt d' p) d h).1
