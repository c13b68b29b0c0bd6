-- ===== src/Idx/Any/Ranks.antt =====
-- src/idx/dataset/any.rs: the rank of a dataset decides which arm takes it.
use hidefix.Base.{
  Result, ◌>>=◌, ok, err, panic, stuck, ℕ, suc, zero, ◌≤◌, ◌<◌, ◌≡◌, refl, ◌⊎◌, inl, inr, none,
  some, arith, dec_le,
}
use hidefix.Idx.Any.{DatasetD, of_rank, inner, index, d0, d1, d2, d3, d4, d5, d6, d7, d8, d9}
use hidefix.Idx.Chunk.Sorted.{SliceSort}
use hidefix.Idx.Dataset.{Dataset}
use hidefix.Idx.Dataset.Index as DatasetIndex
use hidefix.Idx.Divisor.{Divisor}
use hidefix.Idx.Hdf5.{Hdf5}

-- The rank that a constructor stands for.
abbrev pub rank : {Sr : Type 0} → DatasetD Sr → ℕ
rank (d0 ds) = 0
rank (d1 ds) = 1
rank (d2 ds) = 2
rank (d3 ds) = 3
rank (d4 ds) = 4
rank (d5 ds) = 5
rank (d6 ds) = 6
rank (d7 ds) = 7
rank (d8 ds) = 8
rank (d9 ds) = 9

-- A dataset with its rank.
abbrev pub with_rank : {Sr : Type 0} → DatasetD Sr → Dataset Sr × ℕ
with_rank x = (inner x, rank x)

abbrev pub of_that_rank : {Sr : Type 0} → ℕ → Dataset Sr → Dataset Sr × ℕ
of_that_rank n d = (d, n)

-- An arm that keeps the dataset and records its rank.
pub record IsArm {Sr : Type 0} (n : ℕ) (arm : Dataset Sr → DatasetD Sr) : Type 0 where
  pub keeps : (ds : Dataset Sr) → inner (arm ds) ≡ ds
  pub ranks : (ds : Dataset Sr) → rank (arm ds) ≡ n

pub of_rank-IsArm :
    {Sr : Type 0} (n : ℕ)
    → n ≤ 9
    → (arm : Dataset Sr → DatasetD Sr) × (of_rank n ≡ some arm) × IsArm n arm
unfolding of_rank inner
of_rank-IsArm zero h = (d0, refl, record { keeps = λ ds. refl; ranks = λ ds. refl })
of_rank-IsArm (suc zero) h = (d1, refl, record { keeps = λ ds. refl; ranks = λ ds. refl })
of_rank-IsArm (suc (suc zero)) h = (d2, refl, record { keeps = λ ds. refl; ranks = λ ds. refl })
of_rank-IsArm (suc (suc (suc zero))) h =
    (d3, refl, record { keeps = λ ds. refl; ranks = λ ds. refl })
of_rank-IsArm (suc (suc (suc (suc zero)))) h =
    (d4, refl, record { keeps = λ ds. refl; ranks = λ ds. refl })
of_rank-IsArm (suc (suc (suc (suc (suc zero))))) h =
    (d5, refl, record { keeps = λ ds. refl; ranks = λ ds. refl })
of_rank-IsArm (suc (suc (suc (suc (suc (suc zero)))))) h =
    (d6, refl, record { keeps = λ ds. refl; ranks = λ ds. refl })
of_rank-IsArm (suc (suc (suc (suc (suc (suc (suc zero))))))) h =
    (d7, refl, record { keeps = λ ds. refl; ranks = λ ds. refl })
of_rank-IsArm (suc (suc (suc (suc (suc (suc (suc (suc zero)))))))) h =
    (d8, refl, record { keeps = λ ds. refl; ranks = λ ds. refl })
of_rank-IsArm (suc (suc (suc (suc (suc (suc (suc (suc (suc zero))))))))) h =
    (d9, refl, record { keeps = λ ds. refl; ranks = λ ds. refl })
of_rank-IsArm (suc (suc (suc (suc (suc (suc (suc (suc (suc (suc n)))))))))) h = absurd (omega arith)

of_rank-none : {Sr : Type 0} (n : ℕ) → 9 < n → of_rank {Sr = Sr} n ≡ none
unfolding of_rank
of_rank-none n h = ground arith

module _ {Sr D T : Type 0} ⦃r : Divisor Sr⦄ (h : Hdf5 D T) (sort : SliceSort) where
  -- `DatasetD::index` panics on a rank above 9. On any other it does what `Dataset::index` does for that
  -- rank, errors and panics included, and its result is the dataset of `Dataset::index`, under the constructor
  -- of its rank.
  pub index-inner :
      (ds : D)
      → ((9 < h.ndim ds) × (index {Sr = Sr} h sort ds ≡ panic))
        ⊎ ((index {Sr = Sr} h sort ds >>= λ x. ok (with_rank x)) ≡ (
            DatasetIndex.index {Sr = Sr} h sort (h.ndim ds) ds >>= λ d.
            ok (of_that_rank (h.ndim ds) d)))
  unfolding index
  index-inner ds = elim (dec_le (h.ndim ds) 9) [
    | no high ↦
        let above : 9 < h.ndim ds = omega (arith, high) in
        inl (above, rw (of_rank-none {Sr = Sr} (h.ndim ds) above, index) refl)
    | yes low ↦
        let (arm, taken, k) = of_rank-IsArm {Sr = Sr} (h.ndim ds) low in
        inr (
          rw (taken, index)
            (kept (h.ndim ds) arm k (DatasetIndex.index {Sr = Sr} h sort (h.ndim ds) ds)))
  ]
    where
      kept :
          (n : ℕ) (arm : Dataset Sr → DatasetD Sr)
          → IsArm n arm
          → (m : Result (Dataset Sr))
          → (m >>= (λ d. ok (arm d)) >>= λ x. ok (with_rank x)) ≡ (m >>= λ d. ok (of_that_rank n d))
      kept n arm k (ok d) = rw (k.keeps d, k.ranks d) refl
      kept n arm k (err e) = refl
      kept n arm k panic = refl
      kept n arm k stuck = refl
