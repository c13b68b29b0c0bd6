-- ===== src/Idx/Slicer/Grouped.antt =====
-- src/idx/dataset/dataset.rs: the pieces with their offset in the destination, ordered by the address of
-- their chunk. `sort_unstable_by_key` of the standard library is an interface.
use mathlib.Core.List.{Permᴰ}
use hidefix.Base.{All, Result, ◌>>=◌, ok, ℕ, ◌≤◌, List, [], ◌∷◌}
use hidefix.Extent.{Extents}
use hidefix.Idx.Chunk.{Chunk}
use hidefix.Idx.Dataset.{Dataset}
use hidefix.Idx.Divisor.{Divisor}
use hidefix.Idx.Slicer.{slices, scan_slices}

-- A piece with its offset in the destination.
abbrev pub Segment : Type 0
Segment = Chunk × ℕ × ℕ × ℕ

-- Every element is at most as large as those behind it.
abbrev pub IsOrdered : {A : Type 0} (key : A → ℕ) → List A → Type 0
IsOrdered key [] = Unit
IsOrdered key (x ∷ xs) = All (λ y. key x ≤ key y) xs × IsOrdered key xs

-- Sorting by a key permutes the elements and orders their keys; the order of equal ones is open.
pub record Sort : Type 1 where
  pub sort_by_key : {A : Type 0} → (A → ℕ) → List A → List A
  pub permutes : {A : Type 0} (key : A → ℕ) (xs : List A) → Permᴰ xs (sort_by_key key xs)
  pub orders : {A : Type 0} (key : A → ℕ) (xs : List A) → IsOrdered key (sort_by_key key xs)

module _ {Sr : Type 0} ⦃r : Divisor Sr⦄ where
  -- `Dataset::group_chunk_slices`
  unfoldable pub group_chunk_slices : Sort → Dataset Sr → Extents → Result (List Segment)
  group_chunk_slices sort ds extents = do
    xs ← slices ds extents
    ok (sort.sort_by_key (λ (x : Segment). x.0.addr) (scan_slices 0 xs))
