-- ===== src/Extent.antt =====
-- src/extent.rs: the extent of one dimension (`Extent`), the selection of a dataset (`Extents`), the
-- arguments they are made from, and the start and the size along each dimension.
pub mod Convert
pub mod Select
pub mod Counts
pub mod Iterate
use hidefix.Base.{
  ℕ, ◌+◌, ◌-◌, ◌==◌, if◌then◌else◌, List, [], ◌∷◌, map, zip, length, Option, some, none, Result, ok,
  err, Error, ◌>>=◌, ◌>>◌, or_panic, collect, ensure,
}

pub data Extent : Type 0 where
  slice : (start : ℕ) → Extent
  slice_end : (start end : ℕ) → Extent
  slice_count : (start count : ℕ) → Extent
  index : ℕ → Extent

pub data Extents : Type 0 where
  all : Extents
  extent : List Extent → Extents

-- Starting index.
unfoldable pub start : Extent → ℕ
start (Extent.index idx) = idx
start (slice s) = s
start (slice_count s c) = s
start (slice_end s e) = s

-- Number of elements along this extent. `(start..end).count()` is 0 for an empty range.
unfoldable pub count : Extent → Option ℕ
count (Extent.index idx) = some 1
count (slice s) = none
count (slice_count s c) = some c
count (slice_end s e) = some (e - s)

-- `Extent::canonicalise`
unfoldable pub canonicalise : Extent → ℕ → Extent
canonicalise (Extent.index s) dimsize = Extent.index s
canonicalise (slice s) dimsize = slice_count s (dimsize - s)
canonicalise (slice_end s e) dimsize = slice_count s (e - s)
canonicalise (slice_count s c) dimsize = slice_count s c

-- `ExtentIterator`: what is left to give, at both ends.
pub data ExtentIterator : Type 0 where
  all : List ℕ → ExtentIterator
  extents : List (Extent × ℕ) → ExtentIterator

-- `Iterator::next`
unfoldable pub next : ExtentIterator → Option (Extent × ExtentIterator)
next (ExtentIterator.all []) = none
next (ExtentIterator.all (c ∷ cs)) = some (slice_count 0 c, ExtentIterator.all cs)
next (extents []) = none
next (extents ((e, d) ∷ es)) = some (canonicalise e d, extents es)

-- The last item of a list, and the list without it.
abbrev pub split_last {ℓ} : {A : Type ℓ} → List A → Option (A × List A)
split_last [] = none
split_last (x ∷ xs) = elim (split_last xs) [ none ↦ some (x, []) | some (y, ys) ↦ some (y, x ∷ ys) ]

-- `DoubleEndedIterator::next_back`
unfoldable pub next_back : ExtentIterator → Option (Extent × ExtentIterator)
next_back (ExtentIterator.all cs) = elim (split_last cs) [
  | none ↦ none
  | some (c, rest) ↦ some (slice_count 0 c, ExtentIterator.all rest)
]
next_back (extents es) = elim (split_last es) [
  | none ↦ none
  | some ((e, d), rest) ↦ some (canonicalise e d, extents rest)
]

-- The items of the iterator from front to back: what `map` and `collect` go through.
unfoldable pub items : ExtentIterator → List Extent
items (ExtentIterator.all cs) = map (slice_count 0) cs
items (extents es) = map (λ p. canonicalise p.0 p.1) es

-- `Extents::canonicalise`
unfoldable pub canonical_extents : Extents → List ℕ → Result ExtentIterator
canonical_extents all dims = ok (ExtentIterator.all dims)
canonical_extents (extent es) dims =
    if length es == length dims then ok (extents (zip es dims)) else err Error.length_mismatch

-- Get sizes along the dims.
unfoldable pub get_counts : Extents → List ℕ → Result (List ℕ)
get_counts e dims = do it ← canonical_extents e dims; collect (λ x. or_panic (count x)) (items it)

-- Get both starting index and sizes. The pairs are taken apart by `unzip`.
unfoldable pub get_start_count : Extents → List ℕ → Result (List ℕ × List ℕ)
get_start_count e dims = do
  it ← canonical_extents e dims
  counts ← collect (λ x. or_panic (count x)) (items it)
  ok (map start (items it), counts)

-- Same as `get_start_count`, but errors if the rank `d` is not compatible. The two `try_into`s that
-- follow the test are of vectors of length `d`.
unfoldable pub get_start_count_sized : ℕ → Extents → List ℕ → Result (List ℕ × List ℕ)
get_start_count_sized d e dims = do
  (starts, counts) ← get_start_count e dims
  ensure (length starts == d) Error.rank_mismatch
  ok (starts, counts)
