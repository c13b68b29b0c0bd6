-- ===== src/Extent/Convert.antt =====
-- src/extent.rs: the `From` and `TryFrom` implementations that make an `Extent` or `Extents`.
use hidefix.Base.{
  ℕ, ℤ, pos, negsuc, ◌==◌, if◌then◌else◌, List, [], ◌∷◌, map, zip, length, Option, some, none,
  Result, ok, err, Error, ◌>>=◌, collect, add64,
}
use hidefix.Extent.{Extent, slice, slice_end, slice_count, Extents, extent}

-- The types that `From<_> for Extent` takes: `u64`, Rust's ranges and `(start, count)`.
pub data Range : Type 0 where
  number : ℕ → Range
  range_from : (start : ℕ) → Range
  range : (start end : ℕ) → Range
  range_to : (end : ℕ) → Range
  range_to_inclusive : (end : ℕ) → Range
  range_inclusive : (start end : ℕ) → Range
  range_full : Range
  start_count : (start count : ℕ) → Range

-- `From<_> for Extent`
unfoldable pub from_range : Range → Extent
from_range (number n) = Extent.index n
from_range (range_from s) = slice s
from_range (range s e) = slice_end s e
from_range (range_to e) = slice_end 0 e
from_range (range_to_inclusive e) = slice_end 0 (add64 e 1)
from_range (range_inclusive s e) = slice_end s (add64 e 1)
from_range range_full = slice 0
from_range (start_count s c) = slice_count s c

-- `From<RangeFull> for Extents`
unfoldable pub from_full : Extents
from_full = Extents.all

-- `impl_extent_as_extents!`: one range for a one-dimensional selection.
unfoldable pub from_one : Range → Extents
from_one r = extent (from_range r ∷ [])

-- `impl_extent_arrlike!`: slices, vectors and arrays.
unfoldable pub from_ranges : List Range → Extents
from_ranges rs = extent (map from_range rs)

-- `impl_tuple!`: each element is converted, from the first to the last; the first error is returned.
unfoldable pub from_tuple {ℓ} : {A : Type ℓ} → (A → Result Extent) → List A → Result Extents
from_tuple convert xs = do es ← collect convert xs; ok (extent es)

-- `TryFrom<(&[u64], &[u64])> for Extents`
unfoldable pub from_start_count : List ℕ → List ℕ → Result Extents
from_start_count starts counts =
    if length starts == length counts
    then ok (extent (map (λ p. slice_count p.0 p.1) (zip starts counts)))
    else err Error.indices_counts_mismatch

-- `impl_extents_for_arrays!`: two arrays of one length, so there is no error.
unfoldable pub from_arrays : List ℕ → List ℕ → Extents
from_arrays starts counts = extent (map (λ p. slice_count p.0 p.1) (zip starts counts))

-- An element of an `ndarray` slice, as the code matches on it.
pub data SliceInfoElem : Type 0 where
  slice_elem : (start : ℤ) (end : Option ℤ) (step : ℤ) → SliceInfoElem
  index_elem : ℤ → SliceInfoElem
  new_axis : SliceInfoElem

-- `u64::try_from` of an `isize`
abbrev pub to_u64 : ℤ → Result ℕ
to_u64 (pos n) = ok n
to_u64 (negsuc n) = err Error.invalid_index

-- `step != 1`
abbrev pub is_unit : ℤ → Result (Unit {0})
is_unit (pos n) = if n == 1 then ok tt else err Error.strides_unsupported
is_unit (negsuc n) = err Error.strides_unsupported

abbrev pub end_extent : ℕ → Option ℤ → Result Extent
end_extent s none = ok (slice s)
end_extent s (some e) = do e' ← to_u64 e; ok (slice_end s e')

unfoldable pub from_slice_elem : SliceInfoElem → Result Extent
from_slice_elem (slice_elem s e step) = do s' ← to_u64 s; _ ← is_unit step; end_extent s' e
from_slice_elem (index_elem i) = do i' ← to_u64 i; ok (Extent.index i')
from_slice_elem new_axis = err Error.new_axis_unsupported

-- `TryFrom<&SliceInfo> for Extents`
unfoldable pub from_slice_info : List SliceInfoElem → Result Extents
from_slice_info elems = do es ← collect from_slice_elem elems; ok (extent es)
