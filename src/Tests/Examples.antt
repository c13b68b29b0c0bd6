-- ===== src/Tests/Examples.antt =====
-- The theorems at concrete inputs: a dataset of shape (4, 6) with chunks of shape (2, 3).
use hidefix.Base.{
  length, All, Error, ◌>>=◌, ok, err, panic, add64, mul64, zip, ℕ, ◌+◌, ◌*◌, ◌%◌, ◌≤◌, ◌<◌,
  Ordering, ◌≡◌, refl, ◌≢◌, ◌↔◌, ◌⊎◌, inl, inr, false, none, some, List, [], ◌∷◌, map, arith,
}
use hidefix.Extent.{Extents, start, count, canonicalise, items, canonical_extents, get_start_count}
use hidefix.Extent.Convert.{
  from_arrays, range_from, range_inclusive, from_range, from_ranges, from_start_count,
}
use hidefix.Extent.Select.{Picks, canonicalise-Picks}
use hidefix.Extent.Counts.{InBox, from_ranges-Picks, get_start_count-from_start_count, PicksAll}
use hidefix.Filters.Byteorder.{Order, native_order, to_native, float}
use hidefix.Filters.Byteorder.Reads.{reads, to_native-reads}
use hidefix.Filters.Shuffle.{shuffle, unshuffle_sized}
use hidefix.Filters.Shuffle.RoundTrip.{unshuffle_sized-shuffle}
use hidefix.Idx.Chunk.{Chunk, contains, slice_as_u64s, slice_from_u64s}
use hidefix.Idx.Chunk.Codec.{HasRank, slice_from_u64s_total}
use hidefix.Idx.Chunk.Order.{Inside, contains-Inside}
use hidefix.Idx.Dataset
use hidefix.Idx.Dataset.{Dataset, dim_sizes, coord_loop, chunk_at_coord, valid}
use hidefix.Idx.Dataset.Build.{new-built, built}
use hidefix.Idx.Dataset.Grid.{Cell, IsCell, HasGrid, chunk_at_coord-grid}
use hidefix.Idx.Dataset.Valid.{Verdict, valid-Verdict}
use hidefix.Idx.Datatype.{Datatype, float}
use hidefix.Idx.Divisor.{number}
use hidefix.Idx.Slicer.{Slice, slices, ChunkSlicer}
use hidefix.Idx.Slicer.Axis.{Axis, IsAxis, AreAxes}
use hidefix.Idx.Slicer.Layout.{Layout}
use hidefix.Idx.Slicer.Next.{Gives, HasAxes, IsAt, IsChunkOf, next-Gives}
use hidefix.Idx.Slicer.Run.{expand, wanted}
use hidefix.Idx.Slicer.Built.{new-slices-wanted}

abbrev pub chunk : ℕ → List ℕ → Chunk
chunk addr offset = record { addr = addr; size = 24; offset = offset }

abbrev pub four_chunks : List Chunk
four_chunks =
    chunk 0 (0 ∷ 0 ∷ [])
    ∷ chunk 24 (0 ∷ 3 ∷ [])
    ∷ chunk 48 (2 ∷ 0 ∷ [])
    ∷ chunk 72 (2 ∷ 3 ∷ [])
    ∷ []

-- The selection of the rows 1 to 3, all columns.
abbrev pub columns : Axis ℕ
columns = record { idx = 0; count = 6; sru = 6; chunk_sz = 3; chunk_dim_sz = 1; shape = 6 }

abbrev pub lower_rows : Axis ℕ
lower_rows = record { idx = 1; count = 3; sru = 3; chunk_sz = 2; chunk_dim_sz = 3; shape = 4 }

abbrev pub axes : List (Axis ℕ)
axes = columns ∷ lower_rows ∷ []

columns-IsAxis : IsAxis columns
columns-IsAxis = record {
  divides = refl;
  count_pos = omega arith;
  chunk_pos = omega arith;
  inside = omega arith;
  fits = omega arith;
}

lower_rows-IsAxis : IsAxis lower_rows
lower_rows-IsAxis = record {
  divides = refl;
  count_pos = omega arith;
  chunk_pos = omega arith;
  inside = omega arith;
  fits = omega arith;
}

pub axes-AreAxes : AreAxes 1 axes
axes-AreAxes = ((refl, columns-IsAxis, (refl, lower_rows-IsAxis, omega arith)))

abbrev pub axes_layout : Layout 0 axes
axes_layout = inl (refl, inr (inl (omega arith)))

abbrev pub rows_selection : Extents
rows_selection = from_arrays (1 ∷ 0 ∷ []) (3 ∷ 6 ∷ [])

pub rows_chosen : get_start_count rows_selection (4 ∷ 6 ∷ []) ≡ ok ((1 ∷ 0 ∷ []), (3 ∷ 6 ∷ []))
unfolding from_arrays get_start_count canonical_extents items canonicalise count start zip
rows_chosen = refl

new-slices-wanted_example :
    (ds : Dataset ℕ) × (xs : List Slice) × (Dataset.new
        (Datatype.float 4)
        Order.le
        (4 ∷ 6 ∷ [])
        four_chunks
        (2 ∷ 3 ∷ [])
        false
        none
      ≡ ok ds)
    × (slices ds rows_selection ≡ ok xs)
    × (expand xs ≡ wanted axes 0 18)
new-slices-wanted_example =
    new-slices-wanted axes axes-AreAxes (Datatype.float 4) Order.le four_chunks false none
      (refl, (refl, tt)) axes_layout (omega arith) refl (omega arith) rows_selection rows_chosen

abbrev cells : List (Cell ℕ)
cells =
    record { at_index = 1; size = 4; chunk_sz = 2; sru = 2 }
    ∷ record { at_index = 3; size = 6; chunk_sz = 3; sru = 3 }
    ∷ []

abbrev pub dataset : Dataset ℕ
dataset = record {
  dtype = Datatype.float 4;
  dsize = 4;
  order = Order.le;
  chunks = four_chunks;
  shape = 4 ∷ 6 ∷ [];
  chunk_shape = 2 ∷ 3 ∷ [];
  chunk_shape_reduced = 2 ∷ 3 ∷ [];
  scaled_dim_sz = 2 ∷ 1 ∷ [];
  dim_sz = 6 ∷ 1 ∷ [];
  chunk_dim_sz = 3 ∷ 1 ∷ [];
  shuffle = false;
  gzip = none;
}

dataset-HasGrid : HasGrid dataset
dataset-HasGrid = record { ordered = refl; countable = omega arith }

cells-IsCell : All IsCell cells
cells-IsCell = (((omega arith, omega arith), refl), (((omega arith, omega arith), refl), tt))

chunk_at_coord-grid_example :
    (c : Chunk) × (chunk_at_coord dataset (1 ∷ 3 ∷ []) ≡ ok c) × (c.offset ≡ 0 ∷ 3 ∷ [])
chunk_at_coord-grid_example =
    chunk_at_coord-grid dataset cells cells-IsCell refl refl refl refl dataset-HasGrid

new-built_example :
    Dataset.new (Datatype.float 4) Order.le (4 ∷ 6 ∷ []) four_chunks (2 ∷ 3 ∷ []) false none
    ≡ ok (built (Datatype.float 4) Order.le four_chunks cells false none)
new-built_example =
    new-built (Datatype.float 4) Order.le four_chunks cells false none
      ((omega arith, refl), ((omega arith, refl), tt)) (omega arith, (omega arith, tt))
      (omega arith)

-- The iterator before the fourth value: row 1, column 3.
abbrev before : ChunkSlicer ℕ
before = record {
  dataset = dataset;
  offset = 3;
  offset_coords = 0 ∷ 3 ∷ [];
  indices = 1 ∷ 0 ∷ [];
  counts = 3 ∷ 6 ∷ [];
  counts_reduced = 3 ∷ 6 ∷ [];
  end = 18;
}

before-IsAt : IsAt dataset axes 3 before
before-IsAt = record {
  dataset = refl;
  offset = refl;
  coords = refl;
  indices = refl;
  counts = refl;
  counts_reduced = refl;
  end = refl;
}

dataset-HasAxes : HasAxes dataset axes
unfolding Dataset.is_scalar
dataset-HasAxes = record { ranked = refl; shape = refl; chunk_shape = refl; chunk_dim_sz = refl }

second-IsChunkOf : IsChunkOf dataset axes 3 (chunk 24 (0 ∷ 3 ∷ []))
unfolding chunk_at_coord coord_loop add64 mul64
second-IsChunkOf = record { found = refl; offset = refl }

next-Gives_example :
    (m : ℕ) × (s' : ChunkSlicer ℕ) × Gives dataset axes axes_layout 3 before
      (chunk 24 (0 ∷ 3 ∷ []))
      m
      s'
next-Gives_example =
    next-Gives dataset axes dataset-HasAxes axes-AreAxes axes_layout (omega arith) 3 before
      before-IsAt tt (chunk 24 (0 ∷ 3 ∷ [])) second-IsChunkOf (omega arith)

abbrev two_chunks : List Chunk
two_chunks = chunk 5 (0 ∷ 0 ∷ []) ∷ chunk 6 (10 ∷ 1 ∷ []) ∷ []

slice_from_u64s_total_example :
    ((cs : List Chunk) × (slice_from_u64s 1 (1 ∷ 2 ∷ 3 ∷ []) ≡ ok cs)
      × (slice_as_u64s cs ≡ 1 ∷ 2 ∷ 3 ∷ [])
      × All (HasRank 1) cs
      × (length cs * 3 ≡ 3))
    ⊎ ((length {A = ℕ} (1 ∷ 2 ∷ 3 ∷ []) % 3 ≢ 0) × (slice_from_u64s 1 (1 ∷ 2 ∷ 3 ∷ []) ≡ panic))
slice_from_u64s_total_example = slice_from_u64s_total 1 (1 ∷ 2 ∷ 3 ∷ [])

contains-Inside_example :
    ((contains (chunk 24 (0 ∷ 3 ∷ [])) (1 ∷ 4 ∷ []) (2 ∷ 3 ∷ []) ≡ ok Ordering.eq) ↔ (
      (length {A = ℕ} (1 ∷ 4 ∷ []) ≡ length {A = ℕ} (2 ∷ 3 ∷ []))
      × (length {A = ℕ} (1 ∷ 4 ∷ []) ≡ length {A = ℕ} (0 ∷ 3 ∷ []))
      × Inside (1 ∷ 4 ∷ []) (2 ∷ 3 ∷ []) (0 ∷ 3 ∷ [])))
    × ((contains (chunk 24 (0 ∷ 3 ∷ [])) (1 ∷ 4 ∷ []) (2 ∷ 3 ∷ []) ≡ panic) ↔ (
        (length {A = ℕ} (1 ∷ 4 ∷ []) ≢ length {A = ℕ} (2 ∷ 3 ∷ []))
        ⊎ (length {A = ℕ} (1 ∷ 4 ∷ []) ≢ length {A = ℕ} (0 ∷ 3 ∷ []))))
contains-Inside_example =
    contains-Inside (chunk 24 (0 ∷ 3 ∷ [])) (1 ∷ 4 ∷ []) (2 ∷ 3 ∷ [])
      (omega arith, (omega arith, tt))

canonicalise-Picks_example :
    (n : ℕ) × (count (canonicalise (from_range (range_inclusive 2 4)) 9) ≡ some n)
    × ((i : ℕ)
        → Picks (range_inclusive 2 4) 9 i ↔ (
            (start (canonicalise (from_range (range_inclusive 2 4)) 9) ≤ i)
            × (i < start (canonicalise (from_range (range_inclusive 2 4)) 9) + n)))
canonicalise-Picks_example = canonicalise-Picks (range_inclusive 2 4) 9 (omega arith)

from_ranges-Picks_example :
    (ss : List ℕ) × (cs : List ℕ) × (get_start_count
        (from_ranges (range_from 2 ∷ range_inclusive 0 1 ∷ []))
        (4 ∷ 6 ∷ [])
      ≡ ok (ss, cs))
    × ((is : List ℕ)
        → PicksAll (range_from 2 ∷ range_inclusive 0 1 ∷ []) (4 ∷ 6 ∷ []) is ↔ InBox ss cs is)
from_ranges-Picks_example =
    from_ranges-Picks (range_from 2 ∷ range_inclusive 0 1 ∷ []) (4 ∷ 6 ∷ []) refl
      (tt, (omega arith, tt))

get_start_count-from_start_count_example :
    (from_start_count (1 ∷ []) (2 ∷ 3 ∷ []) >>= λ e. get_start_count e (9 ∷ []))
    ≡ err Error.indices_counts_mismatch
get_start_count-from_start_count_example =
    get_start_count-from_start_count (1 ∷ []) (2 ∷ 3 ∷ []) (9 ∷ [])

abbrev six_bytes : List ℕ
six_bytes = 1 ∷ 2 ∷ 3 ∷ 4 ∷ 5 ∷ 6 ∷ []

abbrev six_zeros : List ℕ
six_zeros = 0 ∷ 0 ∷ 0 ∷ 0 ∷ 0 ∷ 0 ∷ []

unshuffle_sized-shuffle_example :
    (shuffle 2 3 six_bytes six_zeros >>= λ x. unshuffle_sized x 2) ≡ ok six_bytes
unshuffle_sized-shuffle_example =
    unshuffle_sized-shuffle 2 3 six_bytes six_zeros (inr (inl refl)) refl refl

to_native-reads_example :
    map (reads (native_order false)) (to_native false float Order.be ((1 ∷ 2 ∷ 3 ∷ 4 ∷ []) ∷ []))
    ≡ 16909060 ∷ []
to_native-reads_example =
    to_native-reads false float Order.be ((1 ∷ 2 ∷ 3 ∷ 4 ∷ []) ∷ []) (inr refl) (λ e. cc)

valid-Verdict_example : Verdict (2 ∷ 3 ∷ []) four_chunks (valid dataset)
valid-Verdict_example =
    valid-Verdict dataset (omega arith, (omega arith, tt))
      (
        (omega arith, (omega arith, tt)),
        (
          (omega arith, (omega arith, tt)),
          ((omega arith, (omega arith, tt)), ((omega arith, (omega arith, tt)), tt)),
        ),
      )
