-- ===== src/Tests/Slicing.antt =====
-- The scenarios of src/idx/dataset.rs.
use hidefix.Base.{
  Result, ◌>>=◌, ok, add64, sub64, mul64, product64, zip, ℕ, ◌≡◌, refl, false, none, List, [], ◌∷◌,
  map,
}
use hidefix.Extent.{
  start, count, canonicalise, items, canonical_extents, get_start_count, get_start_count_sized,
}
use hidefix.Extent.Convert.{from_arrays}
use hidefix.Filters.Byteorder.{Order}
use hidefix.Idx.Chunk.{Chunk}
use hidefix.Idx.Dataset
use hidefix.Idx.Dataset.{chunk_at_coord, is_scalar, div_ceil, scan_products, dim_sizes, coord_loop}
use hidefix.Idx.Datatype
use hidefix.Idx.Datatype.{Datatype}
use hidefix.Idx.Divisor.{number}
use hidefix.Idx.Slicer
use hidefix.Idx.Slicer.{
  slices, Slice, start_loop, chunk_start, add_coords, is_outside, dims, cut, pass, advance_dim,
  round, walk, spread, next_scalar, loop_dims, next_slice, next, chunk_slices, collect_slices,
}

abbrev chunk : ℕ → ℕ → List ℕ → Chunk
chunk addr size offset = record { addr = addr; size = size; offset = offset }

abbrev test_chunks : List Chunk
test_chunks =
    chunk 0 400 (0 ∷ 0 ∷ [])
    ∷ chunk 400 400 (0 ∷ 10 ∷ [])
    ∷ chunk 800 400 (10 ∷ 0 ∷ [])
    ∷ chunk 1200 400 (10 ∷ 10 ∷ [])
    ∷ []

-- `test_dataset` with the selection of start and count: addresses and positions of the pieces.
abbrev scenario : List ℕ → List ℕ → Result (List (ℕ × ℕ × ℕ))
scenario starts counts = do
  ds ←
      Dataset.new {Sr = ℕ} (Datatype.float 2) Order.be (20 ∷ 20 ∷ []) test_chunks (10 ∷ 10 ∷ [])
        false none
  xs ← slices ds (from_arrays starts counts)
  ok (map (λ (x : Slice). (x.0.addr, x.1, x.2)) xs)

program : Unit {0}
unfolding Dataset.new div_ceil scan_products dim_sizes Datatype.dsize coord_loop chunk_at_coord
    is_scalar slices start_loop chunk_start add_coords dims cut pass advance_dim round walk spread
    next_scalar loop_dims next_slice next Slicer.empty Slicer.new is_outside chunk_slices
    collect_slices from_arrays get_start_count_sized get_start_count canonical_extents items
    canonicalise count start zip add64 sub64 mul64 product64
program = tt

row :
    scenario (0 ∷ 5 ∷ []) (2 ∷ 10 ∷ [])
    ≡ ok ((0, 5, 10) ∷ (400, 0, 5) ∷ (0, 15, 20) ∷ (400, 10, 15) ∷ [])
unfolding program
row = refl

rows :
    scenario (0 ∷ 0 ∷ []) (2 ∷ 20 ∷ [])
    ≡ ok ((0, 0, 10) ∷ (400, 0, 10) ∷ (0, 10, 20) ∷ (400, 10, 20) ∷ [])
unfolding program
rows = refl

column :
    scenario (2 ∷ 15 ∷ []) (4 ∷ 1 ∷ [])
    ≡ ok ((400, 25, 26) ∷ (400, 35, 36) ∷ (400, 45, 46) ∷ (400, 55, 56) ∷ [])
unfolding program
column = refl

zero_count : scenario (0 ∷ 0 ∷ []) (1 ∷ 0 ∷ []) ≡ ok []
unfolding program
zero_count = refl

-- Three dimensions with one index taken in the middle one: the second row of the chunk is given
-- where the first row of the next chunk was asked for.
abbrev cube : List ℕ → List ℕ → List ℕ → List ℕ → List Chunk → Result (List (ℕ × ℕ × ℕ))
cube shape chunk_shape starts counts chunks = do
  ds ← Dataset.new {Sr = ℕ} (Datatype.float 2) Order.be shape chunks chunk_shape false none
  xs ← slices ds (from_arrays starts counts)
  ok (map (λ (x : Slice). (x.0.addr, x.1, x.2)) xs)

middle_index :
    cube
      (2 ∷ 2 ∷ 5 ∷ [])
      (1 ∷ 2 ∷ 5 ∷ [])
      (0 ∷ 0 ∷ 0 ∷ [])
      (2 ∷ 1 ∷ 5 ∷ [])
      (chunk 0 20 (0 ∷ 0 ∷ 0 ∷ []) ∷ chunk 100 20 (1 ∷ 0 ∷ 0 ∷ []) ∷ [])
    ≡ ok ((0, 0, 10) ∷ [])
unfolding program
middle_index = refl

cut_column :
    cube (4 ∷ 15 ∷ []) (2 ∷ 10 ∷ []) (0 ∷ 10 ∷ []) (4 ∷ 5 ∷ []) (
      chunk 0 20 (0 ∷ 0 ∷ [])
      ∷ chunk 1 20 (0 ∷ 10 ∷ [])
      ∷ chunk 2 20 (2 ∷ 0 ∷ [])
      ∷ chunk 3 20 (2 ∷ 10 ∷ [])
      ∷ [])
    ≡ ok ((1, 0, 15) ∷ (3, 0, 5) ∷ [])
unfolding program
cut_column = refl
