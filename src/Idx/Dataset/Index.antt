-- ===== src/Idx/Dataset/Index.antt =====
-- src/idx/dataset/dataset.rs: `Dataset::index`, which makes a dataset from an HDF5 dataset, with the
-- conversions of src/idx/dataset/types.rs and src/filters/byteorder.rs.
pub mod Stored
use hidefix.Base.{
  ◌==◌, if◌then◌else◌, length, replicate, Error, Result, ◌>>=◌, ◌>>◌, ensure, or_panic, collect, ok,
  err, panic, dataset_rank_mismatch, array_length, unsupported_filter, unsupported_layout,
  unexpected_chunks, product64, zip, ℕ, Bool, true, false, Option, none, some, List, [], ◌∷◌,
}
use hidefix.Filters.Byteorder.{Order}
use hidefix.Idx.Chunk.{Chunk, cmp}
use hidefix.Idx.Chunk.Sorted.{SliceSort}
use hidefix.Idx.Dataset.{Dataset, div_ceil}
use hidefix.Idx.Dataset as Datasets
use hidefix.Idx.Datatype.{Datatype, uint, int, float, custom}
use hidefix.Idx.Divisor.{Divisor}
use hidefix.Idx.Hdf5.{
  Filter, shuffle, deflate, other_filter, ByteOrder, big_endian, little_endian, other_order, Number,
  ChunkInfo, Hdf5,
}

-- `From<hdf5::datatype::ByteOrder> for Order`
unfoldable pub order_from : ByteOrder → Order
order_from big_endian = Order.be
order_from little_endian = Order.le
order_from other_order = Order.unknown

-- `From<hdf5::Datatype> for Datatype`
unfoldable pub datatype_from : {D T : Type 0} → Hdf5 D T → T → Datatype
datatype_from h t =
    if h.is t Number.u8
    then uint (h.size t)
    else if h.is t Number.u16
    then uint (h.size t)
    else if h.is t Number.u32
    then uint (h.size t)
    else if h.is t Number.u64
    then uint (h.size t)
    else if h.is t Number.i8
    then int (h.size t)
    else if h.is t Number.i16
    then int (h.size t)
    else if h.is t Number.i32
    then int (h.size t)
    else if h.is t Number.i64
    then int (h.size t)
    else if h.is t Number.f32
    then float (h.size t)
    else if h.is t Number.f64
    then float (h.size t)
    else custom (h.size t)

-- The loop over the filters, from `shuffle` and `gzip` as they are.
unfoldable pub filters_loop : Bool → Option ℕ → List Filter → Result (Bool × Option ℕ)
filters_loop shuffled gzip [] = ok (shuffled, gzip)
filters_loop shuffled gzip (shuffle ∷ fs) = filters_loop true gzip fs
filters_loop shuffled gzip (deflate z ∷ fs) = filters_loop shuffled (some z) fs
filters_loop shuffled gzip (other_filter ∷ fs) = err Error.unsupported_filter

-- `try_into` an array of `d` elements.
unfoldable pub array : {A : Type 0} → (d : ℕ) → List A → Result (List A)
array d xs = if length xs == d then ok xs else err Error.array_length

-- The closure of `chunks_visit`, in which a failed `try_into` panics.
unfoldable pub chunk_from : (d : ℕ) → ChunkInfo → Result Chunk
chunk_from d ci =
    if length ci.offset == d
    then ok (record { offset = ci.offset; size = ci.size; addr = ci.addr })
    else panic

-- `map_or_else` on the chunk shape: it is the shape where the dataset has none.
unfoldable pub chunk_shape_or : (d : ℕ) (shape : List ℕ) → Option (List ℕ) → Result (List ℕ)
chunk_shape_or d shape none = ok shape
chunk_shape_or d shape (some cs) = if length cs == d then ok cs else panic

module _ {D T : Type 0} (h : Hdf5 D T) where
  -- The chunks of a contiguous dataset, and those of a chunked one.
  unfoldable pub contiguous : (d : ℕ) → D → (offset : ℕ) → List Chunk
  contiguous d ds offset =
      record { offset = replicate d 0; size = h.storage_size ds; addr = offset } ∷ []

  unfoldable pub chunked : (d : ℕ) → D → Result (List Chunk)
  chunked d ds = do
    n ← or_panic (h.num_chunks ds)
    v ← collect (chunk_from d) (h.chunks_visit ds).0
    done ← (h.chunks_visit ds).1
    ok v

  -- The match on the layout.
  unfoldable pub layout_chunks :
      (d : ℕ) → D → (is_chunked : Bool) (offset : Option ℕ) → Result (List Chunk)
  layout_chunks d ds false (some offset) = ok (contiguous d ds offset)
  layout_chunks d ds true none = chunked d ds
  layout_chunks d ds false none = err Error.unsupported_layout
  layout_chunks d ds true (some offset) = err Error.unsupported_layout

-- The number of chunks that the shapes ask for.
unfoldable pub expected_chunks : (shape chunk_shape : List ℕ) → Result ℕ
expected_chunks shape chunk_shape = do
  ns ← collect (λ (p : ℕ × ℕ). div_ceil p.0 p.1) (zip shape chunk_shape)
  ok (product64 ns)

module _ {Sr D T : Type 0} ⦃r : Divisor Sr⦄ (h : Hdf5 D T) (sort : SliceSort) where
  -- `Dataset::index`
  unfoldable pub index : (d : ℕ) → D → Result (Dataset Sr)
  index d ds = do
    ensure (h.ndim ds == d) Error.dataset_rank_mismatch
    (shuffled, gzip) ← filters_loop false none (h.filters ds)
    dtype ← h.dtype ds
    shape ← array d (h.shape ds)
    chunk_shape ← chunk_shape_or d shape (h.chunk ds)
    chunks ← layout_chunks h d ds (h.is_chunked ds) (h.offset ds)
    expected ← expected_chunks shape chunk_shape
    ensure (length (sort.sort cmp chunks) == expected) Error.unexpected_chunks
    Datasets.new (datatype_from h dtype) (order_from (h.byte_order dtype)) shape
        (sort.sort cmp chunks) chunk_shape shuffled gzip
