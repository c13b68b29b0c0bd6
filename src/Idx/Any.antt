-- ===== src/Idx/Any.antt =====
-- src/idx/dataset/any.rs: a dataset of one of the ranks 0 to 9, and `DatasetExt`, which
-- src/idx/dataset/dataset.rs has for a dataset. A boxed reader is the reader itself; its trait is a record of
-- `Reader.Traits`. `File::open` is the argument `open_file`.
pub mod Ranks
pub mod Made
pub mod Reads
use hidefix.Base.{◌==◌, if◌then◌else◌, Result, ◌>>=◌, ok, panic, ℕ, Bool, Option, none, some, List}
use hidefix.Idx.Chunk.Sorted.{SliceSort}
use hidefix.Idx.Dataset as Datasets
use hidefix.Idx.Dataset.{Dataset}
use hidefix.Idx.Dataset.Index as DatasetIndex
use hidefix.Idx.Datatype.{Datatype}
use hidefix.Idx.Divisor.{Divisor}
use hidefix.Idx.Hdf5.{Hdf5}
use hidefix.Reader.Cache.{CacheReader}
use hidefix.Reader.Cache as Cache
use hidefix.Reader.Direct.{Direct}
use hidefix.Reader.Direct as Direct
use hidefix.Reader.Stream.{StreamReader}
use hidefix.Reader.Stream as Stream
use hidefix.Reader.Services.{ReadSeek, LruCache}

pub data DatasetD (Sr : Type 0) : Type 0 where
  d0 d1 d2 d3 d4 d5 d6 d7 d8 d9 : Dataset Sr → DatasetD Sr

-- The arms of the match on the rank.
unfoldable pub of_rank : {Sr : Type 0} → ℕ → Option (Dataset Sr → DatasetD Sr)
of_rank n =
    if n == 0
    then some d0
    else if n == 1
    then some d1
    else if n == 2
    then some d2
    else if n == 3
    then some d3
    else if n == 4
    then some d4
    else if n == 5
    then some d5
    else if n == 6
    then some d6
    else if n == 7
    then some d7
    else if n == 8
    then some d8
    else if n == 9
    then some d9
    else none

-- `DatasetD::index`
unfoldable pub index :
    {Sr D T : Type 0} ⦃r : Divisor Sr⦄ → Hdf5 D T → SliceSort → D → Result (DatasetD Sr)
index h sort ds = elim (of_rank (h.ndim ds)) [
  | none ↦ panic
  | some arm ↦ DatasetIndex.index h sort (h.ndim ds) ds >>= λ d. ok (arm d)
]

module _ {Sr : Type 0} where
  -- `DatasetD::inner`
  unfoldable pub inner : DatasetD Sr → Dataset Sr
  inner (d0 ds) = ds
  inner (d1 ds) = ds
  inner (d2 ds) = ds
  inner (d3 ds) = ds
  inner (d4 ds) = ds
  inner (d5 ds) = ds
  inner (d6 ds) = ds
  inner (d7 ds) = ds
  inner (d8 ds) = ds
  inner (d9 ds) = ds

  -- `DatasetExt for DatasetD`
  unfoldable pub size : DatasetD Sr → ℕ
  size x = Datasets.size (inner x)

  unfoldable pub dtype : DatasetD Sr → Datatype
  dtype x = (inner x).dtype

  unfoldable pub dsize : DatasetD Sr → ℕ
  dsize x = (inner x).dsize

  unfoldable pub shape : DatasetD Sr → List ℕ
  shape x = (inner x).shape

  unfoldable pub chunk_shape : DatasetD Sr → List ℕ
  chunk_shape x = (inner x).chunk_shape

  unfoldable pub valid : DatasetD Sr → Result Bool
  valid x = Datasets.valid (inner x)

  unfoldable pub as_par_reader : {P : Type 0} → DatasetD Sr → P → Result (Direct.Direct Sr P)
  as_par_reader x p = ok (Direct.with_dataset (inner x) p)

  -- `DatasetD::as_streamer`
  unfoldable pub as_streamer : {P : Type 0} → DatasetD Sr → P → Result (StreamReader Sr P)
  as_streamer x p = ok (Stream.with_dataset (inner x) p)

-- `DatasetD::as_reader`
unfoldable pub as_reader :
    {Sr P F C : Type 0} ⦃r : Divisor Sr⦄ ⦃file : ReadSeek F⦄ ⦃lru : LruCache C⦄
    (open_file : P → Result F)
    → DatasetD Sr
    → P
    → Result (CacheReader Sr F C)
as_reader open_file x p = open_file p >>= λ fd. Cache.with_dataset (inner x) fd
