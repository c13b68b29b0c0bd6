-- ===== src/Idx/Hdf5.antt =====
-- What src/idx takes from the crate hdf5: the answers of a dataset and of its type.
use hidefix.Base.{Result, ℕ, Bool, Option, List}

-- `hdf5::filters::Filter`: the two that the index knows, and all others.
pub data Filter : Type 0 where
  shuffle : Filter
  deflate : ℕ → Filter
  other_filter : Filter

-- `hdf5::datatype::ByteOrder`: the two that the index knows, and all others.
pub data ByteOrder : Type 0 where
  big_endian little_endian other_order : ByteOrder

-- The types that `Datatype::is` is asked for.
pub data Number : Type 0 where
  u8 u16 u32 u64 i8 i16 i32 i64 f32 f64 : Number

-- `hdf5::dataset::ChunkInfo`
pub record ChunkInfo : Type 0 where
  pub offset : List ℕ
  pub size : ℕ
  pub addr : ℕ

-- The types `hdf5::Dataset` and `hdf5::Datatype`. `chunks_visit` calls a closure on some chunks, and
-- answers behind the last one.
pub record Hdf5 (D T : Type 0) : Type 0 where
  pub ndim : D → ℕ
  pub filters : D → List Filter
  pub dtype : D → Result T
  pub shape : D → List ℕ
  pub chunk : D → Option (List ℕ)
  pub is_chunked : D → Bool
  pub offset : D → Option ℕ
  pub storage_size : D → ℕ
  pub num_chunks : D → Option ℕ
  pub chunks_visit : D → List ChunkInfo × Result (Unit {0})
  pub byte_order : T → ByteOrder
  pub size : T → ℕ
  pub is : T → Number → Bool
