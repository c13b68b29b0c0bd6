-- ===== src/Idx/Dataset.antt =====
-- src/idx/dataset/dataset.rs: a dataset, its construction from the layout, and the chunk of a
-- coordinate. The rank `D` of the source is the length of `shape`.
pub mod Grid
pub mod Build
pub mod Valid
pub mod Ordered
pub mod Index
use hidefix.Base.{
  ltb, ◌==◌, if◌then◌else◌, length, get_elem?, Error, Result, ◌>>=◌, ◌>>◌, ensure, or_panic,
  collect, chunk_lacks_offset, ok, panic, add64, mul64, product64, zip, ℕ, ◌+◌, ◌/◌, ◌%◌, Ordering,
  Bool, true, false, Option, List, [], ◌∷◌, reverse,
}
use hidefix.Filters.Byteorder.{Order}
use hidefix.Idx.Chunk.{Chunk, contains, eq}
use hidefix.Idx.Datatype.{Datatype, dsize}
use hidefix.Idx.Divisor.{Divisor}

pub record Dataset (Sr : Type 0) : Type 0 where
  pub dtype : Datatype
  pub dsize : ℕ
  pub order : Order
  pub chunks : List Chunk
  pub shape : List ℕ
  pub chunk_shape : List ℕ
  pub chunk_shape_reduced : List Sr
  pub scaled_dim_sz : List ℕ
  pub dim_sz : List ℕ
  pub chunk_dim_sz : List ℕ
  pub shuffle : Bool
  pub gzip : Option ℕ

-- `u64::div_ceil`, which panics on a divisor of 0.
unfoldable pub div_ceil : ℕ → ℕ → Result ℕ
div_ceil a b = if b == 0 then panic else ok (if ltb 0 (a % b) then a / b + 1 else a / b)

-- `scan(1, |p, c| { let sz = *p; *p *= c; Some(sz) })`
unfoldable pub scan_products : ℕ → List ℕ → List ℕ
scan_products p [] = []
scan_products p (c ∷ cs) = p ∷ scan_products (mul64 p c) cs

-- The products of the sizes behind each dimension: `rev`, `scan`, `collect`, `reverse`.
unfoldable pub dim_sizes : List ℕ → List ℕ
dim_sizes ds = reverse (scan_products 1 (reverse ds))

-- The loop of `valid`.
unfoldable pub valid_chunks : List ℕ → List Chunk → Result Bool
valid_chunks chunk_shape [] = ok true
valid_chunks chunk_shape (c ∷ cs) = do
  o ← contains c c.offset chunk_shape
  ensure (elim o [ Ordering.eq ↦ true | _ ↦ false ]) Error.chunk_lacks_offset
  valid_chunks chunk_shape cs

module _ {Sr : Type 0} ⦃r : Divisor Sr⦄ where
  -- `Dataset::new`
  unfoldable pub new :
      Datatype
      → Order
      → (shape : List ℕ) → List Chunk
      → (chunk_shape : List ℕ) → Bool
      → Option ℕ
      → Result (Dataset Sr)
  new dtype order shape chunks chunk_shape shuffle gzip = do
    chunk_shape_reduced ← collect r.new chunk_shape
    scaled ← collect (λ p. div_ceil p.0 p.1) (zip shape chunk_shape)
    ok (record {
      dtype = dtype;
      dsize = dsize dtype;
      order = order;
      chunks = chunks;
      shape = shape;
      chunk_shape = chunk_shape;
      chunk_shape_reduced = chunk_shape_reduced;
      scaled_dim_sz = dim_sizes scaled;
      dim_sz = dim_sizes shape;
      chunk_dim_sz = dim_sizes chunk_shape;
      shuffle = shuffle;
      gzip = gzip;
    })

  -- The fold of `chunk_at_coord`.
  unfoldable pub coord_loop : ℕ → List ℕ → List Sr → List ℕ → ℕ
  coord_loop offset (index ∷ is) (ch_sh ∷ ss) (sz ∷ zs) =
      coord_loop (add64 offset (mul64 (r.div index ch_sh) sz)) is ss zs
  coord_loop offset _ _ _ = offset

  -- `Dataset::chunk_at_coord`
  unfoldable pub chunk_at_coord : Dataset Sr → List ℕ → Result Chunk
  chunk_at_coord ds indices =
      or_panic (get_elem? ds.chunks (coord_loop 0 indices ds.chunk_shape_reduced ds.scaled_dim_sz))

module _ {Sr : Type 0} where
  -- Number of elements in dataset.
  unfoldable pub size : Dataset Sr → ℕ
  size ds = product64 ds.shape

  -- Dataset contains a single scalar value.
  unfoldable pub is_scalar : Dataset Sr → Bool
  is_scalar ds = elim ds.shape [ [] ↦ true | _ ↦ false ]

  -- `Dataset::valid`
  unfoldable pub valid : Dataset Sr → Result Bool
  valid ds = valid_chunks ds.chunk_shape ds.chunks
