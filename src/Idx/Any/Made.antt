-- ===== src/Idx/Any/Made.antt =====
-- src/idx/dataset/any.rs: the dataset that `DatasetD::index` makes of a dataset of the HDF5 library.
use mathlib.Core.List.{Permᴰ}
use hidefix.Base.{
  length, length-map, mul64, product64, collect, zip, Bool, Option, All, word, ◌>>=◌, ok, ℕ, ◌≤◌,
  ◌<◌, ◌≡◌, refl, sym, ap, ◌∙◌, none, List, map, reverse, arith,
}
use hidefix.Idx.Any.{DatasetD, inner, index}
use hidefix.Idx.Any.Ranks.{of_rank-IsArm}
use hidefix.Idx.Chunk.{Chunk}
use hidefix.Idx.Chunk.Sorted.{SliceSort}
use hidefix.Filters.Byteorder.{Order}
use hidefix.Idx.Datatype.{Datatype, dsize}
use hidefix.Idx.Dataset.{Dataset, div_ceil}
use hidefix.Idx.Dataset as Datasets
use hidefix.Idx.Dataset.Grid.{grid}
use hidefix.Idx.Dataset.Index as DatasetIndex
use hidefix.Idx.Dataset.Index.{datatype_from, order_from}
use hidefix.Idx.Dataset.Index.Stored.{IsSupported, IsStored, has_shuffle, last_deflate, index-new}
use hidefix.Idx.Divisor.{Divisor}
use hidefix.Idx.Hdf5.{Hdf5}
use hidefix.Idx.Slicer.Axis.{Axis, AreAxes}
use hidefix.Idx.Slicer.Built.{made_dataset, made-new}
use hidefix.Idx.Slicer.Members.{bind-ok}
use hidefix.Reader.Gather.{Storage, storage_of}
use hidefix.Reader.Sizes.{chunk_bytes, is_some}

-- How the chunks of a dataset are stored: the bytes of a whole chunk and of a value, and the filters.
abbrev pub storage_for :
    Datatype → (chunk_shape : List ℕ) (shuffled : Bool) (gzip : Option ℕ) → Storage
storage_for dtype chunk_shape shuffled gzip = record {
  chunk_sz = mul64 (product64 chunk_shape) (dsize dtype);
  dsz = dsize dtype;
  gzipped = is_some gzip;
  shuffled = shuffled;
}

-- `Dataset::new` takes the chunks as they are.
pub new-chunks :
    {Sr : Type 0} ⦃r : Divisor Sr⦄ (dtype : Datatype) (order : Order) (shape : List ℕ)
    (chunks : List Chunk) (chunk_shape : List ℕ) (shuffled : Bool) (gzip : Option ℕ)
    (ds : Dataset Sr)
    → Datasets.new dtype order shape chunks chunk_shape shuffled gzip ≡ ok ds
    → ds.chunks ≡ chunks
unfolding Datasets.new
new-chunks ⦃r⦄ dtype order shape chunks chunk_shape shuffled gzip ds h =
    let (reduced, e, h') = bind-ok (collect r.new chunk_shape) _ ds h in
    let (scaled, e', h'') =
      bind-ok (collect (λ (p : ℕ × ℕ). div_ceil p.0 p.1) (zip shape chunk_shape)) _ ds h' in
    cc

-- How its chunks are stored.
pub new-storage :
    {Sr : Type 0} ⦃r : Divisor Sr⦄ (dtype : Datatype) (order : Order) (shape : List ℕ)
    (chunks : List Chunk) (chunk_shape : List ℕ) (shuffled : Bool) (gzip : Option ℕ)
    (ds : Dataset Sr)
    → Datasets.new dtype order shape chunks chunk_shape shuffled gzip ≡ ok ds
    → (storage_of ds ≡ storage_for dtype chunk_shape shuffled gzip) × (ds.dsize ≡ dsize dtype)
unfolding Datasets.new chunk_bytes
new-storage ⦃r⦄ dtype order shape chunks chunk_shape shuffled gzip ds h =
    let (reduced, e, h') = bind-ok (collect r.new chunk_shape) _ ds h in
    let (scaled, e', h'') =
      bind-ok (collect (λ (p : ℕ × ℕ). div_ceil p.0 p.1) (zip shape chunk_shape)) _ ds h' in
    (cc, cc)

-- The shapes of the axes, outermost first.
abbrev pub shape_of : {Sr : Type 0} → List (Axis Sr) → List ℕ
shape_of as' = reverse (map (λ a. a.shape) as')

abbrev pub chunk_shape_of : {Sr : Type 0} → List (Axis Sr) → List ℕ
chunk_shape_of as' = reverse (map (λ a. a.chunk_sz) as')

-- A dataset of the HDF5 library of these axes that can be indexed, with the chunks that it tells of.
pub record CanIndex {Sr D T : Type 0} (h : Hdf5 D T) (as' : List (Axis Sr)) (ds : D) (t : T)
    (chunks : List Chunk) : Type 0 where
  pub low : h.ndim ds ≤ 9
  pub rank : h.ndim ds ≡ length (shape_of as')
  pub supported : All IsSupported (h.filters ds)
  pub typed : h.dtype ds ≡ ok t
  pub shaped : h.shape ds ≡ shape_of as'
  pub chunks_hold : All (λ c. 0 < c) (chunk_shape_of as')
  pub stored : IsStored h ds (shape_of as') (chunk_shape_of as') chunks
  pub countable : length (grid (shape_of as') (chunk_shape_of as')) < word

-- The dataset that is indexed is made by `Dataset::new` from the chunks in row-major order.
pub index-made :
    {Sr D T : Type 0} ⦃r : Divisor Sr⦄ (h : Hdf5 D T) (sort : SliceSort) (as' : List (Axis Sr))
    (ds : D) (t : T) (chunks : List Chunk)
    → CanIndex h as' ds t chunks
    → (x : DatasetD Sr) → index h sort ds ≡ ok x
    → (sorted : List Chunk) × (Datasets.new
          (datatype_from h t)
          (order_from (h.byte_order t))
          (shape_of as')
          sorted
          (chunk_shape_of as')
          (has_shuffle (h.filters ds))
          (last_deflate none (h.filters ds))
        ≡ ok (inner x))
      × (map (λ c. c.offset) sorted ≡ grid (shape_of as') (chunk_shape_of as'))
      × Permᴰ chunks sorted
unfolding index
index-made {Sr = Sr} h sort as' ds t chunks k x indexed =
    let (arm, taken, arms) = of_rank-IsArm {Sr = Sr} (h.ndim ds) k.low in
    let indexed' : (DatasetIndex.index h sort (h.ndim ds) ds >>= λ d. ok (arm d)) ≡ ok x =
      rw (taken, index) at indexed in
    let (d, found, kept) =
      bind-ok (DatasetIndex.index h sort (h.ndim ds) ds) (λ d. ok (arm d)) x indexed' in
    let same : arm d ≡ x = cc in
    let inside : d ≡ inner x = sym (arms.keeps d) ∙ ap inner same in
    let (sorted, created, ordered, perm) =
      index-new {Sr = Sr} h sort ds (shape_of as') (chunk_shape_of as') chunks t k.rank k.supported
        k.typed k.shaped k.chunks_hold k.stored k.countable in
    let found' = ap (λ n. DatasetIndex.index {Sr = Sr} h sort n ds) k.rank in
    (sorted, sym created ∙ sym found' ∙ found ∙ ap ok inside, ordered, perm)

-- What `index` knows of the storage.
abbrev pub told_storage : {Sr D T : Type 0} → Hdf5 D T → List (Axis Sr) → D → T → Storage
told_storage h as' ds t =
    storage_for (datatype_from h t) (chunk_shape_of as') (has_shuffle (h.filters ds))
      (last_deflate none (h.filters ds))

-- `index` gives a dataset.
pub index_total :
    {Sr D T : Type 0} ⦃r : Divisor Sr⦄ (h : Hdf5 D T) (sort : SliceSort) (as' : List (Axis Sr))
    → AreAxes 1 as'
    → (ds : D) (t : T) (chunks : List Chunk) → CanIndex h as' ds t chunks
    → (x : DatasetD Sr) × (index h sort ds ≡ ok x)
unfolding index
index_total {Sr = Sr} h sort as' axes ds t chunks k =
    let (arm, taken, arms) = of_rank-IsArm {Sr = Sr} (h.ndim ds) k.low in
    let (sorted, created, ordered, perm) =
      index-new {Sr = Sr} h sort ds (shape_of as') (chunk_shape_of as') chunks t k.rank k.supported
        k.typed k.shaped k.chunks_hold k.stored k.countable in
    let few : length sorted < word =
      omega (arith, length-map (λ (c : Chunk). c.offset) sorted, ap length ordered, k.countable) in
    let made =
      made-new as' axes (datatype_from h t) (order_from (h.byte_order t)) sorted
        (has_shuffle (h.filters ds)) (last_deflate none (h.filters ds)) ordered few in
    let made_ds =
      made_dataset as' axes (datatype_from h t) (order_from (h.byte_order t)) sorted
        (has_shuffle (h.filters ds)) (last_deflate none (h.filters ds)) in
    (arm made_ds, rw (taken, index, k.rank, created, made) refl)
