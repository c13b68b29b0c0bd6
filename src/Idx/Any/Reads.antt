-- ===== src/Idx/Any/Reads.antt =====
-- From a dataset of the HDF5 library to its values: src/idx/dataset/any.rs with the index of
-- src/idx/dataset/dataset.rs and the reader of src/reader/cache.rs.
use hidefix.Base.{
  length, length-map, All, All-Permᴰ, fill, word, Result, ok, ℕ, ◌*◌, ◌≤◌, ◌<◌, ◌≡◌, sym, ap, subst,
  List, map, reverse, arith,
}
use hidefix.Extent.{Extents, get_start_count}
use hidefix.Idx.Any.{DatasetD, inner, index, as_reader}
use hidefix.Idx.Any.Made.{
  new-chunks, new-storage, shape_of, CanIndex, index-made, told_storage, index_total,
}
use hidefix.Idx.Chunk.{Chunk}
use hidefix.Idx.Chunk.Sorted.{SliceSort}
use hidefix.Idx.Datatype.{dsize}
use hidefix.Idx.Dataset.Index.{datatype_from}
use hidefix.Idx.Divisor.{Divisor}
use hidefix.Idx.Hdf5.{Hdf5}
use hidefix.Idx.Slicer.Axis.{Axis, AreAxes, total}
use hidefix.Idx.Slicer.Run.{wanted}
use hidefix.Idx.Slicer.Layout.{Layout}
use hidefix.Idx.Slicer.Outward.{volume}
use hidefix.Idx.Slicer.Whole.{IsMade}
use hidefix.Reader.Services.{ReadSeek, LruCache, Decompressor, Runtime}
use hidefix.Reader.Gather.{storage_of, Holds}
use hidefix.Reader.Selected.{selected, values_at, IsDecoded}
use hidefix.Reader.Cached.{IsSized}
use hidefix.Reader.Cache.{CacheReader, read_to}
use hidefix.Reader.Cache.Values.{new-read_values}

module _ {Sr F C D T P : Type 0} ⦃r : Divisor Sr⦄ ⦃file : ReadSeek F⦄ ⦃lru : LruCache C⦄
    (h : Hdf5 D T) (sort : SliceSort) (open_file : P → Result F) (de : Decompressor) (rt : Runtime)
    (content : List ℕ) (sizes : ℕ → ℕ) where
  -- The read of a dataset that `index` gave.
  indexed-read_values :
      (as' : List (Axis Sr)) (axes : AreAxes 1 as') (ds : D) (t : T) (chunks : List Chunk)
      → CanIndex h as' ds t chunks
      → All IsMade as'
      → Layout 0 as'
      → (x : DatasetD Sr) → index h sort ds ≡ ok x
      → (bytes_of : List ℕ → List ℕ)
      → All (IsDecoded de content (storage_of (inner x)) (volume 1 as') bytes_of) chunks
      → All (IsSized sizes) chunks
      → volume 1 as' * (inner x).dsize < word
      → total as' * (inner x).dsize < word
      → 0 < (inner x).dsize
      → (e : Extents)
      → get_start_count e (shape_of as')
        ≡ ok (reverse (map (λ a. a.idx) as'), reverse (map (λ a. a.count) as'))
      → (p : P) (fd : F) → open_file p ≡ ok fd
      → Holds content fd
      → (dst : List ℕ) → total as' * (inner x).dsize ≤ length dst
      → (s s' : CacheReader Sr F C) × (as_reader open_file x p ≡ ok s)
        × (read_to de rt s e dst
            ≡ ok (
              (total as' * (inner x).dsize, fill dst (selected de content as' (inner x) bytes_of)),
              s',
            ))
  unfolding as_reader
  indexed-read_values as' axes ds t chunks k made l x indexed bytes_of decodes sized chunk_fits
        values_fit some_bytes e chosen p fd opened holds dst room_for =
      let (sorted, created, ordered, perm) = index-made h sort as' ds t chunks k x indexed in
      let own = new-chunks _ _ _ sorted _ _ _ (inner x) created in
      let few : length sorted < word =
        omega
          (arith, length-map (λ (c : Chunk). c.offset) sorted, ap length ordered, k.countable) in
      let (s, s', ran, read) =
        new-read_values {C = C} de rt content sizes as' axes _ _ sorted _ _ made l ordered few e
          chosen (inner x) created bytes_of
          (subst
            (λ cs. All (IsDecoded de content (storage_of (inner x)) (volume 1 as') bytes_of) cs)
            (sym own) (All-Permᴰ _ perm decodes))
          (subst (λ cs. All (IsSized sizes) cs) (sym own) (All-Permᴰ (IsSized sizes) perm sized))
          chunk_fits values_fit some_bytes fd holds dst room_for in
      (s, s', rw opened ran, read)

  -- From the HDF5 library to the values. A dataset of the library can be indexed (`CanIndex`); each of
  -- its chunks decodes to the bytes of its values, chunks at one address have
  -- one size, `u64` holds the bytes of a chunk and of a selection of some values that has one of the forms of
  -- `Layout`, and the file opens. Then `index`
  -- gives a dataset for it, and `as_reader` gives a reader that fills the front of a destination that
  -- is long enough with the bytes of the values of the selection, in row-major order of their indices, and
  -- leaves the rest of it as it is, in whatever order the library tells of the chunks.
  pub index-read_values :
      (as' : List (Axis Sr)) (axes : AreAxes 1 as') (ds : D) (t : T) (chunks : List Chunk)
      → CanIndex h as' ds t chunks
      → All IsMade as'
      → Layout 0 as'
      → (bytes_of : List ℕ → List ℕ)
      → All (IsDecoded de content (told_storage h as' ds t) (volume 1 as') bytes_of) chunks
      → All (IsSized sizes) chunks
      → volume 1 as' * dsize (datatype_from h t) < word
      → total as' * dsize (datatype_from h t) < word
      → 0 < dsize (datatype_from h t)
      → (e : Extents)
      → get_start_count e (shape_of as')
        ≡ ok (reverse (map (λ a. a.idx) as'), reverse (map (λ a. a.count) as'))
      → (p : P) (fd : F) → open_file p ≡ ok fd
      → Holds content fd
      → (dst : List ℕ) → total as' * dsize (datatype_from h t) ≤ length dst
      → (x : DatasetD Sr) × (s s' : CacheReader Sr F C) × (index h sort ds ≡ ok x)
        × (as_reader open_file x p ≡ ok s)
        × (read_to de rt s e dst
            ≡ ok (
              (
                total as' * dsize (datatype_from h t),
                fill dst
                    (values_at (dsize (datatype_from h t)) bytes_of (wanted as' 0 (total as'))),
              ),
              s',
            ))
  index-read_values as' axes ds t chunks k made l bytes_of decodes sized chunk_fits values_fit
        some_bytes e chosen p fd opened holds dst room_for =
      let (x, indexed) = index_total h sort as' axes ds t chunks k in
      let (sorted, created, ordered, perm) = index-made h sort as' ds t chunks k x indexed in
      let (same, same_size) = new-storage _ _ _ sorted _ _ _ (inner x) created in
      let (s, s', ran, read) =
        indexed-read_values as' axes ds t chunks k made l x indexed bytes_of
          (subst (λ st. All (IsDecoded de content st (volume 1 as') bytes_of) chunks) (sym same)
            decodes)
          sized (rw same_size chunk_fits) (rw same_size values_fit) (rw same_size some_bytes) e
          chosen p fd opened holds dst (rw same_size room_for) in
      (x, s, s', indexed, ran, rw (← same_size) read)
