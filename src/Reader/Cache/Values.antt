-- ===== src/Reader/Cache/Values.antt =====
-- src/reader/cache.rs: a reader on a new cache, and the bytes that it reads.
use native.Mathlib.Nat.{mul-pos, lt_of_le_of_lt, le-mul_of_pos_right}
use hidefix.Base.{
  ◌==◌, ==→eq, Bool-cases, length, All, ok, panic, word, fill, ℕ, ◌*◌, ◌/◌, ◌≤◌, ◌<◌, max, ◌≡◌,
  refl, sym, ◌∙◌, subst, ◌⊎◌, inl, inr, Bool, Option, none, List, map, reverse, arith,
}
use hidefix.Extent.{Extents, get_start_count}
use hidefix.Idx.Chunk.{Chunk, read}
use hidefix.Idx.Dataset as Datasets
use hidefix.Idx.Dataset.{Dataset}
use hidefix.Idx.Dataset.Grid.{grid}
use hidefix.Idx.Datatype.{Datatype}
use hidefix.Filters.Byteorder.{Order}
use hidefix.Idx.Divisor.{Divisor}
use hidefix.Idx.Slicer.{Slice}
use hidefix.Idx.Slicer.Axis.{Axis, total, AreAxes}
use hidefix.Idx.Slicer.Layout.{Layout}
use hidefix.Idx.Slicer.Outward.{volume_pos, volume}
use hidefix.Idx.Slicer.Whole.{IsMade}
use hidefix.Idx.Slicer.Built.{new-slices-within, Selects}
use hidefix.Reader.Services.{Decompressor, ReadSeek, LruCache, Runtime}
use hidefix.Reader.Follows.{Follows, Follows-ok}
use hidefix.Reader.Gather.{storage_of, Holds}
use hidefix.Reader.Cached.{IsChunk, IsSized, new-IsCached}
use hidefix.Reader.Selected.{
  chunk_bytes-volume, selected, IsDecoded, Readable, counts_of, counted, value_bytes-total,
  needs-total, promised-selected,
}
use hidefix.Reader.Sizes.{cache_bytes, chunk_bytes, cache_sz}
use hidefix.Reader.Cache.{CacheReader, with_dataset, read_to}
use hidefix.Reader.Cache.Keeps.{IsValid, reader_of, valid_reader}
use hidefix.Reader.Cache.Refines.{read_to-Follows}

module _ {Sr F C : Type 0} ⦃r : Divisor Sr⦄ ⦃file : ReadSeek F⦄ ⦃lru : LruCache C⦄
    (de : Decompressor) (rt : Runtime) (content : List ℕ) (sizes : ℕ → ℕ) where
  -- On a file that holds the content, `with_dataset` makes a valid reader for chunks that have bytes,
  -- whose cache holds nothing under any address; for chunks without bytes it panics.
  pub with_dataset-IsValid :
      (ds : Dataset Sr) (fd : F)
      → Holds content fd
      → ((s : CacheReader Sr F C) × (0 < chunk_bytes ds)
          × (with_dataset ds fd ≡ ok s)
          × IsValid de rt ds content sizes s
          × ((addr : ℕ) → lru.peek s.cache addr ≡ none))
        ⊎ ((chunk_bytes ds ≡ 0) × (with_dataset {C = C} ds fd ≡ panic))
  unfolding with_dataset cache_sz
  with_dataset-IsValid ds fd h = elim (Bool-cases (chunk_bytes ds == 0)) [
    | inl e ↦ inr (==→eq _ _ e, rw e refl)
    | inr e ↦
        let capacity = max (cache_bytes / chunk_bytes ds) 1 in
        let cache = lru.new capacity in
        inl (
          reader_of de rt ds content sizes fd cache,
          ground arith,
          rw e refl,
          valid_reader fd cache h (new-IsCached C (IsChunk de content (storage_of ds) sizes) _),
          lru.peek-new capacity,
        )
  ]

  -- A cached read of a selection, by a valid reader and into a destination that is long enough, gives the
  -- bytes of the values of the selection in row-major order, and leaves a valid reader.
  pub read_to-selected :
      (as' : List (Axis Sr)) (ds : Dataset Sr) (e : Extents) (xs : List Slice)
      (bytes_of : List ℕ → List ℕ)
      → Readable de content as' ds e xs bytes_of
      → All (IsSized sizes) ds.chunks
      → (s : CacheReader Sr F C) → IsValid de rt ds content sizes s
      → (dst : List ℕ) → total as' * ds.dsize ≤ length dst
      → (s' : CacheReader Sr F C) × (read_to de rt s e dst
          ≡ ok ((total as' * ds.dsize, fill dst (selected de content as' ds bytes_of)), s'))
        × IsValid de rt ds content sizes s'
  read_to-selected as' ds e xs bytes_of k sized s v dst room_for =
      Follows-ok (IsValid de rt ds content sizes) (
        subst (Follows (IsValid de rt ds content sizes) (read_to de rt s e dst))
          (promised-selected de content as' ds e xs bytes_of k dst room_for)
          (read_to-Follows de rt ds content sizes s e xs
            (counts_of de content as' ds e xs bytes_of k) dst v sized
            (counted de content as' ds e xs bytes_of k) k.selects.pieces
            (omega (
              arith,
              needs-total de content as' ds e xs bytes_of k,
              value_bytes-total de content as' ds e xs bytes_of k,
            ))))

  -- From the shape to the values. A dataset is made by `Dataset::new` from its shape, its chunk shape and its
  -- chunks in row-major order, fewer than 2^64, and a selection of some values lies inside the shape and has
  -- one of the forms of `Layout`; each chunk decodes to the bytes of its values, chunks at one address have
  -- one size, and `u64` holds the bytes of a chunk and of the selection. Then a new cached reader on the
  -- file fills the front of a destination that is long enough with the bytes of the values of the selection,
  -- in row-major order of their indices, and leaves the rest of it as it is.
  pub new-read_values :
      (as' : List (Axis Sr)) (h : AreAxes 1 as') (dtype : Datatype) (order : Order)
      (chunks : List Chunk) (shuffle : Bool) (gzip : Option ℕ)
      → All IsMade as'
      → Layout 0 as'
      → map (λ c. c.offset) chunks
        ≡ grid (reverse (map (λ a. a.shape) as')) (reverse (map (λ a. a.chunk_sz) as'))
      → length chunks < word
      → (e : Extents)
      → get_start_count e (reverse (map (λ a. a.shape) as'))
        ≡ ok (reverse (map (λ a. a.idx) as'), reverse (map (λ a. a.count) as'))
      → (ds : Dataset Sr)
      → Datasets.new dtype order
          (reverse (map (λ a. a.shape) as'))
          chunks
          (reverse (map (λ a. a.chunk_sz) as'))
          shuffle
          gzip
        ≡ ok ds
      → (bytes_of : List ℕ → List ℕ)
      → All (IsDecoded de content (storage_of ds) (volume 1 as') bytes_of) ds.chunks
      → All (IsSized sizes) ds.chunks
      → volume 1 as' * ds.dsize < word
      → total as' * ds.dsize < word
      → 0 < ds.dsize
      → (fd : F) → Holds content fd
      → (dst : List ℕ) → total as' * ds.dsize ≤ length dst
      → (s s' : CacheReader Sr F C) × (with_dataset ds fd ≡ ok s)
        × (read_to de rt s e dst
            ≡ ok ((total as' * ds.dsize, fill dst (selected de content as' ds bytes_of)), s'))
  new-read_values as' h dtype order chunks shuffle gzip made l ordered countable e chosen ds created
        bytes_of decodes sized chunk_fits values_fit some_bytes fd holds dst room_for =
      let (ds', xs, created', sel, same) =
        new-slices-within as' h dtype order chunks shuffle gzip made l
          (lt_of_le_of_lt (le-mul_of_pos_right (total as') some_bytes) values_fit) ordered countable
          e chosen in
      let one_result : ok ds' ≡ ok ds = sym created' ∙ created in
      let one : ds' ≡ ds = cc in
      let k : Readable de content as' ds e xs bytes_of = record {
        selects = subst (λ d. Selects as' d e xs) one sel;
        decodes = decodes;
        chunk_fits = chunk_fits;
        values_fit = values_fit;
        some_bytes = some_bytes;
      } in
      elim (with_dataset-IsValid ds fd holds) [
        | inl (s, _, ran, v, _) ↦
            let (s', read, v') = read_to-selected as' ds e xs bytes_of k sized s v dst room_for in
            (s, s', ran, read)
        | inr (none_left, refused) ↦
            let bytes : volume 1 as' * ds.dsize ≡ 0 =
              sym (chunk_bytes-volume de content as' ds e xs bytes_of k) ∙ none_left in
            absurd (omega (arith, mul-pos (volume_pos as' h) some_bytes, bytes))
      ]
