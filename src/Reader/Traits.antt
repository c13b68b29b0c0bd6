-- ===== src/Reader/Traits.antt =====
-- src/reader/dataset.rs: the traits that the readers implement, and what they give as values in place of
-- bytes. A value is the list of its bytes in memory.
pub mod Native
pub mod Streamed
pub mod Parallel
use hidefix.Base.{
  ltb, ◌==◌, length, take, drop, replicate, Error, Result, ◌>>=◌, ◌>>◌, ensure, assert, ok, err,
  panic, size_not_multiple, misaligned, mul64, product64, ℕ, zero, suc, ◌/◌, ◌%◌, ◌<◌, ◌≡◌, Bool,
  List, [], ◌∷◌,
}
use hidefix.Extent.{Extents, get_counts}
use hidefix.Filters.Byteorder.{Order, Kind, to_native}
use hidefix.Filters.Sized.{SliceCast, concat}
use hidefix.Idx.Divisor.{Divisor}
use hidefix.Reader.Services.{ReadSeek, LruCache, Decompressor, Runtime}
use hidefix.Reader.Cache.{CacheReader}
use hidefix.Reader.Cache as Cache
use hidefix.Reader.Stream as Stream

-- `Reader`: `read_to` gives the number of bytes, the destination and the reader behind the call.
pub record Reader (R : Type 0) : Type 0 where
  pub read_to : R → Extents → (dst : List ℕ) → Result ((ℕ × List ℕ) × R)
  pub order : R → Order
  pub dsize : R → ℕ
  pub shape : R → List ℕ

-- `Reader for CacheReader`
unfoldable pub cache_reader :
    {Sr F C : Type 0} ⦃r : Divisor Sr⦄ ⦃file : ReadSeek F⦄ ⦃lru : LruCache C⦄
    → Decompressor
    → Runtime
    → Reader (CacheReader Sr F C)
cache_reader de rt = record {
  read_to = Cache.read_to de rt;
  order = λ s. s.ds.order;
  dsize = λ s. s.ds.dsize;
  shape = λ s. s.ds.shape;
}

-- The type of the values: its layout in memory, of which the alignment divides the size, and its default.
pub record ValueType : Type 0 where
  pub size : ℕ
  pub align : ℕ
  pub kind : Kind
  pub default : List ℕ
  pub some_bytes : 0 < size
  pub size-align : size % align ≡ 0
  pub length-default : length default ≡ size

-- Bytes as so many values of a size.
unfoldable pub values_of : (n size : ℕ) (bytes : List ℕ) → List (List ℕ)
values_of zero size bytes = []
values_of (suc n) size bytes = take size bytes ∷ values_of n size (drop size bytes)

-- The two tests on the layout, `dsz % size_of::<T>()` and `(dsz * vsz) % align_of::<T>()`.
unfoldable pub layout_fits : ValueType → (dsz vsz : ℕ) → Result (Unit {0})
layout_fits t dsz vsz = do
  ensure (dsz % t.size == 0) Error.size_not_multiple
  ensure (mul64 dsz vsz % t.align == 0) Error.misaligned

module _ {R : Type 0} (reader : Reader R) (target_is_big : Bool) (t : ValueType) where
  -- `values_to`: the number of bytes, the values in `dst`, and the reader.
  unfoldable pub values_to : R → Extents → (dst : List (List ℕ)) → Result ((ℕ × List (List ℕ)) × R)
  values_to s extents dst = do
    ((n, bytes), s') ← reader.read_to s extents (concat dst)
    let values = values_of (length dst) t.size bytes
    ok ((n, to_native target_is_big t.kind (reader.order s') values), s')

  -- `values`
  unfoldable pub values : R → Extents → Result (List (List ℕ) × R)
  values s extents = do
    counts ← get_counts extents (reader.shape s)
    let vsz = mul64 (product64 counts) (reader.dsize s) / t.size
    layout_fits t (reader.dsize s) vsz
    (q, s') ← values_to s extents (replicate vsz t.default)
    ok (q.1, s')

-- `Streamer`
pub record Streamer (S : Type 0) : Type 0 where
  pub stream : S → Extents → Result Stream.Stream
  pub stream_xdr : S → Extents → Result Stream.Stream
  pub order : S → Order
  pub dsize : S → ℕ

-- `Streamer for StreamReader`
unfoldable pub stream_reader :
    {Sr P F : Type 0} (C : Type 0) ⦃r : Divisor Sr⦄ ⦃file : ReadSeek F⦄ ⦃lru : LruCache C⦄
    (open_file : P → Result F)
    → Decompressor
    → Runtime
    → SliceCast
    → (target_is_big : Bool) → Streamer (Stream.StreamReader Sr P)
stream_reader C open_file de rt c target_is_big = record {
  stream = Stream.stream C open_file de rt;
  stream_xdr = Stream.stream_xdr C open_file de rt c target_is_big;
  order = Stream.order;
  dsize = Stream.dsize;
}

module _ (c : SliceCast) (target_is_big : Bool) (t : ValueType) where
  -- The map of `stream_values`: what the stream yields, each as values. The bytes of an item that are no
  -- values of the size are an error in its place.
  unfoldable pub value_items : Order → Stream.Stream → List (Result (List (List ℕ)))
  value_items order Stream.ends = []
  value_items order (Stream.yields b rest) =
      (c.cast t.size b >>= λ v. ok (to_native target_is_big t.kind order v))
      ∷ value_items order rest
  value_items order (Stream.ends_with e) = err e ∷ []
  value_items order Stream.breaks = panic ∷ []

  -- `stream_values`
  unfoldable pub stream_values :
      {S : Type 0} → Streamer S → S → Extents → Result (List (Result (List (List ℕ))))
  stream_values streamer s extents = do
    st ← streamer.stream s extents
    ok (value_items (streamer.order s) st)
