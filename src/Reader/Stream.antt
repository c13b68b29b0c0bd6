-- ===== src/Reader/Stream.antt =====
-- src/reader/stream.rs: the reader that gives the pieces as a stream of byte strings. A stream is the
-- list of what it yields and how it ends; `File::open` is the argument `open_file`.
pub mod Items
pub mod Sent
pub mod Values
use hidefix.Base.{
  Error, Result, ◌>>=◌, ◌>>◌, ok, err, panic, stuck, mul64, sub_slice, ℕ, Bool, true, none, some,
  List, [], ◌∷◌, map,
}
use hidefix.Extent.{Extents}
use hidefix.Filters.Byteorder.{Order}
use hidefix.Filters.Sized.{SliceCast}
use hidefix.Filters.Xdr.{xdr_factor, xdr}
use hidefix.Idx.Dataset.{Dataset}
use hidefix.Idx.Datatype.{Datatype}
use hidefix.Idx.Divisor.{Divisor}
use hidefix.Idx.Slicer.{Slice, slices}
use hidefix.Reader.Services.{ReadSeek, LruCache, Decompressor, Runtime}
use hidefix.Reader.Sizes.{chunk_bytes, cache_sz, is_some}
use hidefix.Reader.Chunk.{read_chunk}

pub record StreamReader (Sr P : Type 0) : Type 0 where
  pub ds : Dataset Sr
  pub p : P
  pub chunk_sz : ℕ

-- What a stream yields: it ends, or with an error, or the task panics.
pub data Stream : Type 0 where
  ends : Stream
  yields : List ℕ → Stream → Stream
  ends_with : Error → Stream
  breaks : Stream

-- One piece of the dataset in the file: address, size, and the range in bytes.
pub record Piece : Type 0 where
  pub addr : ℕ
  pub size : ℕ
  pub first : ℕ
  pub end : ℕ

-- A value goes on, an error is yielded and ends the stream.
unfoldable pub go_on {ℓ} : {A : Type ℓ} → Result A → (A → Stream) → Stream
go_on (ok a) rest = rest a
go_on (err e) rest = ends_with e
go_on panic rest = breaks
go_on stuck rest = breaks

-- The map over `chunk_slices`.
unfoldable pub piece_of : (dsz : ℕ) → Slice → Piece
piece_of dsz (c, a, b) = record {
  addr = c.addr;
  size = c.size;
  first = mul64 a dsz;
  end = mul64 b dsz;
}

module _ {Sr P : Type 0} where
  -- `with_dataset`
  unfoldable pub with_dataset : Dataset Sr → P → StreamReader Sr P
  with_dataset ds p = record { ds = ds; p = p; chunk_sz = chunk_bytes ds }

  -- `order` and `dsize`
  unfoldable pub order : StreamReader Sr P → Order
  order s = s.ds.order

  unfoldable pub dsize : StreamReader Sr P → ℕ
  dsize s = s.ds.dsize

module _ {F C : Type 0} ⦃file : ReadSeek F⦄ ⦃lru : LruCache C⦄ (de : Decompressor) (rt : Runtime)
    (chunk_sz dsz : ℕ) (gzipped shuffled : Bool) where
  -- The loop of `stream`.
  unfoldable pub stream_loop : F → (ds_cache : C) → List Piece → Stream
  stream_loop fd ds_cache [] = ends
  stream_loop fd ds_cache (x ∷ xs) =
      let (found, ds_cache') = lru.get ds_cache x.addr in
      elim found [
        | some cache ↦
            go_on (sub_slice cache x.first x.end) (λ b. yields b (stream_loop fd ds_cache' xs))
        | none ↦
            go_on (read_chunk de rt fd x.addr x.size chunk_sz dsz gzipped shuffled true)
              (λ (q : List ℕ × F).
                go_on (sub_slice q.0 x.first x.end)
                  (λ b. yields b (stream_loop q.1 (lru.put ds_cache' x.addr q.0) xs)))
      ]

  module _ (c : SliceCast) (target_is_big : Bool) (dtype : Datatype) (order : Order) where
    -- The loop of `stream_xdr`.
    unfoldable pub xdr_loop : F → (ds_cache : C) → List Piece → Stream
    xdr_loop fd ds_cache [] = ends
    xdr_loop fd ds_cache (p ∷ ps) = go_on (xdr_factor dtype) (λ x.
        let (found, ds_cache') = lru.get ds_cache p.addr in
        elim found [
          | some cache ↦
              go_on (sub_slice cache (mul64 p.first x) (mul64 p.end x))
                (λ b. yields b (xdr_loop fd ds_cache' ps))
          | none ↦
              go_on (read_chunk de rt fd p.addr p.size chunk_sz dsz gzipped shuffled true)
                (λ (q : List ℕ × F). go_on (xdr c target_is_big q.0 dtype order) (λ cache.
                  go_on (sub_slice cache (mul64 p.first x) (mul64 p.end x))
                    (λ b. yields b (xdr_loop q.1 (lru.put ds_cache' p.addr cache) ps))))
        ])

module _ {Sr P F : Type 0} (C : Type 0) ⦃r : Divisor Sr⦄ ⦃file : ReadSeek F⦄ ⦃lru : LruCache C⦄
    (open_file : P → Result F) (de : Decompressor) (rt : Runtime) where
  -- `stream`
  unfoldable pub stream : StreamReader Sr P → Extents → Result Stream
  stream s extents = do
    xs ← slices s.ds extents
    capacity ← cache_sz s.chunk_sz
    ok (
        go_on (open_file s.p) (λ fd.
          stream_loop {C = C} de rt s.chunk_sz s.ds.dsize (is_some s.ds.gzip) s.ds.shuffle fd
            (lru.new capacity) (map (piece_of s.ds.dsize) xs)))

  -- `stream_xdr`
  unfoldable pub stream_xdr :
      SliceCast → (target_is_big : Bool) → StreamReader Sr P → Extents → Result Stream
  stream_xdr c target_is_big s extents = do
    xs ← slices s.ds extents
    capacity ← cache_sz s.chunk_sz
    ok (
        go_on (open_file s.p) (λ fd.
          xdr_loop {C = C} de rt s.chunk_sz s.ds.dsize (is_some s.ds.gzip) s.ds.shuffle c
            target_is_big s.ds.dtype (order s) fd (lru.new capacity)
            (map (piece_of s.ds.dsize) xs)))
