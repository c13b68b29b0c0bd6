-- ===== src/Reader/Stream/Values.antt =====
-- src/reader/stream.rs: whole streams.
use native.Mathlib.Nat.{mul-pos}
use hidefix.Base.{
  ne→==, All, Result, ◌>>=◌, ok, err, panic, ℕ, ◌/◌, ◌<◌, max, ◌≡◌, refl, Bool, List, [], ◌∷◌, ◌++◌,
  arith,
}
use hidefix.Extent.{Extents}
use hidefix.Filters.Sized.{SliceCast}
use hidefix.Idx.Dataset.{Dataset}
use hidefix.Idx.Divisor.{Divisor}
use hidefix.Idx.Slicer.{Slice, slices}
use hidefix.Idx.Slicer.Axis.{Axis, AreAxes}
use hidefix.Idx.Slicer.Outward.{volume_pos}
use hidefix.Idx.Slicer.Members.{slices-All, bind-ok}
use hidefix.Reader.Services.{ReadSeek, LruCache, Decompressor, Runtime}
use hidefix.Reader.Gather.{Storage, storage_of, piece_bytes, gather, Holds}
use hidefix.Reader.Selected.{Readable, selected, gather-selected, chunk_bytes-volume}
use hidefix.Reader.Cached.{IsSized, IsChunk, new-IsCached}
use hidefix.Reader.Sizes.{chunk_bytes, cache_sz, cache_bytes}
use hidefix.Reader.Stream
use hidefix.Reader.Stream.{
  Piece, stream_loop, Stream, go_on, with_dataset, order, stream, stream_xdr,
}
use hidefix.Reader.Stream.Sent.{IsXdrType, xdr_bytes, stream_of_same, factor_bytes-xdr_bytes}
use hidefix.Idx.Datatype.{dsize}
use hidefix.Reader.Stream.Items.{stream_of, IsEncoded, stream_loop-stream_of, xdr_loop-stream_of}

-- All that a stream yields, if it ends well.
abbrev pub drain : Stream.Stream → Result (List ℕ)
drain Stream.ends = ok []
drain (Stream.yields b s) = drain s >>= λ bs. ok (b ++ bs)
drain (Stream.ends_with e) = err e
drain Stream.breaks = panic

drain-gather :
    (de : Decompressor) (content : List ℕ) (st : Storage) (xs : List Slice) (bytes : List ℕ)
    → gather de content st xs ≡ ok bytes
    → drain (stream_of (piece_bytes de content st) xs) ≡ ok bytes
unfolding gather go_on
drain-gather de content st [] bytes h = h
drain-gather de content st (x ∷ xs) bytes h =
    let (p, first, k) = bind-ok (piece_bytes de content st x) _ bytes h in
    let (ps, others, k') = bind-ok (gather de content st xs) _ bytes k in
    rw (first, drain-gather de content st xs ps others) k'

module _ {Sr P F : Type 0} (C : Type 0) ⦃r : Divisor Sr⦄ ⦃file : ReadSeek F⦄ ⦃lru : LruCache C⦄
    (open_file : P → Result F) (de : Decompressor) (rt : Runtime) (content : List ℕ)
    (sizes : ℕ → ℕ) where
  -- Where the file opens, chunks have bytes, and chunks at one address have one size, a stream of a selection
  -- yields the bytes of its pieces in their order, up to the first piece that cannot be read, whose error
  -- ends it, whatever the cache drops.
  pub stream-stream_of :
      (ds : Dataset Sr) (p : P) (fd : F) (e : Extents) (xs : List Slice)
      → open_file p ≡ ok fd
      → Holds content fd
      → All (IsSized sizes) ds.chunks
      → 0 < chunk_bytes ds
      → slices ds e ≡ ok xs
      → stream C open_file de rt (with_dataset ds p) e
        ≡ ok (stream_of (piece_bytes de content (storage_of ds)) xs)
  unfolding stream cache_sz go_on with_dataset
  stream-stream_of ds p fd e xs opened h sized some_bytes ran =
      rw
        (
          ran,
          ne→== (chunk_bytes ds) 0 (omega arith),
          opened,
          stream_loop-stream_of de rt content (storage_of ds) sizes xs fd
              (lru.new (max (cache_bytes / chunk_bytes ds) 1)) h
              (new-IsCached C (IsChunk de content (storage_of ds) sizes) _)
              (slices-All (IsSized sizes) ds e xs sized ran),
        )
        refl

  -- For a dataset with the size of its type (`dsize`), whose values are integers of 1, 2 or at least 4
  -- bytes, floating-point numbers of at least 4, or of a type that is sent as it stands: where the file
  -- opens, chunks have bytes, and chunks at one address have one size, a stream of XDR of a selection
  -- yields its pieces in their order. Each is cut out of the XDR form of its chunk, from the start of
  -- the piece to its end, both counted in values of `xdr_size` bytes. The first piece that cannot be
  -- read or encoded ends the stream with its error. What the cache drops plays no part.
  pub stream_xdr-stream_of :
      (cast : SliceCast) (big : Bool) (ds : Dataset Sr) (p : P) (fd : F) (e : Extents)
      (xs : List Slice)
      → IsXdrType ds.dtype
      → ds.dsize ≡ dsize ds.dtype
      → open_file p ≡ ok fd
      → Holds content fd
      → All (IsSized sizes) ds.chunks
      → 0 < chunk_bytes ds
      → slices ds e ≡ ok xs
      → stream_xdr C open_file de rt cast big (with_dataset ds p) e
        ≡ ok (stream_of (xdr_bytes de content (storage_of ds) cast big ds.dtype ds.order) xs)
  unfolding stream_xdr cache_sz go_on with_dataset order
  stream_xdr-stream_of cast big ds p fd e xs sent same opened h sized some_bytes ran =
      rw
        (
          ran,
          ne→== (chunk_bytes ds) 0 (omega arith),
          opened,
          xdr_loop-stream_of de rt content (storage_of ds) sizes cast big ds.dtype ds.order xs fd
              (lru.new (max (cache_bytes / chunk_bytes ds) 1)) h
              (new-IsCached C
                (IsEncoded de content (storage_of ds) sizes cast big ds.dtype ds.order) _)
              (slices-All (IsSized sizes) ds e xs sized ran),
          stream_of_same
              (λ x.
                factor_bytes-xdr_bytes de content (storage_of ds) cast big ds.dtype ds.order x sent
                  same)
              xs,
        )
        refl

  -- Where a selection can be read (`Readable`), the file opens, and chunks at one address have one size, its
  -- stream ends without an error, and what it yields are the bytes of the values of the selection in
  -- row-major order, as they stand in the decoded chunks.
  pub stream-selected :
      (as' : List (Axis Sr))
      → AreAxes 1 as'
      → (ds : Dataset Sr) (p : P) (fd : F) (e : Extents) (xs : List Slice)
        (bytes_of : List ℕ → List ℕ)
      → Readable de content as' ds e xs bytes_of
      → open_file p ≡ ok fd
      → Holds content fd
      → All (IsSized sizes) ds.chunks
      → (s : Stream.Stream) × (stream C open_file de rt (with_dataset ds p) e ≡ ok s)
        × (drain s ≡ ok (selected de content as' ds bytes_of))
  stream-selected as' h ds p fd e xs bytes_of k opened holds sized = (
    stream_of (piece_bytes de content (storage_of ds)) xs,
    stream-stream_of ds p fd e xs opened holds sized
        (rw (chunk_bytes-volume de content as' ds e xs bytes_of k)
          (mul-pos (volume_pos as' h) k.some_bytes))
        k.selects.pieces,
    drain-gather de content (storage_of ds) xs _
        (gather-selected de content as' ds e xs bytes_of k),
  )
