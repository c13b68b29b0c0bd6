-- ===== src/Reader/Cache.antt =====
-- src/reader/cache.rs: the reader that keeps decoded chunks in a cache. `read_to` gives the number of
-- bytes, the destination and the reader behind the call.
pub mod Keeps
pub mod Refines
pub mod Values
use hidefix.Base.{
  leb, ◌==◌, if◌then◌else◌, length, drop, sub_slice, Error, Result, ◌>>=◌, ◌>>◌, ensure, assert, ok,
  panic, stuck, insufficient_capacity, sub64, mul64, product64, ℕ, zero, suc, ◌*◌, ◌/◌, max, Bool,
  true, false, Option, none, some, List, ◌++◌,
}
use hidefix.Extent.{Extents, get_counts}
use hidefix.Idx.Dataset.{Dataset}
use hidefix.Idx.Divisor.{Divisor}
use hidefix.Idx.Slicer.{Slice, ChunkSlicer, next, chunk_slices}
use hidefix.Reader.Services.{ReadSeek, LruCache, Decompressor, Runtime}
use hidefix.Reader.Sizes.{is_some, chunk_bytes, cache_sz, value_bytes}
use hidefix.Reader.Chunk.{read_chunk}

pub record CacheReader (Sr F C : Type 0) : Type 0 where
  pub ds : Dataset Sr
  pub fd : F
  pub cache : C
  pub chunk_sz : ℕ

-- `dst[..slice_sz].copy_from_slice(&cache[start..end])`: the bytes, and the rest of the destination.
unfoldable pub copy_piece : (dst cache : List ℕ) (start end : ℕ) → Result (List ℕ × List ℕ)
copy_piece dst cache start end = do
  assert (leb (sub64 end start) (length dst))
  piece ← sub_slice cache start end
  ok (piece, drop (sub64 end start) dst)

module _ {Sr F C : Type 0} ⦃r : Divisor Sr⦄ ⦃file : ReadSeek F⦄ ⦃lru : LruCache C⦄ where
  -- `with_dataset`
  unfoldable pub with_dataset : Dataset Sr → F → Result (CacheReader Sr F C)
  with_dataset ds fd = do
    capacity ← cache_sz (chunk_bytes ds)
    ok (record { ds = ds; fd = fd; cache = lru.new capacity; chunk_sz = chunk_bytes ds })

  module _ (de : Decompressor) (rt : Runtime) where
    -- The branch of a chunk that is in the cache, and that of one that is read.
    unfoldable pub read_found :
        CacheReader Sr F C
        → Slice
        → (dst cache : List ℕ) → Result ((List ℕ × List ℕ) × CacheReader Sr F C)
    read_found s (c, start, end) dst cache = do
      p ← copy_piece dst cache (mul64 start s.ds.dsize) (mul64 end s.ds.dsize)
      ok (p, s)

    unfoldable pub read_missing :
        CacheReader Sr F C
        → Slice
        → (dst : List ℕ) → Result ((List ℕ × List ℕ) × CacheReader Sr F C)
    read_missing s (c, start, end) dst = do
      (cache, fd') ←
          read_chunk de rt s.fd c.addr c.size s.chunk_sz s.ds.dsize (is_some s.ds.gzip) s.ds.shuffle
            false
      p ← copy_piece dst cache (mul64 start s.ds.dsize) (mul64 end s.ds.dsize)
      ok (p, record s { fd = fd'; cache = lru.put s.cache c.addr cache })

    -- The body of the loop of `read_to`.
    unfoldable pub read_slice :
        CacheReader Sr F C
        → Slice
        → (dst : List ℕ) → Result ((List ℕ × List ℕ) × CacheReader Sr F C)
    read_slice s x dst =
        let (found, cache') = lru.get s.cache x.0.addr in
        let s' : CacheReader Sr F C = record s { cache = cache' } in
        elim found [ some cache ↦ read_found s' x dst cache | none ↦ read_missing s' x dst ]

    -- The loop of `read_to`, which takes the pieces one by one from the iterator.
    unfoldable pub read_loop :
        ℕ
        → ChunkSlicer Sr
        → CacheReader Sr F C
        → (dst : List ℕ) → Result (List ℕ × CacheReader Sr F C)
    read_loop zero it s dst = stuck
    read_loop (suc n) it s dst = next it >>= elim [
      | none ↦ ok (dst, s)
      | some (x, it') ↦ read_slice s x dst >>= λ p.
          read_loop n it' p.1 p.0.1 >>= λ (q : List ℕ × _). ok (p.0.0 ++ q.0, q.1)
    ]

    -- `read_to`
    unfoldable pub read_to :
        CacheReader Sr F C → Extents → (dst : List ℕ) → Result ((ℕ × List ℕ) × CacheReader Sr F C)
    read_to s extents dst = do
      counts ← get_counts extents s.ds.shape
      ensure (leb (value_bytes counts s.ds.dsize) (length dst)) Error.insufficient_capacity
      it ← chunk_slices s.ds extents
      (dst', s') ← read_loop (suc it.end) it s dst
      ok ((value_bytes counts s.ds.dsize, dst'), s')
