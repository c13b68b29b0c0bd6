-- ===== src/Reader/Direct.antt =====
-- src/reader/direct.rs: the reader that reads each chunk once, in the order of the addresses, and copies
-- its pieces to their places. `read_to_par` gives each chunk to a thread: the threads are the tasks of a
-- step relation, which may take their steps in any order.
pub mod Writes
pub mod Segments
pub mod Places
pub mod Values
pub mod Parallel
use hidefix.Base.{
  leb, ◌==◌, if◌then◌else◌, length, take, Error, Result, ◌>>=◌, ◌>>◌, ensure, assert,
  insufficient_capacity, ok, add64, sub64, mul64, store, sub_slice, ℕ, suc, ◌+◌, Bool, false, ◌&&◌,
  Option, none, some, List, [], ◌∷◌,
}
use hidefix.Extent.{Extents, get_counts}
use hidefix.Idx.Chunk.{Chunk, read}
use hidefix.Idx.Dataset.{Dataset}
use hidefix.Idx.Divisor.{Divisor, number}
use hidefix.Idx.Slicer.Grouped.{Segment, Sort, group_chunk_slices}
use hidefix.Reader.Services.{ReadSeek, Decompressor, Runtime}
use hidefix.Reader.Sizes.{chunk_bytes, value_bytes, is_some}
use hidefix.Reader.Chunk.{read_chunk, read_chunk_to, decode_chunk}

pub record Direct (Sr P : Type 0) : Type 0 where
  pub ds : Dataset Sr
  pub path : P
  pub chunk_sz : ℕ

-- `with_dataset`
unfoldable pub with_dataset : {Sr P : Type 0} → Dataset Sr → P → Direct Sr P
with_dataset ds path = record { ds = ds; path = path; chunk_sz = chunk_bytes ds }

-- Bytes written over a list from an index on.
unfoldable pub write_at : (at_index : ℕ) (bytes dst : List ℕ) → List ℕ
write_at at_index [] dst = dst
write_at at_index (b ∷ bytes) dst = write_at (suc at_index) bytes (store dst at_index b)

-- `dst[current..(current + sz)].copy_from_slice(&cache[start..end])`
unfoldable pub copy_to : (dst cache : List ℕ) (current start end : ℕ) → Result (List ℕ)
copy_to dst cache current start end = do
  piece ← sub_slice cache start end
  let to = add64 current (sub64 end start)
  assert (leb current to && leb to (length dst))
  ok (write_at current piece dst)

-- The chunk that is held behind a segment: that of the last address, with the chunk it was read for.
unfoldable pub last_chunk : Option (Chunk × List ℕ) → Chunk → (cache : List ℕ) → Chunk × List ℕ
last_chunk none c cache = (c, cache)
last_chunk (some (last, held)) c cache = if c.addr == last.addr then (last, held) else (c, cache)

module _ {F : Type 0} ⦃file : ReadSeek F⦄ (de : Decompressor) (rt : Runtime) (chunk_sz dsz : ℕ)
    (gzipped shuffled : Bool) where
  -- The chunk that is still held, or the one that is read.
  unfoldable pub chunk_for : F → Option (Chunk × List ℕ) → Chunk → Result (List ℕ × F)
  chunk_for fd none c = read_chunk de rt fd c.addr c.size chunk_sz dsz gzipped shuffled false
  chunk_for fd (some (last, cache)) c =
      if c.addr == last.addr
      then ok (cache, fd)
      else read_chunk de rt fd c.addr c.size chunk_sz dsz gzipped shuffled false

  -- The loop of `read_to`.
  unfoldable pub direct_loop :
      F → Option (Chunk × List ℕ) → List Segment → (dst : List ℕ) → Result (List ℕ)
  direct_loop fd last [] dst = ok dst
  direct_loop fd last ((c, current, start, end) ∷ xs) dst = do
    (cache, fd') ← chunk_for fd last c
    dst' ← copy_to dst cache (mul64 current dsz) (mul64 start dsz) (mul64 end dsz)
    direct_loop fd' (some (last_chunk last c cache)) xs dst'

module _ {Sr P F : Type 0} ⦃r : Divisor Sr⦄ ⦃file : ReadSeek F⦄ (open_file : P → Result F)
    (sort : Sort) (de : Decompressor) (rt : Runtime) where
  -- `read_to`: the number of bytes, and the destination.
  unfoldable pub read_to : Direct Sr P → Extents → (dst : List ℕ) → Result (ℕ × List ℕ)
  read_to s extents dst = do
    counts ← get_counts extents s.ds.shape
    ensure (leb (value_bytes counts s.ds.dsize) (length dst)) Error.insufficient_capacity
    groups ← group_chunk_slices sort s.ds extents
    fd ← open_file s.path
    dst' ←
        direct_loop de rt s.chunk_sz s.ds.dsize (is_some s.ds.gzip) s.ds.shuffle fd none groups dst
    ok (value_bytes counts s.ds.dsize, dst')
