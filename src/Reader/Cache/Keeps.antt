-- ===== src/Reader/Cache/Keeps.antt =====
-- src/reader/cache.rs: whatever the cache holds or drops, the reader gives the bytes of the pieces.
use hidefix.Base.{
  le→leb, Option-cases, length, drop, Result, ◌>>=◌, ok, sub64, mul64, sub_slice, ℕ, ◌≤◌, ◌≡◌, refl,
  sym, ◌∙◌, subst, inl, inr, false, List,
}
use hidefix.Idx.Dataset.{Dataset}
use hidefix.Idx.Divisor.{Divisor}
use hidefix.Idx.Slicer.{Slice}
use hidefix.Reader.Services.{ReadSeek, LruCache, Decompressor, Runtime}
use hidefix.Reader.Follows.{Follows, Follows-along, bind_assoc, Follows-bind}
use hidefix.Reader.Gather.{
  Storage, decoded, piece_bytes, Holds, read_chunk-decoded, storage_of, room,
}
use hidefix.Reader.Cached.{IsSized, IsCached, get-IsCached, put-IsCached, IsChunk}
use hidefix.Reader.Cache.{
  CacheReader, chunk_bytes, copy_piece, read_found, read_missing, read_slice,
}

copy_piece-eq :
    (dst cache : List ℕ) (start end : ℕ)
    → sub64 end start ≤ length dst
    → copy_piece dst cache start end
      ≡ (sub_slice cache start end >>= λ p. ok (p, drop (sub64 end start) dst))
unfolding copy_piece
copy_piece-eq dst cache start end h = rw (le→leb (sub64 end start) (length dst) h) refl

module _ (de : Decompressor) (content : List ℕ) (st : Storage) where
  abbrev pub step_bytes : Slice → List ℕ → Result (List ℕ × List ℕ)
  step_bytes x dst = piece_bytes de content st x >>= λ p. ok (p, drop (room st.dsz x) dst)

module _ {Sr F C : Type 0} ⦃r : Divisor Sr⦄ ⦃file : ReadSeek F⦄ ⦃lru : LruCache C⦄
    (de : Decompressor) (rt : Runtime) (ds : Dataset Sr) (content : List ℕ) (sizes : ℕ → ℕ) where
  abbrev pub reader_of : F → C → CacheReader Sr F C
  reader_of fd cache = record { ds = ds; fd = fd; cache = cache; chunk_sz = chunk_bytes ds }

  -- A reader of this dataset and file with such a cache.
  pub data IsValid : CacheReader Sr F C → Type 0 where
    valid_reader :
        (fd : F) (cache : C)
        → Holds content fd
        → IsCached (IsChunk de content (storage_of ds) sizes) cache
        → IsValid (reader_of fd cache)

  found-IsValid :
      (fd : F) (cache : C) (x : Slice) (dst chunk : List ℕ)
      → IsValid (reader_of fd cache)
      → room ds.dsize x ≤ length dst
      → decoded de content (storage_of ds) x.0.addr x.0.size ≡ ok chunk
      → Follows IsValid
          (read_found de rt (reader_of fd cache) x dst chunk)
          (step_bytes de content (storage_of ds) x dst)
  unfolding read_found piece_bytes
  found-IsValid fd cache (c, start, end) dst chunk v fits e =
      rw (e, copy_piece-eq dst chunk _ _ fits)
        (Follows-along IsValid (sub_slice chunk (mul64 start ds.dsize) (mul64 end ds.dsize))
          (λ p. (p, drop (sub64 (mul64 end ds.dsize) (mul64 start ds.dsize)) dst))
          (reader_of fd cache) v)

  missing-IsValid :
      (fd : F) (cache : C) (x : Slice) (dst : List ℕ)
      → Holds content fd
      → IsCached (IsChunk de content (storage_of ds) sizes) cache
      → IsSized sizes x.0
      → room ds.dsize x ≤ length dst
      → Follows IsValid
          (read_missing de rt (reader_of fd cache) x dst)
          (step_bytes de content (storage_of ds) x dst)
  unfolding read_missing piece_bytes
  missing-IsValid fd cache (c, start, end) dst h p sized fits =
      subst (Follows IsValid (read_missing de rt (reader_of fd cache) (c, start, end) dst))
        (sym (
          bind_assoc (decoded de content (storage_of ds) c.addr c.size)
            (λ chunk. sub_slice chunk (mul64 start ds.dsize) (mul64 end ds.dsize)) _))
        (Follows-bind IsValid (Holds content) _ _
          (read_chunk-decoded content de rt (storage_of ds) fd h c.addr c.size false)
          (λ chunk fd' h' e. rw (copy_piece-eq dst chunk _ _ fits) (
            Follows-along IsValid (sub_slice chunk (mul64 start ds.dsize) (mul64 end ds.dsize))
              (λ p. (p, drop (sub64 (mul64 end ds.dsize) (mul64 start ds.dsize)) dst))
              (reader_of fd' (lru.put cache c.addr chunk))
              (valid_reader fd' (lru.put cache c.addr chunk) h' (
                put-IsCached (IsChunk de content (storage_of ds) sizes) cache c.addr chunk p
                  (rw sized at e))))))

  pub read_slice-IsValid :
      (s : CacheReader Sr F C) (x : Slice) (dst : List ℕ)
      → IsValid s
      → IsSized sizes x.0
      → room ds.dsize x ≤ length dst
      → Follows IsValid (read_slice de rt s x dst) (step_bytes de content (storage_of ds) x dst)
  unfolding read_slice
  read_slice-IsValid s x dst (valid_reader fd cache h p) sized fits =
      let cache' = (lru.get cache x.0.addr).1 in
      let p' = get-IsCached (IsChunk de content (storage_of ds) sizes) cache x.0.addr p in
      elim (Option-cases (lru.get cache x.0.addr).0) [
        | inl none_found ↦
            rw (read_slice, none_found) (missing-IsValid fd cache' x dst h p' sized fits)
        | inr (chunk, found) ↦
            rw (read_slice, found)
              (found-IsValid fd cache' x dst chunk (valid_reader fd cache' h p') fits
                (rw sized (p x.0.addr chunk (sym (lru.get-peek cache x.0.addr) ∙ found))))
      ]
