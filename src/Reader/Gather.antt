-- ===== src/Reader/Gather.antt =====
-- src/reader: what the readers promise. The bytes of a piece are cut out of its decoded chunk, and the
-- pieces follow one another; no cache, order of the reads or thread is part of it.
use hidefix.Base.{
  leb, if◌then◌else◌, leb→le, leb→gt, Bool-cases, length, take, drop, replicate, length-replicate,
  Error, Result, ◌>>=◌, ◌>>◌, ensure, ok, err, panic, stuck, sub64, mul64, sub_slice, fill, ℕ, ◌+◌,
  ◌≡◌, refl, ◌∙◌, inl, inr, Bool, true, false, List, [], ◌∷◌, ◌++◌,
}
use hidefix.Extent.{Extents, get_counts}
use hidefix.Idx.Dataset.{Dataset}
use hidefix.Idx.Divisor.{Divisor, number}
use hidefix.Reader.Sizes.{chunk_bytes, is_some, value_bytes}
use hidefix.Idx.Slicer.{Slice, slices}
use hidefix.Reader.Services.{ReadSeek, Decompressor, Runtime}
use hidefix.Reader.Chunk.{read_chunk_to, read_chunk, decode_chunk}
use hidefix.Reader.Follows.{Follows, gives, fails, panics, sticks, Follows-bind}

-- How the chunks of a dataset are stored.
pub record Storage : Type 0 where
  pub chunk_sz : ℕ
  pub dsz : ℕ
  pub gzipped : Bool
  pub shuffled : Bool

-- How a dataset stores its chunks.
abbrev pub storage_of : {Sr : Type 0} → Dataset Sr → Storage
storage_of ds = record {
  chunk_sz = chunk_bytes ds;
  dsz = ds.dsize;
  gzipped = is_some ds.gzip;
  shuffled = ds.shuffle;
}

-- The bytes that the file holds at an address.
unfoldable pub stored : (content : List ℕ) (addr size : ℕ) → Result (List ℕ)
stored content addr size =
    if leb (addr + size) (length content)
    then ok (take size (drop addr content))
    else err Error.io_error

module _ (de : Decompressor) (content : List ℕ) (st : Storage) where
  unfoldable pub decoded : (addr size : ℕ) → Result (List ℕ)
  decoded addr size = stored content addr size >>= λ chunk.
      decode_chunk de chunk st.chunk_sz st.dsz st.gzipped st.shuffled

  unfoldable pub piece_bytes : Slice → Result (List ℕ)
  piece_bytes (c, start, end) =
      decoded c.addr c.size >>= λ chunk. sub_slice chunk (mul64 start st.dsz) (mul64 end st.dsz)

  unfoldable pub gather : List Slice → Result (List ℕ)
  gather [] = ok []
  gather (x ∷ xs) = piece_bytes x >>= λ p. gather xs >>= λ ps. ok (p ++ ps)

-- What `read_to` promises: the number of bytes, and the destination, which begins with the bytes of the
-- pieces.
unfoldable pub promised :
    {Sr : Type 0} ⦃r : Divisor Sr⦄
    → Decompressor
    → (content : List ℕ) → Dataset Sr
    → Extents
    → (dst : List ℕ) → Result (ℕ × List ℕ)
promised de content ds e dst = do
  counts ← get_counts e ds.shape
  ensure (leb (value_bytes counts ds.dsize) (length dst)) Error.insufficient_capacity
  xs ← slices ds e
  bytes ← gather de content (storage_of ds) xs
  ok (value_bytes counts ds.dsize, fill dst bytes)

-- The room that a piece takes in the destination, and that pieces take.
abbrev pub room : (dsz : ℕ) → Slice → ℕ
room dsz (c, start, end) = sub64 (mul64 end dsz) (mul64 start dsz)

abbrev pub needs : (dsz : ℕ) → List Slice → ℕ
needs dsz [] = 0
needs dsz (x ∷ xs) = room dsz x + needs dsz xs

module _ (rt : Runtime) (m : Result (List ℕ)) where
  in_place : (tokio_block : Bool) → (if tokio_block then rt.block_in_place m else m) ≡ m
  in_place true = rt.runs m
  in_place false = refl

module _ {F : Type 0} ⦃file : ReadSeek F⦄ (content : List ℕ) where
  -- The file holds these bytes.
  abbrev pub Holds : F → Type 0
  Holds fd = file.content fd ≡ content

  read_exact-stored :
      (fd : F)
      → Holds fd
      → (n : ℕ) → Follows Holds (file.read_exact fd n) (stored content (file.position fd) n)
  unfolding stored
  read_exact-stored fd h n =
      rw (← h) (elim (Bool-cases (leb (file.position fd + n) (length (file.content fd)))) [
        | inl e ↦
            let (fd', given, same) = file.read-inside fd n (leb→le _ _ e) in
            rw (e, given) (gives _ fd' same)
        | inr e ↦ rw (e, file.read-beyond fd n (leb→gt _ _ e)) (fails Error.io_error)
      ])

  pub read_chunk_to-stored :
      (fd : F)
      → Holds fd
      → (addr : ℕ) (dst : List ℕ)
      → Follows Holds (read_chunk_to fd addr dst) (stored content addr (length dst))
  unfolding read_chunk_to
  read_chunk_to-stored fd h addr dst =
      let (fd', sought, same, at_addr) = file.seek-at fd addr in
      rw (sought) (rw at_addr at (read_exact-stored fd' (same ∙ h) (length dst)))

  Follows-run :
      {m n : Result (List ℕ)}
      → m ≡ n
      → (fd : F) → Holds fd
      → Follows Holds (m >>= λ a. ok (a, fd)) n
  Follows-run {m} {n} e fd h = rw e (all n)
    where
      all : (n : Result (List ℕ)) → Follows Holds (n >>= λ a. ok (a, fd)) n
      all (ok a) = gives a fd h
      all (err e) = fails e
      all panic = panics
      all stuck = sticks

  pub read_chunk-decoded :
      (de : Decompressor) (rt : Runtime) (st : Storage) (fd : F)
      → Holds fd
      → (addr size : ℕ) (tokio_block : Bool)
      → Follows Holds
          (read_chunk de rt fd addr size st.chunk_sz st.dsz st.gzipped st.shuffled tokio_block)
          (decoded de content st addr size)
  unfolding read_chunk decoded
  read_chunk-decoded de rt st fd h addr size tokio_block =
      Follows-bind Holds Holds _ _
        (rw (length-replicate {A = ℕ} size 0) at
          (read_chunk_to-stored fd h addr (replicate size 0)))
        (λ chunk fd' h' e.
          Follows-run
            (in_place rt (decode_chunk de chunk st.chunk_sz st.dsz st.gzipped st.shuffled)
              tokio_block)
            fd' h')
