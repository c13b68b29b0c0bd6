-- ===== src/Reader/Chunk.antt =====
-- src/reader/chunk.rs: a chunk is read from the file and its filters are undone.
use hidefix.Base.{ltb, if◌then◌else◌, length, replicate, Result, ◌>>=◌, ok, ℕ, Bool, ◌&&◌, List}
use hidefix.Filters.Gzip.{decompress}
use hidefix.Filters.Shuffle.{unshuffle_sized}
use hidefix.Reader.Services.{ReadSeek, Decompressor, Runtime}

-- `read_chunk_to`: the bytes that fill `dst`, and the file behind them.
unfoldable pub read_chunk_to :
    {F : Type 0} ⦃file : ReadSeek F⦄ → F → (addr : ℕ) (dst : List ℕ) → Result (List ℕ × F)
read_chunk_to ⦃file⦄ fd addr dst = do fd' ← file.seek fd addr; file.read_exact fd' (length dst)

-- The bytes before the shuffle filter is undone.
unfoldable pub decache : Decompressor → List ℕ → (chunk_sz : ℕ) → (gzipped : Bool) → Result (List ℕ)
decache de chunk chunk_sz gzipped =
    if gzipped then (do (n, out) ← decompress de chunk (replicate chunk_sz 0); ok out) else ok chunk

-- `decode_chunk`
unfoldable pub decode_chunk :
    Decompressor → List ℕ → (chunk_sz dsz : ℕ) (gzipped shuffled : Bool) → Result (List ℕ)
decode_chunk de chunk chunk_sz dsz gzipped shuffled = do
  cache ← decache de chunk chunk_sz gzipped
  if shuffled && ltb 1 dsz then unshuffle_sized cache dsz else ok cache

-- `read_chunk`
unfoldable pub read_chunk :
    {F : Type 0} ⦃file : ReadSeek F⦄
    → Decompressor
    → Runtime
    → F
    → (addr size chunk_sz dsz : ℕ) (gzipped shuffled tokio_block : Bool) → Result (List ℕ × F)
read_chunk de rt fd addr size chunk_sz dsz gzipped shuffled tokio_block = do
  (cache, fd') ← read_chunk_to fd addr (replicate size 0)
  let decoded = decode_chunk de cache chunk_sz dsz gzipped shuffled
  chunk ← if tokio_block then rt.block_in_place decoded else decoded
  ok (chunk, fd')
