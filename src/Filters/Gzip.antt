-- ===== src/Filters/Gzip.antt =====
-- src/filters/gzip.rs: decompression into a buffer.
use hidefix.Base.{Error, Result, ok, err, ℕ, none, some, List}
use hidefix.Reader.Services.{Decompressor}

-- `decompress`: the number of bytes, and the buffer.
unfoldable pub decompress : Decompressor → (compressed out : List ℕ) → Result (ℕ × List ℕ)
decompress de compressed out = elim (de.zlib_decompress compressed out) [
  | some r ↦ ok r
  | none ↦ err Error.decompress_failed
]
