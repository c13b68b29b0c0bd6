-- ===== src/Reader/Sizes.antt =====
-- src/reader: the sizes in bytes that every reader computes.
use hidefix.Base.{
  ◌==◌, if◌then◌else◌, Result, ok, panic, mul64, product64, ℕ, ◌*◌, ◌/◌, max, Bool, true, false,
  Option, none, some, List,
}
use hidefix.Idx.Dataset.{Dataset}

-- `CACHE_SZ`
abbrev pub cache_bytes : ℕ
cache_bytes = 32 * 1024 * 1024

-- `is_some`
abbrev pub is_some {ℓ} : {A : Type ℓ} → Option A → Bool
is_some (some a) = true
is_some none = false

-- The bytes of a whole chunk.
unfoldable pub chunk_bytes : {Sr : Type 0} → Dataset Sr → ℕ
chunk_bytes ds = mul64 (product64 ds.chunk_shape) ds.dsize

-- The number of chunks that the cache holds: a chunk without bytes is a division by 0.
unfoldable pub cache_sz : (chunk_sz : ℕ) → Result ℕ
cache_sz chunk_sz = if chunk_sz == 0 then panic else ok (max (cache_bytes / chunk_sz) 1)

-- The bytes of the values of the selection.
unfoldable pub value_bytes : (counts : List ℕ) (dsz : ℕ) → ℕ
value_bytes counts dsz = mul64 (product64 counts) dsz
