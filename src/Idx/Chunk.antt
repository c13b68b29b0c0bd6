-- ===== src/Idx/Chunk.antt =====
-- src/idx/chunk.rs: a chunk of a dataset, its order, and its form as a sequence of words. The rank
-- `D` of the source is the length of `offset`; a `ULE` is the number that `get` gives.
pub mod Codec
pub mod Order
pub mod Sorted
use hidefix.Base.{
  ltb, leb, ◌==◌, if◌then◌else◌, length, take, drop, Result, ◌>>=◌, ◌>>◌, assert, or_panic, ok,
  add64, ℕ, zero, suc, ◌/◌, ◌%◌, compare, Ordering, Bool, Option, none, some, List, [], ◌∷◌, ◌++◌,
}

pub record Chunk : Type 0 where
  -- Address or offset (bytes) in file where chunk starts.
  pub addr : ℕ
  -- Chunk size in bytes (storage size).
  pub size : ℕ
  -- Coordinates of offset in dataspace where the chunk begins.
  pub offset : List ℕ

-- The loop of `contains` over the dimensions.
unfoldable pub contains_loop : (i chunk_shape offset : List ℕ) → Ordering
contains_loop (i ∷ is) (s ∷ ss) (o ∷ os) =
    if ltb i o
    then Ordering.lt
    else if leb (add64 o s) i
    then Ordering.gt
    else contains_loop is ss os
contains_loop _ _ _ = Ordering.eq

-- Is the point described by the indices inside the chunk, before or after.
unfoldable pub contains : Chunk → (i chunk_shape : List ℕ) → Result Ordering
contains c i chunk_shape = do
  assert (length i == length chunk_shape)
  assert (length i == length c.offset)
  ok (contains_loop i chunk_shape c.offset)

-- The loop of `cmp` over the zipped offsets.
unfoldable pub cmp_loop : List ℕ → List ℕ → Ordering
cmp_loop (a ∷ as') (b ∷ bs) = elim (compare a b) [
  | Ordering.gt ↦ Ordering.gt
  | Ordering.lt ↦ Ordering.lt
  | Ordering.eq ↦ cmp_loop as' bs
]
cmp_loop _ _ = Ordering.eq

-- `Ord for Chunk`
unfoldable pub cmp : Chunk → Chunk → Ordering
cmp a b = cmp_loop a.offset b.offset

-- `PartialEq for Chunk`
unfoldable pub eq : Chunk → Chunk → Bool
eq a b = a.addr == b.addr

-- `size_of::<Chunk<D>>() / size_of::<ULE>()`
abbrev pub words : ℕ → ℕ
words d = suc (suc d)

-- `as_u64s`: the fields in the order of `repr(C)`.
unfoldable pub as_u64s : Chunk → List ℕ
as_u64s c = c.addr ∷ c.size ∷ c.offset

-- The chunk that lies at the start of these words.
abbrev pub read : List ℕ → Option Chunk
read (a ∷ s ∷ os) = some (record { addr = a; size = s; offset = os })
read _ = none

-- `from_u64s`
unfoldable pub from_u64s : ℕ → List ℕ → Result Chunk
from_u64s d slice = do assert (length slice == words d); or_panic (read slice)

-- `slice_as_u64s`: the chunks lie behind one another.
unfoldable pub slice_as_u64s : List Chunk → List ℕ
slice_as_u64s [] = []
slice_as_u64s (c ∷ cs) = as_u64s c ++ slice_as_u64s cs

-- `n` chunks of `d` dimensions, read one behind another: `std::slice::from_raw_parts`.
unfoldable pub raw_chunks : (n d : ℕ) → List ℕ → Result (List Chunk)
raw_chunks zero d slice = ok []
raw_chunks (suc n) d slice = do
  c ← or_panic (read (take (words d) slice))
  cs ← raw_chunks n d (drop (words d) slice)
  ok (c ∷ cs)

-- `slice_from_u64s`
unfoldable pub slice_from_u64s : ℕ → List ℕ → Result (List Chunk)
slice_from_u64s d slice = do
  assert ((length slice % words d) == 0)
  raw_chunks (length slice / words d) d slice
