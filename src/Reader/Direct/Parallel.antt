-- ===== src/Reader/Direct/Parallel.antt =====
-- src/reader/direct.rs: `read_to_par`. Each group of segments of one chunk is a task. The tasks share the
-- destination, and any task may take the next step, on any file that its thread has opened.
pub mod Safe
pub mod Runs
pub mod Fills
use hidefix.Base.{
  leb, ◌==◌, if◌then◌else◌, length, take, replicate, All, Error, Result, ◌>>=◌, ◌>>◌, ensure,
  assert, insufficient_capacity, ok, panic, stuck, add64, sub64, mul64, sub_slice, ℕ, suc, ◌+◌, ◌≡◌,
  Bool, not, List, [], ◌∷◌, map,
}
use hidefix.Extent.{Extents, get_counts}
use hidefix.Idx.Chunk.{Chunk}
use hidefix.Idx.Dataset.{Dataset}
use hidefix.Idx.Divisor.{Divisor, number}
use hidefix.Idx.Slicer.Grouped.{Segment, Sort, group_chunk_slices}
use hidefix.Reader.Services.{ReadSeek, Decompressor}
use hidefix.Reader.Sizes.{value_bytes}
use hidefix.Reader.Gather.{Storage, decoded}
use hidefix.Reader.Chunk.{read_chunk_to, decode_chunk}
use hidefix.Reader.Direct.{Direct, write_at}

-- `chunk_by` of the standard library, by the address: runs of segments of one address.
unfoldable pub attach : Segment → List (List Segment) → List (List Segment)
attach x [] = (x ∷ []) ∷ []
attach x ([] ∷ gs) = (x ∷ []) ∷ gs
attach x ((y ∷ ys) ∷ gs) =
    if x.0.addr == y.0.addr then (x ∷ y ∷ ys) ∷ gs else (x ∷ []) ∷ (y ∷ ys) ∷ gs

unfoldable pub chunk_by : List Segment → List (List Segment)
chunk_by [] = []
chunk_by (x ∷ xs) = attach x (chunk_by xs)

-- A task waits for its turn, or copies the segments that are left out of the decoded chunk.
pub data Task : Type 0 where
  waits : List Segment → Task
  copies : (chunk : List ℕ) → List Segment → Task

-- The body of the loop over the segments. The copy is not checked: beyond the destination its
-- behaviour is undefined, which is `stuck` here.
unfoldable pub copy_unchecked : (dst chunk : List ℕ) (current start end : ℕ) → Result (List ℕ)
copy_unchecked dst chunk current start end = do
  assert (leb current (length dst))
  piece ← sub_slice chunk start end
  let inside = leb (add64 current (sub64 end start)) (length dst)
  if inside then ok (write_at current piece dst) else stuck

module _ {F : Type 0} ⦃file : ReadSeek F⦄ (de : Decompressor) (chunk_sz dsz : ℕ)
    (gzipped shuffled : Bool) where
  -- A task reads and decodes the chunk of its first segment.
  unfoldable pub begin_task : F → List Segment → Result Task
  begin_task fd [] = panic
  begin_task fd (x ∷ xs) = do
    (chunk, fd') ← read_chunk_to fd x.0.addr (replicate x.0.size 0)
    chunk' ← decode_chunk de chunk chunk_sz dsz gzipped shuffled
    ok (copies chunk' (x ∷ xs))

-- The copy of a segment.
unfoldable pub copy_segment :
    (dsz : ℕ) (chunk : List ℕ) → Segment → (dst : List ℕ) → Result (List ℕ)
copy_segment dsz chunk (c, current, start, end) dst =
    copy_unchecked dst chunk (mul64 current dsz) (mul64 start dsz) (mul64 end dsz)

module _ {F : Type 0} ⦃file : ReadSeek F⦄ (de : Decompressor) (st : Storage)
    (IsOpen : F → Type 0) where
  -- One step of one task.
  pub data Step : List Task → List ℕ → List Task → List ℕ → Type 0 where
    begins :
        (fd : F) (g : List Segment) (t : Task) (ts : List Task) (dst : List ℕ)
        → IsOpen fd
        → begin_task de st.chunk_sz st.dsz st.gzipped st.shuffled fd g ≡ ok t
        → Step (waits g ∷ ts) dst (t ∷ ts) dst
    copied :
        (chunk : List ℕ) (x : Segment) (xs : List Segment) (ts : List Task) (dst dst' : List ℕ)
        → copy_segment st.dsz chunk x dst ≡ ok dst'
        → Step (copies chunk (x ∷ xs) ∷ ts) dst (copies chunk xs ∷ ts) dst'
    later :
        (t : Task) (ts ts' : List Task) (dst dst' : List ℕ)
        → Step ts dst ts' dst'
        → Step (t ∷ ts) dst (t ∷ ts') dst'

  -- So many steps.
  pub data Steps : ℕ → List Task → List ℕ → List Task → List ℕ → Type 0 where
    no_step : (ts : List Task) (dst : List ℕ) → Steps 0 ts dst ts dst
    then_step :
        (n : ℕ) (ts ts' ts'' : List Task) (dst dst' dst'' : List ℕ)
        → Step ts dst ts' dst'
        → Steps n ts' dst' ts'' dst''
        → Steps (suc n) ts dst ts'' dst''

-- The tasks of `read_to_par` before the first step, and the number of bytes.
unfoldable pub read_to_par :
    {Sr P : Type 0} ⦃r : Divisor Sr⦄
    → Sort
    → Direct Sr P
    → Extents
    → (dst : List ℕ) → Result (ℕ × List Task)
read_to_par sort s extents dst = do
  counts ← get_counts extents s.ds.shape
  ensure (leb (value_bytes counts s.ds.dsize) (length dst)) Error.insufficient_capacity
  groups ← group_chunk_slices sort s.ds extents
  ok (value_bytes counts s.ds.dsize, map waits (chunk_by groups))

-- All tasks are through.
abbrev pub IsDone : Task → Type 0
IsDone (waits g) = ⊥
IsDone (copies chunk xs) = xs ≡ []

-- The steps that are left.
unfoldable pub steps_left : List Task → ℕ
steps_left [] = 0
steps_left (waits g ∷ ts) = suc (length g) + steps_left ts
steps_left (copies chunk xs ∷ ts) = length xs + steps_left ts
