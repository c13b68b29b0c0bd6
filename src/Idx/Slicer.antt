-- ===== src/Idx/Slicer.antt =====
-- src/idx/dataset/dataset.rs: `ChunkSlicer`, the iterator over the pieces of chunks that make up a
-- selection, and `chunk_slices` and `group_chunk_slices` over it. The loops of `next` go over the
-- dimensions from the last to the first; `Dim` is one tuple of their `izip!`.
pub mod Axis
pub mod Rounds
pub mod Carry
pub mod Moves
pub mod Layout
pub mod Turn
pub mod Pieces
pub mod Outward
pub mod Next
pub mod Run
pub mod Whole
pub mod Built
pub mod Collected
pub mod Members
pub mod Grouped
use hidefix.Base.{
  ltb, leb, ◌==◌, if◌then◌else◌, length, get_elem?, replicate, product, Result, ◌>>=◌, ◌>>◌, assert,
  unwrap, or_panic, collect, ok, stuck, add64, sub64, mul64, product64, ℕ, zero, suc, ◌+◌, min,
  Bool, true, false, not, ◌&&◌, ◌||◌, Option, none, some, List, [], ◌∷◌, ◌++◌, map, reverse,
}
use hidefix.Extent.{Extents, get_start_count_sized, start, slice, all, items}
use hidefix.Idx.Chunk.{Chunk}
use hidefix.Idx.Dataset.{Dataset, is_scalar, chunk_at_coord, size}
use hidefix.Idx.Divisor.{Divisor}

pub record ChunkSlicer (Sr : Type 0) : Type 0 where
  pub dataset : Dataset Sr
  -- The current offset in values from start.
  pub offset : ℕ
  -- The coordinates of the current offset in values from the start of the slice.
  pub offset_coords : List ℕ
  -- The slice start indices.
  pub indices : List ℕ
  -- The size of the slice.
  pub counts : List ℕ
  pub counts_reduced : List Sr
  -- The product of all the sizes in `counts`.
  pub end : ℕ

pub record Dim (Sr : Type 0) : Type 0 where
  pub idx : ℕ
  pub offset : ℕ
  pub count : ℕ
  pub count_sru : Sr
  pub chunk_offset : ℕ
  pub chunk_sz : ℕ
  pub chunk_dim_sz : ℕ
  pub dataset_shape : ℕ

-- What one round of the loop leaves behind: the new offset of its dimension, the values to advance
-- in the chunk, the offset of the iterator, the carry, and whether the loop goes on.
pub record Round : Type 0 where
  pub coord : ℕ
  pub advance : ℕ
  pub offset : ℕ
  pub carry : ℕ
  pub continues : Bool

-- What the whole loop leaves behind: the new offsets of the dimensions that it visited, in the order
-- of the visits, and the dimensions that it did not reach.
pub record Walk (Sr : Type 0) : Type 0 where
  pub visited : List ℕ
  pub rest : List (Dim Sr)
  pub advance : ℕ
  pub offset : ℕ
  pub carry : ℕ

-- One piece: the chunk, and the first and the end position in the chunk.
abbrev pub Slice : Type 0
Slice = Chunk × ℕ × ℕ

-- `chunk_start`
unfoldable pub start_loop : ℕ → (coords chunk_offset dim_sz : List ℕ) → ℕ
start_loop start (coord ∷ cs) (offset ∷ os) (sz ∷ zs) =
    start_loop (add64 start (mul64 (sub64 coord offset) sz)) cs os zs
start_loop start _ _ _ = start

unfoldable pub chunk_start : (coords chunk_offset dim_sz : List ℕ) → ℕ
unfolding start_loop
chunk_start coords chunk_offset dim_sz = start_loop 0 coords chunk_offset dim_sz

abbrev pub is_empty : List ℕ → Bool
is_empty [] = true
is_empty (x ∷ xs) = false

-- `*s = i + o` for each dimension.
unfoldable pub add_coords : List ℕ → List ℕ → List ℕ
add_coords (i ∷ is) (o ∷ os) = add64 i o ∷ add_coords is os
add_coords _ _ = []

-- The selection leaves the dataset in some dimension, or is empty in some dimension.
unfoldable pub is_outside : (indices counts shape : List ℕ) → Bool
is_outside (i ∷ is) (c ∷ cs) (s ∷ ss) = ltb s (add64 i c) || (c == 0) || is_outside is cs ss
is_outside _ _ _ = false

module _ {Sr : Type 0} where
  -- The `izip!` of the eight sequences.
  unfoldable pub dims :
      (indices offsets counts : List ℕ)
      → List Sr
      → (chunk_offset chunk_shape chunk_dim_sz shape : List ℕ) → List (Dim Sr)
  dims (i ∷ is) (o ∷ os) (c ∷ cs) (s ∷ ss) (co ∷ cos) (cz ∷ czs) (cd ∷ cds) (z ∷ zs) =
      record {
        idx = i;
        offset = o;
        count = c;
        count_sru = s;
        chunk_offset = co;
        chunk_sz = cz;
        chunk_dim_sz = cd;
        dataset_shape = z;
      }
      ∷ dims is os cs ss cos czs cds zs
  dims _ _ _ _ _ _ _ _ = []

  -- The chunk is cut so that it ends at the end of the dataset.
  unfoldable pub cut : Dim Sr → ℕ
  cut d =
      let chunk_dim_end = add64 d.chunk_offset d.chunk_sz in
      if ltb d.dataset_shape chunk_dim_end
      then sub64 d.chunk_sz (sub64 chunk_dim_end d.dataset_shape)
      else d.chunk_sz

module _ {Sr : Type 0} ⦃r : Divisor Sr⦄ where
  -- The branch for a chunk of size 1: carry only.
  unfoldable pub pass : Dim Sr → (advance offset carry : ℕ) → Round
  pass d advance offset carry =
      let o = add64 d.offset carry in
      record {
        coord = r.rem o d.count_sru;
        advance = advance;
        offset = offset;
        carry = r.div o d.count_sru;
        continues = true;
      }

  -- The branch that advances to the end of the slice or of the chunk.
  unfoldable pub advance_dim : (end : ℕ) → Dim Sr → (chunk_sz advance offset carry : ℕ) → Round
  advance_dim end d chunk_sz advance offset carry =
      let o = add64 d.offset carry in
      let current = r.rem o d.count_sru in
      let count_chunk_end = sub64 (add64 d.chunk_offset chunk_sz) d.idx in
      let o' = min d.count count_chunk_end in
      let diff = mul64 (sub64 o' current) d.chunk_dim_sz in
      let offset' = add64 offset diff in
      record {
        coord = r.rem o' d.count_sru;
        advance = add64 advance diff;
        offset = offset';
        carry = add64 (r.div o d.count_sru) (r.div o' d.count_sru);
        continues = (d.idx == d.chunk_offset) && (d.count == count_chunk_end) && ltb offset' end;
      }

  -- One round of the loop over the dimensions.
  unfoldable pub round : (end : ℕ) → Dim Sr → (advance offset carry : ℕ) → Round
  round end d advance offset carry =
      if (cut d == 1) && not (d.chunk_dim_sz == 1)
      then pass d advance offset carry
      else advance_dim end d (cut d) advance offset carry

  -- The loop over the dimensions, from the last one: `break` leaves the rest.
  unfoldable pub walk : (end : ℕ) → List (Dim Sr) → (advance offset carry : ℕ) → Walk Sr
  walk end [] advance offset carry = record {
    visited = [];
    rest = [];
    advance = advance;
    offset = offset;
    carry = carry;
  }
  walk end (d ∷ ds) advance offset carry =
      let s = round end d advance offset carry in
      let further = walk end ds s.advance s.offset s.carry in
      if s.continues then record further { visited = s.coord ∷ further.visited } else record {
        visited = s.coord ∷ [];
        rest = ds;
        advance = s.advance;
        offset = s.offset;
        carry = s.carry;
      }

  -- The loop for the left-over carry over the dimensions that were not visited.
  unfoldable pub spread : List (Dim Sr) → ℕ → List ℕ
  spread [] carry = []
  spread (d ∷ ds) carry =
      let o = add64 d.offset carry in
      let further = spread ds (r.div o d.count_sru) in
      r.rem o d.count_sru ∷ (if r.div o d.count_sru == 0 then map (λ x. x.offset) ds else further)

  -- `next` on a scalar dataset.
  unfoldable pub next_scalar : ChunkSlicer Sr → Result (Option (Slice × ChunkSlicer Sr))
  next_scalar s = do
    chunk ← or_panic (get_elem? s.dataset.chunks 0)
    ok (some ((chunk, 0, 1), record s { offset = add64 s.offset 1 }))

  -- The dimensions of the loop, from the last one.
  unfoldable pub loop_dims : ChunkSlicer Sr → Chunk → List (Dim Sr)
  loop_dims s chunk = reverse (
      dims s.indices s.offset_coords s.counts s.counts_reduced chunk.offset s.dataset.chunk_shape
        s.dataset.chunk_dim_sz s.dataset.shape)

  -- `next` on a dataset with dimensions: the piece and the state after the two loops.
  unfoldable pub next_slice : ChunkSlicer Sr → Chunk → (start : List ℕ) → Slice × ChunkSlicer Sr
  next_slice s chunk start =
      let from = chunk_start start chunk.offset s.dataset.chunk_dim_sz in
      let w = walk s.end (loop_dims s chunk) 0 s.offset 0 in
      (
        (chunk, from, add64 from w.advance),
        record s {
          offset = w.offset;
          offset_coords = reverse (w.visited ++ spread w.rest w.carry);
        },
      )

  -- `Iterator::next`
  unfoldable pub next : ChunkSlicer Sr → Result (Option (Slice × ChunkSlicer Sr))
  next s =
      if leb s.end s.offset then ok none else if is_scalar s.dataset then next_scalar s else (do
        let start = add_coords s.indices s.offset_coords
        chunk ← chunk_at_coord s.dataset start
        ok (some (next_slice s chunk start)))

  -- `ChunkSlicer::empty`
  unfoldable pub empty : Dataset Sr → Result (ChunkSlicer Sr)
  empty ds = do
    let zeros = replicate {A = ℕ} (length ds.shape) 0
    counts_reduced ← collect (λ _. r.new 1) zeros
    ok (record {
      dataset = ds;
      offset = 0;
      offset_coords = zeros;
      indices = zeros;
      counts = zeros;
      counts_reduced = counts_reduced;
      end = 0;
    })

  -- `ChunkSlicer::new`
  unfoldable pub new : Dataset Sr → (indices counts : List ℕ) → Result (ChunkSlicer Sr)
  new ds indices counts = do
    end ← if is_scalar ds then (do assert (is_empty indices); ok 1) else ok (product64 counts)
    counts_reduced ← collect r.new counts
    ok (record {
      dataset = ds;
      offset = 0;
      offset_coords = replicate (length ds.shape) 0;
      indices = indices;
      counts = counts;
      counts_reduced = counts_reduced;
      end = end;
    })

  -- `Dataset::chunk_slices`
  unfoldable pub chunk_slices : Dataset Sr → Extents → Result (ChunkSlicer Sr)
  chunk_slices ds extents = do
    (indices, counts) ← unwrap (get_start_count_sized (length ds.shape) extents ds.shape)
    if is_outside indices counts ds.shape then empty ds else new ds indices counts

  -- The items that are left, by calls of `next`: `stuck` if there are more than the fuel.
  unfoldable pub collect_slices : ℕ → ChunkSlicer Sr → Result (List Slice)
  collect_slices zero s = stuck
  collect_slices (suc n) s =
      next s >>= elim [ none ↦ ok [] | some (x, s') ↦ collect_slices n s' >>= λ xs. ok (x ∷ xs) ]

  -- The items of `chunk_slices`. Every item has a value, so there are at most `end` of them.
  unfoldable pub slices : Dataset Sr → Extents → Result (List Slice)
  slices ds extents = do s ← chunk_slices ds extents; collect_slices (suc s.end) s

-- The `scan` of `group_chunk_slices`: the offset of each piece in the destination.
unfoldable pub scan_slices : ℕ → List Slice → List (Chunk × ℕ × ℕ × ℕ)
scan_slices offset [] = []
scan_slices offset ((c, start, end) ∷ xs) =
    (c, offset, start, end) ∷ scan_slices (add64 offset (sub64 end start)) xs
