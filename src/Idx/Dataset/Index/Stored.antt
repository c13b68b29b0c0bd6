-- ===== src/Idx/Dataset/Index/Stored.antt =====
-- src/idx/dataset/dataset.rs: `Dataset::index` on the two layouts, up to `Dataset::new`.
use native.Mathlib.Nat.{zero-mul, mod-eq_of_lt, mod_self, div_self}
use mathlib.Core.List.{Permᴰ}
use mathlib.Core.List.Permᴰ as Permutation
use hidefix.Base.{
  ==_refl, length, length-map, length-replicate, replicate, ◌||◌, ◌≢◌, All-Permᴰ, product, All,
  collect, ok, word, product64-eq-mod, zip, ℕ, ◌*◌, ◌<◌, ◌≡◌, refl, sym, ap, ◌∙◌, subst, Bool, true,
  false, Option, none, some, List, [], ◌∷◌, map,
}
use hidefix.Idx.Chunk.{Chunk, cmp}
use hidefix.Idx.Chunk.Codec.{HasRank}
use hidefix.Idx.Chunk.Sorted.{SliceSort, sort-offsets}
use hidefix.Idx.Dataset.{Dataset, div_ceil}
use hidefix.Idx.Dataset as Datasets
use hidefix.Idx.Dataset.Build.{div_ceil-eq-blocks}
use hidefix.Idx.Dataset.Grid.{blocks, grid, length-rows}
use hidefix.Idx.Dataset.Ordered.{grid-IsSortedBy, grid-rank}
use hidefix.Idx.Dataset.Index.{
  order_from, datatype_from, filters_loop, array, chunk_from, chunk_shape_or, contiguous, chunked,
  layout_chunks, expected_chunks, index,
}
use hidefix.Idx.Divisor.{Divisor}
use hidefix.Idx.Hdf5.{Filter, shuffle, deflate, other_filter, ChunkInfo, Hdf5}

-- The numbers of chunks along the dimensions.
abbrev pub block_counts : (shape chunk_shape : List ℕ) → List ℕ
block_counts (s ∷ ss) (c ∷ cs) = blocks s c ∷ block_counts ss cs
block_counts _ _ = []

length-grid_of :
    (shape chunk_shape : List ℕ)
    → length (grid shape chunk_shape) ≡ product (block_counts shape chunk_shape)
length-grid_of [] cs = refl
length-grid_of (s ∷ ss) [] = refl
length-grid_of (s ∷ ss) (c ∷ cs) =
    length-rows c (grid ss cs) (blocks s c) 0 ∙ ap (λ n. blocks s c * n) (length-grid_of ss cs)

collect-block_counts :
    (shape chunk_shape : List ℕ)
    → All (λ c. 0 < c) chunk_shape
    → collect (λ (p : ℕ × ℕ). div_ceil p.0 p.1) (zip shape chunk_shape)
      ≡ ok (block_counts shape chunk_shape)
unfolding zip
collect-block_counts [] [] p = refl
collect-block_counts [] (c ∷ cs) p = refl
collect-block_counts (s ∷ ss) [] p = refl
collect-block_counts (s ∷ ss) (c ∷ cs) p =
    rw (div_ceil-eq-blocks s c p.0, collect-block_counts ss cs p.1) refl

expected_chunks-grid :
    (shape chunk_shape : List ℕ)
    → All (λ c. 0 < c) chunk_shape
    → length (grid shape chunk_shape) < word
    → expected_chunks shape chunk_shape ≡ ok (length (grid shape chunk_shape))
unfolding expected_chunks
expected_chunks-grid shape chunk_shape p few =
    let many = length-grid_of shape chunk_shape in
    rw
      (
        collect-block_counts shape chunk_shape p,
        product64-eq-mod (block_counts shape chunk_shape),
        ← many,
        mod-eq_of_lt few,
      )
      refl

array-ok : {A : Type 0} (d : ℕ) (xs : List A) → length xs ≡ d → array d xs ≡ ok xs
unfolding array
array-ok d xs e = rw (e, ==_refl d) refl

-- The chunk that is told of.
abbrev pub told : ChunkInfo → Chunk
told ci = record { offset = ci.offset; size = ci.size; addr = ci.addr }

collect-told :
    (d : ℕ) (cis : List ChunkInfo)
    → All (λ ci. length ci.offset ≡ d) cis
    → collect (chunk_from d) cis ≡ ok (map told cis)
unfolding chunk_from
collect-told d [] p = refl
collect-told d (ci ∷ cis) p = rw (p.0, ==_refl d, collect-told d cis p.1) refl

told-rank :
    (d : ℕ) (cis : List ChunkInfo)
    → All (λ ci. length ci.offset ≡ d) cis
    → All (HasRank d) (map told cis)
told-rank d [] p = tt
told-rank d (ci ∷ cis) p = (p.0, told-rank d cis p.1)

offsets-length :
    (d : ℕ) (cis : List ChunkInfo)
    → All (λ (o : List ℕ). length o ≡ d) (map (λ ci. ci.offset) cis)
    → All (λ ci. length ci.offset ≡ d) cis
offsets-length d [] p = tt
offsets-length d (ci ∷ cis) p = (p.0, offsets-length d cis p.1)

told-offsets :
    (cis : List ChunkInfo)
    → map (λ (c : Chunk). c.offset) (map told cis) ≡ map (λ ci. ci.offset) cis
told-offsets [] = refl
told-offsets (ci ∷ cis) = ap (◌∷◌ ci.offset) (told-offsets cis)

-- One block holds a dimension that is not empty.
blocks_self : (s : ℕ) → 0 < s → blocks s s ≡ 1
blocks_self s h = rw (mod_self s, div_self h) refl

grid_self :
    (shape : List ℕ) → All (λ s. 0 < s) shape → grid shape shape ≡ replicate (length shape) 0 ∷ []
grid_self [] p = refl
grid_self (s ∷ ss) p = rw (blocks_self s p.0, grid_self ss p.1, zero-mul s) refl

-- What the filters say: whether the values are shuffled, and the level of the last compression.
abbrev pub has_shuffle : List Filter → Bool
has_shuffle [] = false
has_shuffle (shuffle ∷ fs) = true
has_shuffle (_ ∷ fs) = has_shuffle fs

abbrev pub last_deflate : Option ℕ → List Filter → Option ℕ
last_deflate z [] = z
last_deflate z (deflate z' ∷ fs) = last_deflate (some z') fs
last_deflate z (_ ∷ fs) = last_deflate z fs

abbrev pub IsSupported : Filter → Type 0
IsSupported f = f ≢ other_filter

filters_loop-supported :
    (b : Bool) (z : Option ℕ) (fs : List Filter)
    → All IsSupported fs
    → filters_loop b z fs ≡ ok (b || has_shuffle fs, last_deflate z fs)
unfolding filters_loop
filters_loop-supported true z [] p = refl
filters_loop-supported false z [] p = refl
filters_loop-supported true z (shuffle ∷ fs) p = filters_loop-supported true z fs p.1
filters_loop-supported false z (shuffle ∷ fs) p = filters_loop-supported true z fs p.1
filters_loop-supported b z (deflate z' ∷ fs) p = filters_loop-supported b (some z') fs p.1
filters_loop-supported b z (other_filter ∷ fs) p = absurd (p.0 refl)

module _ {D T : Type 0} (h : Hdf5 D T) (ds : D) where
  -- How the file stores a dataset of these shapes: in one piece, or in chunks, of which it tells in any
  -- order.
  pub data IsStored (shape chunk_shape : List ℕ) : List Chunk → Type 0 where
    in_one_piece :
        (offset : ℕ)
        → h.is_chunked ds ≡ false
        → h.offset ds ≡ some offset
        → h.chunk ds ≡ none
        → chunk_shape ≡ shape
        → IsStored shape chunk_shape (contiguous h (length shape) ds offset)
    in_chunks :
        (n : ℕ) (cis : List ChunkInfo)
        → h.is_chunked ds ≡ true
        → h.offset ds ≡ none
        → h.chunk ds ≡ some chunk_shape
        → length chunk_shape ≡ length shape
        → h.num_chunks ds ≡ some n
        → h.chunks_visit ds ≡ (cis, ok tt)
        → Permᴰ (map (λ ci. ci.offset) cis) (grid shape chunk_shape)
        → IsStored shape chunk_shape (map told cis)

  -- What is known of the chunks that the file tells of.
  record AreTold (shape chunk_shape : List ℕ) (chunks : List Chunk) : Type 0 where
    shaped : chunk_shape_or (length shape) shape (h.chunk ds) ≡ ok chunk_shape
    listed : layout_chunks h (length shape) ds (h.is_chunked ds) (h.offset ds) ≡ ok chunks
    ranked : All (HasRank (length shape)) chunks
    placed : Permᴰ (map (λ c. c.offset) chunks) (grid shape chunk_shape)

  stored-AreTold :
      (shape chunk_shape : List ℕ) (chunks : List Chunk)
      → All (λ c. 0 < c) chunk_shape
      → IsStored shape chunk_shape chunks
      → AreTold shape chunk_shape chunks
  unfolding chunk_shape_or layout_chunks contiguous chunked
  stored-AreTold shape chunk_shape chunks p (in_one_piece offset plain at_offset whole same) =
      record {
        shaped = rw (whole, same) refl;
        listed = rw (plain, at_offset) refl;
        ranked = (length-replicate (length shape) 0, tt);
        placed =
            subst (λ os. Permᴰ (replicate (length shape) 0 ∷ []) os)
              (sym (grid_self shape (subst (All (λ c. 0 < c)) same p)) ∙ ap (grid shape) (sym same))
              (Permutation.refl (replicate (length shape) 0 ∷ []));
      }
  stored-AreTold shape chunk_shape chunks p
        (in_chunks n cis parts no_offset given rank many visited perm) =
      let ranks : All (λ ci. length ci.offset ≡ length shape) cis =
        offsets-length (length shape) cis (
          All-Permᴰ (λ (o : List ℕ). length o ≡ length shape) (Permutation.symm perm)
            (grid-rank shape chunk_shape (sym rank))) in
      record {
        shaped = rw (given, rank, ==_refl (length shape)) refl;
        listed = rw (parts, no_offset, many, visited, collect-told (length shape) cis ranks) refl;
        ranked = told-rank (length shape) cis ranks;
        placed = rw (told-offsets cis) perm;
      }

module _ {Sr D T : Type 0} ⦃r : Divisor Sr⦄ (h : Hdf5 D T) (sort : SliceSort) where
  -- A dataset of the HDF5 library, of a type, with supported filters, and stored in one piece or in chunks
  -- that are not empty and together are the chunks of its shape, fewer than 2^64, of which the library tells
  -- in any order: `Dataset::index` is `Dataset::new` on its type, its shapes, what its filters say, and its
  -- chunks in row-major order.
  pub index-new :
      (ds : D) (shape chunk_shape : List ℕ) (chunks : List Chunk) (t : T)
      → h.ndim ds ≡ length shape
      → All IsSupported (h.filters ds)
      → h.dtype ds ≡ ok t
      → h.shape ds ≡ shape
      → All (λ c. 0 < c) chunk_shape
      → IsStored h ds shape chunk_shape chunks
      → length (grid shape chunk_shape) < word
      → (sorted : List Chunk) × (index {Sr = Sr} h sort (length shape) ds
          ≡ Datasets.new
              (datatype_from h t)
              (order_from (h.byte_order t))
              shape
              sorted
              chunk_shape
              (has_shuffle (h.filters ds))
              (last_deflate none (h.filters ds)))
        × (map (λ c. c.offset) sorted ≡ grid shape chunk_shape)
        × Permᴰ chunks sorted
  unfolding index
  index-new ds shape chunk_shape chunks t rank supported typed shaped p stored few =
      let k = stored-AreTold h ds shape chunk_shape chunks p stored in
      let ordered =
        sort-offsets sort (length shape) chunks (grid shape chunk_shape) k.ranked
          (grid-IsSortedBy shape chunk_shape p) k.placed in
      let many : length (sort.sort cmp chunks) ≡ length (grid shape chunk_shape) =
        sym (length-map (λ (c : Chunk). c.offset) (sort.sort cmp chunks)) ∙ ap length ordered in
      (
        sort.sort cmp chunks,
        rw
            (
              rank,
              ==_refl (length shape),
              filters_loop-supported false none (h.filters ds) supported,
              typed,
              shaped,
              array-ok (length shape) shape refl,
              k.shaped,
              k.listed,
              expected_chunks-grid shape chunk_shape p few,
              many,
              ==_refl (length (grid shape chunk_shape)),
            )
            refl,
        ordered,
        sort.permutes cmp chunks,
      )
