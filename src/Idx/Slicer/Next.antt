-- ===== src/Idx/Slicer/Next.antt =====
-- src/idx/dataset/dataset.rs: one call of `ChunkSlicer::next`.
use native.Mathlib.Nat.{one-mul, le_dest}
use mathlib.Core.List.{reverse-reverse}
use hidefix.Base.{
  leb, gt→leb, sum, All, ok, word, add64-eq-add, map-reverse, sum-reverse, All-reverse, ℕ, ◌+◌, ◌*◌,
  ◌≤◌, ◌<◌, ◌≡◌, refl, sym, ap, ◌∙◌, subst, false, some, List, map, reverse, arith,
}
use hidefix.Idx.Dataset.{Dataset, chunk_at_coord, is_scalar}
use hidefix.Idx.Divisor.{Divisor}
use hidefix.Idx.Chunk.{Chunk}
use hidefix.Idx.Slicer.{
  Dim, next, ChunkSlicer, chunk_start, add_coords, loop_dims, next_slice, Walk, walk,
}
use hidefix.Idx.Slicer.Axis.{Axis, dims_at, digits, bases, position, total, dim_at, AreAxes}
use hidefix.Idx.Slicer.Layout.{Layout, IsAligned}
use hidefix.Idx.Slicer.Pieces.{Turns, walk-Turns}
use hidefix.Idx.Slicer.Moves.{Moves}
use hidefix.Idx.Slicer.Outward.{
  IsInside, at_index, term, dims-columns, add_coords-columns, start_loop-columns, map-dims_at,
  offsets-dims_at, bases-dims_at, dims_at-IsInside, position-dims_at, position-lt,
}

module _ {Sr : Type 0} ⦃r : Divisor Sr⦄ where
  -- The axes are those of the dataset.
  pub record HasAxes (ds : Dataset Sr) (as' : List (Axis Sr)) : Type 0 where
    pub ranked : is_scalar ds ≡ false
    pub shape : ds.shape ≡ reverse (map (λ a. a.shape) as')
    pub chunk_shape : ds.chunk_shape ≡ reverse (map (λ a. a.chunk_sz) as')
    pub chunk_dim_sz : ds.chunk_dim_sz ≡ reverse (map (λ a. a.chunk_dim_sz) as')

  -- The iterator stands before the `n`-th value of the selection of these axes.
  pub record IsAt (ds : Dataset Sr) (as' : List (Axis Sr)) (n : ℕ) (s : ChunkSlicer Sr)
      : Type 0 where
    pub dataset : s.dataset ≡ ds
    pub offset : s.offset ≡ n
    pub coords : s.offset_coords ≡ reverse (digits as' n)
    pub indices : s.indices ≡ reverse (map (λ a. a.idx) as')
    pub counts : s.counts ≡ reverse (map (λ a. a.count) as')
    pub counts_reduced : s.counts_reduced ≡ reverse (map (λ a. a.sru) as')
    pub end : s.end ≡ total as'

  -- The index of the `n`-th value in the dataset.
  abbrev pub index_of : List (Axis Sr) → ℕ → List ℕ
  index_of as' n = map at_index (reverse (dims_at as' n))

  -- The chunk of the `n`-th value.
  pub record IsChunkOf (ds : Dataset Sr) (as' : List (Axis Sr)) (n : ℕ) (c : Chunk) : Type 0 where
    pub found : chunk_at_coord ds (index_of as' n) ≡ ok c
    pub offset : c.offset ≡ reverse (bases as' n)

  pub column :
      {B : Type 0} (f : Axis Sr → B) (g : Dim Sr → B)
      → ((a : Axis Sr) (n : ℕ) → g (dim_at a n) ≡ f a)
      → (as' : List (Axis Sr)) (n : ℕ) → reverse (map f as') ≡ map g (reverse (dims_at as' n))
  column f g e as' n =
      ap reverse (sym (map-dims_at f g e as' n)) ∙ sym (map-reverse g (dims_at as' n))

  module _ (ds : Dataset Sr) (as' : List (Axis Sr)) (d : HasAxes ds as') (h : AreAxes 1 as') (n : ℕ)
      (s : ChunkSlicer Sr) (p : IsAt ds as' n s) (c : Chunk) (k : IsChunkOf ds as' n c) where
    indices-eq : s.indices ≡ map (λ (x : Dim Sr). x.idx) (reverse (dims_at as' n))
    indices-eq = p.indices ∙ column (λ a. a.idx) (λ x. x.idx) (λ a m. refl) as' n

    coords-eq : s.offset_coords ≡ map (λ (x : Dim Sr). x.offset) (reverse (dims_at as' n))
    coords-eq =
        p.coords ∙ ap reverse (sym (offsets-dims_at as' n)) ∙ sym (map-reverse _ (dims_at as' n))

    offsets-eq : c.offset ≡ map (λ (x : Dim Sr). x.chunk_offset) (reverse (dims_at as' n))
    offsets-eq =
        k.offset ∙ ap reverse (sym (bases-dims_at as' n)) ∙ sym (map-reverse _ (dims_at as' n))

    dim_sz-eq : ds.chunk_dim_sz ≡ map (λ (x : Dim Sr). x.chunk_dim_sz) (reverse (dims_at as' n))
    dim_sz-eq =
        d.chunk_dim_sz ∙ column (λ a. a.chunk_dim_sz) (λ x. x.chunk_dim_sz) (λ a m. refl) as' n

    inside : All IsInside (reverse (dims_at as' n))
    inside = All-reverse IsInside (dims_at as' n) (dims_at-IsInside 1 as' h n)

    -- The dimensions of the loop.
    loop_dims-eq : loop_dims s c ≡ dims_at as' n
    unfolding loop_dims
    loop_dims-eq =
        rw
          (
            p.dataset,
            indices-eq,
            coords-eq,
            p.counts,
            p.counts_reduced,
            offsets-eq,
            dim_sz-eq,
            d.chunk_shape,
            d.shape,
            column (λ a. a.count) (λ x. x.count) (λ a m. refl) as' n,
            column (λ a. a.sru) (λ x. x.count_sru) (λ a m. refl) as' n,
            column (λ a. a.chunk_sz) (λ x. x.chunk_sz) (λ a m. refl) as' n,
            column (λ a. a.shape) (λ x. x.dataset_shape) (λ a m. refl) as' n,
          )
          (ap reverse (dims-columns (reverse (dims_at as' n))) ∙ reverse-reverse (dims_at as' n))

    -- The index of the next value.
    start-eq : add_coords s.indices s.offset_coords ≡ index_of as' n
    start-eq = rw (indices-eq, coords-eq) (add_coords-columns (reverse (dims_at as' n)) inside)

    -- Its position in the chunk.
    from-eq :
        chunk_start (add_coords s.indices s.offset_coords) c.offset s.dataset.chunk_dim_sz
        ≡ position 1 as' n
    unfolding chunk_start
    from-eq =
        let e : sum (map term (reverse (dims_at as' n))) ≡ position 1 as' n =
          ap sum (map-reverse term (dims_at as' n))
          ∙ sum-reverse (map term (dims_at as' n))
          ∙ position-dims_at 1 as' h n in
        rw (start-eq, offsets-eq, p.dataset, dim_sz-eq)
          (start_loop-columns 0 (reverse (dims_at as' n)) inside
              (omega (arith, e, position-lt 1 as' h n))
            ∙ omega (arith, e))

    next-eq :
        n < total as' → next s ≡ ok (some (next_slice s c (add_coords s.indices s.offset_coords)))
    unfolding next
    next-eq lt =
        let more : leb s.end s.offset ≡ false = rw (p.end, p.offset) (gt→leb (total as') n lt) in
        let ranked : is_scalar s.dataset ≡ false = rw p.dataset d.ranked in
        let found : chunk_at_coord s.dataset (add_coords s.indices s.offset_coords) ≡ ok c =
          rw (p.dataset, start-eq) k.found in
        rw (more, ranked, found) refl

  -- What a call of `next` before the `n`-th value does on these axes: it gives a piece of the chunk `c`,
  -- with `m` values, that follow each other both in the selection and in the chunk, and leaves the
  -- iterator before the value behind them.
  pub record Gives (ds : Dataset Sr) (as' : List (Axis Sr)) (l : Layout 0 as') (n : ℕ)
      (s : ChunkSlicer Sr) (c : Chunk) (m : ℕ) (s' : ChunkSlicer Sr) : Type 0 where
    pub given : next s ≡ ok (some ((c, position 1 as' n, position 1 as' n + m), s'))
    pub is_at : IsAt ds as' (n + m) s'
    pub aligned : IsAligned 0 as' l (n + m)
    pub some_values : 0 < m
    pub within : n + m ≤ total as'
    pub same : (t : ℕ) → t < m → bases as' (n + t) ≡ bases as' n
    pub run : (t : ℕ) → t < m → position 1 as' (n + t) ≡ position 1 as' n + t

  Turns-here :
      (ds : Dataset Sr) (as' : List (Axis Sr)) (d : HasAxes ds as') (h : AreAxes 1 as')
      (l : Layout 0 as') (small : total as' < word) (n : ℕ) (s : ChunkSlicer Sr)
      (p : IsAt ds as' n s) (al : IsAligned 0 as' l n) (c : Chunk) (k : IsChunkOf ds as' n c)
      → n < total as'
      → Turns 1 0 as' l n (walk s.end (loop_dims s c) 0 s.offset 0)
  Turns-here ds as' d h l small n s p al c k lt =
      let begin : 1 * (n + 0) ≡ n = omega arith in
      let e =
        walk-Turns (total as') 1 0 as' h l n (omega arith) (λ z. refl) (omega arith) al
          (omega arith) (omega arith) small in
      rw (loop_dims-eq ds as' d h n s p c k, p.end, p.offset)
        (subst (λ x. Turns 1 0 as' l n (walk (total as') (dims_at as' n) 0 x 0)) begin e)

  -- The end of a piece, which `u64` holds.
  last-lt :
      (as' : List (Axis Sr)) (h : AreAxes 1 as') (n m : ℕ) (w : Walk Sr)
      → Moves 1 as' n m w
      → position 1 as' n + m < word
  last-lt as' h n m w q =
      let (j, sum') = le_dest q.m_pos in
      omega (arith, q.run j (omega arith), position-lt 1 as' h (n + j))

  -- On a selection of the forms of `Layout`, of fewer than 2^64 values, a call of `next` before the `n`-th
  -- value, aligned, gives a piece of the chunk that `chunk_at_coord` finds for that value, of at least one
  -- value, that follow each other in the selection and in the chunk; it leaves the iterator before the
  -- value behind them, aligned again.
  pub next-Gives :
      (ds : Dataset Sr) (as' : List (Axis Sr)) (d : HasAxes ds as') (h : AreAxes 1 as')
      (l : Layout 0 as') (small : total as' < word) (n : ℕ) (s : ChunkSlicer Sr)
      (p : IsAt ds as' n s) (al : IsAligned 0 as' l n) (c : Chunk) (k : IsChunkOf ds as' n c)
      → n < total as'
      → (m : ℕ) × (s' : ChunkSlicer Sr) × Gives ds as' l n s c m s'
  unfolding next_slice
  next-Gives ds as' d h l small n s p al c k lt =
      let w : Walk Sr = walk s.end (loop_dims s c) 0 s.offset 0 in
      let turned : Turns 1 0 as' l n w = Turns-here ds as' d h l small n s p al c k lt in
      let (m, q, al') = turned in
      let last : position 1 as' n + m < word = last-lt as' h n m w q in
      let from = from-eq ds as' d h n s p c k in
      (
        m,
        (next_slice s c (add_coords s.indices s.offset_coords)).1,
        record {
          given =
              next-eq ds as' d h n s p c k lt
              ∙ ap
                  (λ (y : ℕ × ℕ). ok (
                    some
                      ((c, y.0, y.1), (next_slice s c (add_coords s.indices s.offset_coords)).1)))
                  (rw (from, q.advance, one-mul m, add64-eq-add (position 1 as' n) m last) refl);
          is_at = record {
            dataset = p.dataset;
            offset = q.offset ∙ one-mul (n + m);
            coords = ap reverse q.coords;
            indices = p.indices;
            counts = p.counts;
            counts_reduced = p.counts_reduced;
            end = p.end;
          };
          aligned = al';
          some_values = q.m_pos;
          within = q.within;
          same = q.same;
          run = λ t lt'. q.run t lt' ∙ ap (λ x. position 1 as' n + x) (one-mul t);
        },
      )
