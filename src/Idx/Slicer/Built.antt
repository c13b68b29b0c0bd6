-- ===== src/Idx/Slicer/Built.antt =====
-- src/idx/dataset/dataset.rs: from `Dataset::new` to the pieces of `chunk_slices`.
use native.Mathlib.Nat.{mod-lt}
use mathlib.Core.List.{reverse-reverse, reverse-cons}
use hidefix.Base.{
  length, length-map, product, All, ok, word, mul64-eq-mul, map-reverse, All-reverse, ℕ, ◌+◌, ◌*◌,
  ◌/◌, ◌%◌, ◌<◌, ◌≡◌, refl, sym, ap, ap₂, ◌∙◌, Bool, false, Option, List, [], ◌∷◌, ◌++◌, map,
  reverse, arith,
}
use hidefix.Idx.Chunk.{Chunk}
use hidefix.Idx.Dataset
use hidefix.Idx.Dataset.{Dataset, scan_products, dim_sizes, size, is_scalar}
use hidefix.Idx.Dataset.Grid.{
  Cell, IsCell, tails, blocks_of, base_of, HasGrid, chunk_at_coord-grid, grid, length-grid,
  blocks-pos, All-InCell,
}
use hidefix.Idx.Dataset.Build.{built, IsPrepared, new-built}
use hidefix.Idx.Datatype.{Datatype}
use hidefix.Idx.Divisor.{Divisor}
use hidefix.Filters.Byteorder.{Order}
use hidefix.Extent.{Extents, get_start_count}
use hidefix.Idx.Slicer.{Dim, Slice, slices}
use hidefix.Idx.Slicer.Axis.{Axis, dim_at, dims_at, AreAxes, sz-lt, total}
use hidefix.Idx.Slicer.Layout.{Layout}
use hidefix.Idx.Slicer.Outward.{volume, at_index, bases-dims_at}
use hidefix.Idx.Slicer.Next.{HasAxes, column, IsChunkOf}
use hidefix.Idx.Slicer.Run.{Within, expand, wanted}
use hidefix.Idx.Slicer.Whole.{slices-expand, IsMade}

module _ {Sr : Type 0} ⦃r : Divisor Sr⦄ where
  -- The index of the `n`-th value along one axis, and along all of them.
  abbrev cell_at : (a : Axis Sr) → 0 < a.chunk_sz → ℕ → Cell Sr
  cell_at a p n = record {
    at_index = a.idx + n % a.count;
    size = a.shape;
    chunk_sz = a.chunk_sz;
    sru = (r.new-pos a.chunk_sz p).0;
  }

  abbrev cells_at : (sz : ℕ) (as' : List (Axis Sr)) → AreAxes sz as' → ℕ → List (Cell Sr)
  cells_at sz [] h n = []
  cells_at sz (a ∷ as') h n =
      cell_at a h.1.chunk_pos n ∷ cells_at (sz * a.chunk_sz) as' h.2 (n / a.count)

  cells-IsCell :
      (sz : ℕ) (as' : List (Axis Sr)) (h : AreAxes sz as') (n : ℕ)
      → All IsCell (cells_at sz as' h n)
  cells-IsCell sz [] h n = tt
  cells-IsCell sz (a ∷ as') h n =
      let v = h.1 in
      (
        (
          (omega (arith, mod-lt n v.count_pos, v.inside), v.chunk_pos),
          (r.new-pos a.chunk_sz v.chunk_pos).2,
        ),
        cells-IsCell (sz * a.chunk_sz) as' h.2 (n / a.count),
      )

  cells-IsPrepared :
      (sz : ℕ) (as' : List (Axis Sr)) (h : AreAxes sz as') (n : ℕ)
      → All IsPrepared (cells_at sz as' h n)
  cells-IsPrepared sz [] h n = tt
  cells-IsPrepared sz (a ∷ as') h n = (
    (h.1.chunk_pos, (r.new-pos a.chunk_sz h.1.chunk_pos).1),
    cells-IsPrepared (sz * a.chunk_sz) as' h.2 (n / a.count),
  )

  cells-column :
      {B : Type 0} (g : Cell Sr → B) (k : Dim Sr → B)
      → ((a : Axis Sr) (p : 0 < a.chunk_sz) (n : ℕ) → g (cell_at a p n) ≡ k (dim_at a n))
      → (sz : ℕ) (as' : List (Axis Sr)) (h : AreAxes sz as') (n : ℕ)
      → map g (reverse (cells_at sz as' h n)) ≡ map k (reverse (dims_at as' n))
  cells-column g k e sz as' h n =
      map-reverse g (cells_at sz as' h n)
      ∙ ap reverse (go sz as' h n)
      ∙ sym (map-reverse k (dims_at as' n))
    where
      go :
          (sz : ℕ) (as' : List (Axis Sr)) (h : AreAxes sz as') (n : ℕ)
          → map g (cells_at sz as' h n) ≡ map k (dims_at as' n)
      go sz [] h n = refl
      go sz (a ∷ as') h n =
          ap₂ ◌∷◌ (e a h.1.chunk_pos n) (go (sz * a.chunk_sz) as' h.2 (n / a.count))

  cells-same :
      {B : Type 0} (g : Cell Sr → B)
      → ((a : Axis Sr) (p : 0 < a.chunk_sz) (n m : ℕ) → g (cell_at a p n) ≡ g (cell_at a p m))
      → (sz : ℕ) (as' : List (Axis Sr)) (h : AreAxes sz as') (n m : ℕ)
      → map g (reverse (cells_at sz as' h n)) ≡ map g (reverse (cells_at sz as' h m))
  cells-same g e sz as' h n m =
      map-reverse g (cells_at sz as' h n)
      ∙ ap reverse (go sz as' h n m)
      ∙ sym (map-reverse g (cells_at sz as' h m))
    where
      go :
          (sz : ℕ) (as' : List (Axis Sr)) (h : AreAxes sz as') (n m : ℕ)
          → map g (cells_at sz as' h n) ≡ map g (cells_at sz as' h m)
      go sz [] h n m = refl
      go sz (a ∷ as') h n m =
          ap₂ ◌∷◌ (e a h.1.chunk_pos n m) (go (sz * a.chunk_sz) as' h.2 (n / a.count) (m / a.count))

  scan-axes :
      (sz : ℕ) (as' : List (Axis Sr))
      → AreAxes sz as'
      → scan_products sz (map (λ a. a.chunk_sz) as') ≡ map (λ a. a.chunk_dim_sz) as'
  unfolding scan_products
  scan-axes sz [] h = refl
  scan-axes sz (a ∷ as') h =
      rw (h.0, mul64-eq-mul sz a.chunk_sz (sz-lt (sz * a.chunk_sz) as' h.2))
        (ap (◌∷◌ sz) (scan-axes (sz * a.chunk_sz) as' h.2))

  dim_sizes-axes :
      (as' : List (Axis Sr))
      → AreAxes 1 as'
      → dim_sizes (reverse (map (λ a. a.chunk_sz) as')) ≡ reverse (map (λ a. a.chunk_dim_sz) as')
  unfolding dim_sizes
  dim_sizes-axes as' h =
      rw (reverse-reverse (map (λ (a : Axis Sr). a.chunk_sz) as')) (ap reverse (scan-axes 1 as' h))

  ranked-of_append :
      (ds : Dataset Sr) (ys : List ℕ) (x : ℕ) → ds.shape ≡ ys ++ (x ∷ []) → is_scalar ds ≡ false
  unfolding is_scalar
  ranked-of_append ds [] x e = rw e refl
  ranked-of_append ds (y ∷ ys) x e = rw e refl

  ranked-of_axes :
      (ds : Dataset Sr) (as' : List (Axis Sr))
      → Layout 0 as'
      → ds.shape ≡ reverse (map (λ a. a.shape) as')
      → is_scalar ds ≡ false
  ranked-of_axes ds [] l e = elim l [ ]
  ranked-of_axes ds (a ∷ as') l e =
      ranked-of_append ds (reverse (map (λ a. a.shape) as')) a.shape
        (e ∙ reverse-cons a.shape (map (λ a. a.shape) as'))

  -- The pieces of a selection on a dataset of these axes.
  pub record Selects (as' : List (Axis Sr)) (ds : Dataset Sr) (e : Extents) (xs : List Slice)
      : Type 0 where
    pub shape : ds.shape ≡ reverse (map (λ a. a.shape) as')
    pub chunk_shape : ds.chunk_shape ≡ reverse (map (λ a. a.chunk_sz) as')
    pub chosen :
        get_start_count e ds.shape
        ≡ ok (reverse (map (λ a. a.idx) as'), reverse (map (λ a. a.count) as'))
    pub pieces : slices ds e ≡ ok xs
    pub places : expand xs ≡ wanted as' 0 (total as')
    pub inside : All (Within (volume 1 as')) xs

  module _ (as' : List (Axis Sr)) (h : AreAxes 1 as') (dtype : Datatype) (order : Order)
      (chunks : List Chunk) (shuffle : Bool) (gzip : Option ℕ) where
    pub cells : ℕ → List (Cell Sr)
    cells n = reverse (cells_at 1 as' h n)

    pub made_dataset : Dataset Sr
    made_dataset = built dtype order chunks (cells 0) shuffle gzip

    shape-eq : map (λ (c : Cell Sr). c.size) (cells 0) ≡ reverse (map (λ a. a.shape) as')
    unfolding cells
    shape-eq =
        cells-column (λ c. c.size) (λ x. x.dataset_shape) (λ a p n. refl) 1 as' h 0
        ∙ sym (column (λ a. a.shape) (λ x. x.dataset_shape) (λ a m. refl) as' 0)

    chunk_shape-eq :
        map (λ (c : Cell Sr). c.chunk_sz) (cells 0) ≡ reverse (map (λ a. a.chunk_sz) as')
    unfolding cells
    chunk_shape-eq =
        cells-column (λ c. c.chunk_sz) (λ x. x.chunk_sz) (λ a p n. refl) 1 as' h 0
        ∙ sym (column (λ a. a.chunk_sz) (λ x. x.chunk_sz) (λ a m. refl) as' 0)

    chunk_of : HasGrid made_dataset → (n : ℕ) → (c : Chunk) × IsChunkOf made_dataset as' n c
    unfolding made_dataset cells
    chunk_of g n =
        let size_same = cells-same (λ c. c.size) (λ a p n' m. refl) 1 as' h 0 n in
        let chunk_same = cells-same (λ c. c.chunk_sz) (λ a p n' m. refl) 1 as' h 0 n in
        let sru_same = cells-same (λ c. c.sru) (λ a p n' m. refl) 1 as' h 0 n in
        let blocks_same = cells-same blocks_of (λ a p n' m. refl) 1 as' h 0 n in
        let (c, found, here) =
          chunk_at_coord-grid made_dataset (cells n)
            (All-reverse IsCell (cells_at 1 as' h n) (cells-IsCell 1 as' h n)) size_same chunk_same
            sru_same (ap tails blocks_same) g in
        (
          c,
          record {
            found =
                rw (cells-column (λ c. c.at_index) at_index (λ a p n'. refl) 1 as' h n) at found;
            offset =
                here
                ∙ cells-column base_of (λ x. x.chunk_offset) (λ a p n'. refl) 1 as' h n
                ∙ map-reverse (λ (x : Dim Sr). x.chunk_offset) (dims_at as' n)
                ∙ ap reverse (bases-dims_at as' n);
          },
        )

    made-HasAxes : Layout 0 as' → HasAxes made_dataset as'
    unfolding made_dataset
    made-HasAxes l = record {
      ranked = ranked-of_axes made_dataset as' l shape-eq;
      shape = shape-eq;
      chunk_shape = chunk_shape-eq;
      chunk_dim_sz = ap dim_sizes chunk_shape-eq ∙ dim_sizes-axes as' h;
    }

    -- The number of chunks of the shape.
    count-eq :
        map (λ c. c.offset) chunks
          ≡ grid (reverse (map (λ a. a.shape) as')) (reverse (map (λ a. a.chunk_sz) as'))
        → length chunks ≡ product (map blocks_of (cells 0))
    count-eq ordered =
        sym (length-map (λ (c : Chunk). c.offset) chunks)
        ∙ ap length ordered
        ∙ rw (← shape-eq, ← chunk_shape-eq) (length-grid (cells 0))

    pub made-new :
        map (λ c. c.offset) chunks
          ≡ grid (reverse (map (λ a. a.shape) as')) (reverse (map (λ a. a.chunk_sz) as'))
        → length chunks < word
        → Dataset.new dtype order
            (reverse (map (λ a. a.shape) as'))
            chunks
            (reverse (map (λ a. a.chunk_sz) as'))
            shuffle
            gzip
          ≡ ok made_dataset
    unfolding made_dataset cells
    made-new ordered countable =
        let inside =
          All-InCell (cells 0) (All-reverse IsCell (cells_at 1 as' h 0) (cells-IsCell 1 as' h 0)) in
        rw (← shape-eq, ← chunk_shape-eq)
          (new-built dtype order chunks (cells 0) shuffle gzip
            (All-reverse IsPrepared (cells_at 1 as' h 0) (cells-IsPrepared 1 as' h 0))
            (blocks-pos (cells 0) inside) (omega (arith, count-eq ordered)))

    -- The dataset that `Dataset::new` makes, and the pieces, which lie in their chunks.
    pub new-slices-within :
        All IsMade as'
        → Layout 0 as'
        → total as' < word
        → map (λ c. c.offset) chunks
          ≡ grid (reverse (map (λ a. a.shape) as')) (reverse (map (λ a. a.chunk_sz) as'))
        → length chunks < word
        → (e : Extents)
        → get_start_count e (reverse (map (λ a. a.shape) as'))
          ≡ ok (reverse (map (λ a. a.idx) as'), reverse (map (λ a. a.count) as'))
        → (ds : Dataset Sr) × (xs : List Slice) × (Dataset.new dtype order
              (reverse (map (λ a. a.shape) as'))
              chunks
              (reverse (map (λ a. a.chunk_sz) as'))
              shuffle
              gzip
            ≡ ok ds)
          × Selects as' ds e xs
          × (ds.chunks ≡ chunks)
    unfolding made_dataset
    new-slices-within made l small ordered countable e chosen =
        let g : HasGrid made_dataset = record {
          ordered = rw (shape-eq, chunk_shape-eq) ordered;
          countable = countable;
        } in
        let (xs, ran, good, inside) =
          slices-expand made_dataset as' (made-HasAxes l) h made small e (rw shape-eq chosen) l
            (λ n lt. chunk_of g n) in
        (
          made_dataset,
          xs,
          made-new ordered countable,
          record {
            shape = shape-eq;
            chunk_shape = chunk_shape-eq;
            chosen = rw shape-eq chosen;
            pieces = ran;
            places = good;
            inside = inside;
          },
          refl,
        )

    -- A dataset is made by `Dataset::new` from its shape, its chunk shape and its chunks in row-major order,
    -- fewer than 2^64, and a selection, of more than no values and fewer than 2^64, lies inside the shape
    -- and has one of the forms of `Layout`. Then `chunk_slices` ends, and its pieces give the chunk and
    -- the position of every value of the selection, once and in row-major order.
    pub new-slices-wanted :
        All IsMade as'
        → Layout 0 as'
        → total as' < word
        → map (λ c. c.offset) chunks
          ≡ grid (reverse (map (λ a. a.shape) as')) (reverse (map (λ a. a.chunk_sz) as'))
        → length chunks < word
        → (e : Extents)
        → get_start_count e (reverse (map (λ a. a.shape) as'))
          ≡ ok (reverse (map (λ a. a.idx) as'), reverse (map (λ a. a.count) as'))
        → (ds : Dataset Sr) × (xs : List Slice) × (Dataset.new dtype order
              (reverse (map (λ a. a.shape) as'))
              chunks
              (reverse (map (λ a. a.chunk_sz) as'))
              shuffle
              gzip
            ≡ ok ds)
          × (slices ds e ≡ ok xs)
          × (expand xs ≡ wanted as' 0 (total as'))
    new-slices-wanted made l small ordered countable e chosen =
        let (ds, xs, created, sel, same) =
          new-slices-within made l small ordered countable e chosen in
        (ds, xs, created, sel.pieces, sel.places)
