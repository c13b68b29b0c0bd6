-- ===== src/Python/Reads.antt =====
-- src/python.rs: a dataset that is indexed from Python, to the values of the array.
use native.Mathlib.Nat.{lt_of_le_of_lt, le-mul_of_pos_right}
use hidefix.Base.{
  ok_unique, length, product, All, Result, ◌>>=◌, ok, word, product64, product64-eq-product,
  product-reverse, ℕ, ◌*◌, ◌<◌, ◌≡◌, refl, sym, ap, ◌∙◌, inl, inr, Bool, some, List, [], ◌∷◌, map,
  arith,
}
use hidefix.Extent.{Extents, get_start_count}
use hidefix.Extent.Convert.{from_start_count}
use hidefix.Filters.Byteorder.Native.{AreNative}
use hidefix.Filters.Sized.{concat}
use hidefix.Idx.Any.{DatasetD, inner}
use hidefix.Idx.Any as Any
use hidefix.Idx.Divisor.{Divisor}
use hidefix.Idx.Index.{path}
use hidefix.Idx.Slicer.{Slice}
use hidefix.Idx.Slicer.Axis.{Axis, total}
use hidefix.Idx.Slicer.Grouped.{Sort}
use hidefix.Idx.Slicer.Run.{wanted}
use hidefix.Python.{half, PySlice, Element, element_type, array_dims}
use hidefix.Python.Boxes.{IsBox, get_item-IsInside}
use hidefix.Python.Items.{array_dims-product}
use hidefix.Python.Objects.{PyDataset, held_dataset, begin_py_array, begin_get_item}
use hidefix.Reader.Cached.{IsSized}
use hidefix.Reader.Direct.{with_dataset}
use hidefix.Reader.Direct.Parallel.{Task, Steps, IsDone, steps_left, read_to_par}
use hidefix.Reader.Direct.Parallel.Fills.{IsRun, read_to_par-fill, read_to_par_total}
use hidefix.Reader.Gather.{storage_of, Holds}
use hidefix.Reader.Selected.{Readable, value_at}
use hidefix.Reader.Services.{ReadSeek, Decompressor}
use hidefix.Reader.Traits.{ValueType}
use hidefix.Reader.Traits.Parallel.{begin_values_to_par, finish_values, finish_values-AreNative}

counts-total : {Sr : Type 0} (as' : List (Axis Sr)) → product (map (λ a. a.count) as') ≡ total as'
counts-total [] = refl
counts-total (a ∷ as') = ap (λ n. a.count * n) (counts-total as')

module _ {S Sr P : Type 0} ⦃r : Divisor Sr⦄ (py : PySlice S) (sort : Sort) (de : Decompressor)
    (content : List ℕ) (sizes : ℕ → ℕ) (uninit : ValueType → ℕ → List (List ℕ)) (d : PyDataset Sr P)
    (elements : List (Element S)) (starts counts : List ℕ) where
  -- A dataset that Python can index: what is held, the box of the elements, and the selection.
  pub record CanGet (x : DatasetD Sr) (p : P) (t : ValueType) (e : Extents) : Type 0 where
    pub held : held_dataset d ≡ ok x
    pub located : path d.idx.root ≡ some p
    pub typed : element_type (Any.dtype x) ≡ ok t
    pub same_size : t.size ≡ (inner x).dsize
    pub small_shape : All (λ n. n < half) (Any.shape x)
    pub boxed : IsBox py elements (Any.shape x) starts counts
    pub selected_box : from_start_count starts counts ≡ ok e
    pub memory : (n : ℕ) → length (concat (uninit t n)) ≡ n * t.size

  module _ (as' : List (Axis Sr)) (x : DatasetD Sr) (p : P) (t : ValueType) (e : Extents)
      (xs : List Slice) (bytes_of : List ℕ → List ℕ) (g : CanGet x p t e)
      (k : Readable de content as' (inner x) e xs bytes_of)
      (sized : All (IsSized sizes) (inner x).chunks) (some_values : 0 < total as') where
    counts-axes : product counts ≡ total as'
    unfolding Any.shape
    counts-axes =
        let (_, _, back) =
          get_item-IsInside py elements (Any.shape x) starts counts g.small_shape g.boxed in
        let back' : get_start_count e (inner x).shape ≡ ok (starts, counts) =
          ap (λ (m : Result Extents). m >>= λ e'. get_start_count e' (inner x).shape)
            (sym g.selected_box)
          ∙ back in
        let both = ok_unique back' k.selects.chosen in
        ap (λ (q : List ℕ × List ℕ). product q.1) both
        ∙ product-reverse (map (λ a. a.count) as')
        ∙ counts-total as'

    product-dims : product (array_dims counts) ≡ total as'
    product-dims = elim (array_dims-product counts) [
      | inl (_, same) ↦ same ∙ counts-axes
      | inr (none_left, _) ↦ absurd (omega (arith, none_left, counts-axes, some_values))
    ]

    small : total as' < word
    small = lt_of_le_of_lt (le-mul_of_pos_right (total as') k.some_bytes) k.values_fit

    product64-dims : product64 (array_dims counts) ≡ total as'
    product64-dims =
        product64-eq-product (array_dims counts) (omega (arith, product-dims, small)) ∙ product-dims

    -- The memory of the array.
    abbrev array_memory : List ℕ
    array_memory = concat (uninit t (total as'))

    length-array_memory : length array_memory ≡ total as' * (inner x).dsize
    length-array_memory = g.memory (total as') ∙ ap (λ z. total as' * z) g.same_size

    array-IsRun : IsRun de content sizes as' (inner x) e xs bytes_of array_memory
    array-IsRun = record {
      readable = k;
      sized = sized;
      room_for = omega (arith, length-array_memory);
      small = omega (arith, length-array_memory, k.values_fit);
    }

    begun_array :
        (m : ℕ) (ts : List Task)
        → read_to_par sort (with_dataset (inner x) p) e array_memory ≡ ok (m, ts)
        → begin_get_item py sort uninit d elements ≡ ok (array_dims counts, ts)
    unfolding begin_get_item begin_py_array begin_values_to_par
    begun_array m ts started =
        let (got, _, _) =
          get_item-IsInside py elements (Any.shape x) starts counts g.small_shape g.boxed in
        rw (g.held, got, g.typed, g.located, g.selected_box, product64-dims, started) refl

    -- A dataset is indexed from Python by integers and slices that select a box of some values (`CanGet`), which
    -- can be read (`Readable`), the file opens, and chunks at one address have one size. Then `__getitem__` begins
    -- a parallel read into an array with as many elements as the box has values. The read has a run that is
    -- through, and every such run, from what the memory held before, leaves in the array for the values of the box,
    -- in row-major order, what stands for them on the target (`IsNative`): each as the same number in the order of
    -- the target, or as its bytes stand in the data, if the order of the data is unknown or for a floating-point
    -- number on a big-endian target.
    pub begin_get_item-values :
        {F : Type 0} ⦃file : ReadSeek F⦄ (big : Bool) (fd : F)
        → Holds content fd
        → (dims : List ℕ) × (ts : List Task) × (begin_get_item py sort uninit d elements
            ≡ ok (dims, ts))
          × (product dims ≡ total as')
          × ((n : ℕ) × (ts' : List Task) × (dst' : List ℕ) × Steps {F = F} de
                (storage_of (inner x))
                (Holds content)
                n
                ts
                (concat (uninit t (total as')))
                ts'
                dst'
              × All IsDone ts')
          × ((n : ℕ) (ts' : List Task) (dst' : List ℕ)
              → Steps {F = F} de
                  (storage_of (inner x))
                  (Holds content)
                  n
                  ts
                  (concat (uninit t (total as')))
                  ts'
                  dst'
              → All IsDone ts'
              → AreNative big t.kind
                  (inner x).order
                  (map (value_at (inner x).dsize bytes_of) (wanted as' 0 (total as')))
                  (finish_values big t (inner x).order (total as') dst'))
    begin_get_item-values big fd h =
        let (m, ts, ts', dst', started, steps, done) =
          read_to_par_total sort de content sizes as' (inner x) e xs bytes_of array_memory
            array-IsRun p fd h in
        (
          array_dims counts,
          ts,
          begun_array m ts started,
          product-dims,
          (steps_left ts, ts', dst', steps, done),
          λ n us' end steps' done'.
              finish_values-AreNative sort de content sizes as' (inner x) p e xs bytes_of k sized t
                g.same_size big array_memory end length-array_memory
                (read_to_par-fill sort de content sizes as' (inner x) e xs bytes_of array_memory
                  array-IsRun p m n ts us' end started steps' done'),
        )
