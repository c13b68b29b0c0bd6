-- ===== src/Idx/Slicer/Whole.antt =====
-- src/idx/dataset/dataset.rs: `chunk_slices` makes an iterator that stands before the first value of the
-- selection, and its pieces are the values of the selection in row-major order.
use native.Mathlib.Nat.{zero-add, zero-mod, zero-div}
use hidefix.Base.{
  le→ltb, ne→==, length, replicate, product, All, collect, ok, word, add64-eq-add, product64,
  product64-eq-product, map-reverse, All-reverse, product-reverse, ℕ, suc, ◌+◌, ◌*◌, ◌/◌, ◌≤◌, ◌<◌,
  ◌≡◌, refl, ap, ◌∙◌, false, List, [], ◌∷◌, map, reverse, arith,
}
use hidefix.Idx.Dataset.{Dataset}
use hidefix.Idx.Divisor.{Divisor}
use hidefix.Idx.Chunk.{Chunk}
use hidefix.Idx.Slicer
use hidefix.Idx.Slicer.{Slice, collect_slices, ChunkSlicer, Dim, is_outside, chunk_slices, slices}
use hidefix.Idx.Slicer.Axis.{Axis, digits, total, dims_at, AreAxes}
use hidefix.Idx.Slicer.Layout.{Layout, zero-IsAligned}
use hidefix.Idx.Slicer.Outward.{volume}
use hidefix.Idx.Slicer.Next.{HasAxes, column, IsAt, IsChunkOf}
use hidefix.Idx.Slicer.Run.{collect_slices-expand, expand, wanted, Within}
use hidefix.Extent.{Extents, get_start_count}
use hidefix.Extent.Counts.{get_start_count_sized-eq-get_start_count}

replicate-map :
    {A : Type 0} (f : A → ℕ) (xs : List A)
    → replicate {A = ℕ} (length (map f xs)) 0 ≡ map (λ x. 0) xs
replicate-map f [] = refl
replicate-map f (x ∷ xs) = ap (◌∷◌ 0) (replicate-map f xs)

module _ {Sr : Type 0} where
  abbrev Fits : Dim Sr → Type 0
  Fits d = (d.idx + d.count ≤ d.dataset_shape) × (d.dataset_shape < word) × (0 < d.count)

  is_outside-columns :
      (ds : List (Dim Sr))
      → All Fits ds
      → is_outside (map (λ d. d.idx) ds) (map (λ d. d.count) ds) (map (λ d. d.dataset_shape) ds)
        ≡ false
  unfolding is_outside
  is_outside-columns [] p = refl
  is_outside-columns (d ∷ ds) p =
      let (le, lt, some_count) = p.0 in
      let e = add64-eq-add d.idx d.count (omega arith) in
      rw (e, le→ltb d.dataset_shape (d.idx + d.count) le, ne→== d.count 0 (omega arith))
        (is_outside-columns ds p.1)

  digits-zero : (as' : List (Axis Sr)) → digits as' 0 ≡ map (λ a. 0) as'
  digits-zero [] = refl
  digits-zero (a ∷ as') = rw (zero-mod a.count, zero-div a.count) (ap (◌∷◌ 0) (digits-zero as'))

  product-counts : (as' : List (Axis Sr)) → product (map (λ a. a.count) as') ≡ total as'
  product-counts [] = refl
  product-counts (a ∷ as') = ap (λ x. a.count * x) (product-counts as')

  pub product64-counts :
      (as' : List (Axis Sr))
      → total as' < word
      → product64 (reverse (map (λ a. a.count) as')) ≡ total as'
  product64-counts as' small =
      let e : product (reverse (map (λ a. a.count) as')) ≡ total as' =
        product-reverse (map (λ a. a.count) as') ∙ product-counts as' in
      product64-eq-product (reverse (map (λ a. a.count) as')) (rw e small) ∙ e

module _ {Sr : Type 0} ⦃r : Divisor Sr⦄ where
  -- The divisors of the axes are made from their counts.
  abbrev pub IsMade : Axis Sr → Type 0
  IsMade a = r.new a.count ≡ ok a.sru

  collect-new :
      (as' : List (Axis Sr))
      → All IsMade as'
      → collect r.new (map (λ a. a.count) as') ≡ ok (map (λ a. a.sru) as')
  collect-new [] p = refl
  collect-new (a ∷ as') p = rw (p.0, collect-new as' p.1) refl

  dims_at-Fits :
      (sz : ℕ) (as' : List (Axis Sr)) → AreAxes sz as' → (n : ℕ) → All Fits (dims_at as' n)
  dims_at-Fits sz [] h n = tt
  dims_at-Fits sz (a ∷ as') h n =
      let v = h.1 in
      (
        (v.inside, omega (arith, v.fits), v.count_pos),
        dims_at-Fits (sz * a.chunk_sz) as' h.2 (n / a.count),
      )

  module _ (ds : Dataset Sr) (as' : List (Axis Sr)) (d : HasAxes ds as') (h : AreAxes 1 as')
      (made : All IsMade as') (small : total as' < word) (e : Extents)
      (chosen : get_start_count e ds.shape
        ≡ ok (reverse (map (λ a. a.idx) as'), reverse (map (λ a. a.count) as'))) where
    inside_shape :
        is_outside (reverse (map (λ a. a.idx) as')) (reverse (map (λ a. a.count) as')) ds.shape
        ≡ false
    inside_shape =
        rw
          (
            d.shape,
            column (λ a. a.idx) (λ x. x.idx) (λ a m. refl) as' 0,
            column (λ a. a.count) (λ x. x.count) (λ a m. refl) as' 0,
            column (λ a. a.shape) (λ x. x.dataset_shape) (λ a m. refl) as' 0,
          )
          (is_outside-columns (reverse (dims_at as' 0))
            (All-reverse Fits (dims_at as' 0) (dims_at-Fits 1 as' h 0)))

    first : ChunkSlicer Sr
    first = record {
      dataset = ds;
      offset = 0;
      offset_coords = replicate (length ds.shape) 0;
      indices = reverse (map (λ a. a.idx) as');
      counts = reverse (map (λ a. a.count) as');
      counts_reduced = reverse (map (λ a. a.sru) as');
      end = total as';
    }

    made_all :
        collect r.new (reverse (map (λ a. a.count) as')) ≡ ok (reverse (map (λ a. a.sru) as'))
    made_all =
        rw
          (← map-reverse (λ (a : Axis Sr). a.count) as', ← map-reverse (λ (a : Axis Sr). a.sru) as')
          (collect-new (reverse as') (All-reverse IsMade as' made))

    new-first :
        Slicer.new ds (reverse (map (λ a. a.idx) as')) (reverse (map (λ a. a.count) as')) ≡ ok first
    unfolding Slicer.new first
    new-first = rw (d.ranked, product64-counts as' small, made_all) refl

    chunk_slices-first : chunk_slices ds e ≡ ok first
    unfolding chunk_slices
    chunk_slices-first =
        rw (get_start_count_sized-eq-get_start_count e ds.shape, chosen, inside_shape, new-first)
          refl

    first-IsAt : IsAt ds as' 0 first
    unfolding first
    first-IsAt = record {
      dataset = refl;
      offset = refl;
      coords =
          rw
            (
              d.shape,
              digits-zero as',
              ← map-reverse (λ (a : Axis Sr). a.shape) as',
              ← map-reverse {B = ℕ} (λ (a : Axis Sr). 0) as',
            )
            (replicate-map _ (reverse as'));
      indices = refl;
      counts = refl;
      counts_reduced = refl;
      end = refl;
    }

    pub slices-expand :
        (l : Layout 0 as')
        → ((n : ℕ) → n < total as' → (c : Chunk) × IsChunkOf ds as' n c)
        → (xs : List Slice) × (slices ds e ≡ ok xs)
          × (expand xs ≡ wanted as' 0 (total as'))
          × All (Within (volume 1 as')) xs
    unfolding slices first
    slices-expand l chunk_of =
        let (xs, ran, good, inside) =
          collect_slices-expand ds as' d h l small chunk_of (suc (total as')) 0 (total as') first
            first-IsAt (zero-IsAligned 1 0 as' l h) (zero-add (total as')) (omega arith) in
        (xs, rw (chunk_slices-first, ran) refl, good, inside)
