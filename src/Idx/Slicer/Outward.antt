-- ===== src/Idx/Slicer/Outward.antt =====
-- src/idx/dataset/dataset.rs: the sequences of the source begin with the outermost dimension. What the
-- helpers of `next` make of the columns of a list of tuples.
use native.Mathlib.Nat.{mod-lt, mod-add-div', mul-le-mul_left, mul_assoc}
use hidefix.Base.{
  product, sum, All, word, add64-eq-add, sub64-eq-sub, mul64-eq-mul, ℕ, ◌+◌, ◌-◌, ◌*◌, ◌/◌, ◌%◌,
  ◌≤◌, ◌<◌, ◌≡◌, refl, ap, ap₂, ◌∙◌, List, [], ◌∷◌, map, arith,
}
use hidefix.Idx.Divisor.{Divisor}
use hidefix.Idx.Slicer.{Dim, start_loop, add_coords, dims}
use hidefix.Idx.Slicer.Axis.{Axis, dims_at, base_bounds, digits, bases, position, dim_at, AreAxes}

module _ {Sr : Type 0} where
  -- The index along the dimension.
  abbrev pub at_index : Dim Sr → ℕ
  at_index d = d.idx + d.offset

  abbrev pub term : Dim Sr → ℕ
  term d = (at_index d - d.chunk_offset) * d.chunk_dim_sz

  abbrev pub IsInside : Dim Sr → Type 0
  IsInside d = (d.chunk_offset ≤ at_index d) × (at_index d < word)

  pub dims-columns :
      (ds : List (Dim Sr))
      → dims
          (map (λ d. d.idx) ds)
          (map (λ d. d.offset) ds)
          (map (λ d. d.count) ds)
          (map (λ d. d.count_sru) ds)
          (map (λ d. d.chunk_offset) ds)
          (map (λ d. d.chunk_sz) ds)
          (map (λ d. d.chunk_dim_sz) ds)
          (map (λ d. d.dataset_shape) ds)
        ≡ ds
  unfolding dims
  dims-columns [] = refl
  dims-columns (d ∷ ds) = ap (◌∷◌ d) (dims-columns ds)

  pub add_coords-columns :
      (ds : List (Dim Sr))
      → All IsInside ds
      → add_coords (map (λ d. d.idx) ds) (map (λ d. d.offset) ds) ≡ map at_index ds
  unfolding add_coords
  add_coords-columns [] p = refl
  add_coords-columns (d ∷ ds) p =
      ap₂ ◌∷◌ (add64-eq-add d.idx d.offset p.0.1) (add_coords-columns ds p.1)

  pub start_loop-columns :
      (start : ℕ) (ds : List (Dim Sr))
      → All IsInside ds
      → start + sum (map term ds) < word
      → start_loop start
          (map at_index ds)
          (map (λ d. d.chunk_offset) ds)
          (map (λ d. d.chunk_dim_sz) ds)
        ≡ start + sum (map term ds)
  unfolding start_loop
  start_loop-columns start [] p fit = omega arith
  start_loop-columns start (d ∷ ds) p fit =
      let e1 = sub64-eq-sub (at_index d) d.chunk_offset p.0.0 p.0.1 in
      let e2 = mul64-eq-mul (at_index d - d.chunk_offset) d.chunk_dim_sz (omega arith) in
      let e3 = add64-eq-add start (term d) (omega arith) in
      rw (e1, e2, e3) (start_loop-columns (start + term d) ds p.1 (omega arith) ∙ omega arith)

  -- A column that does not change from value to value.
  pub map-dims_at :
      {B : Type 0} (f : Axis Sr → B) (g : Dim Sr → B)
      → ((a : Axis Sr) (n : ℕ) → g (dim_at a n) ≡ f a)
      → (as' : List (Axis Sr)) (n : ℕ) → map g (dims_at as' n) ≡ map f as'
  map-dims_at f g e [] n = refl
  map-dims_at f g e (a ∷ as') n = ap₂ ◌∷◌ (e a n) (map-dims_at f g e as' (n / a.count))

  pub offsets-dims_at :
      (as' : List (Axis Sr)) (n : ℕ) → map (λ (d : Dim Sr). d.offset) (dims_at as' n) ≡ digits as' n
  offsets-dims_at [] n = refl
  offsets-dims_at (a ∷ as') n = ap (◌∷◌ (n % a.count)) (offsets-dims_at as' (n / a.count))

  pub bases-dims_at :
      (as' : List (Axis Sr)) (n : ℕ)
      → map (λ (d : Dim Sr). d.chunk_offset) (dims_at as' n) ≡ bases as' n
  bases-dims_at [] n = refl
  bases-dims_at (a ∷ as') n =
      ap (◌∷◌ ((a.idx + n % a.count) / a.chunk_sz * a.chunk_sz)) (bases-dims_at as' (n / a.count))

module _ {Sr : Type 0} ⦃r : Divisor Sr⦄ where
  pub dims_at-IsInside :
      (sz : ℕ) (as' : List (Axis Sr)) → AreAxes sz as' → (n : ℕ) → All IsInside (dims_at as' n)
  dims_at-IsInside sz [] h n = tt
  dims_at-IsInside sz (a ∷ as') h n =
      let v = h.1 in
      let b = base_bounds (a.idx + n % a.count) a.chunk_sz v.chunk_pos in
      (
        (b.0, omega (arith, mod-lt n v.count_pos, v.inside, v.fits)),
        dims_at-IsInside (sz * a.chunk_sz) as' h.2 (n / a.count),
      )

  -- The position of a value in its chunk is the sum of the terms.
  pub position-dims_at :
      (sz : ℕ) (as' : List (Axis Sr))
      → AreAxes sz as'
      → (n : ℕ) → sum (map term (dims_at as' n)) ≡ position sz as' n
  position-dims_at sz [] h n = refl
  position-dims_at sz (a ∷ as') h n =
      let x : ℕ = a.idx + n % a.count in
      let e : x - x / a.chunk_sz * a.chunk_sz ≡ x % a.chunk_sz =
        omega (arith, mod-add-div' x a.chunk_sz) in
      rw (h.0, e)
        (ap (λ p. x % a.chunk_sz * sz + p)
          (position-dims_at (sz * a.chunk_sz) as' h.2 (n / a.count)))

  -- A position lies in the chunk, whose size `u64` holds.
  pub position-lt :
      (sz : ℕ) (as' : List (Axis Sr)) → AreAxes sz as' → (n : ℕ) → position sz as' n + sz < word
  position-lt sz [] h n = omega (arith, h)
  position-lt sz (a ∷ as') h n =
      let v = h.1 in
      let x : ℕ = a.idx + n % a.count in
      let below : x % a.chunk_sz + 1 ≤ a.chunk_sz = omega (arith, mod-lt x v.chunk_pos) in
      let row : sz * (x % a.chunk_sz + 1) ≤ sz * a.chunk_sz = mul-le-mul_left sz below in
      omega (arith, position-lt (sz * a.chunk_sz) as' h.2 (n / a.count), row)

  -- The number of values in a chunk.
  abbrev pub volume : ℕ → List (Axis Sr) → ℕ
  volume sz [] = sz
  volume sz (a ∷ as') = volume (sz * a.chunk_sz) as'

  pub position-le_volume :
      (sz : ℕ) (as' : List (Axis Sr))
      → AreAxes sz as'
      → (n : ℕ) → position sz as' n + sz ≤ volume sz as'
  position-le_volume sz [] h n = omega arith
  position-le_volume sz (a ∷ as') h n =
      let v = h.1 in
      let x : ℕ = a.idx + n % a.count in
      let below : x % a.chunk_sz + 1 ≤ a.chunk_sz = omega (arith, mod-lt x v.chunk_pos) in
      let row : sz * (x % a.chunk_sz + 1) ≤ sz * a.chunk_sz = mul-le-mul_left sz below in
      omega (arith, position-le_volume (sz * a.chunk_sz) as' h.2 (n / a.count), row)

  pub volume-product :
      (sz : ℕ) (as' : List (Axis Sr)) → volume sz as' ≡ sz * product (map (λ a. a.chunk_sz) as')
  volume-product sz [] = omega arith
  volume-product sz (a ∷ as') = volume-product (sz * a.chunk_sz) as' ∙ mul_assoc sz a.chunk_sz _

  pub volume_pos : (as' : List (Axis Sr)) → AreAxes 1 as' → 0 < volume 1 as'
  volume_pos as' h = omega (arith, position-le_volume 1 as' h 0)
