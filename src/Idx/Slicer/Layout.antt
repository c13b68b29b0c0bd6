-- ===== src/Idx/Slicer/Layout.antt =====
-- src/idx/dataset/dataset.rs: the selections whose pieces `next` gives in the order of the values, and
-- the rounds of its loop on the axes of these selections.
use native.Mathlib.Nat.{
  mul-mod_left, mul-mod_right, mul-div_cancel_left, zero-mod, zero-div, add-zero, mod-add-div',
}
use hidefix.Base.{
  ◌==◌, ℕ, ◌+◌, ◌*◌, ◌/◌, ◌%◌, ◌<◌, ◌≡◌, ◌∙◌, ◌≢◌, ◌⊎◌, inl, inr, Bool, false, ◌&&◌, List, [], ◌∷◌,
  ℕ_discrete, arith,
}
use hidefix.Idx.Divisor.{Divisor}
use hidefix.Idx.Slicer.{cut}
use hidefix.Idx.Slicer.Axis.{IsCovered, Axis, dim_at, reach, IsAxis, total, AreAxes}
use hidefix.Idx.Slicer.Rounds.{base, chunk_end, chunk_end-eq, add-cut}

module _ {Sr : Type 0} where
  -- The chunk of an axis is one index of it, and a whole block of the values further in.
  pub record IsThin (a : Axis Sr) : Type 0 where
    pub one : a.chunk_sz ≡ 1
    pub block : a.chunk_dim_sz ≢ 1

  -- The selection along the axis is not one chunk, whole or cut.
  abbrev pub IsOpen : Axis Sr → Type 0
  IsOpen a =
      (a.idx % a.chunk_sz ≢ 0)
      ⊎ ((a.chunk_sz < a.count) ⊎ ((a.count < a.chunk_sz) × (a.idx + a.count < a.shape)))

  abbrev pub AreThin : List (Axis Sr) → Type 0
  AreThin [] = Unit
  AreThin (a ∷ as') = IsThin a × AreThin as'

  -- From the innermost axis: axes whose selection is one whole chunk, and then either the outermost
  -- axis, with any selection, or only axes whose chunks are thin; or the innermost axis is open and
  -- the others have any selection. `k` is 1 behind an axis whose selection is one whole chunk.
  abbrev pub Layout : ℕ → List (Axis Sr) → Type 0
  Layout k [] = ⊥
  Layout k (a ∷ []) = Unit
  Layout k (a ∷ b ∷ as') =
      ((k ≡ 0) × IsOpen a)
      ⊎ (((k ≡ 1) × AreThin (a ∷ b ∷ as')) ⊎ (IsCovered a × Layout 1 (b ∷ as')))

  -- The `q`-th value stands at the start of the axes whose selection is one whole chunk.
  abbrev pub IsAligned : (k : ℕ) (as' : List (Axis Sr)) → Layout k as' → ℕ → Type 0
  IsAligned k [] l q = Unit
  IsAligned k (a ∷ []) l q = Unit
  IsAligned k (a ∷ b ∷ as') (inl l) q = Unit
  IsAligned k (a ∷ b ∷ as') (inr (inl l)) q = Unit
  IsAligned k (a ∷ b ∷ as') (inr (inr (c, l))) q =
      (q % a.count ≡ 0) × IsAligned 1 (b ∷ as') l (q / a.count)

module _ {Sr : Type 0} ⦃r : Divisor Sr⦄ where
  -- The end of the selection and its start are aligned.
  pub total-IsAligned :
      (sz k : ℕ) (as' : List (Axis Sr)) (l : Layout k as')
      → AreAxes sz as'
      → IsAligned k as' l (total as')
  total-IsAligned sz k [] l h = tt
  total-IsAligned sz k (a ∷ []) l h = tt
  total-IsAligned sz k (a ∷ b ∷ as') (inl l) h = tt
  total-IsAligned sz k (a ∷ b ∷ as') (inr (inl l)) h = tt
  total-IsAligned sz k (a ∷ b ∷ as') (inr (inr (c, l))) h = (
    mul-mod_right a.count (total (b ∷ as')),
    rw (mul-div_cancel_left (total (b ∷ as')) h.1.count_pos)
        (total-IsAligned (sz * a.chunk_sz) 1 (b ∷ as') l h.2),
  )

  pub zero-IsAligned :
      (sz k : ℕ) (as' : List (Axis Sr)) (l : Layout k as') → AreAxes sz as' → IsAligned k as' l 0
  zero-IsAligned sz k [] l h = tt
  zero-IsAligned sz k (a ∷ []) l h = tt
  zero-IsAligned sz k (a ∷ b ∷ as') (inl l) h = tt
  zero-IsAligned sz k (a ∷ b ∷ as') (inr (inl l)) h = tt
  zero-IsAligned sz k (a ∷ b ∷ as') (inr (inr (c, l))) h =
      (zero-mod a.count, rw (zero-div a.count) (zero-IsAligned (sz * a.chunk_sz) 1 (b ∷ as') l h.2))

module _ {Sr : Type 0} ⦃r : Divisor Sr⦄ (a : Axis Sr) (v : IsAxis a) (n : ℕ) where
  -- At an open axis the loop stops.
  pub open-stops :
      (b : Bool) → IsOpen a → ((a.idx == base a v n) && (a.count == chunk_end a v n) && b) ≡ false
  open-stops b o =
      let e = chunk_end-eq a v n in
      let whole : base a v n % a.chunk_sz ≡ 0 =
        mul-mod_left ((a.idx + n % a.count) / a.chunk_sz) a.chunk_sz in
      let pos = v.count_pos in
      let ins = v.inside in
      elim (ℕ_discrete a.idx (base a v n)) [
        | yes p ↦ elim (ℕ_discrete a.count (chunk_end a v n)) [
          | yes q ↦ elim o [
            | inl x ↦ absurd (x (rw p whole))
            | inr (inl x) ↦ absurd (omega arith)
            | inr (inr x) ↦ absurd (omega arith)
          ]
          | no q ↦ ground arith
        ]
        | no p ↦ ground arith
      ]

  -- A covered axis at its start: the chunk is whole.
  pub cut-covered :
      IsCovered a
      → n % a.count ≡ 0
      → (base a v n ≡ a.idx)
        × (cut (dim_at a n) ≡ a.chunk_sz)
        × (chunk_end a v n ≡ a.count)
        × (reach a n ≡ a.count)
  cut-covered c z =
      let e : base a v n ≡ a.idx =
        rw (z, add-zero) (omega (arith, mod-add-div' a.idx a.chunk_sz, c.aligned)) in
      (
        e,
        omega (arith, add-cut a v n, c.whole, v.inside),
        chunk_end-eq a v n ∙ omega (arith, c.whole, v.inside),
        omega (arith, c.whole, e),
      )
