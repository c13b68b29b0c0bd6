-- ===== src/Python/Boxes.antt =====
-- src/python.rs: the box that the slices and the integers of a tuple select.
use native.Mathlib.Nat.{mod-eq_of_lt}
use hidefix.Base.{
  ==_refl, ltb, lt→ltb, length, drop, replicate, All, ◌>>=◌, ok, pos, word, ℕ, suc, ◌+◌, ◌-◌, ◌%◌,
  ◌≤◌, ◌<◌, ◌≡◌, refl, sym, ap, ap₂, ◌∙◌, true, some, List, [], ◌∷◌, ◌++◌, map, arith,
}
use hidefix.Extent.{get_start_count}
use hidefix.Extent.Convert.{from_start_count}
use hidefix.Extent.Counts.{get_start_count-from_start_count}
use hidefix.Python.{
  half, PySlice, Element, part, integer, as_u64, to_isize, slice_of, add_one, select_dim,
  select_dims, all_ones, get_item,
}
use hidefix.Python.Items.{place, gap, select_dim-new, inside_or_beyond}

-- An element selects so many indices from a start on in a dimension: an index inside it, or a slice of one
-- step that ends in it.
pub data Takes {S : Type 0} (py : PySlice S) (d : ℕ) : Element S → (start count : ℕ) → Type 0 where
  at_index : (k : ℕ) → k < d → Takes py d (integer (some (pos k))) k 1
  between :
      (s : S) (a b : ℕ)
      → py.indices s d ≡ some (record { start = pos a; stop = pos b; step = pos 1 })
      → a ≤ b
      → b ≤ d
      → Takes py d (part s) a (b - a)

-- The starts and the counts of a tuple on a shape: an element takes some indices of its dimension, and the
-- dimensions without an element are taken whole.
abbrev pub IsBox :
    {S : Type 0} (py : PySlice S) → List (Element S) → (shape starts counts : List ℕ) → Type 0
IsBox py [] [] [] [] = Unit
IsBox py [] (d ∷ ds) (s ∷ ss) (c ∷ cs) = ((s ≡ 0) × (c ≡ d)) × IsBox py [] ds ss cs
IsBox py (e ∷ es) (d ∷ ds) (s ∷ ss) (c ∷ cs) = Takes py d e s c × IsBox py es ds ss cs
IsBox py _ _ _ _ = ⊥

-- A box inside of a shape.
abbrev pub IsInside : (shape starts counts : List ℕ) → Type 0
IsInside [] [] [] = Unit
IsInside (d ∷ ds) (s ∷ ss) (c ∷ cs) = (s + c ≤ d) × IsInside ds ss cs
IsInside _ _ _ = ⊥

inside-lengths :
    (ds ss cs : List ℕ) → IsInside ds ss cs → (length ss ≡ length ds) × (length cs ≡ length ds)
inside-lengths [] [] [] h = (refl, refl)
inside-lengths (d ∷ ds) (s ∷ ss) (c ∷ cs) h =
    let (e, e') = inside-lengths ds ss cs h.1 in (ap suc e, ap suc e')
inside-lengths _ _ _ h = absurd h

module _ {S : Type 0} (py : PySlice S) where
  -- What an element that takes some indices gives.
  takes-select_dim :
      (d : ℕ) (e : Element S) (start count : ℕ)
      → d < half
      → Takes py d e start count
      → (s : S) × (slice_of py e ≡ ok s)
        × (select_dim py s d ≡ ok (place start count))
        × (start + count ≤ d)
  unfolding slice_of add_one select_dim to_isize as_u64
  takes-select_dim d e start count h (at_index k inside) =
      let small : ltb (suc k) half ≡ true = lt→ltb (suc k) half (omega (arith, h, inside)) in
      (
        py.new (pos k) (pos (suc k)) (pos 1),
        rw small refl,
        select_dim-new py (pos k) (pos (suc k)) d h
            ∙ ap ok (inside_or_beyond k d h ∙ rw (lt→ltb k d inside) refl),
        omega (arith, inside),
      )
  takes-select_dim d e start count h (between s a b given le inside) =
      let small : ltb d half ≡ true = lt→ltb d half h in
      let first : a % word ≡ a = mod-eq_of_lt (omega (arith, h, le, inside)) in
      let last : b % word ≡ b = mod-eq_of_lt (omega (arith, h, inside)) in
      (
        s,
        refl,
        rw (small, given, first, last, gap b a (b - a) le (omega (arith, h, inside)) refl) refl,
        omega (arith, le, inside),
      )

  -- The elements, and what is put behind them.
  abbrev Selects : List (Element S) → (shape starts counts : List ℕ) → Type 0
  Selects es ds ss cs =
      (xs : List (ℕ × (ℕ × ℕ))) × (select_dims py es ds ≡ ok xs)
      × (map (λ (x : ℕ × (ℕ × ℕ)). x.0) xs ++ replicate (length ds - length xs) 0 ≡ ss)
      × (map (λ (x : ℕ × (ℕ × ℕ)). x.1.0) xs ++ drop (length xs) ds ≡ cs)
      × (all_ones (map (λ (x : ℕ × (ℕ × ℕ)). x.1.1) xs ++ replicate (length ds - length xs) 1)
          ≡ true)
      × IsInside ds ss cs

  whole-dimensions :
      (ds ss cs : List ℕ)
      → IsBox py [] ds ss cs
      → (replicate (length ds) 0 ≡ ss)
        × (ds ≡ cs)
        × (all_ones (replicate (length ds) 1) ≡ true)
        × IsInside ds ss cs
  unfolding all_ones
  whole-dimensions [] [] [] b = (refl, refl, refl, tt)
  whole-dimensions (d ∷ ds) (s ∷ ss) (c ∷ cs) b =
      let (zeros, same, ones, inside) = whole-dimensions ds ss cs b.1 in
      (
        ap₂ ◌∷◌ (sym b.0.0) zeros,
        ap₂ ◌∷◌ (sym b.0.1) same,
        ones,
        (omega (arith, b.0.0, b.0.1), inside),
      )
  whole-dimensions _ _ _ b = absurd b

  box-Selects :
      (es : List (Element S)) (ds ss cs : List ℕ)
      → All (λ d. d < half) ds
      → IsBox py es ds ss cs
      → Selects es ds ss cs
  unfolding select_dims all_ones
  box-Selects [] ds ss cs h b =
      let (zeros, same, ones, inside) = whole-dimensions ds ss cs b in
      let all_of : length ds - 0 ≡ length ds = omega arith in
      ([], refl, rw all_of zeros, same, rw all_of ones, inside)
  box-Selects (e ∷ es) (d ∷ ds) (s ∷ ss) (c ∷ cs) h b =
      let (sl, sliced, selected, fits) = takes-select_dim d e s c h.0 b.0 in
      let (xs, all_selected, starts, counts, ones, inside) = box-Selects es ds ss cs h.1 b.1 in
      let less : suc (length ds) - suc (length xs) ≡ length ds - length xs = omega arith in
      (
        place s c ∷ xs,
        rw (sliced, selected, all_selected) refl,
        rw less (ap (◌∷◌ s) starts),
        ap (◌∷◌ c) counts,
        rw less ones,
        (fits, inside),
      )
  box-Selects (e ∷ es) _ _ _ h b = absurd b

  -- A tuple of integers inside of their dimensions and of slices of one step that end in theirs, no more than
  -- the dimensions, each of which `isize` holds: `__getitem__` selects the box of these, with the dimensions
  -- that have no element taken whole. The box is inside of the shape, and comes back from the selection that
  -- is read.
  pub get_item-IsInside :
      (es : List (Element S)) (shape starts counts : List ℕ)
      → All (λ d. d < half) shape
      → IsBox py es shape starts counts
      → (get_item py es shape ≡ ok (starts, counts))
        × IsInside shape starts counts
        × ((from_start_count starts counts >>= λ e. get_start_count e shape) ≡ ok (starts, counts))
  unfolding get_item
  get_item-IsInside es shape starts counts h b =
      let (xs, selected, firsts, lengths, ones, inside) = box-Selects es shape starts counts h b in
      let (same, same') = inside-lengths shape starts counts inside in
      (
        rw (selected, firsts, lengths, ones) refl,
        inside,
        get_start_count-from_start_count starts counts shape
            ∙ rw (same, same', ==_refl (length shape)) refl,
      )
