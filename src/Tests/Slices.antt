-- ===== src/Tests/Slices.antt =====
-- Indexing from Python, with the slices of one step as pairs of their ends.
use hidefix.Base.{
  product, All, ◌>>=◌, ok, ℤ, pos, negsuc, word, ℕ, zero, suc, ◌-◌, ◌<◌, ◌≡◌, refl, ◌⊎◌, Option,
  none, some, List, [], ◌∷◌, arith,
}
use hidefix.Extent.{get_start_count}
use hidefix.Extent.Convert.{from_start_count}
use hidefix.Python.{Indices, clip, PySlice, Element, part, integer, get_item, array_dims}
use hidefix.Python.Items.{item, place, get_item-integer, array_dims-product}
use hidefix.Python.Boxes.{at_index, between, IsInside, get_item-IsInside}

abbrev pub Ends : Type 0
Ends = ℤ × (ℤ × ℤ)

-- A slice that has another step has no indices here.
abbrev indices_of : Ends → ℕ → Option Indices
indices_of (a, (b, pos (suc zero))) n =
    some (record { start = pos (clip a n); stop = pos (clip b n); step = pos 1 })
indices_of (a, (b, pos zero)) n = none
indices_of (a, (b, pos (suc (suc k)))) n = none
indices_of (a, (b, negsuc k)) n = none

abbrev pub slices_of_python : PySlice Ends
slices_of_python = record {
  new = λ a b step. (a, (b, step));
  indices = indices_of;
  indices-new = λ a b n h. refl;
}

-- `ds[1:3, 2]` on a dataset of shape (4, 6, 5).
abbrev elements : List (Element Ends)
elements = part (pos 1, (pos 3, pos 1)) ∷ integer (some (pos 2)) ∷ []

get_item-IsInside_example :
    (get_item slices_of_python elements (4 ∷ 6 ∷ 5 ∷ []) ≡ ok (1 ∷ 2 ∷ 0 ∷ [], 2 ∷ 1 ∷ 5 ∷ []))
    × IsInside (4 ∷ 6 ∷ 5 ∷ []) (1 ∷ 2 ∷ 0 ∷ []) (2 ∷ 1 ∷ 5 ∷ [])
    × ((from_start_count (1 ∷ 2 ∷ 0 ∷ []) (2 ∷ 1 ∷ 5 ∷ []) >>= λ e.
          get_start_count e (4 ∷ 6 ∷ 5 ∷ []))
        ≡ ok (1 ∷ 2 ∷ 0 ∷ [], 2 ∷ 1 ∷ 5 ∷ []))
get_item-IsInside_example =
    get_item-IsInside slices_of_python elements (4 ∷ 6 ∷ 5 ∷ []) (1 ∷ 2 ∷ 0 ∷ []) (2 ∷ 1 ∷ 5 ∷ [])
      (omega arith, (omega arith, (omega arith, tt)))
      (
        between (pos 1, (pos 3, pos 1)) 1 3 refl (omega arith) (omega arith),
        (at_index 2 (omega arith), ((refl, refl), tt)),
      )

-- `ds[2]`, `ds[-4]` and `ds[-1]` on 5 indices.
get_item-integer_example :
    (item slices_of_python (pos 2) 5 ≡ ok (place 2 1))
    × (item slices_of_python (negsuc 3) 5 ≡ ok (place 1 1))
    × (item slices_of_python (negsuc 0) 5 ≡ ok (place 4 (word - 4)))
get_item-integer_example = get_item-integer slices_of_python 2 5 (omega arith) (omega arith)

array_dims-product_example :
    ((All (λ c. 0 < c) (3 ∷ 0 ∷ [])) × (product (array_dims (3 ∷ 0 ∷ [])) ≡ product (3 ∷ 0 ∷ [])))
    ⊎ ((product (3 ∷ 0 ∷ []) ≡ 0) × (0 < product (array_dims (3 ∷ 0 ∷ []))))
array_dims-product_example = array_dims-product (3 ∷ 0 ∷ [])
