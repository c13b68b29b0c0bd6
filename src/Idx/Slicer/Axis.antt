-- ===== src/Idx/Slicer/Axis.antt =====
-- src/idx/dataset/dataset.rs: what `ChunkSlicer` stands for. An axis is one dimension of the dataset with
-- the selection along it; a list of axes begins with the innermost (last) dimension.
use native.Mathlib.Nat.{
  mod-lt, mul-pos, lt_of_le_of_lt, le-mul_of_pos_right, add-mul-mod_self_left, add-mul-div_left,
  mod-add-div, mod-add-div', mod-eq_of_lt, div-eq_of_lt,
}
use hidefix.Base.{
  word, ℕ, ◌+◌, ◌-◌, ◌*◌, ◌/◌, ◌%◌, ◌≤◌, ◌<◌, min, ◌≡◌, ◌≢◌, ◌⊎◌, ◌∙◌, List, [], ◌∷◌, arith,
}
use hidefix.Idx.Divisor.{Divisor, number}
use hidefix.Idx.Slicer.{Dim}

pub record Axis (Sr : Type 0) : Type 0 where
  pub idx : ℕ
  pub count : ℕ
  pub sru : Sr
  pub chunk_sz : ℕ
  pub chunk_dim_sz : ℕ
  pub shape : ℕ

module _ {Sr : Type 0} where
  -- The coordinates, from the start of the selection, of its `n`-th value in row-major order.
  abbrev pub digits : List (Axis Sr) → ℕ → List ℕ
  digits [] n = []
  digits (a ∷ as') n = n % a.count ∷ digits as' (n / a.count)

  -- The offset of the chunk that holds that value.
  abbrev pub bases : List (Axis Sr) → ℕ → List ℕ
  bases [] n = []
  bases (a ∷ as') n = (a.idx + n % a.count) / a.chunk_sz * a.chunk_sz ∷ bases as' (n / a.count)

  -- The position of that value in its chunk, which is stored in row-major order as well. `sz` is the
  -- size of the chunk in the dimensions further in.
  abbrev pub position : ℕ → List (Axis Sr) → ℕ → ℕ
  position sz [] n = 0
  position sz (a ∷ as') n =
      (a.idx + n % a.count) % a.chunk_sz * sz + position (sz * a.chunk_sz) as' (n / a.count)

  -- How many values the selection has.
  abbrev pub total : List (Axis Sr) → ℕ
  total [] = 1
  total (a ∷ as') = a.count * total as'

  -- The tuple that the loop of `next` sees for one axis at the `n`-th value, and those of all axes.
  abbrev pub dim_at : Axis Sr → ℕ → Dim Sr
  dim_at a n = record {
    idx = a.idx;
    offset = n % a.count;
    count = a.count;
    count_sru = a.sru;
    chunk_offset = (a.idx + n % a.count) / a.chunk_sz * a.chunk_sz;
    chunk_sz = a.chunk_sz;
    chunk_dim_sz = a.chunk_dim_sz;
    dataset_shape = a.shape;
  }

  abbrev pub dims_at : List (Axis Sr) → ℕ → List (Dim Sr)
  dims_at [] n = []
  dims_at (a ∷ as') n = dim_at a n ∷ dims_at as' (n / a.count)

  -- The first index behind the chunk of the `n`-th value along this axis, cut at the end of the
  -- selection, from the start of the selection.
  abbrev pub reach : Axis Sr → ℕ → ℕ
  reach a n = min a.count ((a.idx + n % a.count) / a.chunk_sz * a.chunk_sz + a.chunk_sz - a.idx)

  -- The selection along this axis is one whole chunk, and the loop does not take the axis for one
  -- that is not chunked.
  pub record IsCovered (a : Axis Sr) : Type 0 where
    pub aligned : a.idx % a.chunk_sz ≡ 0
    pub whole : a.count ≡ a.chunk_sz
    pub thick : (2 ≤ a.count) ⊎ (a.chunk_dim_sz ≢ 1)

module _ {Sr : Type 0} ⦃r : Divisor Sr⦄ where
  -- One axis: a selection within the dataset and not empty, a chunk that is not empty, and sizes that
  -- `u64` holds.
  pub record IsAxis (a : Axis Sr) : Type 0 where
    pub divides : r.get a.sru ≡ a.count
    pub count_pos : 0 < a.count
    pub chunk_pos : 0 < a.chunk_sz
    pub inside : a.idx + a.count ≤ a.shape
    pub fits : a.shape + a.chunk_sz < word

  -- All axes, with `chunk_dim_sz` the product of the chunk sizes further in, which `u64` holds too.
  abbrev pub AreAxes : ℕ → List (Axis Sr) → Type 0
  AreAxes sz [] = sz < word
  AreAxes sz (a ∷ as') = (a.chunk_dim_sz ≡ sz) × IsAxis a × AreAxes (sz * a.chunk_sz) as'

  pub total_pos : (sz : ℕ) (as' : List (Axis Sr)) → AreAxes sz as' → 0 < total as'
  total_pos sz [] h = omega arith
  total_pos sz (a ∷ as') h = mul-pos h.1.count_pos (total_pos (sz * a.chunk_sz) as' h.2)

  pub sz-lt : (sz : ℕ) (as' : List (Axis Sr)) → AreAxes sz as' → sz < word
  sz-lt sz [] h = h
  sz-lt sz (a ∷ as') h =
      lt_of_le_of_lt (le-mul_of_pos_right sz h.1.chunk_pos) (sz-lt (sz * a.chunk_sz) as' h.2)

-- A number from its quotient and remainder.
pub div-mod_of_sum : (m q c : ℕ) → m < c → ((m + c * q) % c ≡ m) × ((m + c * q) / c ≡ q)
div-mod_of_sum m q c h = (
  add-mul-mod_self_left m c q ∙ mod-eq_of_lt h,
  add-mul-div_left m q {y = c} (omega arith) ∙ omega (arith, div-eq_of_lt h),
)

-- Adding `t` within the remainder.
pub mod-add_lt : (n c t : ℕ) → n % c + t < c → ((n + t) % c ≡ n % c + t) × ((n + t) / c ≡ n / c)
mod-add_lt n c t h =
    let whole : n + t ≡ n % c + t + c * (n / c) = omega (arith, mod-add-div n c) in
    rw whole (div-mod_of_sum (n % c + t) (n / c) c h)

-- Adding what is missing to the next multiple.
pub mod-add_eq : (n c t : ℕ) → 0 < c → n % c + t ≡ c → ((n + t) % c ≡ 0) × ((n + t) / c ≡ n / c + 1)
mod-add_eq n c t p h =
    let whole : n + t ≡ 0 + c * (n / c + 1) = omega (arith, mod-add-div n c) in
    rw whole (div-mod_of_sum 0 (n / c + 1) c p)

-- The chunk of a coordinate begins at or before it and ends behind it.
pub base_bounds : (x ch : ℕ) → 0 < ch → (x / ch * ch ≤ x) × (x < x / ch * ch + ch)
base_bounds x ch h =
    (omega (arith, mod-add-div' x ch), omega (arith, mod-add-div' x ch, mod-lt x h))

-- Coordinates of one chunk have one base.
pub base_same : (x ch t : ℕ) → 0 < ch → x + t < x / ch * ch + ch → (x + t) / ch ≡ x / ch
base_same x ch t h fit = (mod-add_lt x ch t (omega (arith, mod-add-div' x ch))).1
