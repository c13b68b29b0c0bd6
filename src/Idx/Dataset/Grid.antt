-- ===== src/Idx/Dataset/Grid.antt =====
-- src/idx/dataset/dataset.rs: `chunk_at_coord` on a dataset whose chunks are a grid in row-major order.
use native.Mathlib.Nat.{
  add-zero, zero-add, mod-add-div, mod-lt, mul-le-mul_left, lt_of_mul-lt-mul_left, zero-mul,
}
use hidefix.Base.{
  ltb, if◌then◌else◌, lt→ltb, le→ltb, length, get_elem?, length-append, length-map, product, All,
  ok, word, add64-eq-add, mul64-eq-mul, get_elem?-append_left, get_elem?-append_right,
  get_elem?-map, get_elem?-of_map, ℕ, zero, suc, ◌+◌, ◌*◌, ◌/◌, ◌%◌, ◌≤◌, ◌<◌, ◌≡◌, refl, sym, ap,
  ◌∙◌, some, List, [], ◌∷◌, ◌++◌, map, dec_lt, arith,
}
use hidefix.Idx.Chunk.{Chunk}
use hidefix.Idx.Dataset.{Dataset, coord_loop, chunk_at_coord}
use hidefix.Idx.Divisor.{Divisor}

-- How many chunks of `c` indices hold `s` indices.
abbrev pub blocks : ℕ → ℕ → ℕ
blocks s c = if ltb 0 (s % c) then s / c + 1 else s / c

-- The offsets of a row of `k` blocks, from the `b`-th on.
abbrev pub rows : ℕ → List (List ℕ) → (k b : ℕ) → List (List ℕ)
rows c inner zero b = []
rows c inner (suc k) b = map (λ o. b * c ∷ o) inner ++ rows c inner k (suc b)

-- The offsets of the chunks of a shape, in row-major order.
abbrev pub grid : (shape chunk_shape : List ℕ) → List (List ℕ)
grid (s ∷ ss) (c ∷ cs) = rows c (grid ss cs) (blocks s c) 0
grid _ _ = [] ∷ []

-- The products of the sizes behind each dimension.
abbrev pub tails : List ℕ → List ℕ
tails [] = []
tails (b ∷ bs) = product bs ∷ tails bs

-- One index of a dataset in one dimension.
pub record Cell (Sr : Type 0) : Type 0 where
  pub at_index : ℕ
  pub size : ℕ
  pub chunk_sz : ℕ
  pub sru : Sr

pub length-rows :
    (c : ℕ) (inner : List (List ℕ)) (k b : ℕ) → length (rows c inner k b) ≡ k * length inner
length-rows c inner zero b = rw (zero-mul (length inner)) refl
length-rows c inner (suc k) b =
    rw
      (
        length-append (map (λ o. b * c ∷ o) inner) (rows c inner k (suc b)),
        length-map (λ (o : List ℕ). b * c ∷ o) inner,
        length-rows c inner k (suc b),
      )
      (omega arith)

rows-get :
    (c : ℕ) (inner : List (List ℕ)) (k b j i : ℕ) (o : List ℕ)
    → j < k
    → get_elem? inner i ≡ some o
    → get_elem? (rows c inner k b) (j * length inner + i) ≡ some ((b + j) * c ∷ o)
rows-get c inner zero b j i o lt h = absurd (omega arith)
rows-get c inner (suc k) b zero i o lt h =
    let e : zero * length inner + i ≡ i = rw (zero-mul (length inner)) (zero-add i) in
    let f : List ℕ → List ℕ = λ o'. b * c ∷ o' in
    rw (e, add-zero b) (get_elem?-append_left (map f inner) _ i (get_elem?-map f inner i h))
rows-get c inner (suc k) b (suc j) i o lt h =
    let f : List ℕ → List ℕ = λ o'. b * c ∷ o' in
    let split : suc j * length inner + i ≡ length (map f inner) + (j * length inner + i) =
      rw (length-map f inner) (omega arith) in
    rw
      (
        split,
        get_elem?-append_right (map f inner) (rows c inner k (suc b)) (j * length inner + i),
        rows-get c inner k (suc b) j i o (omega arith) h,
      )
      (ap (λ x. some (x * c ∷ o)) (omega arith))

module _ {Sr : Type 0} where
  abbrev pub blocks_of : Cell Sr → ℕ
  blocks_of c = blocks c.size c.chunk_sz

  abbrev pub base_of : Cell Sr → ℕ
  base_of c = c.at_index / c.chunk_sz * c.chunk_sz

  -- The number of the chunk.
  abbrev pub chunk_number : List (Cell Sr) → ℕ
  chunk_number [] = 0
  chunk_number (c ∷ cs) = c.at_index / c.chunk_sz * product (map blocks_of cs) + chunk_number cs

  pub length-grid :
      (cs : List (Cell Sr))
      → length (grid (map (λ c. c.size) cs) (map (λ c. c.chunk_sz) cs)) ≡ product (map blocks_of cs)
  length-grid [] = refl
  length-grid (c ∷ cs) =
      length-rows c.chunk_sz _ (blocks_of c) 0 ∙ ap (λ x. blocks_of c * x) (length-grid cs)

  abbrev pub InCell : Cell Sr → Type 0
  InCell c = (c.at_index < c.size) × (0 < c.chunk_sz)

  block-lt : (c : Cell Sr) → InCell c → c.at_index / c.chunk_sz < blocks_of c
  block-lt c h =
      let less = mod-add-div c.at_index c.chunk_sz in
      let all = mod-add-div c.size c.chunk_sz in
      elim (dec_lt 0 (c.size % c.chunk_sz)) [
        | yes p ↦
            rw (lt→ltb 0 (c.size % c.chunk_sz) p)
              (lt_of_mul-lt-mul_left c.chunk_sz (omega (arith, mod-lt c.size h.1)))
        | no p ↦
            rw (le→ltb 0 (c.size % c.chunk_sz) (omega arith))
              (lt_of_mul-lt-mul_left c.chunk_sz (omega arith))
      ]

  pub blocks-pos : (cs : List (Cell Sr)) → All InCell cs → All (λ d. 0 < d) (map blocks_of cs)
  blocks-pos [] p = tt
  blocks-pos (c ∷ cs) p = (omega (arith, block-lt c p.0), blocks-pos cs p.1)

  grid-get :
      (cs : List (Cell Sr))
      → All InCell cs
      → get_elem? (grid (map (λ c. c.size) cs) (map (λ c. c.chunk_sz) cs)) (chunk_number cs)
        ≡ some (map base_of cs)
  grid-get [] p = refl
  grid-get (c ∷ cs) p = rw (← length-grid cs) (
      rows-get c.chunk_sz _ (blocks_of c) 0 (c.at_index / c.chunk_sz) (chunk_number cs)
        (map base_of cs) (block-lt c p.0) (grid-get cs p.1)
      ∙ rw (zero-add (c.at_index / c.chunk_sz)) refl)

  chunk_number-lt :
      (cs : List (Cell Sr)) → All InCell cs → chunk_number cs < product (map blocks_of cs)
  chunk_number-lt [] p = omega arith
  chunk_number-lt (c ∷ cs) p =
      let le : product (map blocks_of cs) * (c.at_index / c.chunk_sz + 1)
          ≤ product (map blocks_of cs) * blocks_of c =
        mul-le-mul_left (product (map blocks_of cs)) (omega (arith, block-lt c p.0)) in
      omega (arith, chunk_number-lt cs p.1)

module _ {Sr : Type 0} ⦃r : Divisor Sr⦄ where
  -- An index inside the shape, a chunk that is not empty, and its divisor.
  abbrev pub IsCell : Cell Sr → Type 0
  IsCell c = InCell c × (r.get c.sru ≡ c.chunk_sz)

  pub All-InCell : (cs : List (Cell Sr)) → All IsCell cs → All InCell cs
  All-InCell [] p = tt
  All-InCell (c ∷ cs) p = (p.0.0, All-InCell cs p.1)

  coord_loop-chunk_number :
      (off : ℕ) (cs : List (Cell Sr))
      → All IsCell cs
      → off + chunk_number cs < word
      → coord_loop off (map (λ c. c.at_index) cs) (map (λ c. c.sru) cs) (tails (map blocks_of cs))
        ≡ off + chunk_number cs
  unfolding coord_loop
  coord_loop-chunk_number off [] p fit = omega arith
  coord_loop-chunk_number off (c ∷ cs) p fit =
      let z : ℕ = product (map blocks_of cs) in
      let e1 = mul64-eq-mul (c.at_index / c.chunk_sz) z (omega arith) in
      let e2 = add64-eq-add off (c.at_index / c.chunk_sz * z) (omega arith) in
      rw (r.div-eq c.at_index c.sru, p.0.1, e1, e2)
        (coord_loop-chunk_number (off + c.at_index / c.chunk_sz * z) cs p.1 (omega arith)
          ∙ omega arith)

  -- The chunks are the grid of the shape, in row-major order, and `u64` holds their number.
  pub record HasGrid (ds : Dataset Sr) : Type 0 where
    pub ordered : map (λ c. c.offset) ds.chunks ≡ grid ds.shape ds.chunk_shape
    pub countable : length ds.chunks < word

  -- On a dataset whose chunks are the row-major grid of its shape, fewer than 2^64, with its divisors and
  -- scaled dimension sizes, `chunk_at_coord` gives for an index inside the
  -- shape the chunk whose offset is the index rounded down to the chunk shape in each dimension.
  pub chunk_at_coord-grid :
      (ds : Dataset Sr) (cs : List (Cell Sr))
      → All IsCell cs
      → ds.shape ≡ map (λ c. c.size) cs
      → ds.chunk_shape ≡ map (λ c. c.chunk_sz) cs
      → ds.chunk_shape_reduced ≡ map (λ c. c.sru) cs
      → ds.scaled_dim_sz ≡ tails (map blocks_of cs)
      → HasGrid ds
      → (c : Chunk) × (chunk_at_coord ds (map (λ c. c.at_index) cs) ≡ ok c)
        × (c.offset ≡ map base_of cs)
  unfolding chunk_at_coord
  chunk_at_coord-grid ds cs p shape chunk_shape reduced scaled g =
      let len : length ds.chunks ≡ product (map blocks_of cs) =
        sym (length-map (λ (c : Chunk). c.offset) ds.chunks)
        ∙ ap length g.ordered
        ∙ rw (shape, chunk_shape) (length-grid cs) in
      let fit : 0 + chunk_number cs < word =
        omega (arith, chunk_number-lt cs (All-InCell cs p), len, g.countable) in
      let (c, at, here) =
        get_elem?-of_map (λ (c : Chunk). c.offset) ds.chunks (chunk_number cs)
          (rw (g.ordered, shape, chunk_shape) (grid-get cs (All-InCell cs p))) in
      (c, rw (reduced, scaled, coord_loop-chunk_number 0 cs p fit, zero-add, at) refl, here)
