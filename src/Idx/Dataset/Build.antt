-- ===== src/Idx/Dataset/Build.antt =====
-- src/idx/dataset/dataset.rs: what `Dataset::new` computes.
use native.Mathlib.Nat.{mod-eq_of_lt, le-mul_of_pos_right, mul_comm, lt_of_le_of_lt}
use mathlib.Core.List.{foldl, reverse-append, reverse-cons}
use hidefix.Base.{
  ne→==, product, All, collect, ok, word, mul64, product64, product64-eq-mod, product-reverse, zip,
  ℕ, ◌%◌, ◌<◌, ◌≡◌, refl, ap, ap₂, ◌∙◌, Bool, Option, List, [], ◌∷◌, ◌++◌, map, reverse, arith,
}
use hidefix.Idx.Chunk.{Chunk}
use hidefix.Idx.Dataset as Datasets
use hidefix.Idx.Dataset.{Dataset, div_ceil, scan_products, dim_sizes, size}
use hidefix.Idx.Dataset.Grid.{Cell, blocks, tails, blocks_of}
use hidefix.Idx.Datatype.{Datatype, dsize}
use hidefix.Idx.Divisor.{Divisor}
use hidefix.Filters.Byteorder.{Order}

scan_products-append :
    (p : ℕ) (xs : List ℕ) (x : ℕ)
    → scan_products p (xs ++ (x ∷ [])) ≡ scan_products p xs ++ (foldl mul64 p xs ∷ [])
unfolding scan_products
scan_products-append p [] x = refl
scan_products-append p (y ∷ ys) x = ap (◌∷◌ p) (scan_products-append (mul64 p y) ys x)

dim_sizes-cons : (d : ℕ) (ds : List ℕ) → dim_sizes (d ∷ ds) ≡ product64 (reverse ds) ∷ dim_sizes ds
unfolding dim_sizes product64
dim_sizes-cons d ds =
    ap (λ x. reverse (scan_products 1 x)) (reverse-cons d ds)
    ∙ ap reverse (scan_products-append 1 (reverse ds) d)
    ∙ reverse-append (scan_products 1 (reverse ds)) (foldl mul64 1 (reverse ds) ∷ [])

-- The sizes of the dimensions, made by a scan over the reversed shape, are for each dimension the
-- product of the sizes behind it, modulo 2^64.
pub dim_sizes-tails : (ds : List ℕ) → dim_sizes ds ≡ map (λ x. x % word) (tails ds)
unfolding dim_sizes scan_products
dim_sizes-tails [] = refl
dim_sizes-tails (d ∷ ds) =
    dim_sizes-cons d ds
    ∙ ap₂ ◌∷◌ (product64-eq-mod (reverse ds) ∙ ap (λ x. x % word) (product-reverse ds))
        (dim_sizes-tails ds)

tails-small :
    (ds : List ℕ)
    → All (λ d. 0 < d) ds
    → product ds < word
    → map (λ x. x % word) (tails ds) ≡ tails ds
tails-small [] p lt = refl
tails-small (d ∷ ds) p lt =
    let small : product ds < word =
      lt_of_le_of_lt (le-mul_of_pos_right (product ds) p.0) (rw (mul_comm (product ds) d) lt) in
    ap₂ ◌∷◌ (mod-eq_of_lt small) (tails-small ds p.1 small)

pub dim_sizes-eq-tails :
    (ds : List ℕ) → All (λ d. 0 < d) ds → product ds < word → dim_sizes ds ≡ tails ds
dim_sizes-eq-tails ds p lt = dim_sizes-tails ds ∙ tails-small ds p lt

pub div_ceil-eq-blocks : (a b : ℕ) → 0 < b → div_ceil a b ≡ ok (blocks a b)
unfolding div_ceil
div_ceil-eq-blocks a b h = rw (ne→== b 0 (omega arith)) refl

module _ {Sr : Type 0} ⦃r : Divisor Sr⦄ where
  -- A chunk size that is not 0, and its divisor.
  abbrev pub IsPrepared : Cell Sr → Type 0
  IsPrepared c = (0 < c.chunk_sz) × (r.new c.chunk_sz ≡ ok c.sru)

  collect-srus :
      (cs : List (Cell Sr))
      → All IsPrepared cs
      → collect r.new (map (λ c. c.chunk_sz) cs) ≡ ok (map (λ c. c.sru) cs)
  collect-srus [] p = refl
  collect-srus (c ∷ cs) p = rw (p.0.1, collect-srus cs p.1) refl

  collect-blocks :
      (cs : List (Cell Sr))
      → All IsPrepared cs
      → collect
          (λ (p : ℕ × ℕ). div_ceil p.0 p.1)
          (zip (map (λ c. c.size) cs) (map (λ c. c.chunk_sz) cs))
        ≡ ok (map blocks_of cs)
  unfolding zip
  collect-blocks [] p = refl
  collect-blocks (c ∷ cs) p =
      rw (div_ceil-eq-blocks c.size c.chunk_sz p.0.0, collect-blocks cs p.1) refl

  -- The dataset that `Dataset::new` makes.
  abbrev pub built : Datatype → Order → List Chunk → List (Cell Sr) → Bool → Option ℕ → Dataset Sr
  built dtype order chunks cs shuffle gzip = record {
    dtype = dtype;
    dsize = dsize dtype;
    order = order;
    chunks = chunks;
    shape = map (λ c. c.size) cs;
    chunk_shape = map (λ c. c.chunk_sz) cs;
    chunk_shape_reduced = map (λ c. c.sru) cs;
    scaled_dim_sz = tails (map blocks_of cs);
    dim_sz = dim_sizes (map (λ c. c.size) cs);
    chunk_dim_sz = dim_sizes (map (λ c. c.chunk_sz) cs);
    shuffle = shuffle;
    gzip = gzip;
  }

  -- On chunk sizes that are not 0 and a shape that is not empty, whose number of chunks `u64` holds,
  -- `Dataset::new` succeeds, and its scaled dimension sizes are the products of the numbers of chunks
  -- behind each dimension, rounded up.
  pub new-built :
      (dtype : Datatype) (order : Order) (chunks : List Chunk) (cs : List (Cell Sr))
      (shuffle : Bool) (gzip : Option ℕ)
      → All IsPrepared cs
      → All (λ d. 0 < d) (map blocks_of cs)
      → product (map blocks_of cs) < word
      → Datasets.new dtype order
          (map (λ c. c.size) cs)
          chunks
          (map (λ c. c.chunk_sz) cs)
          shuffle
          gzip
        ≡ ok (built dtype order chunks cs shuffle gzip)
  unfolding Datasets.new
  new-built dtype order chunks cs shuffle gzip p pos lt =
      rw (collect-srus cs p, collect-blocks cs p, dim_sizes-eq-tails (map blocks_of cs) pos lt) refl
