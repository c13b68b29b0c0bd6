-- ===== src/Idx/Index/Ends.antt =====
-- src/idx/index.rs and src/idx/dataset/dataset.rs: indexing a group ends.
use hidefix.Base.{
  All, Result, ◌>>=◌, or_panic, ok, err, panic, collect, ensure, ℕ, zero, suc, ◌+◌, ◌≡◌, refl, sym,
  ◌==◌, length, Option, if◌then◌else◌, none, some, List, [], ◌∷◌, arith, Error, Bool, true, false,
  subst, zip,
}
use hidefix.Idx.Any.{DatasetD, of_rank}
use hidefix.Idx.Any as Any
use hidefix.Idx.Chunk.{cmp}
use hidefix.Idx.Chunk.Sorted.{SliceSort}
use hidefix.Idx.Dataset.{Dataset, div_ceil}
use hidefix.Idx.Dataset as Datasets
use hidefix.Idx.Dataset.Index.{
  filters_loop, array, chunk_from, chunk_shape_or, chunked, layout_chunks, expected_chunks,
}
use hidefix.Idx.Dataset.Index as DatasetIndex
use hidefix.Idx.Divisor.{Divisor}
use hidefix.Idx.Hdf5.{Filter, shuffle, deflate, other_filter, ChunkInfo, Hdf5}
use hidefix.Idx.Index.{
  Hdf5Group, GroupIndex, Groups, no_groups, insert_group, index_groups, index_datasets, index_group,
  take_member, is_allocated,
}
use hidefix.Idx.Index.Deep.{All_weaken, IsDeep, index_group-IsDeep}
use hidefix.Idx.Names.{Text}

-- A computation that ends: with a value, an error or a panic, and is not out of fuel.
pub data Ends {A : Type 0} : Result A → Type 0 where
  returns : (a : A) → Ends (ok a)
  fails : (e : Error) → Ends (err e)
  panics : Ends panic

bind-Ends :
    {A B : Type 0} {m : Result A} (f : A → Result B)
    → Ends m
    → ((a : A) → Ends (f a))
    → Ends (m >>= f)
bind-Ends f (returns a) k = k a
bind-Ends f (fails e) k = fails e
bind-Ends f panics k = panics

-- The same where what follows is known to end on the value only.
bind_value-Ends :
    {A B : Type 0} {m : Result A} (f : A → Result B)
    → Ends m
    → ((a : A) → m ≡ ok a → Ends (f a))
    → Ends (m >>= f)
bind_value-Ends f (returns a) k = k a refl
bind_value-Ends f (fails e) k = fails e
bind_value-Ends f panics k = panics

collect-Ends :
    {A B : Type 0} (f : A → Result B) → ((a : A) → Ends (f a)) → (xs : List A) → Ends (collect f xs)
collect-Ends f h [] = returns _
collect-Ends f h (x ∷ xs) =
    bind-Ends _ (h x) (λ y. bind-Ends _ (collect-Ends f h xs) (λ ys. returns _))

ensure-Ends : (b : Bool) (e : Error) → Ends (ensure b e)
ensure-Ends true e = returns _
ensure-Ends false e = fails e

or_panic-Ends : {A : Type 0} (o : Option A) → Ends (or_panic o)
or_panic-Ends none = panics
or_panic-Ends (some a) = returns a

-- The calls of the library come back: with an answer, an error or a panic.
pub record Answers {G D T : Type 0} (hg : Hdf5Group G D) (h : Hdf5 D T) : Type 0 where
  pub lists : (grp : G) → Ends (hg.member_names grp)
  pub nests : (grp : G) → Ends (hg.groups grp)
  pub types : (d : D) → Ends (h.dtype d)
  pub visits : (d : D) → Ends (h.chunks_visit d).1

filters_loop-Ends :
    (shuffled : Bool) (gzip : Option ℕ) (fs : List Filter) → Ends (filters_loop shuffled gzip fs)
unfolding filters_loop
filters_loop-Ends shuffled gzip [] = returns _
filters_loop-Ends shuffled gzip (shuffle ∷ fs) = filters_loop-Ends true gzip fs
filters_loop-Ends shuffled gzip (deflate z ∷ fs) = filters_loop-Ends shuffled (some z) fs
filters_loop-Ends shuffled gzip (other_filter ∷ fs) = fails _

if-Ends : {A : Type 0} (b : Bool) {m n : Result A} → Ends m → Ends n → Ends (if b then m else n)
if-Ends true p q = p
if-Ends false p q = q

chunk_shape_or-Ends :
    (d : ℕ) (shape : List ℕ) (o : Option (List ℕ)) → Ends (chunk_shape_or d shape o)
unfolding chunk_shape_or
chunk_shape_or-Ends d shape none = returns shape
chunk_shape_or-Ends d shape (some cs) = if-Ends (length cs == d) (returns cs) panics

div_ceil-Ends : (a b : ℕ) → Ends (div_ceil a b)
unfolding div_ceil
div_ceil-Ends a b = if-Ends (b == 0) panics (returns _)

ceils-Ends : (ps : List (ℕ × ℕ)) → Ends (collect (λ (p : ℕ × ℕ). div_ceil p.0 p.1) ps)
ceils-Ends = collect-Ends (λ (p : ℕ × ℕ). div_ceil p.0 p.1) (λ p. div_ceil-Ends p.0 p.1)

chunk_from-Ends : (d : ℕ) (c : ChunkInfo) → Ends (chunk_from d c)
unfolding chunk_from
chunk_from-Ends d c = if-Ends (length c.offset == d) (returns _) panics

expected_chunks-Ends : (shape chunk_shape : List ℕ) → Ends (expected_chunks shape chunk_shape)
unfolding expected_chunks
expected_chunks-Ends shape chunk_shape =
    bind-Ends _ (ceils-Ends (zip shape chunk_shape)) (λ ns. returns _)

new-Ends : (Sr : Type 0) ⦃r : Divisor Sr⦄ (n : ℕ) → Ends (r.new n)
new-Ends Sr ⦃r⦄ zero = subst Ends (sym r.new-zero) panics
new-Ends Sr ⦃r⦄ (suc n) = subst Ends (sym (r.new-pos (suc n) (omega arith)).1) (returns _)

module _ (Sr : Type 0) {D T G : Type 0} ⦃r : Divisor Sr⦄ (hg : Hdf5Group G D) (h : Hdf5 D T)
    (sort : SliceSort) (answers : Answers hg h) where
  layout_chunks-Ends :
      (d : ℕ) (ds : D) (is_chunked : Bool) (offset : Option ℕ)
      → Ends (layout_chunks h d ds is_chunked offset)
  unfolding layout_chunks chunked
  layout_chunks-Ends d ds false (some offset) = returns _
  layout_chunks-Ends d ds false none = fails _
  layout_chunks-Ends d ds true (some offset) = fails _
  layout_chunks-Ends d ds true none = bind-Ends _ (or_panic-Ends (h.num_chunks ds)) (λ n.
      bind-Ends _ (collect-Ends (chunk_from d) (chunk_from-Ends d) (h.chunks_visit ds).0)
        (λ v. bind-Ends _ (answers.visits ds) (λ done. returns v)))

  dataset-Ends : (d : ℕ) (ds : D) → Ends (DatasetIndex.index {Sr = Sr} h sort d ds)
  unfolding DatasetIndex.index array Datasets.new
  dataset-Ends d ds = bind-Ends _ (ensure-Ends (h.ndim ds == d) Error.dataset_rank_mismatch) (λ u.
      bind-Ends _ (filters_loop-Ends _ _ _) (λ fs. bind-Ends _ (answers.types ds) (λ dtype.
        bind-Ends _ (if-Ends (length (h.shape ds) == d) (returns _) (fails _)) (λ shape.
          bind-Ends _ (chunk_shape_or-Ends _ _ _) (λ cs.
            bind-Ends _ (layout_chunks-Ends _ _ _ _) (λ chunks.
              bind-Ends _ (expected_chunks-Ends _ _) (λ expected.
                bind-Ends _
                  (ensure-Ends (length (sort.sort cmp chunks) == expected) Error.unexpected_chunks)
                  (λ v. bind-Ends _ (collect-Ends r.new (new-Ends Sr) cs) (λ reduced.
                    bind-Ends _ (ceils-Ends (zip shape cs)) (λ scaled. returns _))))))))))

  any-Ends : (ds : D) → Ends (Any.index {Sr = Sr} h sort ds)
  unfolding Any.index
  any-Ends ds =
      elim (of_rank {Sr = Sr} (h.ndim ds))
        as (λ arm. Ends (elim arm [
          | none ↦ panic
          | some arm' ↦ DatasetIndex.index h sort (h.ndim ds) ds >>= λ d. ok (arm' d)
        ])) [ none ↦ panics | some arm ↦ bind-Ends _ (dataset-Ends _ ds) (λ d. returns _) ]

  take_member-Ends :
      (m : Text) (o : Option D) (ds : List (Text × DatasetD Sr))
      → Ends (take_member hg h sort m o ds)
  unfolding take_member
  take_member-Ends m none ds = returns _
  take_member-Ends m (some d) ds =
      if-Ends (is_allocated h d) (bind-Ends _ (any-Ends d) (λ x. returns _)) (returns ds)

  index_datasets-Ends :
      (grp : G) (names : List Text) (ds : List (Text × DatasetD Sr))
      → Ends (index_datasets hg h sort grp names ds)
  unfolding index_datasets
  index_datasets-Ends grp [] ds = returns _
  index_datasets-Ends grp (m ∷ ms) ds =
      bind-Ends _ (take_member-Ends m _ ds) (index_datasets-Ends grp ms)

module _ {Sr P G D : Type 0} (hg : Hdf5Group G D) where
  index_groups-Ends :
      (one : G → Result (GroupIndex Sr P)) (grps : List G)
      → All (λ x. Ends (one x)) grps
      → (gs : Groups Sr P) → Ends (index_groups hg one grps gs)
  unfolding index_groups
  index_groups-Ends one [] each gs = returns _
  index_groups-Ends one (x ∷ xs) each gs = bind-Ends _ each.0 (λ idx.
      bind-Ends _ (or_panic-Ends _) (λ s. index_groups-Ends one xs each.1 (insert_group s idx gs)))

module _ (Sr : Type 0) {G D T P : Type 0} ⦃r : Divisor Sr⦄ (hg : Hdf5Group G D) (h : Hdf5 D T)
    (sort : SliceSort) (p : Option P) (answers : Answers hg h) where
  index_group-Ends :
      (n : ℕ) (grp : G) → IsDeep hg n grp → Ends (index_group {Sr = Sr} hg h sort n grp p)
  unfolding index_group
  index_group-Ends zero grp deep = absurd deep
  index_group-Ends (suc n) grp deep = bind-Ends _ (answers.lists grp) (λ names.
      bind-Ends _ (index_datasets-Ends Sr hg h sort answers grp names []) (λ ds.
        bind_value-Ends _ (answers.nests grp) (λ grps e.
          bind-Ends _
            (index_groups-Ends hg _ grps (All_weaken (index_group-Ends n) grps (deep grps e))
              no_groups)
            (λ gs. returns _))))

  -- Where each call of the library comes back, with an answer, an error or a panic (`Answers`), indexing
  -- a group on fuel for its levels ends with an index, an error or a panic, and is not out of fuel; on
  -- any more fuel it ends in the same way.
  pub index_group_ends :
      (n more : ℕ) (grp : G)
      → IsDeep hg n grp
      → Ends (index_group {Sr = Sr} hg h sort n grp p)
        × (index_group {Sr = Sr} hg h sort (n + more) grp p ≡ index_group hg h sort n grp p)
  index_group_ends n more grp deep =
      (index_group-Ends n grp deep, index_group-IsDeep hg h sort p n more grp deep)
