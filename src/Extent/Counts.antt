-- ===== src/Extent/Counts.antt =====
-- src/extent.rs: `get_counts`, `get_start_count` and `get_start_count_sized` on every input.
use hidefix.Base.{
  stuck, ◌==◌, if◌then◌else◌, ==_refl, ==→eq, Bool-cases, length, replicate, length-replicate,
  length-map, All, Error, Result, ◌>>=◌, or_panic, collect, ok, err, panic, zip, ℕ, suc, ◌+◌, ◌≤◌,
  ◌<◌, ◌≡◌, refl, ap, ◌↔◌, inl, inr, some, List, [], ◌∷◌, map, arith,
}
use hidefix.Extent.{
  Extent, slice, slice_end, slice_count, Extents, extent, start, count, canonicalise, extents,
  items, canonical_extents, get_start_count, ExtentIterator, get_counts, get_start_count_sized,
}
use hidefix.Extent.Convert.{Range, from_range, from_ranges, from_start_count}
use hidefix.Extent.Select.{count_in, Picks, IsInRange, canonicalise-Picks}

abbrev pub counts_in : List Extent → List ℕ → List ℕ
counts_in [] ds = []
counts_in (e ∷ es) [] = []
counts_in (e ∷ es) (d ∷ ds) = count_in e d ∷ counts_in es ds

count-canonicalise : (e : Extent) (d : ℕ) → count (canonicalise e d) ≡ some (count_in e d)
unfolding count canonicalise
count-canonicalise (Extent.index n) d = refl
count-canonicalise (slice s) d = refl
count-canonicalise (slice_end s e) d = refl
count-canonicalise (slice_count s c) d = refl

start-canonicalise : (e : Extent) (d : ℕ) → start (canonicalise e d) ≡ start e
unfolding start canonicalise
start-canonicalise (Extent.index n) d = refl
start-canonicalise (slice s) d = refl
start-canonicalise (slice_end s e) d = refl
start-canonicalise (slice_count s c) d = refl

module _ where
  collect-all :
      (dims : List ℕ) → collect (λ x. or_panic (count x)) (map (slice_count 0) dims) ≡ ok dims
  unfolding count
  collect-all [] = refl
  collect-all (d ∷ ds) = rw (collect-all ds)

  starts-all : (dims : List ℕ) → map start (map (slice_count 0) dims) ≡ replicate (length dims) 0
  unfolding start
  starts-all [] = refl
  starts-all (d ∷ ds) = ap (◌∷◌ 0) (starts-all ds)

  collect-zip :
      (es : List Extent) (dims : List ℕ)
      → collect (λ x. or_panic (count x)) (items (extents (zip es dims))) ≡ ok (counts_in es dims)
  unfolding items zip
  collect-zip [] ds = refl
  collect-zip (e ∷ es) [] = refl
  collect-zip (e ∷ es) (d ∷ ds) = rw (count-canonicalise e d, collect-zip es ds)

  starts-zip :
      (es : List Extent) (dims : List ℕ)
      → length es ≡ length dims
      → map start (items (extents (zip es dims))) ≡ map start es
  unfolding items zip
  starts-zip [] ds h = refl
  starts-zip (e ∷ es) [] h = absurd (omega arith)
  starts-zip (e ∷ es) (d ∷ ds) h = rw (start-canonicalise e d, starts-zip es ds (omega arith))

-- What a selection gives on a dataset of these dimensions, with the error.
abbrev pub selection : Extents → List ℕ → Result (List ℕ × List ℕ)
selection Extents.all dims = ok (replicate (length dims) 0, dims)
selection (extent es) dims =
    if length es == length dims
    then ok (map start es, counts_in es dims)
    else err Error.length_mismatch

-- `get_start_count` gives the starts and counts of the selection, taken extent by extent, or the error
-- on another rank, on every input.
pub get_start_count-eq-selection :
    (e : Extents) (dims : List ℕ) → get_start_count e dims ≡ selection e dims
unfolding get_start_count canonical_extents items
get_start_count-eq-selection Extents.all dims = rw (collect-all dims, starts-all dims)
get_start_count-eq-selection (extent es) dims = elim (Bool-cases (length es == length dims)) [
  | inl h ↦ rw (h, collect-zip es dims, starts-zip es dims (==→eq _ _ h))
  | inr h ↦ rw h
]

-- The rank test of `get_start_count_sized` never fails on a shape of that rank.
pub get_start_count_sized-eq-get_start_count :
    (e : Extents) (dims : List ℕ)
    → get_start_count_sized (length dims) e dims ≡ get_start_count e dims
unfolding get_start_count_sized
get_start_count_sized-eq-get_start_count Extents.all dims = rw (
  get_start_count-eq-selection Extents.all dims,
  length-replicate {A = ℕ} (length dims) 0,
  ==_refl (length dims),
)
get_start_count_sized-eq-get_start_count (extent es) dims =
    elim (Bool-cases (length es == length dims)) [
      | inl h ↦ rw (get_start_count-eq-selection (extent es) dims, h, length-map start es, h)
      | inr h ↦ rw (get_start_count-eq-selection (extent es) dims, h)
    ]

-- `get_counts` gives the second half of `get_start_count`, and fails where that fails.
pub get_counts-eq-get_start_count :
    (e : Extents) (dims : List ℕ) → get_counts e dims ≡ (get_start_count e dims >>= λ p. ok p.1)
unfolding get_counts get_start_count
get_counts-eq-get_start_count e dims = go (canonical_extents e dims)
  where
    inner :
        (r : Result (List ℕ)) (ss : List ℕ)
        → r ≡ ((r >>= λ cs. ok (ss, cs)) >>= λ (p : List ℕ × List ℕ). ok p.1)
    inner (ok cs) ss = refl
    inner (err x) ss = refl
    inner panic ss = refl
    inner stuck ss = refl

    go :
        (r : Result ExtentIterator)
        → (r >>= λ it. collect (λ x. or_panic (count x)) (items it)) ≡ (
            (r >>= λ it.
            collect (λ x. or_panic (count x)) (items it) >>= λ cs. ok (map start (items it), cs))
            >>= λ (p : List ℕ × List ℕ). ok p.1)
    go (ok it) = inner _ _
    go (err x) = refl
    go panic = refl
    go stuck = refl

starts-start_count :
    (ss cs : List ℕ)
    → length ss ≡ length cs
    → map start (map (λ p. slice_count p.0 p.1) (zip ss cs)) ≡ ss
unfolding start zip
starts-start_count [] cs h = refl
starts-start_count (s ∷ ss) [] h = absurd (omega arith)
starts-start_count (s ∷ ss) (c ∷ cs) h = rw (starts-start_count ss cs (omega arith))

counts-start_count :
    (ss cs ds : List ℕ)
    → length ss ≡ length cs
    → length ss ≡ length ds
    → counts_in (map (λ p. slice_count p.0 p.1) (zip ss cs)) ds ≡ cs
unfolding zip
counts-start_count [] [] ds h k = refl
counts-start_count [] (c ∷ cs) ds h k = absurd (omega arith)
counts-start_count (s ∷ ss) [] ds h k = absurd (omega arith)
counts-start_count (s ∷ ss) (c ∷ cs) [] h k = absurd (omega arith)
counts-start_count (s ∷ ss) (c ∷ cs) (d ∷ ds) h k =
    ap (◌∷◌ c) (counts-start_count ss cs ds (omega arith) (omega arith))

length-zip-map :
    (ss cs : List ℕ)
    → length ss ≡ length cs
    → length (map (λ p. slice_count p.0 p.1) (zip ss cs)) ≡ length ss
unfolding zip
length-zip-map [] cs h = refl
length-zip-map (s ∷ ss) [] h = absurd (omega arith)
length-zip-map (s ∷ ss) (c ∷ cs) h = ap suc (length-zip-map ss cs (omega arith))

-- Separate starts and counts come back unchanged; each of the two length tests has its own error.
pub get_start_count-from_start_count :
    (ss cs dims : List ℕ)
    → (from_start_count ss cs >>= λ e. get_start_count e dims) ≡ (
        if length ss == length cs
        then (if length ss == length dims then ok (ss, cs) else err Error.length_mismatch)
        else err Error.indices_counts_mismatch)
unfolding from_start_count
get_start_count-from_start_count ss cs dims = elim (Bool-cases (length ss == length cs)) [
  | inl h ↦
      let same : length ss ≡ length cs = ==→eq _ _ h in
      rw
        (
          h,
          get_start_count-eq-selection (extent (map (λ p. slice_count p.0 p.1) (zip ss cs))) dims,
          length-zip-map ss cs same,
        )
        (elim (Bool-cases (length ss == length dims)) [
          | inl k ↦
              rw
                (k, starts-start_count ss cs same, counts-start_count ss cs dims same (==→eq _ _ k))
          | inr k ↦ rw k
        ])
  | inr h ↦ rw h
]

-- The indices of the box of these starts and counts.
abbrev pub InBox : List ℕ → List ℕ → List ℕ → Type 0
InBox [] [] [] = Unit
InBox (s ∷ ss) (c ∷ cs) (i ∷ is) = ((s ≤ i) × (i < s + c)) × InBox ss cs is
InBox _ _ _ = ⊥

-- The indices that range arguments stand for, dimension by dimension.
abbrev pub PicksAll : List Range → List ℕ → List ℕ → Type 0
PicksAll [] [] [] = Unit
PicksAll (r ∷ rs) (d ∷ ds) (i ∷ is) = Picks r d i × PicksAll rs ds is
PicksAll _ _ _ = ⊥

module _ where
  box-Picks :
      (rs : List Range) (dims : List ℕ)
      → length rs ≡ length dims
      → All IsInRange rs
      → (is : List ℕ)
      → PicksAll rs dims is
        ↔ InBox (map start (map from_range rs)) (counts_in (map from_range rs) dims) is
  box-Picks [] [] e h [] = ((λ _. tt), (λ _. tt))
  box-Picks [] [] e h (i ∷ is) = ((λ x. x), (λ x. x))
  box-Picks [] (d ∷ ds) e h is = absurd (omega arith)
  box-Picks (r ∷ rs) [] e h is = absurd (omega arith)
  box-Picks (r ∷ rs) (d ∷ ds) e h [] = ((λ x. x), (λ x. x))
  box-Picks (r ∷ rs) (d ∷ ds) e h (i ∷ is) =
      let (n, known, picks) = canonicalise-Picks r d h.0 in
      let rest = box-Picks rs ds (omega arith) h.1 is in
      let at_start : start (canonicalise (from_range r) d) ≡ start (from_range r) =
        start-canonicalise (from_range r) d in
      let at_count : n ≡ count_in (from_range r) d = cc (count-canonicalise (from_range r) d) in
      (
        (λ p. (let q = (picks i).0 p.0 in (omega arith, omega arith), rest.0 p.1)),
        (λ p. ((picks i).1 (omega arith, omega arith), rest.1 p.1)),
      )

-- A selection by ranges, one for each dimension and none an inclusive one that ends at `u64::MAX`, starts and counts along each dimension so that its
-- box holds exactly the indices that the ranges stand for.
pub from_ranges-Picks :
    (rs : List Range) (dims : List ℕ)
    → length rs ≡ length dims
    → All IsInRange rs
    → (ss : List ℕ) × (cs : List ℕ) × (get_start_count (from_ranges rs) dims ≡ ok (ss, cs))
      × ((is : List ℕ) → PicksAll rs dims is ↔ InBox ss cs is)
unfolding from_ranges
from_ranges-Picks rs dims e h = (
  map start (map from_range rs),
  counts_in (map from_range rs) dims,
  rw (
    get_start_count-eq-selection (extent (map from_range rs)) dims,
    length-map from_range rs,
    e,
    ==_refl (length dims),
  ),
  box-Picks rs dims e h,
)
