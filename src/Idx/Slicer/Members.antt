-- ===== src/Idx/Slicer/Members.antt =====
-- src/idx/dataset/dataset.rs: every piece is one of a chunk of the dataset.
use hidefix.Base.{
  Result, ◌>>=◌, ok, err, panic, stuck, All, or_panic, get_elem?, ℕ, zero, suc, ◌≡◌, refl, sym, ap,
  ◌∙◌, inl, inr, Option, none, some, List, [], ◌∷◌, leb, Bool-cases, subst, length, assert,
  product64, ◌>>◌, if◌then◌else◌, unwrap, collect, replicate,
}
use hidefix.Extent.{Extents, get_start_count_sized}
use hidefix.Idx.Dataset.{Dataset, chunk_at_coord, is_scalar}
use hidefix.Idx.Divisor.{Divisor}
use hidefix.Idx.Chunk.{Chunk}
use hidefix.Idx.Slicer
use hidefix.Idx.Slicer.{
  Slice, ChunkSlicer, collect_slices, next, next_scalar, next_slice, add_coords, chunk_slices,
  slices, empty, is_outside, is_empty,
}
use hidefix.Idx.Slicer.Collected.{collect_slices-next}

All-get_elem? :
    {A : Type 0} (P : A → Type 0) (xs : List A) (i : ℕ) {x : A}
    → All P xs
    → get_elem? xs i ≡ some x
    → P x
All-get_elem? P [] i p h = absurd cc
All-get_elem? P (y ∷ ys) zero p h = subst P (cc) p.0
All-get_elem? P (y ∷ ys) (suc i) p h = All-get_elem? P ys i p.1 h

or_panic-ok : {A : Type 0} (o : Option A) (a : A) → or_panic o ≡ ok a → o ≡ some a
or_panic-ok none a h = absurd cc
or_panic-ok (some b) a h = cc

pub bind-ok :
    {A B : Type 0} (m : Result A) (f : A → Result B) (b : B)
    → (m >>= f) ≡ ok b
    → (a : A) × (m ≡ ok a) × (f a ≡ ok b)
bind-ok (ok a) f b h = (a, refl, h)
bind-ok (err e) f b h = absurd cc
bind-ok panic f b h = absurd cc
bind-ok stuck f b h = absurd cc

module _ {Sr : Type 0} ⦃r : Divisor Sr⦄ where
  -- The piece is one of the chunk at some place, and the dataset stays.
  abbrev IsPiece : ChunkSlicer Sr → Slice → ChunkSlicer Sr → Type 0
  IsPiece it x it' =
      (i : ℕ) × (get_elem? it.dataset.chunks i ≡ some x.0) × (it'.dataset ≡ it.dataset)

  abbrev given_item : Slice → ChunkSlicer Sr → Result (Option (Slice × ChunkSlicer Sr))
  given_item x it = ok (some (x, it))

  of_given :
      (it it' s : ChunkSlicer Sr) (x y : Slice) (i : ℕ)
      → get_elem? it.dataset.chunks i ≡ some y.0
      → s.dataset ≡ it.dataset
      → given_item y s ≡ given_item x it'
      → IsPiece it x it'
  of_given it it' s x y i found same h =
      let e : y ≡ x = cc in
      let e' : s ≡ it' = cc in
      (
        i,
        found ∙ ap (λ (z : Slice). some z.0) e,
        sym (ap (λ (z : ChunkSlicer Sr). z.dataset) e') ∙ same,
      )

  abbrev no_item : Result (Option (Slice × ChunkSlicer Sr))
  no_item = ok none

  next-IsPiece :
      (it it' : ChunkSlicer Sr) (x : Slice) → next it ≡ ok (some (x, it')) → IsPiece it x it'
  unfolding next next_scalar next_slice chunk_at_coord
  next-IsPiece it it' x h = elim (Bool-cases (leb it.end it.offset)) [
    | inl e ↦ let k : no_item ≡ ok (some (x, it')) = rw e at h in absurd cc
    | inr e ↦ elim (Bool-cases (is_scalar it.dataset)) [
      | inl e' ↦
          let (c, found, k) = bind-ok _ _ _ (rw (e, e') at h) in
          of_given it it' _ x _ 0 (or_panic-ok _ c found) refl k
      | inr e' ↦
          let (c, found, k) = bind-ok _ _ _ (rw (e, e') at h) in
          of_given it it' _ x _ _ (or_panic-ok _ c found) refl k
    ]
  ]

  collect_slices-All :
      (P : Chunk → Type 0) (n : ℕ) (it : ChunkSlicer Sr) (xs : List Slice)
      → All P it.dataset.chunks
      → collect_slices n it ≡ ok xs
      → All (λ x. P x.0) xs
  unfolding collect_slices
  collect_slices-All P zero it xs p h = absurd cc
  collect_slices-All P (suc n) it xs p h = elim (collect_slices-next n it xs h) [
    | inl (ended, e) ↦ rw e tt
    | inr (x, it', ys, given, ran, e) ↦
        let (i, found, same) = next-IsPiece it it' x given in
        rw e (
          All-get_elem? P it.dataset.chunks i p found,
          collect_slices-All P n it' ys (subst (λ (d : Dataset Sr). All P d.chunks) (sym same) p)
              ran,
        )
  ]

  is_made :
      (ds : Dataset Sr) (it s : ChunkSlicer Sr) → s.dataset ≡ ds → ok s ≡ ok it → it.dataset ≡ ds
  is_made ds it s same h =
      let e : s ≡ it = cc in sym (ap (λ (z : ChunkSlicer Sr). z.dataset) e) ∙ same

  empty-dataset : (ds : Dataset Sr) (it : ChunkSlicer Sr) → empty ds ≡ ok it → it.dataset ≡ ds
  unfolding empty
  empty-dataset ds it h =
      let (cs, made, k) =
        bind-ok (collect (λ _. r.new 1) (replicate {A = ℕ} (length ds.shape) 0)) _ it h in
      is_made ds it _ refl k

  new-dataset :
      (ds : Dataset Sr) (is cs : List ℕ) (it : ChunkSlicer Sr)
      → Slicer.new ds is cs ≡ ok it
      → it.dataset ≡ ds
  unfolding Slicer.new
  new-dataset ds is cs it h =
      let (end, ended, k) =
        bind-ok (if is_scalar ds then (do assert (is_empty is); ok 1) else ok (product64 cs)) _ it
          h in
      let (srs, made, k') = bind-ok (collect r.new cs) _ _ k in is_made ds it _ refl k'

  chunk_slices-dataset :
      (ds : Dataset Sr) (e : Extents) (it : ChunkSlicer Sr)
      → chunk_slices ds e ≡ ok it
      → it.dataset ≡ ds
  unfolding chunk_slices
  chunk_slices-dataset ds e it h =
      let (p, chosen, k) =
        bind-ok (unwrap (get_start_count_sized (length ds.shape) e ds.shape)) _ it h in
      elim (Bool-cases (is_outside p.0 p.1 ds.shape)) [
        | inl out ↦ empty-dataset ds it (rw out at k)
        | inr out ↦ new-dataset ds p.0 p.1 it (rw out at k)
      ]

  -- What holds of all chunks of a dataset holds of the chunk of every piece that `chunk_slices` gives for a
  -- selection.
  pub slices-All :
      (P : Chunk → Type 0) (ds : Dataset Sr) (e : Extents) (xs : List Slice)
      → All P ds.chunks
      → slices ds e ≡ ok xs
      → All (λ x. P x.0) xs
  unfolding slices
  slices-All P ds e xs p h =
      let (it, made, ran) = bind-ok _ _ _ h in
      collect_slices-All P _ it xs
        (subst (λ (d : Dataset Sr). All P d.chunks) (sym (chunk_slices-dataset ds e it made)) p) ran
