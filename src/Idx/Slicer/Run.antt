-- ===== src/Idx/Slicer/Run.antt =====
-- src/idx/dataset/dataset.rs: all pieces of a selection, as the readers go through them.
use native.Mathlib.Nat.{zero-add, add-zero, le_dest, add-suc, suc-add}
use hidefix.Base.{
  leb, le→leb, All, ok, word, ℕ, zero, suc, ◌+◌, ◌-◌, ◌≤◌, ◌<◌, ◌≡◌, refl, sym, ap, ap₂, ◌∙◌, true,
  none, List, [], ◌∷◌, ◌++◌, reverse, arith,
}
use hidefix.Idx.Dataset.{Dataset}
use hidefix.Idx.Divisor.{Divisor}
use hidefix.Idx.Chunk.{Chunk}
use hidefix.Idx.Slicer.{Slice, collect_slices, ChunkSlicer, next}
use hidefix.Idx.Slicer.Axis.{Axis, bases, position, total, AreAxes}
use hidefix.Idx.Slicer.Layout.{Layout, IsAligned}
use hidefix.Idx.Slicer.Outward.{volume, position-le_volume}
use hidefix.Idx.Slicer.Next.{HasAxes, IsAt, IsChunkOf, next-Gives, Gives}

-- A value: the offset of its chunk, and its position in the chunk.
abbrev pub Place : Type 0
Place = List ℕ × ℕ

-- The places of `m` values from a position on.
abbrev pub places : List ℕ → (from m : ℕ) → List Place
places o from zero = []
places o from (suc m) = (o, from) ∷ places o (suc from) m

-- The places of the values that the pieces give, in their order.
abbrev pub expand : List Slice → List Place
expand [] = []
expand ((c, from, to) ∷ xs) = places c.offset from (to - from) ++ expand xs

-- A piece lies in a chunk of so many values.
abbrev pub Within : ℕ → Slice → Type 0
Within v (c, from, to) = (from ≤ to) × (to ≤ v)

-- The places of the selection's values from the `n`-th on, in row-major order of their indices.
abbrev pub wanted : {Sr : Type 0} → List (Axis Sr) → (n m : ℕ) → List Place
wanted as' n zero = []
wanted as' n (suc m) = (reverse (bases as' n), position 1 as' n) ∷ wanted as' (suc n) m

module _ {Sr : Type 0} (as' : List (Axis Sr)) where
  wanted-add : (n m j : ℕ) → wanted as' n (m + j) ≡ wanted as' n m ++ wanted as' (n + m) j
  wanted-add n zero j = rw (zero-add, add-zero) refl
  wanted-add n (suc m) j =
      rw (suc-add m j, add-suc n m)
        (ap (◌∷◌ (reverse (bases as' n), position 1 as' n))
          (wanted-add (suc n) m j ∙ rw (suc-add n m) refl))

  wanted-places :
      (o : List ℕ) (from n m : ℕ)
      → ((t : ℕ) → t < m → reverse (bases as' (n + t)) ≡ o)
      → ((t : ℕ) → t < m → position 1 as' (n + t) ≡ from + t)
      → wanted as' n m ≡ places o from m
  wanted-places o from n zero same run = refl
  wanted-places o from n (suc m) same run =
      ap₂ ◌∷◌
        (ap₂ (λ b p. (b, p)) (rw (add-zero n) at (same 0 (omega arith)))
          (rw (add-zero n, add-zero from) at (run 0 (omega arith))))
        (wanted-places o (suc from) (suc n) m
          (λ t lt. rw (suc-add n t, ← add-suc n t) (same (suc t) (omega arith)))
          (λ t lt. rw (suc-add n t, ← add-suc n t) (run (suc t) (omega arith) ∙ omega arith)))

module _ {Sr : Type 0} ⦃r : Divisor Sr⦄ (ds : Dataset Sr) (as' : List (Axis Sr))
    (d : HasAxes ds as') (h : AreAxes 1 as') (l : Layout 0 as') (small : total as' < word)
    (chunk_of : (n : ℕ) → n < total as' → (c : Chunk) × IsChunkOf ds as' n c) where
  ended : (n : ℕ) (s : ChunkSlicer Sr) → IsAt ds as' n s → total as' ≤ n → next s ≡ ok none
  unfolding next
  ended n s p le =
      let done : leb s.end s.offset ≡ true = rw (p.end, p.offset) (le→leb (total as') n le) in
      rw done refl

  one_more :
      (fuel n j m i : ℕ) (s s' : ChunkSlicer Sr) (c : Chunk) (xs : List Slice)
      → c.offset ≡ reverse (bases as' n)
      → Gives ds as' l n s c m s'
      → suc j ≡ m + i
      → collect_slices fuel s' ≡ ok xs
      → expand xs ≡ wanted as' (n + m) i
      → (collect_slices (suc fuel) s ≡ ok ((c, position 1 as' n, position 1 as' n + m) ∷ xs))
        × (expand ((c, position 1 as' n, position 1 as' n + m) ∷ xs) ≡ wanted as' n (suc j))
  unfolding collect_slices
  one_more fuel n j m i s s' c xs o g e ran good =
      let len : position 1 as' n + m - position 1 as' n ≡ m = omega arith in
      let here =
        wanted-places as' c.offset (position 1 as' n) n m (λ t lt. ap reverse (g.same t lt) ∙ sym o)
          g.run in
      (
        rw (g.given, ran) refl,
        rw (len, good, ← here) (sym (wanted-add as' n m i) ∙ ap (wanted as' n) (sym e)),
      )

  within :
      (n m : ℕ) (s s' : ChunkSlicer Sr) (c : Chunk)
      → Gives ds as' l n s c m s'
      → Within (volume 1 as') (c, position 1 as' n, position 1 as' n + m)
  within n zero s s' c g = let some_m = g.some_values in absurd (omega arith)
  within n (suc t) s s' c g =
      (omega arith, omega (arith, g.run t (omega arith), position-le_volume 1 as' h (n + t)))

  pub collect_slices-expand :
      (fuel n j : ℕ) (s : ChunkSlicer Sr)
      → IsAt ds as' n s
      → IsAligned 0 as' l n
      → n + j ≡ total as'
      → j < fuel
      → (xs : List Slice) × (collect_slices fuel s ≡ ok xs)
        × (expand xs ≡ wanted as' n j)
        × All (Within (volume 1 as')) xs
  unfolding collect_slices
  collect_slices-expand zero n j s p al e lt = absurd (omega arith)
  collect_slices-expand (suc fuel) n zero s p al e lt =
      ([], rw (ended n s p (omega arith)) refl, refl, tt)
  collect_slices-expand (suc fuel) n (suc j) s p al e lt =
      let (c, k) = chunk_of n (omega arith) in
      let (m, s', g) = next-Gives ds as' d h l small n s p al c k (omega arith) in
      let (i, rest) = le_dest g.within in
      let some_m = g.some_values in
      let (xs, ran, good, inside) =
        collect_slices-expand fuel (n + m) i s' g.is_at g.aligned rest (omega arith) in
      let more = one_more fuel n j m i s s' c xs k.offset g (omega arith) ran good in
      (
        (c, position 1 as' n, position 1 as' n + m) ∷ xs,
        more.0,
        more.1,
        (within n m s s' c g, inside),
      )
