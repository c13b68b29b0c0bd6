-- ===== src/Extent/Iterate.antt =====
-- src/extent.rs: `ExtentIterator` gives the same items from either end.
use mathlib.Core.List.{reverse-append, map-append}
use hidefix.Base.{
  Option-cases, length, length-append, ℕ, zero, suc, ◌≤◌, ◌≡◌, refl, ap, ◌⊎◌, inl, inr, none, some,
  List, [], ◌∷◌, ◌++◌, reverse, arith,
}
use hidefix.Extent.{
  Extent, canonicalise, ExtentIterator, next, split_last, next_back, items, slice_count, extents,
}

-- How many items are left.
abbrev pub size : ExtentIterator → ℕ
size (ExtentIterator.all cs) = length cs
size (extents es) = length es

-- Calls of `next` until the fuel or the items run out.
pub drain : ℕ → ExtentIterator → List Extent
drain zero it = []
drain (suc n) it = elim (next it) [ none ↦ [] | some (e, rest) ↦ e ∷ drain n rest ]

-- The same with `next_back`.
pub drain_back : ℕ → ExtentIterator → List Extent
drain_back zero it = []
drain_back (suc n) it = elim (next_back it) [ none ↦ [] | some (e, rest) ↦ e ∷ drain_back n rest ]

drain-items : (n : ℕ) (it : ExtentIterator) → size it ≤ n → drain n it ≡ items it
unfolding drain next items
drain-items zero (ExtentIterator.all []) h = refl
drain-items zero (ExtentIterator.all (c ∷ cs)) h = absurd (omega arith)
drain-items zero (extents []) h = refl
drain-items zero (extents (e ∷ es)) h = absurd (omega arith)
drain-items (suc n) (ExtentIterator.all []) h = refl
drain-items (suc n) (ExtentIterator.all (c ∷ cs)) h =
    ap (◌∷◌ (slice_count 0 c)) (drain-items n (ExtentIterator.all cs) (omega arith))
drain-items (suc n) (extents []) h = refl
drain-items (suc n) (extents (e ∷ es)) h =
    ap (◌∷◌ (canonicalise e.0 e.1)) (drain-items n (extents es) (omega arith))

split_last-none {ℓ} : {A : Type ℓ} (xs : List A) → split_last xs ≡ none → xs ≡ []
split_last-none [] h = refl
split_last-none (x ∷ xs) h = ground arith

split_last-append {ℓ} :
    {A : Type ℓ} (xs : List A) {y : A} {ys : List A}
    → split_last xs ≡ some (y, ys)
    → xs ≡ ys ++ y ∷ []
split_last-append [] h = cc
split_last-append (x ∷ xs) h = elim (Option-cases (split_last xs)) [
  | inl e ↦ ground (arith, split_last-none xs)
  | inr ((z, zs), e) ↦ ground (arith, split_last-append xs e)
]

-- The step from the back: nothing is left, or the last item is given.
next_back-items :
    (it : ExtentIterator)
    → ((next_back it ≡ none) × (items it ≡ []))
      ⊎ ((e : Extent) × (rest : ExtentIterator) × (next_back it ≡ some (e, rest))
          × (items it ≡ items rest ++ e ∷ [])
          × (size it ≡ suc (size rest)))
unfolding next_back items
next_back-items (ExtentIterator.all cs) = elim (Option-cases (split_last cs)) [
  | inl e ↦ inl (rw (e, next_back), rw (split_last-none cs e))
  | inr ((c, rest), e) ↦
      let whole : cs ≡ rest ++ c ∷ [] = split_last-append cs e in
      inr (
        slice_count 0 c,
        ExtentIterator.all rest,
        rw (e, next_back),
        rw whole (map-append (slice_count 0) rest (c ∷ [])),
        rw whole (rw length-append (omega arith)),
      )
]
next_back-items (extents es) = elim (Option-cases (split_last es)) [
  | inl e ↦ inl (rw (e, next_back), rw (split_last-none es e))
  | inr ((p, rest), e) ↦
      let whole : es ≡ rest ++ p ∷ [] = split_last-append es e in
      inr (
        canonicalise p.0 p.1,
        extents rest,
        rw (e, next_back),
        rw whole (map-append (λ p. canonicalise p.0 p.1) rest (p ∷ [])),
        rw whole (rw length-append (omega arith)),
      )
]

-- Going through the iterator from the back, with enough calls, gives its items in reverse.
pub drain_back-reverse :
    (n : ℕ) (it : ExtentIterator) → size it ≤ n → drain_back n it ≡ reverse (items it)
unfolding drain_back items
drain_back-reverse zero (ExtentIterator.all []) h = refl
drain_back-reverse zero (ExtentIterator.all (c ∷ cs)) h = absurd (omega arith)
drain_back-reverse zero (extents []) h = refl
drain_back-reverse zero (extents (e ∷ es)) h = absurd (omega arith)
drain_back-reverse (suc n) it h = elim (next_back-items it) [
  | inl (stop, nothing) ↦ rw (stop, drain_back, nothing)
  | inr (e, rest, step, whole, smaller) ↦
      rw (step, drain_back, whole, reverse-append (items rest) (e ∷ []))
        (ap (◌∷◌ e) (drain_back-reverse n rest (omega arith)))
]
