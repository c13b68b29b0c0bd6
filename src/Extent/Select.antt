-- ===== src/Extent/Select.antt =====
-- src/extent.rs: what a selection selects. The reference is Rust's meaning of each range.
use hidefix.Base.{ℕ, ◌+◌, ◌-◌, ◌≤◌, ◌<◌, ◌≡◌, refl, ◌↔◌, some, arith, add64, add64-eq-add, word}
use hidefix.Extent.{Extent, slice, slice_end, slice_count, start, count, canonicalise}
use hidefix.Extent.Convert.{
  Range, number, range_from, range, range_to, range_to_inclusive, range_inclusive, range_full,
  start_count, from_range,
}

-- The indices of a dimension of size `dimsize` that a range argument stands for. An open end is
-- the end of the dimension; any other end is as written, also past the dimension.
abbrev pub Picks : Range → ℕ → ℕ → Type 0
Picks (number n) dimsize i = i ≡ n
Picks (range_from s) dimsize i = (s ≤ i) × (i < dimsize)
Picks (range s e) dimsize i = (s ≤ i) × (i < e)
Picks (range_to e) dimsize i = i < e
Picks (range_to_inclusive e) dimsize i = i ≤ e
Picks (range_inclusive s e) dimsize i = (s ≤ i) × (i ≤ e)
Picks range_full dimsize i = i < dimsize
Picks (start_count s c) dimsize i = (s ≤ i) × (i < s + c)

-- An inclusive end of `u64::MAX` has no exclusive form.
abbrev pub IsInRange : Range → Type 0
IsInRange (range_to_inclusive e) = e + 1 < word
IsInRange (range_inclusive s e) = e + 1 < word
IsInRange (number n) = Unit
IsInRange (range_from s) = Unit
IsInRange (range s e) = Unit
IsInRange (range_to e) = Unit
IsInRange range_full = Unit
IsInRange (start_count s c) = Unit

-- For every kind of range but an inclusive one that ends at `u64::MAX`, the canonical extent has a count,
-- and its start and count give the half-open interval of the indices that the range stands for.
pub canonicalise-Picks :
    (r : Range) (dimsize : ℕ)
    → IsInRange r
    → (n : ℕ) × (count (canonicalise (from_range r) dimsize) ≡ some n)
      × ((i : ℕ)
          → Picks r dimsize i ↔ (
              (start (canonicalise (from_range r) dimsize) ≤ i)
              × (i < start (canonicalise (from_range r) dimsize) + n)))
unfolding from_range start count canonicalise
canonicalise-Picks (number n) d h = (1, refl, λ i. ((λ e. omega arith), (λ e. omega arith)))
canonicalise-Picks (range_from s) d h = (d - s, refl, λ i. ((λ e. omega arith), (λ e. omega arith)))
canonicalise-Picks (range s e) d h = (e - s, refl, λ i. ((λ e. omega arith), (λ e. omega arith)))
canonicalise-Picks (range_to e) d h = (e - 0, refl, λ i. ((λ e. omega arith), (λ e. omega arith)))
canonicalise-Picks (range_to_inclusive e) d h = (
  add64 e 1 - 0,
  refl,
  λ i. ((λ p. omega (arith, add64-eq-add e 1 h)), (λ p. omega (arith, add64-eq-add e 1 h))),
)
canonicalise-Picks (range_inclusive s e) d h = (
  add64 e 1 - s,
  refl,
  λ i. ((λ p. omega (arith, add64-eq-add e 1 h)), (λ p. omega (arith, add64-eq-add e 1 h))),
)
canonicalise-Picks range_full d h = (d - 0, refl, λ i. ((λ e. omega arith), (λ e. omega arith)))
canonicalise-Picks (start_count s c) d h = (c, refl, λ i. ((λ e. omega arith), (λ e. omega arith)))

-- The count, by an independent description.
abbrev pub count_in : Extent → ℕ → ℕ
count_in (Extent.index n) d = 1
count_in (slice s) d = d - s
count_in (slice_end s e) d = e - s
count_in (slice_count s c) d = c
