-- ===== src/Python/Items.antt =====
-- src/python.rs: an integer as an index, and the array of a selection.
use native.Mathlib.Nat.{mod-eq_of_lt, mul-pos}
use hidefix.Base.{
  ltb→le, ltb, leb, if◌then◌else◌, ltb→lt, leb→le, leb→gt, Bool-cases, product, All, Result, ◌>>=◌,
  ok, ℤ, pos, negsuc, word, sub64, sub64-eq-sub, ℕ, zero, suc, ◌+◌, ◌-◌, ◌*◌, ◌≤◌, ◌<◌, min, ◌≡◌,
  refl, ap, ◌∙◌, ◌⊎◌, inl, inr, true, some, List, [], ◌∷◌, arith,
}
use hidefix.Python.{
  half, clip, PySlice, integer, add_one, as_u64, to_isize, slice_of, select_dim, above_one,
  array_dims,
}

-- A start, a count, and the stride 1.
abbrev pub place : (start count : ℕ) → ℕ × (ℕ × ℕ)
place start count = (start, (count, 1))

pair : (a b c d : ℕ) → a ≡ b → c ≡ d → place a c ≡ place b d
pair a b c d e e' = rw (e, e') refl

pub gap : (b a c : ℕ) → a ≤ b → b < word → b - a ≡ c → sub64 b a ≡ c
gap b a c h k e = sub64-eq-sub b a h k ∙ e

pub inside_or_beyond :
    (k n : ℕ)
    → n < half
    → place (min k n) (sub64 (min (suc k) n) (min k n)) ≡ (if ltb k n then place k 1 else place n 0)
inside_or_beyond k n h = elim (Bool-cases (ltb k n)) [
  | inl e ↦
      let lt = ltb→lt k n e in
      rw e (
        pair (min k n) k (sub64 (min (suc k) n) (min k n)) 1 (omega arith)
          (gap (min (suc k) n) (min k n) 1 (omega arith) (omega arith) (omega arith)))
  | inr e ↦
      let ge = ltb→le k n e in
      rw e (
        pair (min k n) n (sub64 (min (suc k) n) (min k n)) 0 (omega arith)
          (gap (min (suc k) n) (min k n) 0 (omega arith) (omega arith) (omega arith)))
]

from_the_end :
    (k n : ℕ)
    → n < half
    → place (n - suc (suc k)) (sub64 (n - suc k) (n - suc (suc k)))
      ≡ (if leb (k + 2) n then place (n - (k + 2)) 1 else place 0 0)
from_the_end k n h = elim (Bool-cases (leb (k + 2) n)) [
  | inl e ↦
      let le = leb→le (k + 2) n e in
      rw e (
        pair (n - suc (suc k)) (n - (k + 2)) (sub64 (n - suc k) (n - suc (suc k))) 1 (omega arith)
          (gap (n - suc k) (n - suc (suc k)) 1 (omega arith) (omega arith) (omega arith)))
  | inr e ↦
      let gt = leb→gt (k + 2) n e in
      rw e (
        pair (n - suc (suc k)) 0 (sub64 (n - suc k) (n - suc (suc k))) 0 (omega arith)
          (gap (n - suc k) (n - suc (suc k)) 0 (omega arith) (omega arith) (omega arith)))
]

wraps : (n : ℕ) → n < half → sub64 (min 0 n) (n - 1) ≡ (if leb n 1 then 0 else word - (n - 1))
unfolding sub64
wraps n h = elim (Bool-cases (leb n 1)) [
  | inl e ↦ let le = leb→le n 1 e in rw e (omega arith)
  | inr e ↦ let gt = leb→gt n 1 e in rw e (omega arith)
]

module _ {S : Type 0} (py : PySlice S) where
  -- One dimension of the selection by an integer.
  abbrev pub item : ℤ → ℕ → Result (ℕ × (ℕ × ℕ))
  item i n = slice_of py (integer (some i)) >>= λ s. select_dim py s n

  -- The slice of one step from `a` to `b`.
  pub select_dim-new :
      (a b : ℤ) (n : ℕ)
      → n < half
      → select_dim py (py.new a b (pos 1)) n ≡ ok (place (clip a n) (sub64 (clip b n) (clip a n)))
  unfolding select_dim to_isize as_u64
  select_dim-new a b n h =
      let inside : ltb n half ≡ true = ground arith in
      let below : clip a n < word = omega (arith, clip_le a n) in
      let below' : clip b n < word = omega (arith, clip_le b n) in
      rw (inside, py.indices-new a b n h, mod-eq_of_lt below, mod-eq_of_lt below') refl
    where
      clip_le : (a' : ℤ) (n' : ℕ) → clip a' n' ≤ n'
      clip_le (pos k) n' = omega arith
      clip_le (negsuc k) n' = omega arith

  -- What an integer, of which `isize` holds the next one too, selects in a dimension that `isize` holds. An
  -- index inside it is itself, one beyond it selects nothing. A negative index counts from the end of the dimension, and selects nothing before its
  -- start; but -1 begins at the last index and has a count that wraps around, if there is more than one index.
  pub get_item-integer :
      (k n : ℕ)
      → n < half
      → suc k < half
      → (item (pos k) n ≡ ok (if ltb k n then place k 1 else place n 0))
        × (item (negsuc (suc k)) n
            ≡ ok (if leb (k + 2) n then place (n - (k + 2)) 1 else place 0 0))
        × (item (negsuc 0) n ≡ ok (place (n - 1) (if leb n 1 then 0 else word - (n - 1))))
  unfolding slice_of add_one
  get_item-integer k n h small =
      let in_range : ltb (suc k) half ≡ true = ground arith in
      (
        rw (in_range, select_dim-new (pos k) (pos (suc k)) n h) (ap ok (inside_or_beyond k n h)),
        select_dim-new (negsuc (suc k)) (negsuc k) n h ∙ ap ok (from_the_end k n h),
        select_dim-new (negsuc 0) (pos 0) n h ∙ ap (λ c. ok (place (n - 1) c)) (wraps n h),
      )

product-above_one :
    (counts : List ℕ) → All (λ c. 0 < c) counts → product (above_one counts) ≡ product counts
unfolding above_one
product-above_one [] p = refl
product-above_one (c ∷ cs) p = elim (Bool-cases (ltb 1 c)) [
  | inl e ↦ rw e (ap (λ z. c * z) (product-above_one cs p.1))
  | inr e ↦
      let one : c ≡ 1 = omega (arith, ltb→le 1 c e, p.0) in
      rw e (product-above_one cs p.1 ∙ omega (arith, ap (λ z. z * product cs) one))
]

above_one-pos : (counts : List ℕ) → 0 < product (above_one counts)
unfolding above_one
above_one-pos [] = omega arith
above_one-pos (c ∷ cs) = elim (Bool-cases (ltb 1 c)) [
  | inl e ↦ rw e (mul-pos (omega (arith, ltb→lt 1 c e)) (above_one-pos cs))
  | inr e ↦ rw e (above_one-pos cs)
]

product-array_dims : (counts : List ℕ) → product (array_dims counts) ≡ product (above_one counts)
unfolding array_dims
product-array_dims counts = go (above_one counts)
  where
    go : (ds : List ℕ) → product (elim ds [ [] ↦ 1 ∷ [] | ◌∷◌ d ds' ↦ d ∷ ds' ]) ≡ product ds
    go [] = refl
    go (d ∷ ds) = refl

-- The counts are all above 0, or their product is 0.
pos_or_zero : (cs : List ℕ) → All (λ c. 0 < c) cs ⊎ (product cs ≡ 0)
pos_or_zero [] = inl tt
pos_or_zero (zero ∷ cs) = inr (omega arith)
pos_or_zero (suc c ∷ cs) = elim (pos_or_zero cs) [
  | inl p ↦ inl (omega arith, p)
  | inr e ↦ inr (rw e (omega arith))
]

-- The product of the counts is that of the dimensions of the array, if none of the counts is 0. Otherwise there
-- are no values, but the array has some.
pub array_dims-product :
    (counts : List ℕ)
    → ((All (λ c. 0 < c) counts) × (product (array_dims counts) ≡ product counts))
      ⊎ ((product counts ≡ 0) × (0 < product (array_dims counts)))
array_dims-product counts = elim (pos_or_zero counts) [
  | inl p ↦ inl (p, product-array_dims counts ∙ product-above_one counts p)
  | inr e ↦ inr (e, rw (product-array_dims counts) (above_one-pos counts))
]
