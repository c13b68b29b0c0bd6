-- ===== src/Python.antt =====
-- src/python.rs: the slicing of a dataset. The slices of Python are an interface; the array that numpy makes is
-- its dimensions.
pub mod Items
pub mod Boxes
pub mod Objects
pub mod Reads
use native.Mathlib.Nat.{mod_self}
use hidefix.Base.{
  length-replicate, arith, refl, ltb, ◌==◌, if◌then◌else◌, length, drop, replicate, Result, ◌>>=◌,
  ◌>>◌, assert, unwrap, or_panic, ok, panic, ℤ, pos, negsuc, word, sub64, ℕ, zero, suc, ◌+◌, ◌-◌,
  ◌%◌, ◌^◌, ◌<◌, min, ◌≡◌, Bool, true, ◌&&◌, Option, some, List, [], ◌∷◌, ◌++◌, map,
}
use hidefix.Filters.Byteorder.{Kind}
use hidefix.Idx.Datatype.{Datatype, uint, int, custom}
use hidefix.Reader.Traits.{ValueType}

-- The numbers that `isize` holds end below this one.
abbrev pub half : ℕ
half = 2 ^ 63

-- `PySliceIndices`
pub record Indices : Type 0 where
  pub start : ℤ
  pub stop : ℤ
  pub step : ℤ

-- An end of a slice on a sequence of some length, as `slice.indices` clips it: a negative one counts from the
-- end of the sequence.
abbrev pub clip : ℤ → (length : ℕ) → ℕ
clip (pos k) n = min k n
clip (negsuc k) n = n - suc k

-- `PySlice`. `indices` is `slice.indices` of Python.
pub record PySlice (S : Type 0) : Type 0 where
  pub new : (start stop step : ℤ) → S
  pub indices : S → (length : ℕ) → Option Indices
  pub indices-new :
      (a b : ℤ) (n : ℕ)
      → n < half
      → indices (new a b (pos 1)) n
        ≡ some (record { start = pos (clip a n); stop = pos (clip b n); step = pos 1 })

-- An element of the tuple: a slice, an integer, if `isize` holds it, or something else.
pub data Element (S : Type 0) : Type 0 where
  part : S → Element S
  integer : Option ℤ → Element S
  other_element : Element S

-- `ind + 1`
unfoldable pub add_one : ℤ → ℤ
add_one (pos n) = if ltb (suc n) half then pos (suc n) else negsuc (half - 1)
add_one (negsuc zero) = pos 0
add_one (negsuc (suc n)) = negsuc n

-- `as u64`
unfoldable pub as_u64 : ℤ → ℕ
as_u64 (pos n) = n % word
as_u64 (negsuc n) = word - suc n

-- `try_into().unwrap()`
unfoldable pub to_isize : ℕ → Result ℕ
to_isize n = if ltb n half then ok n else panic

-- `strides.iter().all(|i| *i == 1)`
unfoldable pub all_ones : List ℕ → Bool
all_ones [] = true
all_ones (i ∷ is) = (i == 1) && all_ones is

module _ {S : Type 0} (py : PySlice S) where
  -- The first closure: an element as a slice.
  unfoldable pub slice_of : Element S → Result S
  slice_of (part s) = ok s
  slice_of (integer i) = or_panic i >>= λ ind. ok (py.new ind (add_one ind) (pos 1))
  slice_of other_element = panic

  -- The second closure: the index, and the count and the stride. A difference of `isize`, as `u64`, is the
  -- difference of `u64`.
  unfoldable pub select_dim : S → (dim_sz : ℕ) → Result (ℕ × (ℕ × ℕ))
  select_dim s dim_sz = do
    n ← to_isize dim_sz
    i ← or_panic (py.indices s n)
    ok (as_u64 i.start, (sub64 (as_u64 i.stop) (as_u64 i.start), as_u64 i.step))

  -- The iterator. `zip` takes an element before it sees that the shape has ended.
  unfoldable pub select_dims : List (Element S) → (shape : List ℕ) → Result (List (ℕ × (ℕ × ℕ)))
  select_dims [] shape = ok []
  select_dims (e ∷ es) [] = slice_of e >>= λ s. ok []
  select_dims (e ∷ es) (d ∷ ds) = do
    s ← slice_of e
    x ← select_dim s d
    xs ← select_dims es ds
    ok (x ∷ xs)

  -- `__getitem__`, up to the indices and the counts.
  unfoldable pub get_item : List (Element S) → (shape : List ℕ) → Result (List ℕ × List ℕ)
  get_item es shape = do
    xs ← select_dims es shape
    let missing = length shape - length xs
    let indices = map (λ (x : ℕ × (ℕ × ℕ)). x.0) xs ++ replicate missing 0
    let strides = map (λ (x : ℕ × (ℕ × ℕ)). x.1.1) xs ++ replicate missing 1
    let counts = map (λ (x : ℕ × (ℕ × ℕ)). x.1.0) xs ++ drop (length xs) shape
    assert (all_ones strides)
    ok (indices, counts)

-- A number of so many bytes.
abbrev pub number_type : Kind → (n : ℕ) → 0 < n → ValueType
number_type kind n h = record {
  size = n;
  align = n;
  kind = kind;
  default = replicate n 0;
  some_bytes = h;
  size-align = mod_self n;
  length-default = length-replicate n 0;
}

-- The integers of the sizes that numpy has.
abbrev integer_type : ℕ → Result ValueType
integer_type sz =
    if sz == 1
    then ok (number_type Kind.integer 1 (omega arith))
    else if sz == 2
    then ok (number_type Kind.integer 2 (omega arith))
    else if sz == 4
    then ok (number_type Kind.integer 4 (omega arith))
    else if sz == 8
    then ok (number_type Kind.integer 8 (omega arith))
    else panic

-- The match on the type of the values: the type of the elements of the array.
unfoldable pub element_type : Datatype → Result ValueType
element_type (uint sz) = integer_type sz
element_type (int sz) = integer_type sz
element_type (Datatype.float sz) =
    if sz == 4
    then ok (number_type Kind.float 4 (omega arith))
    else if sz == 8
    then ok (number_type Kind.float 8 (omega arith))
    else panic
element_type (custom sz) = panic

-- `filter(|d| *d > 1)`
unfoldable pub above_one : List ℕ → List ℕ
above_one [] = []
above_one (d ∷ ds) = let rest = above_one ds in if ltb 1 d then d ∷ rest else rest

-- The dimensions of the array that `read_py_array` makes.
unfoldable pub array_dims : (counts : List ℕ) → List ℕ
array_dims counts = or_one (above_one counts)
  where
    or_one : List ℕ → List ℕ
    or_one [] = 1 ∷ []
    or_one (d ∷ ds) = d ∷ ds
