-- ===== src/Filters/Shuffle.antt =====
-- src/filters/shuffle.rs: the shuffle filter on bytes. `wsz` is the size of a number, `sz` how many
-- there are.
pub mod Fill
pub mod RoundTrip
use native.Mathlib.Nat.{
  mul-add-mod_self_left, mod-lt, mod-add-div', mul_comm, div-lt_iff_lt-mul, mod-one, div-one,
}
use hidefix.Base.{
  ◌==◌, if◌then◌else◌, length, replicate, Result, ◌>>◌, assert, ok, panic, word, load, store,
  for_range, ℕ, ◌+◌, ◌*◌, ◌/◌, ◌%◌, not, ◌||◌, List,
}
use hidefix.Idx.Slicer.Axis.{div-mod_of_sum}

-- The two loops of `shuffle`.
unfoldable pub shuffle_bytes : (wsz sz : ℕ) → (src dest : List ℕ) → List ℕ
shuffle_bytes wsz sz src dest =
    for_range wsz 0 (λ i. for_range sz 0 (λ j d. store d (i * sz + j) (load src (j * wsz + i))))
      dest

-- `shuffle`
unfoldable pub shuffle : (wsz sz : ℕ) → (src dest : List ℕ) → Result (List ℕ)
shuffle wsz sz src dest = do assert (length dest == length src); ok (shuffle_bytes wsz sz src dest)

-- The two loops of `unshuffle`.
unfoldable pub unshuffle_bytes : (wsz sz : ℕ) → (src dest : List ℕ) → List ℕ
unshuffle_bytes wsz sz src dest =
    for_range wsz 0 (λ i. for_range sz 0 (λ j d. store d (j * wsz + i) (load src (i * sz + j))))
      dest

-- `unshuffle`
unfoldable pub unshuffle : (wsz sz : ℕ) → (src dest : List ℕ) → Result (List ℕ)
unshuffle wsz sz src dest = do
  assert (length dest == length src)
  ok (unshuffle_bytes wsz sz src dest)

-- The loop of `unshuffle_structured` over the numbers, and over the bytes of one.
unfoldable pub structured_bytes : (n_bytes n : ℕ) → (src dest : List ℕ) → List ℕ
structured_bytes n_bytes n src dest =
    for_range n 0
      (λ j. for_range n_bytes 0 (λ i d. store d (j * n_bytes + i) (load src (i * n + j)))) dest

-- `unshuffle_structured`, on a word size that is not 0.
unfoldable pub unshuffle_structured : (n_bytes : ℕ) → (src dest : List ℕ) → Result (List ℕ)
unshuffle_structured n_bytes src dest = do
  assert (length src == length dest)
  assert ((length src % n_bytes) == 0)
  ok (structured_bytes n_bytes (length src / n_bytes) src dest)

-- `unshuffle_sized`: `unimplemented!` panics.
unfoldable pub unshuffle_sized : (src : List ℕ) → (sz : ℕ) → Result (List ℕ)
unshuffle_sized src sz =
    let dest = replicate (length src) 0 in
    if sz == 1
    then ok src
    else if (sz == 2) || (sz == 4) || (sz == 8)
    then unshuffle_structured sz src dest
    else panic
