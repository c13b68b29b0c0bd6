-- ===== src/Filters/Sized.antt =====
-- src/filters/byteorder.rs: byte strings as slices of numbers. `as_slice_of` and `as_mut_slice_of` of the
-- crate byte_slice_cast, which see bytes as values of a size, are an interface.
use hidefix.Base.{
  ◌==◌, if◌then◌else◌, Error, Result, ◌>>=◌, ok, err, panic, ℕ, Bool, List, [], ◌∷◌, ◌++◌, ◌≡◌, ◌⊎◌,
  length, All, ◌||◌,
}
use hidefix.Filters.Byteorder.{Order, to_big_e, integer}

-- The bytes of values behind one another.
abbrev pub concat : List (List ℕ) → List ℕ
concat [] = []
concat (x ∷ xs) = x ++ concat xs

-- A cast fails on bytes that are not aligned, and on a number of bytes that is no multiple of the size.
-- The values are the bytes, piece by piece.
pub record SliceCast : Type 0 where
  pub cast : (size : ℕ) → List ℕ → Result (List (List ℕ))
  pub cast-values :
      (size : ℕ) (bytes : List ℕ) (values : List (List ℕ))
      → cast size bytes ≡ ok values
      → (concat values ≡ bytes) × All (λ v. length v ≡ size) values
  pub cast-fails :
      (size : ℕ) (bytes : List ℕ)
      → ((values : List (List ℕ)) × (cast size bytes ≡ ok values))
        ⊎ (cast size bytes ≡ err Error.cast_failed)

-- `to_big_e_sized`: `unimplemented!` panics.
unfoldable pub to_big_e_sized :
    SliceCast → (target_is_big : Bool) → (buf : List ℕ) → Order → (dsz : ℕ) → Result (List ℕ)
to_big_e_sized c target_is_big buf Order.be dsz = ok buf
to_big_e_sized c target_is_big buf Order.unknown dsz = ok buf
to_big_e_sized c target_is_big buf Order.le dsz =
    if dsz == 1
    then ok buf
    else if (dsz == 2) || (dsz == 4) || (dsz == 8)
    then c.cast dsz buf >>= (λ v. ok (concat (to_big_e target_is_big integer Order.le v)))
    else panic
