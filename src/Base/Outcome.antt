-- ===== src/Base/Outcome.antt =====
-- What a Rust function returns: a value, an `anyhow` error, or nothing because it panicked. A loop
-- on fuel that has not ended when the fuel is gone is `stuck`.
use mathlib.Core.Path.{◌≡◌, ◌∙◌, sym}
use mathlib.Core.Bool.{Bool, true, false}
use mathlib.Core.List.{List, [], ◌∷◌}
use mathlib.Core.Option.{Option, none, some}

-- One constructor for each message that the modelled code raises.
pub data Error : Type 0 where
  length_mismatch rank_mismatch indices_counts_mismatch : Error
  dataset_rank_mismatch array_length : Error
  invalid_index strides_unsupported new_axis_unsupported : Error
  chunk_lacks_offset unsupported_filter unsupported_layout unexpected_chunks : Error
  insufficient_capacity size_not_multiple misaligned : Error
  missing_path no_dataset io_error decompress_failed cast_failed : Error

pub data Result {ℓ} (A : Type ℓ) : Type ℓ where
  ok : A → Result A
  err : Error → Result A
  panic : Result A
  stuck : Result A

infixl 5 ◌>>=◌ ◌>>◌
-- Only a value lets the code go on: the others leave the function (`?`) or the program.
abbrev pub ◌>>=◌ {ℓ κ} :
    {A : Type ℓ} {B : Type κ} (outcome : Result A) (rest : A → Result B) → Result B
stuck >>= rest = stuck
panic >>= rest = panic
err e >>= rest = err e
ok value >>= rest = rest value

abbrev pub ◌>>◌ {κ} : {B : Type κ} (test : Result (Unit {0})) (rest : Result B) → Result B
test >> rest = test >>= λ _. rest

-- `ensure!`
abbrev pub ensure : Bool → Error → Result (Unit {0})
ensure true e = ok tt
ensure false e = err e

-- `assert!`
abbrev pub assert : Bool → Result (Unit {0})
assert true = ok tt
assert false = panic

-- `unwrap` of a result: an error panics.
abbrev pub unwrap {ℓ} : {A : Type ℓ} → Result A → Result A
unwrap (ok a) = ok a
unwrap (err e) = panic
unwrap panic = panic
unwrap stuck = stuck

-- An index that is out of bounds panics.
abbrev pub or_panic {ℓ} : {A : Type ℓ} → Option A → Result A
or_panic none = panic
or_panic (some a) = ok a

-- `iter().map(f).collect::<Result<Vec<_>, _>>()`
abbrev pub collect {ℓ κ} : {A : Type ℓ} {B : Type κ} → (A → Result B) → List A → Result (List B)
collect f [] = ok []
collect f (x ∷ xs) = f x >>= λ y. collect f xs >>= λ ys. ok (y ∷ ys)

-- `and_then`, or `?` on an option.
abbrev pub and_then {ℓ κ} : {A : Type ℓ} {B : Type κ} → Option A → (A → Option B) → Option B
and_then none rest = none
and_then (some a) rest = rest a

-- `ok_or_else`
abbrev pub ok_or {ℓ} : {A : Type ℓ} → Option A → Error → Result A
ok_or none e = err e
ok_or (some a) e = ok a

-- A computation has one value.
pub ok_unique {ℓ} : {A : Type ℓ} {a b : A} {x : Result A} → x ≡ ok a → x ≡ ok b → a ≡ b
ok_unique {a = a} {b = b} e e' = let both : ok a ≡ ok b = sym e ∙ e' in cc
