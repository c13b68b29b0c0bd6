-- ===== src/Idx/Serde.antt =====
-- src/idx/serde.rs: the forms in which arrays of numbers, divisors and chunks are serialised. What serde and a
-- format make of a sequence is an interface: what was written is read back.
pub mod ArrU64
pub mod SrU64
pub mod Words
pub mod ChunksU64s
use hidefix.Base.{Result, ok, ℕ, ◌≡◌, List}

-- `Serialize` and `Deserialize` of `Vec<u64>`, or of a byte string, in some format.
pub record Format (W : Type 0) : Type 0 where
  pub write : List ℕ → Result W
  pub read : W → Result (List ℕ)
  pub read-write : (xs : List ℕ) (w : W) → write xs ≡ ok w → read w ≡ ok xs
