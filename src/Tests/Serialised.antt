-- ===== src/Tests/Serialised.antt =====
-- Serialisation into a format that keeps every sequence as it is.
use hidefix.Base.{
  All, Error, ok, err, word, ℕ, ◌<◌, ◌≡◌, refl, sym, ap, ◌⊎◌, List, [], ◌∷◌, map, arith,
}
use hidefix.Idx.Chunk.{slice_as_u64s}
use hidefix.Idx.Divisor.{number}
use hidefix.Idx.Serde.{Format}
use hidefix.Idx.Serde.ArrU64
use hidefix.Idx.Serde.ArrU64.{deserialize-serialize}
use hidefix.Idx.Serde.ChunksU64s
use hidefix.Idx.Serde.ChunksU64s.{chunks-deserialize-serialize}
use hidefix.Idx.Serde.SrU64
use hidefix.Idx.Serde.SrU64.{sr-deserialize-serialize}
use hidefix.Idx.Serde.Words.{as_bytes}
use hidefix.Tests.Examples.{four_chunks}

kept : (xs w : List ℕ) → ok xs ≡ ok w → ok w ≡ ok xs
kept xs w e = let same : xs ≡ w = cc in ap ok (sym same)

abbrev plain_format : Format (List ℕ)
plain_format = record { write = λ xs. ok xs; read = λ w. ok w; read-write = kept }

deserialize-serialize_example :
    (ArrU64.deserialize plain_format 2 (4 ∷ 6 ∷ []) ≡ ok (4 ∷ 6 ∷ []))
    × (ArrU64.deserialize plain_format 3 (4 ∷ 6 ∷ []) ≡ ok (4 ∷ 6 ∷ 0 ∷ []))
unfolding ArrU64.serialize
deserialize-serialize_example = deserialize-serialize plain_format (4 ∷ 6 ∷ []) (4 ∷ 6 ∷ []) 3 refl

sr-deserialize-serialize_example :
    ((ss : List ℕ) × (SrU64.deserialize plain_format 2 (4 ∷ 6 ∷ []) ≡ ok ss)
      × (map number.get ss ≡ 4 ∷ 6 ∷ []))
    × ((◌≡◌ {A = ℕ} 3 2)
        ⊎ (SrU64.deserialize {Sr = ℕ} plain_format 3 (4 ∷ 6 ∷ []) ≡ err Error.length_mismatch))
unfolding SrU64.serialize
sr-deserialize-serialize_example =
    sr-deserialize-serialize plain_format (4 ∷ 6 ∷ []) (4 ∷ 6 ∷ []) 3
      (omega arith, (omega arith, tt)) refl

chunks-deserialize-serialize_example :
    ChunksU64s.deserialize plain_format 2 (as_bytes (slice_as_u64s four_chunks)) ≡ ok four_chunks
unfolding ChunksU64s.serialize
chunks-deserialize-serialize_example =
    chunks-deserialize-serialize plain_format 2 four_chunks (as_bytes (slice_as_u64s four_chunks))
      four_storable refl
  where
    four_storable : All (ChunksU64s.IsStorable 2) four_chunks
    four_storable = (
      fits 0 0 0 (omega arith) (omega arith) (omega arith),
      (
        fits 24 0 3 (omega arith) (omega arith) (omega arith),
        (
          fits 48 2 0 (omega arith) (omega arith) (omega arith),
          (fits 72 2 3 (omega arith) (omega arith) (omega arith), tt),
        ),
      ),
    )
      where
        fits :
            (addr r c : ℕ)
            → addr < word
            → r < word
            → c < word
            → ChunksU64s.IsStorable 2 (record { addr = addr; size = 24; offset = r ∷ c ∷ [] })
        fits addr r c a p q = (refl, a, omega arith, (p, (q, tt)))
