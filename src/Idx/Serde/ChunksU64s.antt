-- ===== src/Idx/Serde/ChunksU64s.antt =====
-- src/idx/serde.rs, `chunks_u64s`: chunks as the bytes of their words.
use hidefix.Base.{All, All-append, word, Result, ◌>>=◌, ok, ℕ, ◌<◌, ◌≡◌, List, [], ◌∷◌}
use hidefix.Idx.Chunk.{Chunk, as_u64s, slice_as_u64s, slice_from_u64s}
use hidefix.Idx.Chunk.Codec.{HasRank, slice_from_u64s-slice_as_u64s}
use hidefix.Idx.Serde.{Format}
use hidefix.Idx.Serde.Words.{as_bytes, slice_unaligned, slice_unaligned-as_bytes}

module _ {W : Type 0} (f : Format W) where
  -- `serialize`
  unfoldable pub serialize : List Chunk → Result W
  serialize chunks = f.write (as_bytes (slice_as_u64s chunks))

  -- `deserialize`
  unfoldable pub deserialize : (d : ℕ) → W → Result (List Chunk)
  deserialize d w = do bytes ← f.read w; slice ← slice_unaligned bytes; slice_from_u64s d slice

-- A chunk of a rank whose address, size and offsets `u64` holds.
abbrev pub IsStorable : ℕ → Chunk → Type 0
IsStorable d c = HasRank d c × (c.addr < word) × (c.size < word) × All (λ o. o < word) c.offset

words-fit :
    (d : ℕ) (cs : List Chunk) → All (IsStorable d) cs → All (λ w. w < word) (slice_as_u64s cs)
unfolding slice_as_u64s as_u64s
words-fit d [] p = tt
words-fit d (c ∷ cs) p = (
  p.0.1,
  (p.0.2, All-append (λ w. w < word) c.offset (slice_as_u64s cs) p.0.3 (words-fit d cs p.1)),
)

ranks : (d : ℕ) (cs : List Chunk) → All (IsStorable d) cs → All (HasRank d) cs
ranks d [] p = tt
ranks d (c ∷ cs) p = (p.0.0, ranks d cs p.1)

-- Chunks of one rank, whose numbers `u64` holds, once written, are read back.
pub chunks-deserialize-serialize :
    {W : Type 0} (f : Format W) (d : ℕ) (cs : List Chunk) (w : W)
    → All (IsStorable d) cs
    → serialize f cs ≡ ok w
    → deserialize f d w ≡ ok cs
unfolding serialize deserialize
chunks-deserialize-serialize f d cs w p h =
    rw
      (
        f.read-write (as_bytes (slice_as_u64s cs)) w h,
        slice_unaligned-as_bytes (slice_as_u64s cs) (words-fit d cs p),
      )
      (slice_from_u64s-slice_as_u64s d cs (ranks d cs p))
