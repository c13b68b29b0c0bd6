-- ===== src/Idx/Chunk/Codec.antt =====
-- src/idx/chunk.rs: `slice_as_u64s` and `slice_from_u64s` undo one another.
use native.Mathlib.Nat.{mul-mod_left, mul-div_cancel, div-add-mod'}
use hidefix.Base.{
  ◌==◌, ==→eq, ==→ne, Bool-cases, length, take, drop, length-append, length-take, length-drop,
  take-append-drop, take-append, drop-append, All, ok, panic, ℕ, zero, suc, ◌*◌, ◌/◌, ◌%◌, ◌≡◌,
  refl, sym, ◌≢◌, ◌⊎◌, inl, inr, List, [], ◌∷◌, arith,
}
use hidefix.Idx.Chunk.{Chunk, words, as_u64s, slice_as_u64s, raw_chunks, slice_from_u64s}

-- The const parameter `D` as a property of the chunk.
abbrev pub HasRank : ℕ → Chunk → Type 0
HasRank d c = length c.offset ≡ d

length-slice_as_u64s :
    (d : ℕ) (cs : List Chunk) → All (HasRank d) cs → length (slice_as_u64s cs) ≡ length cs * words d
unfolding slice_as_u64s as_u64s
length-slice_as_u64s d [] h = omega arith
length-slice_as_u64s d (c ∷ cs) h =
    rw (length-append c.offset (slice_as_u64s cs)) (omega (arith, length-slice_as_u64s d cs h.1))

raw_chunks-slice_as_u64s :
    (d : ℕ) (cs : List Chunk)
    → All (HasRank d) cs
    → raw_chunks (length cs) d (slice_as_u64s cs) ≡ ok cs
unfolding raw_chunks slice_as_u64s as_u64s
raw_chunks-slice_as_u64s d [] h = refl
raw_chunks-slice_as_u64s d (c ∷ cs) h = rw (
  ← h.0,
  take-append c.offset (slice_as_u64s cs),
  drop-append c.offset (slice_as_u64s cs),
  raw_chunks-slice_as_u64s (length c.offset) cs (rw h.0 h.1),
)

-- Reading back the words of chunks of one rank gives the chunks.
pub slice_from_u64s-slice_as_u64s :
    (d : ℕ) (cs : List Chunk) → All (HasRank d) cs → slice_from_u64s d (slice_as_u64s cs) ≡ ok cs
unfolding slice_from_u64s
slice_from_u64s-slice_as_u64s d cs h =
    rw
      (
        length-slice_as_u64s d cs h,
        mul-mod_left (length cs) (words d),
        mul-div_cancel (length cs) {n = words d} (omega arith),
      )
      (raw_chunks-slice_as_u64s d cs h)

raw_chunks_total :
    (n d : ℕ) (ws : List ℕ)
    → length ws ≡ n * words d
    → (cs : List Chunk) × (raw_chunks n d ws ≡ ok cs)
      × (slice_as_u64s cs ≡ ws)
      × All (HasRank d) cs
      × (length cs ≡ n)
unfolding raw_chunks slice_as_u64s as_u64s
raw_chunks_total zero d [] h = ([], refl, refl, tt, refl)
raw_chunks_total zero d (w ∷ ws) h = absurd (omega arith)
raw_chunks_total (suc n) d [] h = absurd (omega arith)
raw_chunks_total (suc n) d (a ∷ []) h = absurd (omega arith)
raw_chunks_total (suc n) d (a ∷ s ∷ ws) h =
    let (cs, reads, back, ranks, many) =
      raw_chunks_total n d (drop d ws) (omega (arith, length-drop d ws)) in
    (
      record { addr = a; size = s; offset = take d ws } ∷ cs,
      rw reads,
      rw (back, take-append-drop d ws),
      (omega (arith, length-take d ws), ranks),
      omega arith,
    )

-- Reading words as chunks of rank `d`: a multiple of the words of one chunk gives as many chunks of
-- that rank, whose words are those read; any other number of words panics.
pub slice_from_u64s_total :
    (d : ℕ) (ws : List ℕ)
    → ((cs : List Chunk) × (slice_from_u64s d ws ≡ ok cs)
        × (slice_as_u64s cs ≡ ws)
        × All (HasRank d) cs
        × (length cs * words d ≡ length ws))
      ⊎ ((length ws % words d ≢ 0) × (slice_from_u64s d ws ≡ panic))
unfolding slice_from_u64s
slice_from_u64s_total d ws = elim (Bool-cases ((length ws % words d) == 0)) [
  | inl h ↦
      let whole : length ws ≡ length ws / words d * words d =
        omega (arith, ==→eq _ _ h, div-add-mod' (length ws) (words d)) in
      let (cs, reads, back, ranks, many) = raw_chunks_total (length ws / words d) d ws whole in
      inl (cs, rw h reads, back, ranks, rw many (sym whole))
  | inr h ↦ inr (==→ne _ _ h, rw h)
]
