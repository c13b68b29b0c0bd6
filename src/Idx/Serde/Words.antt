-- ===== src/Idx/Serde/Words.antt =====
-- `U64<LE>` of the crate zerocopy: a word as 8 bytes, the least significant first.
use native.Mathlib.Nat.{mod-add-div, mul-mod_left, mul-div_cancel}
use native.Mathlib.Omega.{pow_step}
use hidefix.Base.{
  length, take, drop, length-append, take-append, drop-append, All, word, Result, ok, panic,
  if◌then◌else◌, ◌==◌, ℕ, zero, suc, ◌+◌, ◌*◌, ◌/◌, ◌%◌, ◌^◌, ◌<◌, ◌≡◌, refl, sym, ap, ap₂, ◌∙◌,
  List, [], ◌∷◌, ◌++◌, arith,
}

-- The lowest `k` bytes of a number, and the number of some bytes.
unfoldable pub le_bytes : (k n : ℕ) → List ℕ
le_bytes zero n = []
le_bytes (suc k) n = n % 256 ∷ le_bytes k (n / 256)

unfoldable pub of_le_bytes : List ℕ → ℕ
of_le_bytes [] = 0
of_le_bytes (b ∷ bs) = b + 256 * of_le_bytes bs

-- `as_bytes` of a slice of words.
unfoldable pub as_bytes : List ℕ → List ℕ
as_bytes [] = []
as_bytes (w ∷ ws) = le_bytes 8 w ++ as_bytes ws

-- So many words at the start of some bytes.
unfoldable pub words_of : (n : ℕ) (bytes : List ℕ) → List ℕ
words_of zero bytes = []
words_of (suc n) bytes = of_le_bytes (take 8 bytes) ∷ words_of n (drop 8 bytes)

-- `Ref::new_slice_unaligned`, unwrapped: the bytes as a slice of words.
unfoldable pub slice_unaligned : List ℕ → Result (List ℕ)
slice_unaligned bytes =
    if length bytes % 8 == 0 then ok (words_of (length bytes / 8) bytes) else panic

of_le_bytes-le_bytes : (k n : ℕ) → n < 256 ^ k → of_le_bytes (le_bytes k n) ≡ n
unfolding of_le_bytes le_bytes
of_le_bytes-le_bytes zero n h = omega arith
of_le_bytes-le_bytes (suc k) n h =
    let less : n / 256 < 256 ^ k = omega (arith, pow_step 256 k) in
    rw (of_le_bytes-le_bytes k (n / 256) less) (mod-add-div n 256)

length-le_bytes : (k n : ℕ) → length (le_bytes k n) ≡ k
unfolding le_bytes
length-le_bytes zero n = refl
length-le_bytes (suc k) n = ap suc (length-le_bytes k (n / 256))

length-as_bytes : (ws : List ℕ) → length (as_bytes ws) ≡ length ws * 8
unfolding as_bytes
length-as_bytes [] = omega arith
length-as_bytes (w ∷ ws) =
    omega
      (arith, length-append (le_bytes 8 w) (as_bytes ws), length-le_bytes 8 w, length-as_bytes ws)

words_of-as_bytes : (ws : List ℕ) → All (λ w. w < word) ws → words_of (length ws) (as_bytes ws) ≡ ws
unfolding words_of as_bytes
words_of-as_bytes [] p = refl
words_of-as_bytes (w ∷ ws) p =
    let first : take 8 (le_bytes 8 w ++ as_bytes ws) ≡ le_bytes 8 w =
      ap (λ n. take n (le_bytes 8 w ++ as_bytes ws)) (sym (length-le_bytes 8 w))
      ∙ take-append (le_bytes 8 w) (as_bytes ws) in
    let rest : drop 8 (le_bytes 8 w ++ as_bytes ws) ≡ as_bytes ws =
      ap (λ n. drop n (le_bytes 8 w ++ as_bytes ws)) (sym (length-le_bytes 8 w))
      ∙ drop-append (le_bytes 8 w) (as_bytes ws) in
    ap₂ ◌∷◌ (ap of_le_bytes first ∙ of_le_bytes-le_bytes 8 w p.0)
      (ap (words_of (length ws)) rest ∙ words_of-as_bytes ws p.1)

-- Words that `u64` holds are read back from their bytes.
pub slice_unaligned-as_bytes :
    (ws : List ℕ) → All (λ w. w < word) ws → slice_unaligned (as_bytes ws) ≡ ok ws
unfolding slice_unaligned
slice_unaligned-as_bytes ws p =
    let many = length-as_bytes ws in
    let none_left : length (as_bytes ws) % 8 ≡ 0 =
      ap (λ n. n % 8) many ∙ mul-mod_left (length ws) 8 in
    let count : length (as_bytes ws) / 8 ≡ length ws =
      ap (λ n. n / 8) many ∙ mul-div_cancel (length ws) (omega arith) in
    rw (none_left, count) (ap ok (words_of-as_bytes ws p))
