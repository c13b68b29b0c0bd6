-- ===== src/Reader/Stream/Sent.antt =====
-- src/reader/stream.rs and src/filters/xdr.rs: the values of a piece in XDR form, by the size of a value in that
-- form.
use native.Mathlib.Nat.{mul-one, mul_assoc}
use hidefix.Filters.Byteorder.{Order}
use hidefix.Filters.Sized.{SliceCast}
use hidefix.Filters.Xdr.{size_factor, xdr_factor}
use hidefix.Idx.Datatype.{Datatype, dsize, uint, int, float, custom}
use hidefix.Idx.Slicer.{Slice}
use hidefix.Reader.Services.{Decompressor}
use hidefix.Reader.Gather.{Storage}
use hidefix.Base.{
  max, Result, ok, ◌>>=◌, mul64, sub_slice, word, mul-mod_left_of_mod, ℕ, ◌*◌, ◌%◌, ◌≤◌, ◌≡◌, refl,
  ap, ◌∙◌, ◌⊎◌, inl, inr, Bool, List, [], ◌∷◌, arith,
}
use hidefix.Reader.Stream.Items.{encoded, factor_bytes, stream_of}

-- The bytes of a value in XDR: an integer takes at least four, all else stays as long as it is.
unfoldable pub xdr_size : Datatype → ℕ
xdr_size (uint sz) = max 4 sz
xdr_size (int sz) = max 4 sz
xdr_size (float sz) = sz
xdr_size (custom sz) = sz

-- The sizes of integers that have an XDR form.
abbrev pub IsXdrInteger : ℕ → Type 0
IsXdrInteger sz = (sz ≡ 1) ⊎ ((sz ≡ 2) ⊎ (4 ≤ sz))

-- The types that have an XDR form.
abbrev pub IsXdrType : Datatype → Type 0
IsXdrType (uint sz) = IsXdrInteger sz
IsXdrType (int sz) = IsXdrInteger sz
IsXdrType (float sz) = 4 ≤ sz
IsXdrType (custom sz) = Unit

-- The bytes of the values of a piece in the XDR form of its chunk.
unfoldable pub xdr_bytes :
    Decompressor
    → (content : List ℕ) → Storage
    → SliceCast
    → (big : Bool) → Datatype
    → Order
    → Slice
    → Result (List ℕ)
xdr_bytes de content st cast big dtype order (c, start, end) =
    encoded de content st cast big dtype order c.addr c.size >>= λ chunk.
    sub_slice chunk (mul64 start (xdr_size dtype)) (mul64 end (xdr_size dtype))

size_factor_long : (sz : ℕ) → 4 ≤ sz → size_factor sz ≡ ok 1
unfolding size_factor
size_factor_long sz h = ground arith

size_factor-max :
    (sz : ℕ) → IsXdrInteger sz → (f : ℕ) × (size_factor sz ≡ ok f) × (sz * f ≡ max 4 sz)
unfolding size_factor
size_factor-max sz (inl one) = (4, rw one refl, rw one refl)
size_factor-max sz (inr (inl two)) = (2, rw two refl, rw two refl)
size_factor-max sz (inr (inr long)) = (1, size_factor_long sz long, omega arith)

xdr_factor-xdr_size :
    (t : Datatype) → IsXdrType t → (f : ℕ) × (xdr_factor t ≡ ok f) × (dsize t * f ≡ xdr_size t)
unfolding xdr_factor xdr_size dsize
xdr_factor-xdr_size (uint sz) h = size_factor-max sz h
xdr_factor-xdr_size (int sz) h = size_factor-max sz h
xdr_factor-xdr_size (float sz) h = (1, size_factor_long sz h, mul-one sz)
xdr_factor-xdr_size (custom sz) h = (1, refl, mul-one sz)

mul64_assoc : (a b c : ℕ) → mul64 (mul64 a b) c ≡ mul64 a (b * c)
unfolding mul64
mul64_assoc a b c = mul-mod_left_of_mod (a * b) c word ∙ ap (λ t. t % word) (mul_assoc a b c)

-- The stream cuts the pieces by the size of a value in XDR.
pub factor_bytes-xdr_bytes :
    (de : Decompressor) (content : List ℕ) (st : Storage) (cast : SliceCast) (big : Bool)
    (t : Datatype) (order : Order) (x : Slice)
    → IsXdrType t
    → st.dsz ≡ dsize t
    → factor_bytes de content st cast big t order x ≡ xdr_bytes de content st cast big t order x
unfolding factor_bytes xdr_bytes
factor_bytes-xdr_bytes de content st cast big t order (c, start, end) h same =
    let (f, factor, whole) = xdr_factor-xdr_size t h in
    let by_size : (n : ℕ) → mul64 (mul64 n st.dsz) f ≡ mul64 n (xdr_size t) =
      λ n. mul64_assoc n st.dsz f ∙ ap (mul64 n) (ap (λ d. d * f) same ∙ whole) in
    rw (factor, by_size start, by_size end) refl

pub stream_of_same :
    {f g : Slice → Result (List ℕ)}
    → ((x : Slice) → f x ≡ g x)
    → (xs : List Slice) → stream_of f xs ≡ stream_of g xs
stream_of_same same [] = refl
stream_of_same {f = f} {g = g} same (x ∷ xs) =
    rw (same x, stream_of_same {f = f} {g = g} same xs) refl
