-- ===== src/Filters/Xdr/Extends.antt =====
-- src/filters/xdr.rs: `xdr` keeps the numbers: small integers are extended by their sign, and all others
-- only change their order.
use mathlib.Core.List.{reverse-cons, reverse-append, reverse-reverse}
use hidefix.Base.{
  ltb, leb, if◌then◌else◌, Bool-cases, length, replicate, length-append, length-replicate, All,
  Result, ◌>>=◌, ok, err, panic, stuck, ℕ, zero, suc, ◌+◌, ◌-◌, ◌*◌, ◌/◌, ◌^◌, ◌≡◌, refl, ap, ◌∙◌,
  ◌≢◌, inl, inr, Bool, true, false, ◌&&◌, List, [], ◌∷◌, ◌++◌, map, reverse, arith,
}
use hidefix.Filters.Byteorder.{Order, native_order, swap, to_native_one, to_big_e_one, integer}
use hidefix.Filters.Byteorder.Reads.{big_endian, reads}
use hidefix.Filters.Sized.{SliceCast, concat}
use hidefix.Filters.Xdr.{xdr, first_byte, extension, widen, cast_loop, xdr_cast_slice, xdr_integer}
use hidefix.Idx.Datatype.{Datatype}

-- The bytes of a number in an order, the most significant first.
abbrev pub in_big_endian : Order → List ℕ → List ℕ
in_big_endian Order.be s = s
in_big_endian Order.le s = reverse s
in_big_endian Order.unknown s = s

-- The bytes of an extended number.
abbrev pub extended : (signed : Bool) → (n : ℕ) → Order → List ℕ → List ℕ
extended signed n order s = extension signed n (in_big_endian order s) ++ in_big_endian order s

-- What a number of so many bytes loses when its first bit is a sign.
abbrev pub sign : (signed : Bool) → List ℕ → (size : ℕ) → ℕ
sign signed s size = if signed && leb 128 (first_byte s) then 256 ^ size else 0

-- The same number in 4 bytes: as two's complement if it is signed.
abbrev pub Same : (signed : Bool) (from : ℕ) → Order → List ℕ → List ℕ → Type 0
Same signed from order s out =
    (length out ≡ 4)
    × (big_endian out + sign signed (in_big_endian order s) from
        ≡ reads order s + sign signed (in_big_endian order s) 4)

abbrev Known : Order → Type 0
Known order = order ≢ Order.unknown

length-reverse : (s : List ℕ) → length (reverse s) ≡ length s
length-reverse [] = refl
length-reverse (b ∷ s) =
    rw (reverse-cons b s, length-append (reverse s) (b ∷ [])) (omega (arith, length-reverse s))

replicate-snoc : (n b : ℕ) → replicate n b ++ (b ∷ []) ≡ b ∷ replicate n b
replicate-snoc zero b = refl
replicate-snoc (suc n) b = ap (◌∷◌ b) (replicate-snoc n b)

reverse-replicate : (n b : ℕ) → reverse (replicate n b) ≡ replicate n b
reverse-replicate zero b = refl
reverse-replicate (suc n) b =
    rw (reverse-cons b (replicate n b), reverse-replicate n b) (replicate-snoc n b)

-- A number in little-endian order that was extended, back in big-endian order.
reverse-extended :
    (signed : Bool) (n : ℕ) (s : List ℕ)
    → reverse (s ++ extension signed n (reverse s)) ≡ extension signed n (reverse s) ++ reverse s
unfolding extension
reverse-extended signed n s =
    reverse-append s (extension signed n (reverse s))
    ∙ ap (λ z. z ++ reverse s) (reverse-replicate n _)

one_extended :
    (big signed : Bool) (n : ℕ) (order : Order)
    → Known order
    → (s : List ℕ)
    → (to_native_one big integer order s >>= λ s'.
        ok (to_big_e_one big integer (native_order big) (widen big signed n s')))
      ≡ ok (extended signed n order s)
unfolding to_native_one to_big_e_one native_order widen swap
one_extended true signed n Order.be k s = refl
one_extended true signed n Order.le k s = refl
one_extended false signed n Order.be k s =
    ap ok (reverse-extended signed n (reverse s) ∙ rw (reverse-reverse s) refl)
one_extended false signed n Order.le k s = ap ok (reverse-extended signed n s)
one_extended big signed n Order.unknown k s = absurd (k refl)

cons_given :
    {A B : Type 0} (m : Result A) (f : A → B) (b : B) (bs : List B)
    → (m >>= λ a. ok (f a)) ≡ ok b
    → (m >>= λ a. ok (f a ∷ bs)) ≡ ok (b ∷ bs)
cons_given (ok a) f b bs h = let e : f a ≡ b = cc in rw e refl
cons_given (err e) f b bs h = absurd cc
cons_given panic f b bs h = absurd cc
cons_given stuck f b bs h = absurd cc

cast_loop-extended :
    (big signed : Bool) (n : ℕ) (order : Order)
    → Known order
    → (u nn : List (List ℕ)) → length u ≡ length nn
    → cast_loop big signed n order u nn ≡ ok (map (extended signed n order) u)
unfolding cast_loop
cast_loop-extended big signed n order k [] [] len = refl
cast_loop-extended big signed n order k (s ∷ u) (d ∷ nn) len =
    rw (cast_loop-extended big signed n order k u nn (omega arith)) (
      cons_given (to_native_one big integer order s)
        (λ s'. to_big_e_one big integer (native_order big) (widen big signed n s'))
        (extended signed n order s) _ (one_extended big signed n order k s))
cast_loop-extended big signed n order k [] (d ∷ nn) len = absurd (omega arith)
cast_loop-extended big signed n order k (s ∷ u) [] len = absurd (omega arith)

one-Same :
    (signed : Bool) (s : List ℕ)
    → length s ≡ 1
    → (length (extension signed 3 s ++ s) ≡ 4)
      × (big_endian (extension signed 3 s ++ s) + sign signed s 1 ≡ big_endian s + sign signed s 4)
unfolding extension
one-Same signed [] len = absurd (omega arith)
one-Same signed (a ∷ []) len = elim (Bool-cases (signed && leb 128 a)) [
  | inl e ↦ rw e (refl, omega arith)
  | inr e ↦ rw e (refl, omega arith)
]
one-Same signed (a ∷ b ∷ s) len = absurd (omega arith)

two-Same :
    (signed : Bool) (s : List ℕ)
    → length s ≡ 2
    → (length (extension signed 2 s ++ s) ≡ 4)
      × (big_endian (extension signed 2 s ++ s) + sign signed s 2 ≡ big_endian s + sign signed s 4)
unfolding extension
two-Same signed [] len = absurd (omega arith)
two-Same signed (a ∷ []) len = absurd (omega arith)
two-Same signed (a ∷ b ∷ []) len = elim (Bool-cases (signed && leb 128 a)) [
  | inl e ↦ rw e (refl, omega arith)
  | inr e ↦ rw e (refl, omega arith)
]
two-Same signed (a ∷ b ∷ c ∷ s) len = absurd (omega arith)

length-in_big_endian : (order : Order) (s : List ℕ) → length (in_big_endian order s) ≡ length s
length-in_big_endian Order.be s = refl
length-in_big_endian Order.le s = length-reverse s
length-in_big_endian Order.unknown s = refl

reads-in_big_endian :
    (order : Order) (s : List ℕ) → reads order s ≡ big_endian (in_big_endian order s)
reads-in_big_endian Order.be s = refl
reads-in_big_endian Order.le s = refl
reads-in_big_endian Order.unknown s = refl

All-of_each :
    {A : Type 0} (P Q : A → Type 0) (xs : List A) → ((x : A) → P x → Q x) → All P xs → All Q xs
All-of_each P Q [] h p = tt
All-of_each P Q (x ∷ xs) h p = (h x p.0, All-of_each P Q xs h p.1)

length-concat :
    (k : ℕ) (vs : List (List ℕ)) → All (λ v. length v ≡ k) vs → length (concat vs) ≡ length vs * k
length-concat k [] p = omega arith
length-concat k (v ∷ vs) p =
    rw (length-append v (concat vs), p.0, length-concat k vs p.1) (omega arith)

-- The size of the values that are widened.
pub data IsSmall : ℕ → Type 0 where
  one_byte : IsSmall 1
  two_bytes : IsSmall 2

extended-Same :
    (signed : Bool) (from : ℕ) (order : Order)
    → IsSmall from
    → (s : List ℕ) → length s ≡ from
    → Same signed from order s (extended signed (4 - from) order s)
extended-Same signed from order one_byte s len =
    rw (reads-in_big_endian order s)
      (one-Same signed (in_big_endian order s) (length-in_big_endian order s ∙ len))
extended-Same signed from order two_bytes s len =
    rw (reads-in_big_endian order s)
      (two-Same signed (in_big_endian order s) (length-in_big_endian order s ∙ len))

-- The integers of one or two bytes.
abbrev pub integer_type : (signed : Bool) → ℕ → Datatype
integer_type true sz = Datatype.int sz
integer_type false sz = Datatype.uint sz

module _ (c : SliceCast) (big : Bool) where
  as_many :
      (u nn : List (List ℕ)) → c.cast 4 (replicate (length u * 4) 0) ≡ ok nn → length u ≡ length nn
  as_many u nn room =
      let (whole, sized) = c.cast-values 4 (replicate (length u * 4) 0) nn room in
      omega (
        arith,
        length-concat 4 nn sized,
        ap (λ z. length z) whole,
        length-replicate {A = ℕ} (length u * 4) 0,
      )

  cast-Same :
      (signed : Bool) (from : ℕ) (order : Order) (src : List ℕ) (u nn : List (List ℕ))
      → ltb 1 (4 / from) ≡ true
      → order ≢ Order.unknown
      → c.cast from src ≡ ok u
      → c.cast 4 (replicate (length u * 4) 0) ≡ ok nn
      → xdr_cast_slice c big signed from 4 src order
        ≡ ok (concat (map (extended signed (4 - from) order) u))
  unfolding xdr_cast_slice
  cast-Same signed from order src u nn scales known given room =
      rw
        (
          given,
          scales,
          room,
          cast_loop-extended big signed (4 - from) order known u nn (as_many u nn room),
        )
        refl

  -- An `xdr` of integers of one or two bytes from a known order, whose casts succeed, gives for each value
  -- 4 bytes, the most significant first, that stand for the same number: as two's complement for the
  -- signed ones.
  pub xdr-Same :
      (signed : Bool) (from : ℕ) (order : Order) (src : List ℕ) (u nn : List (List ℕ))
      → IsSmall from
      → order ≢ Order.unknown
      → c.cast from src ≡ ok u
      → c.cast 4 (replicate (length u * 4) 0) ≡ ok nn
      → (xdr c big src (integer_type signed from) order
          ≡ ok (concat (map (extended signed (4 - from) order) u)))
        × All (λ s. Same signed from order s (extended signed (4 - from) order s)) u
  unfolding xdr xdr_integer
  xdr-Same signed from order src u nn small known given room = (
    computed signed from small given room,
    All-of_each (λ v. length v ≡ from) _ u (extended-Same signed from order small)
        (c.cast-values from src u given).1,
  )
    where
      computed :
          (signed : Bool) (from : ℕ)
          → IsSmall from
          → c.cast from src ≡ ok u
          → c.cast 4 (replicate (length u * 4) 0) ≡ ok nn
          → xdr c big src (integer_type signed from) order
            ≡ ok (concat (map (extended signed (4 - from) order) u))
      computed true from one_byte given room = cast-Same true 1 order src u nn refl known given room
      computed true from two_bytes given room =
          cast-Same true 2 order src u nn refl known given room
      computed false from one_byte given room =
          cast-Same false 1 order src u nn refl known given room
      computed false from two_bytes given room =
          cast-Same false 2 order src u nn refl known given room
