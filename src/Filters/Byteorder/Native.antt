-- ===== src/Filters/Byteorder/Native.antt =====
-- src/filters/byteorder.rs: a value in the order of the target, described by the number that it stands for.
use mathlib.Core.List.{reverse-reverse, Forall₂}
use hidefix.Base.{
  ℕ, ◌≡◌, refl, sym, ap, ◌≢◌, ◌⊎◌, inl, inr, Bool, true, false, List, [], ◌∷◌, map, reverse,
}
use hidefix.Filters.Byteorder.{Order, Kind, native_order, swap, to_native, integer, float}
use hidefix.Filters.Byteorder.Reads.{reads, Swaps}

-- What stands in memory for a value of the data: its bytes, forwards or backwards, that in the order of the
-- target stand for the number that the value is in the order of the data. Its bytes as they are, if the order of
-- the data is unknown, or for a floating-point number on a big-endian target.
pub data IsNative (big : Bool) (k : Kind) (order : Order) : (stored given : List ℕ) → Type 0 where
  same_number :
      (stored given : List ℕ)
      → order ≢ Order.unknown
      → Swaps big k
      → (given ≡ stored) ⊎ (given ≡ reverse stored)
      → reads (native_order big) given ≡ reads order stored
      → IsNative big k order stored given
  left_alone :
      (stored : List ℕ)
      → (order ≡ Order.unknown) ⊎ ((k ≡ float) × (big ≡ true))
      → IsNative big k order stored stored

-- Value by value.
abbrev pub AreNative : Bool → Kind → Order → (stored given : List (List ℕ)) → Type 0
AreNative big k order = Forall₂ (IsNative big k order)

Forall₂-map :
    {R : List ℕ → List ℕ → Type 0} (f : List ℕ → List ℕ)
    → ((v : List ℕ) → R v (f v))
    → (vs : List (List ℕ)) → Forall₂ R vs (map f vs)
Forall₂-map f each [] = Forall₂.nil
Forall₂-map f each (v ∷ vs) = Forall₂.cons (each v) (Forall₂-map f each vs)

Forall₂-self :
    {R : List ℕ → List ℕ → Type 0} → ((v : List ℕ) → R v v) → (vs : List (List ℕ)) → Forall₂ R vs vs
Forall₂-self each [] = Forall₂.nil
Forall₂-self each (v ∷ vs) = Forall₂.cons (each v) (Forall₂-self each vs)

-- The kind of a number and the target decide whether it is swapped.
kind_cases : (big : Bool) (k : Kind) → Swaps big k ⊎ ((k ≡ float) × (big ≡ true))
kind_cases big integer = inl (inl refl)
kind_cases false float = inl (inr refl)
kind_cases true float = inr (refl, refl)

known_be : Order.be ≢ Order.unknown
known_be e = cc

known_le : Order.le ≢ Order.unknown
known_le e = cc

-- Bytes that already stand in the order of the target.
kept-IsNative :
    (big : Bool) (k : Kind) (order : Order)
    → order ≢ Order.unknown
    → order ≡ native_order big
    → (v : List ℕ) → IsNative big k order v v
kept-IsNative big k order known same v = elim (kind_cases big k) [
  | inl s ↦ same_number v v known s (inl refl) (ap (λ o. reads o v) (sym same))
  | inr n ↦ left_alone v (inr n)
]

swapped-IsNative :
    (big : Bool) (k : Kind) (order : Order)
    → order ≢ Order.unknown
    → ((v : List ℕ) → reads (native_order big) (reverse v) ≡ reads order v)
    → (v : List ℕ) → IsNative big k order v (swap big k v)
unfolding swap
swapped-IsNative big integer order known turned v =
    same_number v (reverse v) known (inl refl) (inr refl) (turned v)
swapped-IsNative false float order known turned v =
    same_number v (reverse v) known (inr refl) (inr refl) (turned v)
swapped-IsNative true float order known turned v = left_alone v (inr (refl, refl))

pub to_native-AreNative :
    (big : Bool) (k : Kind) (order : Order) (vs : List (List ℕ))
    → AreNative big k order vs (to_native big k order vs)
unfolding to_native native_order
to_native-AreNative true k Order.be vs =
    Forall₂-self (kept-IsNative true k Order.be known_be refl) vs
to_native-AreNative true k Order.le vs =
    Forall₂-map (swap true k) (swapped-IsNative true k Order.le known_le (λ v. refl)) vs
to_native-AreNative false k Order.be vs =
    Forall₂-map (swap false k)
      (swapped-IsNative false k Order.be known_be (λ v. rw (reverse-reverse v) refl)) vs
to_native-AreNative false k Order.le vs =
    Forall₂-self (kept-IsNative false k Order.le known_le refl) vs
to_native-AreNative true k Order.unknown vs = Forall₂-self (λ v. left_alone v (inl refl)) vs
to_native-AreNative false k Order.unknown vs = Forall₂-self (λ v. left_alone v (inl refl)) vs
