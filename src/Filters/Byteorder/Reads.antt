-- ===== src/Filters/Byteorder/Reads.antt =====
-- src/filters/byteorder.rs: changing the order of the bytes keeps the numbers that they stand for.
use mathlib.Core.List.{reverse-reverse, foldl}
use hidefix.Base.{
  ok, panic, ℕ, ◌+◌, ◌*◌, ◌≡◌, refl, ap₂, ◌≢◌, ◌⊎◌, inl, inr, Bool, true, false, List, [], ◌∷◌, map,
  reverse,
}
use hidefix.Filters.Byteorder.{
  Order, Kind, native_order, swap, to_native_one, to_native, to_big_e, integer, float,
}

-- The number that bytes stand for, the most significant first.
abbrev pub big_endian : List ℕ → ℕ
big_endian bytes = foldl (λ acc b. acc * 256 + b) 0 bytes

-- The number that bytes in an order stand for.
abbrev pub reads : Order → List ℕ → ℕ
reads Order.be bytes = big_endian bytes
reads Order.le bytes = big_endian (reverse bytes)
reads Order.unknown bytes = big_endian bytes

-- Where `swap` swaps: integers anywhere, floating-point numbers on a little-endian target.
abbrev pub Swaps : Bool → Kind → Type 0
Swaps target_is_big k = (k ≡ integer) ⊎ (target_is_big ≡ false)

swap-reverse : (big : Bool) (k : Kind) (v : List ℕ) → Swaps big k → swap big k v ≡ reverse v
unfolding swap
swap-reverse big integer v s = refl
swap-reverse big float v (inl e) = absurd (float-ne-integer e)
  where
    float-ne-integer : Kind.float ≢ Kind.integer
    float-ne-integer e' = cc
swap-reverse big float v (inr e) = rw e refl

map-swap :
    (big : Bool) (k : Kind) (from to : Order)
    → Swaps big k
    → ((v : List ℕ) → reads to (reverse v) ≡ reads from v)
    → (vs : List (List ℕ)) → map (reads to) (map (swap big k) vs) ≡ map (reads from) vs
map-swap big k from to s h [] = refl
map-swap big k from to s h (v ∷ vs) =
    ap₂ ◌∷◌ (rw (swap-reverse big k v s) (h v)) (map-swap big k from to s h vs)

-- From a known order to that of the target, a slice keeps the numbers that its values stand for, if the
-- values are integers or the target is little-endian.
pub to_native-reads :
    (big : Bool) (k : Kind) (order : Order) (values : List (List ℕ))
    → Swaps big k
    → order ≢ Order.unknown
    → map (reads (native_order big)) (to_native big k order values) ≡ map (reads order) values
unfolding to_native native_order
to_native-reads true k Order.be values s h = refl
to_native-reads true k Order.le values s h = map-swap true k Order.le Order.be s (λ v. refl) values
to_native-reads false k Order.be values s h =
    map-swap false k Order.be Order.le s (λ v. rw (reverse-reverse v) refl) values
to_native-reads false k Order.le values s h = refl
to_native-reads big k Order.unknown values s h = absurd (h refl)

-- From a known order to big-endian, a slice keeps the numbers that its values stand for, if the values
-- are integers or the target is little-endian.
pub to_big_e-reads :
    (big : Bool) (k : Kind) (order : Order) (values : List (List ℕ))
    → Swaps big k
    → order ≢ Order.unknown
    → map (reads Order.be) (to_big_e big k order values) ≡ map (reads order) values
unfolding to_big_e
to_big_e-reads big k Order.be values s h = refl
to_big_e-reads big k Order.le values s h = map-swap big k Order.le Order.be s (λ v. refl) values
to_big_e-reads big k Order.unknown values s h = absurd (h refl)

-- One value and a slice of it alone: the same bytes, but that an unknown order panics on one value.
pub to_native_one-eq-to_native :
    (big : Bool) (k : Kind) (order : Order) (v : List ℕ)
    → ((order ≡ Order.unknown) × (to_native_one big k order v ≡ panic))
      ⊎ ((w : List ℕ) × (to_native_one big k order v ≡ ok w)
          × (to_native big k order (v ∷ []) ≡ w ∷ []))
unfolding to_native to_native_one
to_native_one-eq-to_native true k Order.be v = inr (v, refl, refl)
to_native_one-eq-to_native true k Order.le v = inr (swap true k v, refl, refl)
to_native_one-eq-to_native false k Order.be v = inr (swap false k v, refl, refl)
to_native_one-eq-to_native false k Order.le v = inr (v, refl, refl)
to_native_one-eq-to_native true k Order.unknown v = inl (refl, refl)
to_native_one-eq-to_native false k Order.unknown v = inl (refl, refl)
