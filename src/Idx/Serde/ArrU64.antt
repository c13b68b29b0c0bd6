-- ===== src/Idx/Serde/ArrU64.antt =====
-- src/idx/serde.rs, `arr_u64`: arrays of `d` numbers.
use mathlib.Core.List.{append-nil}
use hidefix.Base.{
  length, take, replicate, Result, ◌>>=◌, ok, ℕ, zero, suc, ◌-◌, ◌≡◌, refl, ap, List, [], ◌∷◌, ◌++◌,
  arith,
}
use hidefix.Idx.Serde.{Format}

-- The zip of the elements with the slots: a slot without an element keeps what it holds.
unfoldable pub assign : (elements slots : List ℕ) → List ℕ
assign (e ∷ es) (a ∷ as') = e ∷ assign es as'
assign es [] = []
assign [] (a ∷ as') = a ∷ as'

module _ {W : Type 0} (f : Format W) where
  -- `serialize`
  unfoldable pub serialize : List ℕ → Result W
  serialize v = f.write v

  -- `deserialize`
  unfoldable pub deserialize : (d : ℕ) → W → Result (List ℕ)
  deserialize d w = do v ← f.read w; ok (assign v (replicate d 0))

assign-zeros :
    (v : List ℕ) (d : ℕ) → assign v (replicate d 0) ≡ take d v ++ replicate (d - length v) 0
unfolding assign
assign-zeros [] zero = refl
assign-zeros [] (suc d) = let e : suc d - 0 ≡ suc d = omega arith in rw e refl
assign-zeros (e ∷ v) zero =
    let none_left : zero - suc (length v) ≡ 0 = omega arith in rw none_left refl
assign-zeros (e ∷ v) (suc d) =
    let less : suc d - suc (length v) ≡ d - length v = omega arith in
    rw less (ap (◌∷◌ e) (assign-zeros v d))

-- An array of numbers that was written is read back at its length. At any other length there is no error:
-- an array of that length begins with the numbers that fit, and the rest of it is zeros.
pub deserialize-serialize :
    {W : Type 0} (f : Format W) (v : List ℕ) (w : W) (d : ℕ)
    → serialize f v ≡ ok w
    → (deserialize f (length v) w ≡ ok v)
      × (deserialize f d w ≡ ok (take d v ++ replicate (d - length v) 0))
unfolding serialize deserialize
deserialize-serialize f v w d h =
    let none_left : length v - length v ≡ 0 = omega arith in
    (
      rw (f.read-write v w h, assign-zeros v (length v), none_left, take-all v)
          (ap ok (append-nil v)),
      rw (f.read-write v w h, assign-zeros v d) refl,
    )
  where
    take-all : (xs : List ℕ) → take (length xs) xs ≡ xs
    take-all [] = refl
    take-all (x ∷ xs) = ap (◌∷◌ x) (take-all xs)
