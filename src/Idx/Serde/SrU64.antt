-- ===== src/Idx/Serde/SrU64.antt =====
-- src/idx/serde.rs, `sr_u64`: arrays of divisors, as the numbers that they divide by.
use hidefix.Base.{
  ◌==◌, ==→eq, ==_refl, Bool-cases, length, length-map, All, Error, Result, ◌>>=◌, ◌>>◌, ensure,
  collect, ok, err, ℕ, ◌<◌, ◌≡◌, refl, sym, ap₂, ◌⊎◌, inl, inr, List, [], ◌∷◌, map, arith,
}
use hidefix.Idx.Divisor.{Divisor}
use hidefix.Idx.Serde.{Format}

module _ {Sr W : Type 0} ⦃r : Divisor Sr⦄ (f : Format W) where
  -- `serialize`
  unfoldable pub serialize : List Sr → Result W
  serialize v = f.write (map r.get v)

  -- `deserialize`: the array is made of divisors by 1, and then every one is set.
  unfoldable pub deserialize : (d : ℕ) → W → Result (List Sr)
  deserialize d w = do
    one ← r.new 1
    v ← f.read w
    ensure (length v == d) Error.length_mismatch
    collect r.new v

module _ {Sr W : Type 0} ⦃r : Divisor Sr⦄ (f : Format W) where
  collect-Divides :
      (ns : List ℕ)
      → All (λ n. 0 < n) ns
      → (ss : List Sr) × (collect r.new ns ≡ ok ss) × (map r.get ss ≡ ns)
  collect-Divides [] p = ([], refl, refl)
  collect-Divides (n ∷ ns) p =
      let (s, made, same) = r.new-pos n p.0 in
      let (ss, made', same') = collect-Divides ns p.1 in
      (s ∷ ss, rw (made, made') refl, ap₂ ◌∷◌ same same')

  -- Divisors of numbers that are not 0, once written, are read at their length as divisors of the same numbers;
  -- at any other length that is an error.
  pub sr-deserialize-serialize :
      (v : List Sr) (w : W) (d : ℕ)
      → All (λ n. 0 < n) (map r.get v)
      → serialize f v ≡ ok w
      → ((ss : List Sr) × (deserialize f (length v) w ≡ ok ss) × (map r.get ss ≡ map r.get v))
        × ((d ≡ length v) ⊎ (deserialize {Sr = Sr} f d w ≡ err Error.length_mismatch))
  unfolding serialize deserialize
  sr-deserialize-serialize v w d p h =
      let (ss, made, same) = collect-Divides (map r.get v) p in
      let (one, unit, _) = r.new-pos 1 (omega arith) in
      let back = f.read-write (map r.get v) w h in
      let many = length-map r.get v in
      (
        (ss, rw (unit, back, many, ==_refl (length v), made) refl, same),
        elim (Bool-cases (length v == d)) [
          | inl e ↦ inl (sym (==→eq _ _ e))
          | inr e ↦ inr (rw (unit, back, many, e) refl)
        ],
      )
