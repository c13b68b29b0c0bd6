-- ===== src/Idx/Slicer/Carry.antt =====
-- src/idx/dataset/dataset.rs: the loop of `next` for the left-over carry adds 1 to the coordinates.
use native.Mathlib.Nat.{mod-lt, mod-eq_of_lt, div-eq_of_lt, mod_self, div_self}
use hidefix.Base.{
  add64-eq-add, ℕ, ◌+◌, ◌*◌, ◌/◌, ◌%◌, ◌≡◌, refl, ap, List, [], ◌∷◌, map, dec_lt, arith,
}
use hidefix.Idx.Divisor.{Divisor}
use hidefix.Idx.Slicer.{Dim, spread}
use hidefix.Idx.Slicer.Axis.{Axis, digits, dims_at, AreAxes, mod-add_lt, mod-add_eq}

map-offset :
    {Sr : Type 0} (as' : List (Axis Sr)) (q : ℕ)
    → map (λ (x : Dim Sr). x.offset) (dims_at as' q) ≡ digits as' q
map-offset [] q = refl
map-offset (a ∷ as') q = ap (◌∷◌ (q % a.count)) (map-offset as' (q / a.count))

module _ {Sr : Type 0} ⦃r : Divisor Sr⦄ where
  pub spread-zero :
      (sz : ℕ) (as' : List (Axis Sr)) (q : ℕ)
      → AreAxes sz as'
      → spread (dims_at as' q) 0 ≡ digits as' q
  unfolding spread
  spread-zero sz [] q h = refl
  spread-zero sz (a ∷ as') q h =
      let v = h.1 in
      let lt = mod-lt q v.count_pos in
      let e1 = add64-eq-add (q % a.count) 0 (omega (arith, v.inside, v.fits)) in
      let e2 : q % a.count + 0 ≡ q % a.count = omega arith in
      rw (
        e1,
        e2,
        r.rem-eq (q % a.count) a.sru,
        r.div-eq (q % a.count) a.sru,
        v.divides,
        mod-eq_of_lt lt,
        div-eq_of_lt lt,
        map-offset,
      )

  pub spread-one :
      (sz : ℕ) (as' : List (Axis Sr)) (q : ℕ)
      → AreAxes sz as'
      → spread (dims_at as' q) 1 ≡ digits as' (q + 1)
  unfolding spread
  spread-one sz [] q h = refl
  spread-one sz (a ∷ as') q h =
      let v = h.1 in
      let lt = mod-lt q v.count_pos in
      let o = q % a.count in
      let e1 = add64-eq-add o 1 (omega (arith, v.inside, v.fits)) in
      rw (e1, r.rem-eq (o + 1) a.sru, r.div-eq (o + 1) a.sru, v.divides)
        (elim (dec_lt (o + 1) a.count) [
          | yes p ↦
              let step = mod-add_lt q a.count 1 p in
              rw (mod-eq_of_lt p, div-eq_of_lt p, map-offset, step.0, step.1)
          | no p ↦
              let full : o + 1 ≡ a.count = omega arith in
              let step = mod-add_eq q a.count 1 v.count_pos full in
              rw (
                step.0,
                step.1,
                full,
                mod_self,
                div_self v.count_pos,
                spread-one (sz * a.chunk_sz) as' (q / a.count) h.2,
              )
        ])
