-- ===== src/Idx/Slicer/Turn.antt =====
-- src/idx/dataset/dataset.rs: the whole loop of `next` on the axes of a selection.
use native.Mathlib.Nat.{
  mod-eq_of_lt, mod_self, div_self, add-zero, div-eq_of_lt, mod-lt, mul-le-mul_left,
  mul-lt-mul_of_pos_left, lt_of_le_of_lt,
}
use hidefix.Base.{
  ltb, ◌==◌, lt→ltb, ==_refl, ne→==, Bool-cases, word, ℕ, ◌+◌, ◌-◌, ◌*◌, ◌/◌, ◌%◌, ◌≤◌, ◌<◌, ◌≡◌,
  refl, ap, ◌∙◌, ◌≢◌, inl, inr, true, not, ◌&&◌, List, [], ◌∷◌, ◌++◌, dec_lt, arith,
}
use hidefix.Idx.Divisor.{Divisor}
use hidefix.Idx.Slicer.{round, cut, walk, spread}
use hidefix.Idx.Slicer.Axis.{
  Axis, total, dim_at, IsCovered, AreAxes, reach, digits, dims_at, IsAxis, mod-add_lt, mod-add_eq,
  base_bounds,
}
use hidefix.Idx.Slicer.Rounds.{add-cut, advance_dim-eq, pass-eq, thin, coord-lt}
use hidefix.Idx.Slicer.Moves.{fill, within-reach}
use hidefix.Idx.Slicer.Layout.{AreThin, IsThin, cut-covered}

module _ {Sr : Type 0} ⦃r : Divisor Sr⦄ where
  module _ (sz : ℕ) (a : Axis Sr) (as' : List (Axis Sr)) (h : AreAxes sz (a ∷ as'))
      (c : IsCovered a) (q k : ℕ) (hk : k ≤ 1) (inner : k ≡ 0 → sz ≡ 1) (start : q % a.count ≡ 0)
      (lt : q + k < total (a ∷ as')) (pos : 0 < sz) (end : ℕ) (whole : end ≡ sz * total (a ∷ as'))
      (small : end < word) where
    block-le : q + a.count ≤ total (a ∷ as')
    block-le = within-reach sz a as' h q a.count (omega arith) (omega (arith, start))

    block-lt : sz * (q + a.count) < word
    block-lt = lt_of_le_of_lt (mul-le-mul_left sz block-le) (omega arith)

    reach_whole : reach a q ≡ a.count
    reach_whole = (cut-covered a h.1 q c start).3

    abbrev step : ℕ
    step = (reach a q - (q % a.count + k)) * a.chunk_dim_sz

    adv_eq : sz * k + step ≡ sz * a.count
    adv_eq =
        rw (h.0, reach_whole, start)
          (fill sz k a.count (a.count - (0 + k)) (omega (arith, h.1.count_pos)) (omega arith))

    off_eq : sz * (q + k) + step ≡ sz * (q + a.count)
    off_eq = omega (arith, adv_eq)

    stays :
        not ((cut (dim_at a q) == 1) && not (a.chunk_dim_sz == 1)) ≡ true
        → q % a.count + k < a.count
    stays p =
        let ct = (cut-covered a h.1 q c start).1 in
        let pos = h.1.count_pos in
        let same = c.whole in
        let dim = h.0 in
        elim c.thick [ inl two ↦ omega (arith, start) | inr wide ↦ ground (arith, start) ]

    first : (k' : ℕ) → k' ≤ 1 → (k' ≢ 0) → k' ≡ 1
    first k' le ne = omega arith

    -- A covered axis at its start is run through as a whole.
    pub covered_round : round end (dim_at a q) (sz * k) (sz * (q + k)) k ≡ record {
      coord = 0;
      advance = sz * a.count;
      offset = sz * (q + a.count);
      carry = 1;
      continues = ltb (sz * (q + a.count)) end;
    }
    unfolding round
    covered_round =
        let (b, ct, ce, re) = cut-covered a h.1 q c start in
        elim (Bool-cases ((cut (dim_at a q) == 1) && not (a.chunk_dim_sz == 1))) [
          | inl p ↦
              let (one, wide) = thin a h.1 q p in
              let count1 : a.count ≡ 1 = omega (arith, c.whole) in
              let k1 : k ≡ 1 = first k hk (λ z. wide (h.0 ∙ inner z)) in
              let more : sz * (q + 1) < end =
                rw whole (mul-lt-mul_of_pos_left (rw (← k1) lt) pos) in
              rw
                (
                  p,
                  k1,
                  pass-eq a h.1 q 1 (omega arith) (sz * 1) (sz * (q + 1)),
                  start,
                  count1,
                  lt→ltb (sz * (q + 1)) end more,
                )
                refl
          | inr p ↦
              let e =
                advance_dim-eq a h.1 q end (sz * k) (sz * (q + k)) k hk (stays (rw p refl))
                  (rw adv_eq (omega (arith, block-lt))) (rw off_eq block-lt) in
              rw
                (
                  p,
                  e,
                  adv_eq,
                  off_eq,
                  re,
                  mod_self,
                  div_self h.1.count_pos,
                  ce,
                  b,
                  ==_refl a.idx,
                  ==_refl a.count,
                )
                refl
        ]

  -- A carry over the end of an axis.
  step-digits :
      (sz : ℕ) (a : Axis Sr)
      → IsAxis a
      → (q k : ℕ) → k ≤ 1
      → ((q % a.count + k) / a.count ≤ 1)
        × ((q + k) % a.count ≡ (q % a.count + k) % a.count)
        × ((q + k) / a.count ≡ q / a.count + (q % a.count + k) / a.count)
  step-digits sz a v q k hk =
      let lt = mod-lt q v.count_pos in
      elim (dec_lt (q % a.count + k) a.count) [
        | yes p ↦
            let e = mod-add_lt q a.count k p in
            rw (e.0, e.1, mod-eq_of_lt p, div-eq_of_lt p, add-zero) (omega arith, refl, refl)
        | no p ↦
            let full : q % a.count + k ≡ a.count = omega arith in
            let e = mod-add_eq q a.count k v.count_pos full in
            rw (e.0, e.1, full, mod_self, div_self v.count_pos) (omega arith, refl, refl)
      ]

  -- The round at a thin axis only passes the carry on.
  thin_round :
      (end : ℕ) (a : Axis Sr)
      → IsAxis a
      → IsThin a
      → (q adv off k : ℕ) → k ≤ 1
      → round end (dim_at a q) adv off k ≡ record {
        coord = (q % a.count + k) % a.count;
        advance = adv;
        offset = off;
        carry = (q % a.count + k) / a.count;
        continues = true;
      }
  unfolding round
  thin_round end a v t q adv off k hk =
      let lt = coord-lt a v q in
      let b = base_bounds (a.idx + q % a.count) a.chunk_sz v.chunk_pos in
      let one : cut (dim_at a q) ≡ 1 = omega (arith, add-cut a v q, t.one, v.inside) in
      rw (one, ne→== a.chunk_dim_sz 1 t.block) (pass-eq a v q k hk adv off)

  pub thin_walk :
      (end sz : ℕ) (as' : List (Axis Sr))
      → AreAxes sz as'
      → AreThin as'
      → (q adv off k : ℕ) → k ≤ 1
      → let w = walk end (dims_at as' q) adv off k in
        (w.visited ++ spread w.rest w.carry ≡ digits as' (q + k))
        × (w.advance ≡ adv)
        × (w.offset ≡ off)
  unfolding walk spread
  thin_walk end sz [] h t q adv off k hk = (refl, refl, refl)
  thin_walk end sz (a ∷ as') h t q adv off k hk =
      let s = step-digits sz a h.1 q k hk in
      let e =
        thin_walk end (sz * a.chunk_sz) as' h.2 t.1 (q / a.count) adv off
          ((q % a.count + k) / a.count) s.0 in
      rw (thin_round end a h.1 t.0 q adv off k hk)
        (rw (s.1, s.2) (ap (◌∷◌ ((q % a.count + k) % a.count)) e.0), e.1, e.2)
