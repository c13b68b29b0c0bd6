-- ===== src/Idx/Slicer/Rounds.antt =====
-- src/idx/dataset/dataset.rs: one round of the loop of `next`, without wrap-around.
use native.Mathlib.Nat.{
  mod-lt, mod-eq_of_lt, div-eq_of_lt, div-le_self, zero-add, sub_self, zero-mul,
}
use hidefix.Base.{
  ltb, ◌==◌, ltb→lt, ltb→le, Bool-cases, word, add64, sub64, add64-eq-add, sub64-eq-sub,
  mul64-eq-mul, ℕ, ◌+◌, ◌-◌, ◌*◌, ◌/◌, ◌%◌, ◌≤◌, ◌<◌, min, ◌≡◌, refl, ◌≢◌, inl, inr, true, not,
  ◌&&◌, dec_lt, arith,
}
use hidefix.Idx.Divisor.{Divisor}
use hidefix.Idx.Slicer.{cut, pass, advance_dim, round}
use hidefix.Idx.Slicer.Axis.{Axis, dim_at, reach, IsAxis, base_bounds}

nothing : (x y z : ℕ) → x ≡ x + (y - y) * z
nothing x y z = rw (sub_self y, zero-mul z) (omega arith)

module _ {Sr : Type 0} ⦃r : Divisor Sr⦄ (a : Axis Sr) (v : IsAxis a) (n : ℕ) where
  abbrev pub base : ℕ
  base = (a.idx + n % a.count) / a.chunk_sz * a.chunk_sz

  pub coord-lt : n % a.count < a.count
  coord-lt = mod-lt n v.count_pos

  pub reach_bounds :
      (n % a.count < reach a n) × (reach a n ≤ a.count) × (a.idx + reach a n ≤ base + a.chunk_sz)
  reach_bounds =
      let b = base_bounds (a.idx + n % a.count) a.chunk_sz v.chunk_pos in omega (arith, coord-lt)

  -- The chunk, cut, ends with the chunk or with the dataset.
  pub add-cut : base + cut (dim_at a n) ≡ min (base + a.chunk_sz) a.shape
  unfolding cut
  add-cut =
      let b = base_bounds (a.idx + n % a.count) a.chunk_sz v.chunk_pos in
      let e = add64-eq-add base a.chunk_sz (omega (arith, coord-lt, v.inside, v.fits)) in
      rw e (elim (Bool-cases (ltb a.shape (base + a.chunk_sz))) [
        | inl h ↦
            let lt = ltb→lt _ _ h in
            let e1 =
              sub64-eq-sub (base + a.chunk_sz) a.shape (omega arith)
                (omega (arith, coord-lt, v.inside, v.fits)) in
            let e2 =
              sub64-eq-sub a.chunk_sz (base + a.chunk_sz - a.shape)
                (omega (arith, coord-lt, v.inside)) (omega (arith, v.fits)) in
            rw (h, e1, e2) (omega (arith, coord-lt, v.inside))
        | inr h ↦ rw h (omega (arith, ltb→le _ _ h))
      ])

  -- Where the chunk ends, from the start of the selection.
  abbrev pub chunk_end : ℕ
  chunk_end = sub64 (add64 base (cut (dim_at a n))) a.idx

  pub chunk_end-eq : chunk_end ≡ min (base + a.chunk_sz) a.shape - a.idx
  chunk_end-eq =
      let b = base_bounds (a.idx + n % a.count) a.chunk_sz v.chunk_pos in
      let e = add64-eq-add base (cut (dim_at a n)) (omega (arith, add-cut, v.fits)) in
      rw (e, add-cut)
        (sub64-eq-sub _ a.idx (omega (arith, coord-lt, v.inside)) (omega (arith, v.fits)))

  pub min-chunk_end : min a.count chunk_end ≡ reach a n
  min-chunk_end = rw chunk_end-eq (omega (arith, v.inside))

  -- The round that advances, entered with a carry of 0 or 1 that stays within the axis.
  pub advance_dim-eq :
      (end adv off k : ℕ)
      → k ≤ 1
      → n % a.count + k < a.count
      → adv + (reach a n - (n % a.count + k)) * a.chunk_dim_sz < word
      → off + (reach a n - (n % a.count + k)) * a.chunk_dim_sz < word
      → advance_dim end (dim_at a n) (cut (dim_at a n)) adv off k ≡ record {
        coord = reach a n % a.count;
        advance = adv + (reach a n - (n % a.count + k)) * a.chunk_dim_sz;
        offset = off + (reach a n - (n % a.count + k)) * a.chunk_dim_sz;
        carry = reach a n / a.count;
        continues =
            (a.idx == base)
            && (a.count == chunk_end)
            && ltb (off + (reach a n - (n % a.count + k)) * a.chunk_dim_sz) end;
      }
  unfolding advance_dim
  advance_dim-eq end adv off k hk hc ha ho =
      let cur = n % a.count + k in
      let bounds = reach_bounds in
      let small : reach a n < word = omega (arith, v.inside, v.fits) in
      let e1 = add64-eq-add (n % a.count) k (omega (arith, v.inside, v.fits)) in
      let e4 = sub64-eq-sub (reach a n) cur (omega arith) small in
      let e5 = mul64-eq-mul (reach a n - cur) a.chunk_dim_sz (omega arith) in
      let e6 = add64-eq-add adv ((reach a n - cur) * a.chunk_dim_sz) ha in
      let e7 = add64-eq-add off ((reach a n - cur) * a.chunk_dim_sz) ho in
      let e8 =
        add64-eq-add 0 (reach a n / a.count) (omega (arith, div-le_self (reach a n) a.count)) in
      rw
        (
          e1,
          r.rem-eq cur a.sru,
          r.div-eq cur a.sru,
          min-chunk_end,
          v.divides,
          mod-eq_of_lt hc,
          div-eq_of_lt hc,
        )
        (rw (
          e4,
          e5,
          e6,
          e7,
          r.rem-eq (reach a n) a.sru,
          r.div-eq (reach a n) a.sru,
          v.divides,
          e8,
          zero-add,
        ))

  pub pass-eq :
      (k : ℕ)
      → k ≤ 1
      → (adv off : ℕ)
      → pass (dim_at a n) adv off k ≡ record {
        coord = (n % a.count + k) % a.count;
        advance = adv;
        offset = off;
        carry = (n % a.count + k) / a.count;
        continues = true;
      }
  unfolding pass
  pass-eq k hk adv off =
      let e1 = add64-eq-add (n % a.count) k (omega (arith, coord-lt, v.inside, v.fits)) in
      rw (e1, r.rem-eq, r.div-eq, v.divides)

  pub thin :
      (cut (dim_at a n) == 1) && not (a.chunk_dim_sz == 1) ≡ true
      → (cut (dim_at a n) ≡ 1) × (a.chunk_dim_sz ≢ 1)
  thin h = ground arith

  reach-thin : cut (dim_at a n) ≡ 1 → n % a.count + 1 < a.count → reach a n ≡ n % a.count + 1
  reach-thin h more =
      let b = base_bounds (a.idx + n % a.count) a.chunk_sz v.chunk_pos in
      omega (arith, add-cut, v.inside)

  -- The round at the axis where the loop stops: to the end of the chunk or of the selection, on
  -- either branch.
  pub round-reach :
      (end adv off k : ℕ)
      → k ≤ 1
      → (k ≡ 0 → a.chunk_dim_sz ≡ 1)
      → n % a.count + k < a.count
      → adv + (reach a n - (n % a.count + k)) * a.chunk_dim_sz < word
      → off + (reach a n - (n % a.count + k)) * a.chunk_dim_sz < word
      → let s = round end (dim_at a n) adv off k in
        (s.coord ≡ reach a n % a.count)
        × (s.advance ≡ adv + (reach a n - (n % a.count + k)) * a.chunk_dim_sz)
        × (s.offset ≡ off + (reach a n - (n % a.count + k)) * a.chunk_dim_sz)
        × (s.carry ≡ reach a n / a.count)
  unfolding round
  round-reach end adv off k hk inner hc ha ho =
      elim (Bool-cases ((cut (dim_at a n) == 1) && not (a.chunk_dim_sz == 1))) [
        | inl p ↦
            let (one, wide) = thin p in
            let k1 : k ≡ 1 = elim (dec_lt 0 k) [
              | yes some_k ↦ omega arith
              | no zero_k ↦ absurd (wide (inner (omega arith)))
            ] in
            let here : reach a n ≡ n % a.count + 1 = reach-thin one (omega arith) in
            rw (p, k1, pass-eq 1 (omega arith) adv off, here)
              (
                refl,
                nothing adv (n % a.count + 1) a.chunk_dim_sz,
                nothing off (n % a.count + 1) a.chunk_dim_sz,
                refl,
              )
        | inr p ↦ rw (p, advance_dim-eq end adv off k hk hc ha ho) (refl, refl, refl, refl)
      ]
