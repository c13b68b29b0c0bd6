-- ===== src/Idx/Slicer/Moves.antt =====
-- src/idx/dataset/dataset.rs: what the loops of `next` achieve, seen from one axis outwards.
use native.Mathlib.Nat.{
  mod-lt, mod-eq_of_lt, div-eq_of_lt, mod_self, div_self, add_assoc, mod-add-div, mod-add-div',
  div-lt_iff_lt-mul, mul_comm, mul-le-mul_left, le_dest, add-zero, mul-zero, mul-pos, zero-mul,
  zero-add, mul-mod_right, mul-div_cancel_left,
}
use hidefix.Base.{
  sum, ℕ, ◌+◌, ◌-◌, ◌*◌, ◌/◌, ◌%◌, ◌≤◌, ◌<◌, ◌≡◌, refl, ◌∙◌, ap, List, [], ◌∷◌, ◌++◌, dec_lt, arith,
}
use hidefix.Idx.Divisor.{Divisor}
use hidefix.Idx.Slicer.{Walk, Round, spread}
use hidefix.Idx.Slicer.Axis.{
  Axis, IsCovered, digits, bases, position, total, dims_at, reach, AreAxes, mod-add_lt, mod-add_eq,
  base_same, IsAxis, div-mod_of_sum,
}
use hidefix.Idx.Slicer.Rounds.{reach_bounds}
use hidefix.Idx.Slicer.Carry.{spread-zero, spread-one}

-- What the loop adds at an axis it entered with a carry.
pub fill : (sz k m d : ℕ) → k ≤ m → d ≡ m - k → sz * k + d * sz ≡ sz * m
fill sz k m d h e =
    let (j, sum) = le_dest h in
    let only : d ≡ j = omega arith in
    let goal : sz * k + j * sz ≡ sz * (k + j) = omega arith in rw only (goal ∙ ap (λ x. sz * x) sum)

pub offset_whole :
    (sz count chunk_sz o m q : ℕ)
    → count ≡ chunk_sz
    → q ≡ count * o
    → sz * chunk_sz * (o + m) ≡ sz * (q + count * m)
offset_whole sz count chunk_sz o m q e s = rw (← e, s) (omega arith)

run_whole :
    (sz count chunk_sz x p t d : ℕ)
    → count ≡ chunk_sz
    → t ≡ x + count * d
    → x * sz + (p + sz * chunk_sz * d) ≡ p + sz * t
run_whole sz count chunk_sz x p t d e s = rw (← e, s) (omega arith)

module _ {Sr : Type 0} ⦃r : Divisor Sr⦄ where
  -- The walk moves from the `q`-th value of these axes `m` values on, through one chunk and in the
  -- order in which the chunk is stored. Each value of these axes stands for `sz` values of the chunk.
  pub record Moves (sz : ℕ) (as' : List (Axis Sr)) (q m : ℕ) (w : Walk Sr) : Type 0 where
    pub m_pos : 0 < m
    pub within : q + m ≤ total as'
    pub coords : w.visited ++ spread w.rest w.carry ≡ digits as' (q + m)
    pub advance : w.advance ≡ sz * m
    pub offset : w.offset ≡ sz * (q + m)
    pub same : (t : ℕ) → t < m → bases as' (q + t) ≡ bases as' q
    pub run : (t : ℕ) → t < m → position sz as' (q + t) ≡ position sz as' q + sz * t

  module _ (sz : ℕ) (a : Axis Sr) (as' : List (Axis Sr)) (h : AreAxes sz (a ∷ as')) (q : ℕ) where
    pub within-reach :
        (m : ℕ) → q < total (a ∷ as') → q % a.count + m ≤ a.count → q + m ≤ total (a ∷ as')
    within-reach m lt fit =
        let outer : q / a.count < total as' =
          (div-lt_iff_lt-mul h.1.count_pos).1 (rw (mul_comm (total as') a.count) lt) in
        let below : a.count * (q / a.count + 1) ≤ a.count * total as' =
          mul-le-mul_left a.count (omega arith) in
        omega (arith, mod-add-div q a.count)

    coords-reach :
        (m : ℕ)
        → q % a.count + m ≤ a.count
        → (q % a.count + m) % a.count
            ∷ spread (dims_at as' (q / a.count)) ((q % a.count + m) / a.count)
          ≡ digits (a ∷ as') (q + m)
    coords-reach m fit = elim (dec_lt (q % a.count + m) a.count) [
      | yes p ↦
          let step = mod-add_lt q a.count m p in
          rw (
            mod-eq_of_lt p,
            div-eq_of_lt p,
            step.0,
            step.1,
            spread-zero (sz * a.chunk_sz) as' (q / a.count) h.2,
          )
      | no p ↦
          let full : q % a.count + m ≡ a.count = omega arith in
          let step = mod-add_eq q a.count m h.1.count_pos full in
          rw (
            full,
            mod_self,
            div_self h.1.count_pos,
            step.0,
            step.1,
            spread-one (sz * a.chunk_sz) as' (q / a.count) h.2,
          )
    ]

    same-reach : (t : ℕ) → q % a.count + t < reach a q → bases (a ∷ as') (q + t) ≡ bases (a ∷ as') q
    same-reach t lt =
        let b = reach_bounds a h.1 q in
        let step = mod-add_lt q a.count t (omega arith) in
        let e = base_same (a.idx + q % a.count) a.chunk_sz t h.1.chunk_pos (omega arith) in
        rw (step.0, step.1, ← add_assoc a.idx (q % a.count) t, e)

    run-reach :
        (t : ℕ)
        → q % a.count + t < reach a q
        → position sz (a ∷ as') (q + t) ≡ position sz (a ∷ as') q + sz * t
    run-reach t lt =
        let b = reach_bounds a h.1 q in
        let step = mod-add_lt q a.count t (omega arith) in
        let x : ℕ = a.idx + q % a.count in
        let e = mod-add_lt x a.chunk_sz t (omega (arith, mod-add-div' x a.chunk_sz)) in
        rw (step.0, step.1, ← add_assoc a.idx (q % a.count) t, e.0) (omega arith)

  -- The loop stops at this axis.
  pub stop-Moves :
      (sz : ℕ) (a : Axis Sr) (as' : List (Axis Sr))
      → AreAxes sz (a ∷ as')
      → (q k m : ℕ) (s : Round) → k ≤ 1
      → q < total (a ∷ as')
      → reach a q ≡ q % a.count + m
      → s.coord ≡ reach a q % a.count
      → s.advance ≡ sz * k + (reach a q - (q % a.count + k)) * sz
      → s.offset ≡ sz * (q + k) + (reach a q - (q % a.count + k)) * sz
      → s.carry ≡ reach a q / a.count
      → Moves sz (a ∷ as') q m (record {
        visited = s.coord ∷ [];
        rest = dims_at as' (q / a.count);
        advance = s.advance;
        offset = s.offset;
        carry = s.carry;
      })
  stop-Moves sz a as' h q k m s hk lt split ec ea eo ek =
      let b = reach_bounds a h.1 q in
      record {
        m_pos = omega arith;
        within = within-reach sz a as' h q m lt (omega arith);
        coords = rw (ec, ek, split) (coords-reach sz a as' h q m (omega arith));
        advance = ea ∙ fill sz k m (reach a q - (q % a.count + k)) (omega arith) (omega arith);
        offset =
            eo
            ∙ omega
                (arith, fill sz k m (reach a q - (q % a.count + k)) (omega arith) (omega arith));
        same = λ t p. same-reach sz a as' h q t (omega arith);
        run = λ t p. run-reach sz a as' h q t (omega arith);
      }

  -- What the walk leaves if it is not continued behind a covered axis.
  abbrev pub halted : ℕ → List (Axis Sr) → ℕ → Walk Sr
  halted sz as' q = record {
    visited = [];
    rest = dims_at as' q;
    advance = sz;
    offset = sz * (q + 1);
    carry = 1;
  }

  -- A walk by one value of these axes.
  pub one-Moves :
      (sz : ℕ) (as' : List (Axis Sr)) (q : ℕ) (w : Walk Sr)
      → q < total as'
      → w.visited ++ spread w.rest w.carry ≡ digits as' (q + 1)
      → w.advance ≡ sz * 1
      → w.offset ≡ sz * (q + 1)
      → Moves sz as' q 1 w
  one-Moves sz as' q w lt ec ea eo = record {
    m_pos = omega arith;
    within = omega arith;
    coords = ec;
    advance = ea;
    offset = eo;
    same = λ t p. let z : t ≡ 0 = omega arith in rw (z, add-zero q);
    run = λ t p. let z : t ≡ 0 = omega arith in rw (z, add-zero q, mul-zero sz) (omega arith);
  }

  pub halted-Moves :
      (sz : ℕ) (as' : List (Axis Sr))
      → AreAxes sz as'
      → (q : ℕ) → q < total as'
      → Moves sz as' q 1 (halted sz as' q)
  halted-Moves sz as' h q lt =
      one-Moves sz as' q (halted sz as' q) lt (spread-one sz as' q h) (omega arith) refl

  module _ (sz : ℕ) (a : Axis Sr) (as' : List (Axis Sr)) (v : IsAxis a) (c : IsCovered a) (q : ℕ)
      (start : q % a.count ≡ 0) where
    digits-covered :
        (t : ℕ)
        → ((q + t) % a.count ≡ t % a.count) × ((q + t) / a.count ≡ q / a.count + t / a.count)
    digits-covered t =
        let whole : q + t ≡ t % a.count + a.count * (q / a.count + t / a.count) =
          omega (arith, mod-add-div q a.count, mod-add-div t a.count) in
        rw whole
          (div-mod_of_sum (t % a.count) (q / a.count + t / a.count) a.count (mod-lt t v.count_pos))

    inside-covered :
        (t : ℕ)
        → ((a.idx + t % a.count) % a.chunk_sz ≡ t % a.count)
          × ((a.idx + t % a.count) / a.chunk_sz ≡ a.idx / a.chunk_sz)
    inside-covered t =
        let lt = mod-lt t v.count_pos in
        let e = mod-add_lt a.idx a.chunk_sz (t % a.count) (omega (arith, c.aligned, c.whole)) in
        (omega (arith, e.0, c.aligned), e.1)

    pub times :
        (m : ℕ)
        → ((q + a.count * m) % a.count ≡ 0) × ((q + a.count * m) / a.count ≡ q / a.count + m)
    times m =
        let e = digits-covered (a.count * m) in
        rw (e.0, e.1, mul-mod_right a.count m, mul-div_cancel_left m v.count_pos) (refl, refl)

    -- A covered axis passes on what the axes further out achieve.
    pub cover-Moves :
        (m : ℕ) (w : Walk Sr)
        → Moves (sz * a.chunk_sz) as' (q / a.count) m w
        → Moves sz (a ∷ as') q (a.count * m) (record w { visited = 0 ∷ w.visited })
    cover-Moves m w p = record {
      m_pos = mul-pos v.count_pos p.m_pos;
      within = omega (arith, mul-le-mul_left a.count p.within, mod-add-div q a.count, start);
      coords = let e = times m in rw (e.0, e.1) (ap (◌∷◌ 0) p.coords);
      advance = rw (p.advance, c.whole) (omega arith);
      offset =
          let whole : q ≡ a.count * (q / a.count) = omega (arith, mod-add-div q a.count, start) in
          p.offset ∙ offset_whole sz a.count a.chunk_sz (q / a.count) m q c.whole whole;
      same = λ t lt.
          let e = digits-covered t in
          let i = inside-covered t in
          let tl : t / a.count < m =
            (div-lt_iff_lt-mul v.count_pos).1 (rw (mul_comm m a.count) lt) in
          rw (e.0, e.1, i.1, p.same (t / a.count) tl, start, add-zero) refl;
      run = λ t lt.
          let e = digits-covered t in
          let i = inside-covered t in
          let tl : t / a.count < m =
            (div-lt_iff_lt-mul v.count_pos).1 (rw (mul_comm m a.count) lt) in
          rw (e.0, e.1, i.0, p.run (t / a.count) tl, start, add-zero, c.aligned, zero-mul, zero-add)
            (run_whole sz a.count a.chunk_sz (t % a.count)
              (position (sz * a.chunk_sz) as' (q / a.count)) t (t / a.count) c.whole
              (omega (arith, mod-add-div t a.count)));
    }
