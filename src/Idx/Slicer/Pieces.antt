-- ===== src/Idx/Slicer/Pieces.antt =====
-- src/idx/dataset/dataset.rs: on the selections of `Layout`, the loops of `next` move from one piece of
-- a chunk to the next.
use native.Mathlib.Nat.{
  mod-eq_of_lt, mod-add-div, mod-lt, mul-le-mul_left, lt_of_le_of_lt, lt_of_mul-lt-mul_left,
  mul-lt-mul_of_pos_left, not-le_of_lt, mul-one, mul-pos,
}
use hidefix.Base.{
  ltb, ◌==◌, ltb→lt, ltb→le, Bool-cases, word, ℕ, ◌+◌, ◌-◌, ◌*◌, ◌/◌, ◌%◌, ◌≤◌, ◌<◌, ◌≡◌, refl, ap,
  ◌∙◌, subst, inl, inr, false, not, ◌&&◌, List, [], ◌∷◌, dec_lt, arith,
}
use hidefix.Idx.Divisor.{Divisor}
use hidefix.Idx.Slicer.{round, cut, walk, Round, Walk}
use hidefix.Idx.Slicer.Axis.{Axis, total, dim_at, dims_at, reach, AreAxes, IsCovered}
use hidefix.Idx.Slicer.Rounds.{round-reach, reach_bounds, advance_dim-eq, thin}
use hidefix.Idx.Slicer.Moves.{
  one-Moves, fill, within-reach, cover-Moves, Moves, stop-Moves, offset_whole, halted-Moves, times,
}
use hidefix.Idx.Slicer.Layout.{IsOpen, Layout, IsAligned, open-stops, total-IsAligned}
use hidefix.Idx.Slicer.Turn.{thin_walk, covered_round}

module _ {Sr : Type 0} ⦃r : Divisor Sr⦄ where
  -- The loop has moved on, and stands at the start of the axes whose selection is one whole chunk.
  abbrev pub Turns : (sz k : ℕ) (as' : List (Axis Sr)) → Layout k as' → ℕ → Walk Sr → Type 0
  Turns sz k as' l q w = (m : ℕ) × Moves sz as' q m w × IsAligned k as' l (q + m)

  module _ (sz : ℕ) (a : Axis Sr) (as' : List (Axis Sr)) (h : AreAxes sz (a ∷ as')) (q k : ℕ)
      (hk : k ≤ 1) (inner : k ≡ 0 → sz ≡ 1) (fit : q % a.count + k < a.count)
      (lt : q + k < total (a ∷ as')) (end : ℕ) (whole : end ≡ sz * total (a ∷ as'))
      (small : end < word) where
    abbrev m : ℕ
    m = reach a q - q % a.count

    abbrev turn : Round
    turn = round end (dim_at a q) (sz * k) (sz * (q + k)) k

    part_eq : sz * k + (reach a q - (q % a.count + k)) * a.chunk_dim_sz ≡ sz * m
    part_eq =
        let b = reach_bounds a h.1 q in
        rw h.0 (fill sz k m (reach a q - (q % a.count + k)) (omega arith) (omega arith))

    part-lt : sz * (q + m) < word
    part-lt =
        let b = reach_bounds a h.1 q in
        lt_of_le_of_lt
          (mul-le-mul_left sz (within-reach sz a as' h q m (omega arith) (omega arith)))
          (omega arith)

    -- The walk of a round that ends the loop.
    stop_turn : Moves sz (a ∷ as') q m (record {
      visited = turn.coord ∷ [];
      rest = dims_at as' (q / a.count);
      advance = turn.advance;
      offset = turn.offset;
      carry = turn.carry;
    })
    stop_turn =
        let b = reach_bounds a h.1 q in
        let (ec, ea, eo, ek) =
          round-reach a h.1 q end (sz * k) (sz * (q + k)) k hk (λ z. h.0 ∙ inner z) fit
            (omega (arith, part_eq, part-lt)) (omega (arith, part_eq, part-lt)) in
        stop-Moves sz a as' h q k m turn hk (omega arith) (omega arith) ec
          (ea ∙ ap (λ d. sz * k + (reach a q - (q % a.count + k)) * d) h.0)
          (eo ∙ ap (λ d. sz * (q + k) + (reach a q - (q % a.count + k)) * d) h.0) ek

    -- At an open innermost axis the round ends the loop.
    open_continues : IsOpen a → a.chunk_dim_sz ≡ 1 → turn.continues ≡ false
    unfolding round
    open_continues o d = elim (Bool-cases ((cut (dim_at a q) == 1) && not (a.chunk_dim_sz == 1))) [
      | inl p ↦ absurd ((thin a h.1 q p).1 d)
      | inr p ↦
          let e =
            advance_dim-eq a h.1 q end (sz * k) (sz * (q + k)) k hk fit
              (omega (arith, part_eq, part-lt)) (omega (arith, part_eq, part-lt)) in
          rw (p, e) (open-stops a h.1 q _ o)
    ]

  last_turn :
      (end sz k : ℕ) (a : Axis Sr)
      → AreAxes sz (a ∷ [])
      → (q : ℕ) → k ≤ 1
      → (k ≡ 0 → sz ≡ 1)
      → q + k < total (a ∷ [])
      → end ≡ sz * total (a ∷ [])
      → end < word
      → Moves sz
          (a ∷ [])
          q
          (reach a q - q % a.count)
          (walk end (dims_at (a ∷ []) q) (sz * k) (sz * (q + k)) k)
  unfolding walk
  last_turn end sz k a h q hk inner lt whole small =
      let within_axis : q < a.count = omega arith in
      let fit : q % a.count + k < a.count = rw (mod-eq_of_lt within_axis) (omega arith) in
      let p = stop_turn sz a [] h q k hk inner fit lt end whole small in
      elim (Bool-cases (turn sz a [] h q k hk inner fit lt end whole small).continues) [
        | inl e ↦ rw e p
        | inr e ↦ rw e p
      ]

  open_turn :
      (end sz k : ℕ) (a : Axis Sr) (as' : List (Axis Sr))
      → AreAxes sz (a ∷ as')
      → IsOpen a
      → (q : ℕ) → (k ≡ 0)
      → (k ≡ 0 → sz ≡ 1)
      → q + k < total (a ∷ as')
      → end ≡ sz * total (a ∷ as')
      → end < word
      → Moves sz
          (a ∷ as')
          q
          (reach a q - q % a.count)
          (walk end (dims_at (a ∷ as') q) (sz * k) (sz * (q + k)) k)
  unfolding walk
  open_turn end sz k a as' h o q z inner lt whole small =
      let hk : k ≤ 1 = omega arith in
      let fit : q % a.count + k < a.count = omega (arith, mod-lt q h.1.count_pos) in
      let p = stop_turn sz a as' h q k hk inner fit lt end whole small in
      rw (open_continues sz a as' h q k hk inner fit lt end whole small o (h.0 ∙ inner z)) p

  cover_turn :
      (end sz k : ℕ) (a b : Axis Sr) (as' : List (Axis Sr)) (h : AreAxes sz (a ∷ b ∷ as'))
      (c : IsCovered a) (l : Layout 1 (b ∷ as')) (q : ℕ)
      → (k ≤ 1)
      → (k ≡ 0 → sz ≡ 1)
      → 0 < sz
      → q % a.count ≡ 0
      → IsAligned 1 (b ∷ as') l (q / a.count)
      → q + k < total (a ∷ b ∷ as')
      → end ≡ sz * total (a ∷ b ∷ as')
      → end < word
      → ((q / a.count + 1 < total (b ∷ as'))
          → Turns (sz * a.chunk_sz) 1 (b ∷ as') l (q / a.count) (
              walk end
                (dims_at (b ∷ as') (q / a.count))
                (sz * a.chunk_sz)
                (sz * a.chunk_sz * (q / a.count + 1))
                1))
      → Turns sz k
          (a ∷ b ∷ as')
          (inr (inr (c, l)))
          q
          (walk end (dims_at (a ∷ b ∷ as') q) (sz * k) (sz * (q + k)) k)
  unfolding walk
  cover_turn end sz k a b as' h c l q hk inner sz_pos start al lt whole small further =
      let e = covered_round sz a (b ∷ as') h c q k hk inner start lt sz_pos end whole small in
      let o : ℕ = q / a.count in
      let axis : q ≡ a.count * o = omega (arith, mod-add-div q a.count) in
      let e_adv : sz * a.count ≡ sz * a.chunk_sz = rw c.whole refl in
      let e_off : sz * (q + a.count) ≡ sz * a.chunk_sz * (o + 1) =
        omega (arith, offset_whole sz a.count a.chunk_sz o 1 q c.whole axis) in
      let outer : o < total (b ∷ as') = lt_of_mul-lt-mul_left a.count (omega arith) in
      elim (Bool-cases (ltb (sz * (q + a.count)) end)) [
        | inl more ↦
            let less : q + a.count < a.count * total (b ∷ as') =
              lt_of_mul-lt-mul_left sz (omega (arith, ltb→lt _ _ more)) in
            let (m, p, al') = further (lt_of_mul-lt-mul_left a.count (omega arith)) in
            let n = times sz a (b ∷ as') h.1 c q start m in
            rw (e, more, e_adv, e_off)
              (a.count * m, cover-Moves sz a (b ∷ as') h.1 c q start m _ p, (n.0, rw n.1 al'))
        | inr done ↦
            let n = times sz a (b ∷ as') h.1 c q start 1 in
            let last : o + 1 ≡ total (b ∷ as') = elim (dec_lt (o + 1) (total (b ∷ as'))) [
              | yes p ↦
                  let less =
                    mul-lt-mul_of_pos_left (mul-lt-mul_of_pos_left p h.1.count_pos) sz_pos in
                  let room = ltb→le (sz * (q + a.count)) end done in
                  let here : q + a.count ≡ a.count * (o + 1) = omega arith in
                  absurd (not-le_of_lt less (rw (← here, ← whole) room))
              | no p ↦ omega arith
            ] in
            rw (e, done, e_adv, e_off)
              (
                a.count * 1,
                cover-Moves sz a (b ∷ as') h.1 c q start 1 _
                    (halted-Moves (sz * a.chunk_sz) (b ∷ as') h.2 o outer),
                (n.0, rw (n.1, last) (total-IsAligned (sz * a.chunk_sz) 1 (b ∷ as') l h.2)),
              )
      ]

  -- The loops of `next`, entered at an axis with the carry `k` behind the axes further in.
  pub walk-Turns :
      (end sz k : ℕ) (as' : List (Axis Sr))
      → AreAxes sz as'
      → (l : Layout k as') → (q : ℕ) → (k ≤ 1)
      → (k ≡ 0 → sz ≡ 1)
      → 0 < sz
      → IsAligned k as' l q
      → q + k < total as'
      → end ≡ sz * total as'
      → end < word
      → Turns sz k as' l q (walk end (dims_at as' q) (sz * k) (sz * (q + k)) k)
  walk-Turns end sz k [] h l q hk inner sz_pos al lt whole small = elim l [ ]
  walk-Turns end sz k (a ∷ []) h l q hk inner sz_pos al lt whole small =
      (_, last_turn end sz k a h q hk inner lt whole small, tt)
  walk-Turns end sz k (a ∷ b ∷ as') h (inl (z, o)) q hk inner sz_pos al lt whole small =
      (_, open_turn end sz k a (b ∷ as') h o q z inner lt whole small, tt)
  walk-Turns end sz k (a ∷ b ∷ as') h (inr (inl (one, t))) q hk inner sz_pos al lt whole small =
      let e = thin_walk end sz (a ∷ b ∷ as') h t q (sz * k) (sz * (q + k)) k hk in
      let lt' : q < total (a ∷ b ∷ as') = omega arith in
      (1, one-Moves sz (a ∷ b ∷ as') q _ lt' (rw (← one) e.0) (rw (← one) e.1) (rw (← one) e.2), tt)
  walk-Turns end sz k (a ∷ b ∷ as') h (inr (inr (c, l))) q hk inner sz_pos al lt whole small =
      cover_turn end sz k a b as' h c l q hk inner sz_pos al.0 al.1 lt whole small (λ less.
        subst
          (λ x.
            Turns (sz * a.chunk_sz) 1 (b ∷ as') l (q / a.count) (
              walk end (dims_at (b ∷ as') (q / a.count)) x (sz * a.chunk_sz * (q / a.count + 1)) 1))
          (mul-one (sz * a.chunk_sz))
          (walk-Turns end (sz * a.chunk_sz) 1 (b ∷ as') h.2 l (q / a.count) (omega arith)
            (λ z. absurd (omega arith)) (mul-pos sz_pos h.1.chunk_pos) al.1 less
            (rw (whole, c.whole) (omega arith)) small))
