-- ===== src/Blockimg/Moved.antt =====
-- updater/blockimg.cpp: `MoveRange` on one buffer moves every block to its place.
use recovery.Base.{
  ℕ, suc, zero, ◌+◌, ◌-◌, ◌*◌, ◌≤◌, ◌<◌, ◌≡◌, refl, ap, ◌∙◌, List, length, get_or, arith,
  Bool-cases, ltb, inl, inr, ltb→lt, ltb-false,
}
use mathlib.Core.Path.{subst}
use recovery.Blockimg.Ranges.{RangeSet, start_of, end_of, block_size}
use recovery.Blockimg.Move.{
  memmove, move_loop, move_range, blocks_before, Ascending, edge, edge_le, before_le, before_mono,
  memmove_below, memmove_within, memmove_above, length-memmove,
}

module _ {A : Type 0} (x : A) (locs : RangeSet) (room : ℕ) (asc : Ascending locs room) where
  abbrev blocks_of : ℕ → ℕ
  blocks_of i = end_of locs i - start_of locs i

  -- The blocks of the first `i` ranges are in their places, and nothing behind them has changed.
  record Moved (i : ℕ) (buffer result : List A) : Type 0 where
    placed :
        (j k : ℕ)
        → j < i
        → k < blocks_of j * block_size
        → get_or result (start_of locs j * block_size + k) x
          ≡ get_or buffer (blocks_before locs j * block_size + k) x
    kept : (k : ℕ) → edge locs i * block_size ≤ k → get_or result k x ≡ get_or buffer k x

  move_loop-Moved :
      (i : ℕ) (buffer : List A)
      → i ≤ locs.count
      → room * block_size ≤ length buffer
      → Moved i buffer (move_loop i locs (blocks_before locs i) buffer)
  unfolding move_loop blocks_before
  move_loop-Moved zero buffer h r = record {
    placed = λ j k l m. absurd (omega arith);
    kept = λ k l. refl;
  }
  move_loop-Moved (suc i) buffer h r =
      let back : blocks_before locs i + blocks_of i - blocks_of i ≡ blocks_before locs i =
        omega arith in
      rw back (
        go (
          move_loop-Moved i
            (memmove buffer (start_of locs i * block_size) buffer
              (blocks_before locs i * block_size) (blocks_of i * block_size))
            (omega arith)
            (omega (
              arith,
              length-memmove x buffer (start_of locs i * block_size)
                  (blocks_before locs i * block_size) (blocks_of i * block_size) fits reads,
            ))))
    where
      next : List A
      next =
          memmove buffer (start_of locs i * block_size) buffer (blocks_before locs i * block_size)
            (blocks_of i * block_size)

      fits : start_of locs i * block_size + blocks_of i * block_size ≤ length buffer
      fits = omega (arith, asc.ordered i, asc.inside i (omega arith))

      reads : blocks_before locs i * block_size + blocks_of i * block_size ≤ length buffer
      reads = omega (
        arith,
        before_le locs room asc i (omega arith),
        edge_le locs room asc i (omega arith),
        fits,
      )

      go :
          Moved i next (move_loop i locs (blocks_before locs i) next)
          → Moved (suc i) buffer (move_loop i locs (blocks_before locs i) next)
      go m = record {
        placed = λ j k l n. elim (Bool-cases (ltb j i)) [
          | inl earlier ↦
              let j_below : j < i = ltb→lt j i earlier in
              m.placed j k j_below n
              ∙ memmove_below x buffer (start_of locs i * block_size)
                  (blocks_before locs i * block_size) (blocks_of i * block_size)
                  (blocks_before locs j * block_size + k) (omega (arith, fits))
                  (omega (
                    arith,
                    before_mono locs room asc i j j_below,
                    before_le locs room asc i (omega arith),
                    edge_le locs room asc i (omega arith),
                  ))
          | inr last ↦
              let e : i ≡ j = omega (arith, ltb-false j i last) in
              subst
                (λ (t : ℕ).
                  k < blocks_of t * block_size
                  → get_or (move_loop i locs (blocks_before locs i) next)
                      (start_of locs t * block_size + k) x
                    ≡ get_or buffer (blocks_before locs t * block_size + k) x)
                e
                (λ n'.
                  m.kept (start_of locs i * block_size + k)
                    (omega (arith, edge_le locs room asc i (omega arith)))
                  ∙ memmove_within x buffer (start_of locs i * block_size)
                      (blocks_before locs i * block_size) (blocks_of i * block_size) k
                      (omega (arith, fits)) reads n')
                n
        ];
        kept = λ k l.
            m.kept k (omega (arith, l, asc.ordered i, edge_le locs room asc i (omega arith)))
            ∙ memmove_above x buffer (start_of locs i * block_size)
                (blocks_before locs i * block_size) (blocks_of i * block_size) k fits reads
                (omega (arith, l, asc.ordered i));
      }

  -- Packed blocks are moved to their ranges within one buffer, which source and dest share: if the
  -- ranges ascend and end inside of the buffer, then afterwards each block of each range is the block
  -- that stood in its place in the packed order, although the moves overwrite the buffer they read.
  pub move_range-blocks_before :
      (buffer : List A) (j k : ℕ)
      → room * block_size ≤ length buffer
      → j < locs.count
      → k < (end_of locs j - start_of locs j) * block_size
      → get_or (move_range buffer locs) (start_of locs j * block_size + k) x
        ≡ get_or buffer (blocks_before locs j * block_size + k) x
  unfolding move_range
  move_range-blocks_before buffer j k r l n =
      ap
        (λ (start : ℕ).
          get_or (move_loop locs.count locs start buffer) (start_of locs j * block_size + k) x)
        asc.counted
      ∙ (move_loop-Moved locs.count buffer (omega arith) r).placed j k l n
