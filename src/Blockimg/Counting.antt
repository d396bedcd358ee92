-- ===== src/Blockimg/Counting.antt =====
-- updater/blockimg.cpp: the size of an accepted range set is the number of its blocks.
use recovery.Base.{
  ℕ, suc, zero, ◌+◌, ◌*◌, ◌≡◌, refl, sym, ap, ◌∙◌, List, length, drop, get_or, arith, get_or-drop,
  drop-drop,
}
use recovery.Blockimg.Ranges.{RangeSet, start_of, end_of, block_size}
use recovery.Blockimg.Parsed.{Ranges, no_range, range, WellFormed}
use recovery.Blockimg.Reads.Blocks.{total_size, Counted}

-- The sizes of the ranges that are left.
total_size-Ranges :
    (rs : RangeSet) (pos : List ℕ) (n i left : ℕ)
    → Ranges pos n
    → drop (i * 2) rs.pos ≡ pos
    → length pos ≡ left * 2
    → total_size rs i left ≡ n * block_size
unfolding total_size
total_size-Ranges rs pos n i zero no_range e l = refl
total_size-Ranges rs pos n i (suc left) no_range e l = absurd (omega arith)
total_size-Ranges rs pos n i zero (range h b r) e l = absurd (omega arith)
total_size-Ranges rs _ _ i (suc left) (range {lo} {hi} {n} {pos} h b r) e l =
    omega (arith, first, last, total_size-Ranges rs pos n (i + 1) left r behind (omega arith))
  where
    first : start_of rs i ≡ lo
    first =
        ap (λ (k : ℕ). get_or rs.pos k 0) (let z : i * 2 ≡ i * 2 + 0 = omega arith in z)
        ∙ sym (get_or-drop (i * 2) rs.pos 0 0)
        ∙ ap (λ (t : List ℕ). get_or t 0 0) e

    last : end_of rs i ≡ hi
    last = sym (get_or-drop (i * 2) rs.pos 1 0) ∙ ap (λ (t : List ℕ). get_or t 1 0) e

    behind : drop ((i + 1) * 2) rs.pos ≡ pos
    behind =
        ap (λ (k : ℕ). drop k rs.pos) (let z : (i + 1) * 2 ≡ i * 2 + 2 = omega arith in z)
        ∙ sym (drop-drop (i * 2) 2 rs.pos)
        ∙ ap (λ (t : List ℕ). drop 2 t) e

pub WellFormed-Counted : (rs : RangeSet) → WellFormed rs → Counted rs
WellFormed-Counted rs w = total_size-Ranges rs rs.pos rs.size 0 rs.count w.ranges refl w.paired
