-- ===== src/Blockimg/Overlap.antt =====
-- updater/blockimg.cpp: `range_overlaps` against the sets of blocks.
use recovery.Base.{
  ℕ, suc, zero, ◌+◌, ◌*◌, ◌≤◌, ◌<◌, ◌≡◌, ◌↔◌, refl, sym, ap, ◌∙◌, leb, Bool, true, false, not, ◌||◌,
  List, length, get_or, arith, Bool-cases, inl, inr, leb→le,
}
use native.Mathlib.Decide.{ℕ_discrete}
use recovery.Blockimg.Ranges.{
  RangeSet, start_of, end_of, overlaps_from, any_overlaps_from, range_overlaps,
}
use recovery.Blockimg.Parsed.{Ranges, no_range, range, WellFormed}

-- The block is in one of the ranges.
pub record InRanges (rs : RangeSet) (block : ℕ) : Type 0 where
  pub index : ℕ
  pub in_count : index < rs.count
  pub from : start_of rs index ≤ block
  pub below : block < end_of rs index

-- The ranges with the indices i and j have the block in common.
record Common (r1 r2 : RangeSet) (i j block : ℕ) : Type 0 where
  i_low : start_of r1 i ≤ block
  i_high : block < end_of r1 i
  j_low : start_of r2 j ≤ block
  j_high : block < end_of r2 j

-- No range is empty.
abbrev NonEmpty : RangeSet → Type 0
NonEmpty rs = (i : ℕ) → i < rs.count → start_of rs i < end_of rs i

Ranges-NonEmpty :
    {pos : List ℕ} {n : ℕ}
    → Ranges pos n
    → (i : ℕ) → i * 2 < length pos
    → get_or pos (i * 2) 0 < get_or pos (i * 2 + 1) 0
Ranges-NonEmpty no_range i h = absurd (omega arith)
Ranges-NonEmpty (range l b r) zero h = l
Ranges-NonEmpty (range l b r) (suc i) h =
    rw
      (
        let e : suc i * 2 ≡ suc (suc (i * 2)) = omega arith in e,
        let e' : suc (suc (i * 2)) + 1 ≡ suc (suc (i * 2 + 1)) = omega arith in e',
      )
      (Ranges-NonEmpty r i (omega arith))

WellFormed-NonEmpty : (rs : RangeSet) → WellFormed rs → NonEmpty rs
WellFormed-NonEmpty rs w i h = Ranges-NonEmpty w.ranges i (omega (arith, w.paired))

module _ (r1 r2 : RangeSet) where
  abbrev meets : ℕ → ℕ → Bool
  meets i j = not (leb (end_of r1 i) (start_of r2 j) || leb (end_of r2 j) (start_of r1 i))

  meets-Common :
      (i j : ℕ)
      → start_of r1 i < end_of r1 i
      → start_of r2 j < end_of r2 j
      → meets i j ≡ true
      → (block : ℕ) × Common r1 r2 i j block
  meets-Common i j h k e = elim (Bool-cases (leb (start_of r1 i) (start_of r2 j))) [
    | inl le ↦ (
      start_of r2 j,
      record { i_low = leb→le _ _ le; i_high = ground arith; j_low = omega arith; j_high = k },
    )
    | inr gt ↦ (
      start_of r1 i,
      record { i_low = omega arith; i_high = h; j_low = ground arith; j_high = ground arith },
    )
  ]

  meets_of_Common : (i j block : ℕ) → Common r1 r2 i j block → meets i j ≡ true
  meets_of_Common i j block c = ground (arith, c.i_low, c.i_high, c.j_low, c.j_high)

  overlaps_from_sound :
      (i from left : ℕ)
      → overlaps_from r1 i r2 from left ≡ true
      → (j : ℕ) × (j < from + left) × (meets i j ≡ true)
  unfolding overlaps_from
  overlaps_from_sound i from zero e = cc
  overlaps_from_sound i from (suc left) e = elim (Bool-cases (meets i from)) [
    | inl yes_it_does ↦ (from, omega arith, yes_it_does)
    | inr not_it ↦
        let (j, below, m) = overlaps_from_sound i (from + 1) left (rw not_it at (e)) in
        (j, omega arith, m)
  ]

  overlaps_from_complete :
      (i j from left : ℕ)
      → from ≤ j
      → j < from + left
      → meets i j ≡ true
      → overlaps_from r1 i r2 from left ≡ true
  unfolding overlaps_from
  overlaps_from_complete i j from zero h k m = absurd (omega arith)
  overlaps_from_complete i j from (suc left) h k m = elim (Bool-cases (meets i from)) [
    | inl yes_it_does ↦ rw yes_it_does refl
    | inr not_it ↦ elim (ℕ_discrete from j) [
      | yes same ↦ absurd (let no : true ≡ false = sym m ∙ ap (meets i) (sym same) ∙ not_it in cc)
      | no other ↦
          rw not_it
            (overlaps_from_complete i j (from + 1) left (omega (arith, other)) (omega arith) m)
    ]
  ]

  abbrev row : ℕ → Bool
  row i = overlaps_from r1 i r2 0 r2.count

  any_overlaps_from_sound :
      (from left : ℕ)
      → any_overlaps_from r1 r2 from left ≡ true
      → (i : ℕ) × (i < from + left) × (row i ≡ true)
  unfolding any_overlaps_from
  any_overlaps_from_sound from zero e = cc
  any_overlaps_from_sound from (suc left) e = elim (Bool-cases (row from)) [
    | inl yes_it_does ↦ (from, omega arith, yes_it_does)
    | inr not_it ↦
        let (i, below, m) = any_overlaps_from_sound (from + 1) left (rw not_it at (e)) in
        (i, omega arith, m)
  ]

  any_overlaps_from_complete :
      (i from left : ℕ)
      → from ≤ i
      → i < from + left
      → row i ≡ true
      → any_overlaps_from r1 r2 from left ≡ true
  unfolding any_overlaps_from
  any_overlaps_from_complete i from zero h k m = absurd (omega arith)
  any_overlaps_from_complete i from (suc left) h k m = elim (Bool-cases (row from)) [
    | inl yes_it_does ↦ rw yes_it_does refl
    | inr not_it ↦ elim (ℕ_discrete from i) [
      | yes same ↦ absurd (let no : true ≡ false = sym m ∙ ap row (sym same) ∙ not_it in cc)
      | no other ↦
          rw not_it
            (any_overlaps_from_complete i (from + 1) left (omega (arith, other)) (omega arith) m)
    ]
  ]

-- Of two well-formed range sets, `range_overlaps` says exactly whether some block is in both.
pub range_overlaps_iff :
    (r1 r2 : RangeSet)
    → WellFormed r1
    → WellFormed r2
    → (range_overlaps r1 r2 ≡ true) ↔ ((block : ℕ) × InRanges r1 block × InRanges r2 block)
unfolding range_overlaps
range_overlaps_iff r1 r2 w1 w2 = (
  λ e.
      let (i, i_below, m) = any_overlaps_from_sound r1 r2 0 r1.count e in
      let (j, j_below, n) = overlaps_from_sound r1 r2 i 0 r2.count m in
      let (block, c) =
        meets-Common r1 r2 i j (WellFormed-NonEmpty r1 w1 i (omega arith))
          (WellFormed-NonEmpty r2 w2 j (omega arith)) n in
      (
        block,
        record { index = i; in_count = omega arith; from = c.i_low; below = c.i_high },
        record { index = j; in_count = omega arith; from = c.j_low; below = c.j_high },
      ),
  λ (block, a, b).
      any_overlaps_from_complete r1 r2 a.index 0 r1.count (omega arith) (omega (arith, a.in_count))
        (overlaps_from_complete r1 r2 a.index b.index 0 r2.count (omega arith)
          (omega (arith, b.in_count))
          (meets_of_Common r1 r2 a.index b.index block
            (record { i_low = a.from; i_high = a.below; j_low = b.from; j_high = b.below }))),
)
