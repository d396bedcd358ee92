-- ===== src/Blockimg/Ranges.antt =====
-- updater/blockimg.cpp: `RangeSet`, `parse_range` and `range_overlaps`. `Split` and `ParseUint` of
-- libbase are parameters; `size_t` has 64 bits.
use recovery.Base.{
  ℕ, suc, zero, ◌+◌, ◌-◌, ◌*◌, ◌/◌, ◌%◌, ◌^◌, ◌==◌, ltb, leb, Bool, false, not, ◌||◌, List, [], ◌∷◌,
  length, get_or, Text, Option, none, some, if◌then◌else◌,
}

-- `struct RangeSet`: the starts and ends of the ranges, in turn, are in `pos`.
pub record RangeSet : Type 0 where
  pub count : ℕ
  pub size : ℕ
  pub pos : List ℕ

-- `BLOCKSIZE`
abbrev pub block_size : ℕ
block_size = 4096

abbrev pub int_max : ℕ
int_max = 2 ^ 31 - 1

abbrev pub size_max : ℕ
size_max = 2 ^ 64 - 1

abbrev pub with_value : {A B : Type 0} → (A → Option B) → Option A → Option B
with_value f none = none
with_value f (some a) = f a

module _ (parse_uint : Text → ℕ → Option ℕ) where
  -- One range: its two ends and the number of blocks, added to `total`.
  unfoldable pub parse_pair : Text → Text → ℕ → Option (ℕ × ℕ × ℕ)
  parse_pair first last total =
      with_value
        (λ lo.
          with_value
            (λ hi.
              if leb hi lo
              then none
              else if ltb (size_max - (hi - lo)) total
              then none
              else some (lo, hi, total + (hi - lo)))
            (parse_uint last int_max))
        (parse_uint first int_max)

  -- The loop of `parse_range` over the pieces that are left, which are even in number.
  unfoldable pub parse_pairs : List Text → ℕ → Option (ℕ × List ℕ)
  parse_pairs [] total = some (total, [])
  parse_pairs (_ ∷ []) total = none
  parse_pairs (first ∷ last ∷ pieces) total =
      with_value
        (λ (r : ℕ × ℕ × ℕ).
          with_value (λ (s : ℕ × List ℕ). some (s.0, r.0 ∷ r.1 ∷ s.1)) (parse_pairs pieces r.2))
        (parse_pair first last total)

  unfoldable pub parse_counted : ℕ → List Text → Option RangeSet
  parse_counted num pieces =
      if num == 0 || not (num % 2 == 0)
      then none
      else if not (num == length pieces)
      then none
      else with_value (λ (s : ℕ × List ℕ). some (record { count = num / 2; size = s.0; pos = s.1 }))
          (parse_pairs pieces 0)

  -- `parse_range` of a text that was split; `none` is `exit(1)`.
  unfoldable pub parse_pieces : List Text → Option RangeSet
  parse_pieces [] = none
  parse_pieces (number ∷ pieces) =
      if ltb (suc (length pieces)) 3
      then none
      else with_value (λ num. parse_counted num pieces) (parse_uint number int_max)

  unfoldable pub parse_range : (Text → List Text) → Text → Option RangeSet
  parse_range split range_text = parse_pieces (split range_text)

-- The ends of the range with index i.
abbrev pub start_of : RangeSet → ℕ → ℕ
start_of rs i = get_or rs.pos (i * 2) 0

abbrev pub end_of : RangeSet → ℕ → ℕ
end_of rs i = get_or rs.pos (i * 2 + 1) 0

-- The inner loop of `range_overlaps` with j from `from` on, for `left` rounds.
unfoldable pub overlaps_from : RangeSet → ℕ → RangeSet → ℕ → ℕ → Bool
overlaps_from r1 i r2 from zero = false
overlaps_from r1 i r2 from (suc left) =
    not (leb (end_of r1 i) (start_of r2 from) || leb (end_of r2 from) (start_of r1 i))
    || overlaps_from r1 i r2 (from + 1) left

-- The outer loop with i from `from` on, for `left` rounds.
unfoldable pub any_overlaps_from : RangeSet → RangeSet → ℕ → ℕ → Bool
any_overlaps_from r1 r2 from zero = false
any_overlaps_from r1 r2 from (suc left) =
    overlaps_from r1 from r2 0 r2.count || any_overlaps_from r1 r2 (from + 1) left

unfoldable pub range_overlaps : RangeSet → RangeSet → Bool
range_overlaps r1 r2 = any_overlaps_from r1 r2 0 r1.count
