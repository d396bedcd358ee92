-- ===== src/Blockimg/Tests.antt =====
-- updater/blockimg.cpp: range sets of two and one ranges.
use recovery.Base.{
  suc, zero, ◌+◌, ◌*◌, ◌++◌, replicate, length, length-append, length-replicate, ◌<◌, get_or, ℕ,
  ◌-◌, ◌≡◌, ◌≤◌, ◌↔◌, refl, ◌==◌, leb, true, List, [], ◌∷◌, Text, Option, none, some, if◌then◌else◌,
  arith,
}
use recovery.Blockimg.Ranges.{
  RangeSet, start_of, end_of, block_size, parse_pair, parse_pairs, parse_counted, parse_pieces,
  parse_range, overlaps_from, any_overlaps_from, range_overlaps,
}
use recovery.Blockimg.Parsed.{WellFormed, WithinLimit, parse_range-WellFormed}
use recovery.Blockimg.Move.{
  memmove, move_loop, move_range, move_from_loop, move_range_from, blocks_before, Ascending,
}
use recovery.Blockimg.Moved.{move_range-blocks_before}
use recovery.Blockimg.Accepted.{Prints, parse_range-print_all}
use recovery.Blockimg.Overlap.{InRanges, range_overlaps_iff}

-- A number of one digit.
abbrev parse_digit : Text → ℕ → Option ℕ
parse_digit (c ∷ []) limit = if leb (c - 48) limit then some (c - 48) else none
parse_digit _ limit = none

parse_digit-WithinLimit : WithinLimit parse_digit
parse_digit-WithinLimit = record { limited = limited }
  where
    limited : (t : Text) (limit n : ℕ) → parse_digit t limit ≡ some n → n ≤ limit
    limited [] limit n e = cc
    limited (c ∷ []) limit n e = ground arith
    limited (_ ∷ _ ∷ _) limit n e = cc

abbrev split_each : Text → List Text
split_each [] = []
split_each (c ∷ t) = if c == 44 then split_each t else (c ∷ []) ∷ split_each t

-- 4,1,3,5,9 and 2,3,6
abbrev first_text : Text
first_text = 52 ∷ 44 ∷ 49 ∷ 44 ∷ 51 ∷ 44 ∷ 53 ∷ 44 ∷ 57 ∷ []

abbrev second_text : Text
second_text = 50 ∷ 44 ∷ 51 ∷ 44 ∷ 54 ∷ []

abbrev first_set : RangeSet
first_set = record { count = 2; size = 6; pos = 1 ∷ 3 ∷ 5 ∷ 9 ∷ [] }

abbrev second_set : RangeSet
second_set = record { count = 1; size = 3; pos = 3 ∷ 6 ∷ [] }

first-parses : parse_range parse_digit split_each first_text ≡ some first_set
unfolding parse_range parse_pieces parse_counted parse_pairs parse_pair
first-parses = refl

second-parses : parse_range parse_digit split_each second_text ≡ some second_set
unfolding parse_range parse_pieces parse_counted parse_pairs parse_pair
second-parses = refl

parse_range-WellFormed_example : WellFormed first_set
parse_range-WellFormed_example =
    parse_range-WellFormed parse_digit parse_digit-WithinLimit split_each first_text first_set
      first-parses

second-WellFormed : WellFormed second_set
second-WellFormed =
    parse_range-WellFormed parse_digit parse_digit-WithinLimit split_each second_text second_set
      second-parses

print_digit-Prints : Prints parse_digit (λ n. (48 + n) ∷ [])
print_digit-Prints = record { reads = reads }
  where
    reads : (n limit : ℕ) → n ≤ limit → parse_digit ((48 + n) ∷ []) limit ≡ some n
    reads n limit h =
        let back : 48 + n - 48 ≡ n = omega arith in
        let small : leb n limit ≡ true = ground arith in rw back (rw small refl)

parse_range-print_all_example : parse_range parse_digit split_each first_text ≡ some first_set
parse_range-print_all_example =
    parse_range-print_all parse_digit (λ n. (48 + n) ∷ []) print_digit-Prints split_each first_text
      first_set
      (parse_range-WellFormed parse_digit parse_digit-WithinLimit split_each first_text first_set
        first-parses)
      (omega arith) refl

sets-overlap : range_overlaps first_set second_set ≡ true
unfolding range_overlaps any_overlaps_from overlaps_from
sets-overlap = refl

range_overlaps_iff_example :
    (range_overlaps first_set second_set ≡ true)
    ↔ ((block : ℕ) × InRanges first_set block × InRanges second_set block)
range_overlaps_iff_example =
    range_overlaps_iff first_set second_set
      (parse_range-WellFormed parse_digit parse_digit-WithinLimit split_each first_text first_set
        first-parses)
      second-WellFormed

first_set-Ascending : Ascending first_set 10
unfolding blocks_before
first_set-Ascending = record { ordered = ordered; apart = apart; inside = inside; counted = refl }
  where
    ordered : (i : ℕ) → start_of first_set i ≤ end_of first_set i
    ordered zero = omega arith
    ordered (suc zero) = omega arith
    ordered (suc (suc i)) =
        rw
          (
            let e : suc (suc i) * 2 ≡ suc (suc (suc (suc (i * 2)))) = omega arith in e,
            let e' : suc (suc (suc (suc (i * 2)))) + 1 ≡ suc (suc (suc (suc (i * 2 + 1)))) =
                  omega arith in
                e',
          )
          (omega arith)

    apart : (i : ℕ) → suc i < 2 → end_of first_set i ≤ start_of first_set (suc i)
    apart zero h = omega arith
    apart (suc i) h = absurd (omega arith)

    inside : (i : ℕ) → i < 2 → end_of first_set i ≤ 10
    inside zero h = omega arith
    inside (suc zero) h = omega arith
    inside (suc (suc i)) h = absurd (omega arith)

-- Blocks that are filled with one byte each.
filled_blocks : List ℕ → List ℕ
filled_blocks [] = []
filled_blocks (b ∷ bs) = replicate block_size b ++ filled_blocks bs

abbrev packed : List ℕ
packed = 10 ∷ 11 ∷ 12 ∷ 13 ∷ 14 ∷ 15 ∷ 0 ∷ 0 ∷ 0 ∷ 0 ∷ []

blocks-moved :
    move_range (filled_blocks packed) first_set
    ≡ filled_blocks (10 ∷ 10 ∷ 11 ∷ 13 ∷ 14 ∷ 12 ∷ 13 ∷ 14 ∷ 15 ∷ 0 ∷ [])
unfolding move_range move_loop memmove filled_blocks
blocks-moved = refl

-- The packed blocks 1 2 3 of a stash, in the ranges of the second set.
stash-moved :
    move_range_from (filled_blocks packed) second_set (filled_blocks (1 ∷ 2 ∷ 3 ∷ []))
    ≡ filled_blocks (10 ∷ 11 ∷ 12 ∷ 1 ∷ 2 ∷ 3 ∷ 0 ∷ 0 ∷ 0 ∷ 0 ∷ [])
unfolding move_range_from move_from_loop memmove filled_blocks
stash-moved = refl

length-filled_blocks : (bs : List ℕ) → length (filled_blocks bs) ≡ length bs * block_size
unfolding filled_blocks
length-filled_blocks [] = refl
length-filled_blocks (b ∷ bs) = omega (
  arith,
  length-append (replicate block_size b) (filled_blocks bs),
  length-replicate block_size b,
  length-filled_blocks bs,
)

move_range-blocks_before_example :
    get_or (move_range (filled_blocks packed) first_set) (5 * block_size + 8192) 0
    ≡ get_or (filled_blocks packed) (blocks_before first_set 1 * block_size + 8192) 0
move_range-blocks_before_example =
    move_range-blocks_before 0 first_set 10 first_set-Ascending (filled_blocks packed) 1 8192
      (omega (arith, length-filled_blocks packed)) (omega arith) (omega arith)
