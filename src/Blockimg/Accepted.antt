-- ===== src/Blockimg/Accepted.antt =====
-- updater/blockimg.cpp: `parse_range` accepts every range set that is written out.
use recovery.Base.{
  ℕ, suc, ◌+◌, ◌-◌, ◌*◌, ◌/◌, ◌%◌, ◌≤◌, ◌<◌, ◌≡◌, refl, ap, ◌∙◌, ◌==◌, ltb, leb, true, false, not,
  ◌||◌, List, [], ◌∷◌, length, Text, Option, some, arith,
}
use recovery.Blockimg.Ranges.{
  RangeSet, int_max, size_max, parse_pair, parse_pairs, parse_counted, parse_pieces, parse_range,
}
use recovery.Blockimg.Parsed.{Ranges, no_range, range, WellFormed}

-- Numbers are read back as they are printed, up to the limit.
pub record Prints (parse_uint : Text → ℕ → Option ℕ) (print : ℕ → Text) : Type 0 where
  pub reads : (n limit : ℕ) → n ≤ limit → parse_uint (print n) limit ≡ some n

abbrev pub print_all : (ℕ → Text) → List ℕ → List Text
print_all print [] = []
print_all print (n ∷ ns) = print n ∷ print_all print ns

length-print_all : (print : ℕ → Text) (ns : List ℕ) → length (print_all print ns) ≡ length ns
length-print_all print [] = refl
length-print_all print (n ∷ ns) = ap suc (length-print_all print ns)

module _ (parse_uint : Text → ℕ → Option ℕ) (print : ℕ → Text)
    (prints : Prints parse_uint print) where
  parse_pair-print :
      (lo hi total : ℕ)
      → lo < hi
      → hi ≤ int_max
      → total + (hi - lo) ≤ size_max
      → parse_pair parse_uint (print lo) (print hi) total ≡ some (lo, hi, total + (hi - lo))
  unfolding parse_pair
  parse_pair-print lo hi total h k l =
      let ordered : leb hi lo ≡ false = ground arith in
      let fits : ltb (size_max - (hi - lo)) total ≡ false = ground arith in
      rw (prints.reads lo int_max (omega arith), prints.reads hi int_max k)
        (rw (ordered, fits) refl)

  parse_pairs-print_all :
      {pos : List ℕ} {n : ℕ} (total : ℕ)
      → Ranges pos n
      → total + n ≤ size_max
      → parse_pairs parse_uint (print_all print pos) total ≡ some (total + n, pos)
  unfolding parse_pairs
  parse_pairs-print_all total no_range l =
      ap (λ (t : ℕ). some (t, [])) (let e : total ≡ total + 0 = omega arith in e)
  parse_pairs-print_all total (range {lo} {hi} {n} {pos} h k r) l =
      let rest = parse_pairs-print_all (total + (hi - lo)) r (omega (arith, l)) in
      let sum : total + (hi - lo) + n ≡ total + (hi - lo + n) = omega arith in
      rw (parse_pair-print lo hi total h k (omega (arith, l)))
        (rw rest (ap (λ (t : ℕ). some (t, lo ∷ hi ∷ pos)) sum))

  -- A well-formed range set of at most INT_MAX numbers is what `parse_range` gives for any text that
  -- splits into the number of its ends and the ends in order, each as it is printed.
  pub parse_range-print_all :
      (split : Text → List Text) (range_text : Text) (rs : RangeSet)
      → WellFormed rs
      → rs.count * 2 ≤ int_max
      → split range_text ≡ print (rs.count * 2) ∷ print_all print rs.pos
      → parse_range parse_uint split range_text ≡ some rs
  unfolding parse_range parse_pieces parse_counted
  parse_range-print_all split range_text rs w small e =
      let pieces = print_all print rs.pos in
      let n : length pieces ≡ rs.count * 2 =
        omega (arith, length-print_all print rs.pos, w.paired) in
      let enough : ltb (suc (length pieces)) 3 ≡ false = ground (arith, n, w.some_range) in
      let even : (rs.count * 2 == 0 || not (rs.count * 2 % 2 == 0)) ≡ false =
        ground (arith, w.some_range) in
      let all : (rs.count * 2 == length pieces) ≡ true = ground (arith, n) in
      let half : rs.count * 2 / 2 ≡ rs.count = omega arith in
      ap (parse_pieces parse_uint) e
      ∙ rw (enough, prints.reads (rs.count * 2) int_max small)
          (rw (even, all, parse_pairs-print_all 0 w.ranges (omega (arith, w.bounded)))
            (ap some (
              ap (λ (c : ℕ). the_set c (0 + rs.size)) half
              ∙ ap (the_set rs.count)
                  (let zero_first : 0 + rs.size ≡ rs.size = omega arith in zero_first))))
    where
      the_set : ℕ → ℕ → RangeSet
      the_set c n = record { count = c; size = n; pos = rs.pos }
