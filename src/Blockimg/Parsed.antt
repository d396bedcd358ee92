-- ===== src/Blockimg/Parsed.antt =====
-- updater/blockimg.cpp: what a range text that is accepted gives.
use recovery.Base.{
  ℕ, suc, ◌+◌, ◌-◌, ◌*◌, ◌/◌, ◌%◌, ◌≤◌, ◌<◌, ◌≡◌, refl, ap, ◌==◌, ltb, leb, not, ◌||◌, List, [],
  ◌∷◌, length, Text, Option, none, some, if◌then◌else◌, arith, Bool-cases, inl, inr, ltb-false,
}
use mathlib.Core.Option.{some-injective}
use mathlib.Core.Path.{subst}
use recovery.Blockimg.Ranges.{
  RangeSet, int_max, size_max, with_value, parse_pair, parse_pairs, parse_counted, parse_pieces,
  parse_range,
}

-- Ranges that are not empty, in `n` blocks together.
pub data Ranges : List ℕ → ℕ → Type 0 where
  no_range : Ranges [] 0
  range :
      {lo hi n : ℕ} {pos : List ℕ}
      → lo < hi
      → hi ≤ int_max
      → Ranges pos n
      → Ranges (lo ∷ hi ∷ pos) (hi - lo + n)

pub record WellFormed (rs : RangeSet) : Type 0 where
  pub some_range : 0 < rs.count
  pub paired : length rs.pos ≡ rs.count * 2
  pub ranges : Ranges rs.pos rs.size
  pub bounded : rs.size ≤ size_max

-- What is documented of `ParseUint`: the value is at most the limit.
pub record WithinLimit (parse_uint : Text → ℕ → Option ℕ) : Type 0 where
  pub limited : (t : Text) (limit n : ℕ) → parse_uint t limit ≡ some n → n ≤ limit

record PairRead (total : ℕ) (r : ℕ × ℕ × ℕ) : Type 0 where
  ordered : r.0 < r.1
  small : r.1 ≤ int_max
  sum : r.2 ≡ total + (r.1 - r.0)
  no_wrap : r.2 ≤ size_max

module _ (parse_uint : Text → ℕ → Option ℕ) (limits : WithinLimit parse_uint) where
  with_value-eq-some :
      {A B : Type 0} (f : A → Option B) (o : Option A) (b : B)
      → with_value f o ≡ some b
      → (a : A) × (o ≡ some a) × (f a ≡ some b)
  with_value-eq-some f none b e = cc
  with_value-eq-some f (some a) b e = (a, refl, e)

  parse_pair-PairRead :
      (first last : Text) (total : ℕ) (r : ℕ × ℕ × ℕ)
      → parse_pair parse_uint first last total ≡ some r
      → PairRead total r
  unfolding parse_pair
  parse_pair-PairRead first last total r e =
      let (lo, lo_read, e1) = with_value-eq-some _ (parse_uint first int_max) r e in
      let (hi, hi_read, e2) = with_value-eq-some _ (parse_uint last int_max) r e1 in
      go lo hi (limits.limited last int_max hi hi_read) e2
    where
      go :
          (lo hi : ℕ)
          → hi ≤ int_max
          → (if leb hi lo
              then none
              else if ltb (size_max - (hi - lo)) total
              then none
              else some (lo, hi, total + (hi - lo)))
            ≡ some r
          → PairRead total r
      go lo hi h e = elim (Bool-cases (leb hi lo)) [
        | inl empty ↦ absurd (let no : none ≡ some r = rw empty at (e) in cc)
        | inr ordered ↦ elim (Bool-cases (ltb (size_max - (hi - lo)) total)) [
          | inl wraps ↦ absurd (let no : none ≡ some r = rw (ordered, wraps) at (e) in cc)
          | inr fits ↦
              subst (PairRead total)
                (some-injective (lo, hi, total + (hi - lo)) r (rw (ordered, fits) at (e)))
                (record {
                  ordered = ground arith;
                  small = h;
                  sum = refl;
                  no_wrap = omega (arith, ltb-false (size_max - (hi - lo)) total fits, h);
                })
        ]
      ]

  record PairsRead (total : ℕ) (pieces : List Text) (s : ℕ × List ℕ) : Type 0 where
    all_read : length s.1 ≡ length pieces
    sum : ℕ
    ranges : Ranges s.1 sum
    total_is : s.0 ≡ total + sum
    no_wrap : s.0 ≤ size_max

  parse_pairs-PairsRead :
      (pieces : List Text) (total : ℕ) (s : ℕ × List ℕ)
      → total ≤ size_max
      → parse_pairs parse_uint pieces total ≡ some s
      → PairsRead total pieces s
  unfolding parse_pairs
  parse_pairs-PairsRead [] total s h e =
      subst (PairsRead total []) (some-injective (total, []) s e) (record {
        all_read = refl;
        sum = 0;
        ranges = no_range;
        total_is = omega arith;
        no_wrap = h;
      })
  parse_pairs-PairsRead (_ ∷ []) total s h e = cc
  parse_pairs-PairsRead (first ∷ last ∷ pieces) total s h e =
      let (r, pair_read, e1) = with_value-eq-some _ (parse_pair parse_uint first last total) s e in
      let (t, rest_read, e2) = with_value-eq-some _ (parse_pairs parse_uint pieces r.2) s e1 in
      let p = parse_pair-PairRead first last total r pair_read in
      let q = parse_pairs-PairsRead pieces r.2 t p.no_wrap rest_read in
      subst (PairsRead total (first ∷ last ∷ pieces)) (some-injective (t.0, r.0 ∷ r.1 ∷ t.1) s e2)
        (record {
          all_read = ap (λ (n : ℕ). suc (suc n)) q.all_read;
          sum = r.1 - r.0 + q.sum;
          ranges = range p.ordered p.small q.ranges;
          total_is = omega (arith, q.total_is, p.sum);
          no_wrap = q.no_wrap;
        })

  parse_counted-WellFormed :
      (num : ℕ) (pieces : List Text) (rs : RangeSet)
      → parse_counted parse_uint num pieces ≡ some rs
      → WellFormed rs
  unfolding parse_counted
  parse_counted-WellFormed num pieces rs e = elim (Bool-cases (num == 0 || not (num % 2 == 0))) [
    | inl odd ↦ absurd (let no : none ≡ some rs = rw odd at (e) in cc)
    | inr even ↦ elim (Bool-cases (not (num == length pieces))) [
      | inl short ↦ absurd (let no : none ≡ some rs = rw (even, short) at (e) in cc)
      | inr all ↦
          let (s, read, e1) =
            with_value-eq-some _ (parse_pairs parse_uint pieces 0) rs (rw (even, all) at (e)) in
          let q = parse_pairs-PairsRead pieces 0 s (omega arith) read in
          let count_even : (0 < num / 2) × (num ≡ num / 2 * 2) = ground arith in
          let same : num ≡ length pieces = ground arith in
          subst WellFormed
            (some-injective (record { count = num / 2; size = s.0; pos = s.1 }) rs e1)
            (record {
              some_range = count_even.0;
              paired = omega (arith, q.all_read, same, count_even.1);
              ranges =
                  subst (Ranges s.1) (let z : q.sum ≡ s.0 = omega (arith, q.total_is) in z)
                    q.ranges;
              bounded = q.no_wrap;
            })
    ]
  ]

  parse_pieces-WellFormed :
      (pieces : List Text) (rs : RangeSet)
      → parse_pieces parse_uint pieces ≡ some rs
      → WellFormed rs
  unfolding parse_pieces
  parse_pieces-WellFormed [] rs e = cc
  parse_pieces-WellFormed (number ∷ pieces) rs e = elim (Bool-cases (ltb (suc (length pieces)) 3)) [
    | inl short ↦ absurd (let no : none ≡ some rs = rw short at (e) in cc)
    | inr enough ↦
        let (num, num_read, e1) =
          with_value-eq-some _ (parse_uint number int_max) rs (rw enough at (e)) in
        parse_counted-WellFormed num pieces rs e1
  ]

  -- Where `ParseUint` keeps to its limit, `parse_range` gives at least one range, two ends to each,
  -- every range is nonempty and ends at INT_MAX at most, and the size is the number of the blocks of
  -- all ranges, with no overflow of `size_t`.
  pub parse_range-WellFormed :
      (split : Text → List Text) (range_text : Text) (rs : RangeSet)
      → parse_range parse_uint split range_text ≡ some rs
      → WellFormed rs
  unfolding parse_range
  parse_range-WellFormed split range_text rs e = parse_pieces-WellFormed (split range_text) rs e
