-- ===== src/SysUtil/Restored.antt =====
-- otautil/SysUtil.cpp and uncrypt/uncrypt.cpp: a block map that is published is mapped again.
use recovery.Base.{
  ℕ, suc, zero, ◌+◌, ◌-◌, ◌*◌, ◌/◌, ◌%◌, ◌^◌, ◌≤◌, ◌<◌, ◌==◌, ◌≡◌, ◌≢◌, refl, sym, ap, ◌∙◌, ltb,
  leb, true, false, not, ◌||◌, List, [], ◌∷◌, length, Text, some, arith, length-append,
}
use native.Mathlib.Nat.{le-div_iff_mul-le, div-eq_of_lt-le}
use recovery.Blockimg.Ranges.{size_max}
use recovery.RotateLogs.Defs.{to_string}
use recovery.Uncrypt.Defs as Uncrypt
use recovery.Uncrypt.Listed.{blocks_from, listed, Paired, no_range, range}
use recovery.Uncrypt.Window.{Blocks, empty, next}
use recovery.SysUtil.Lines.{Graphic, Lines, joined, two_numbers, range_texts, map_texts}
use recovery.SysUtil.Defs.{
  System, MappedRange, with_some, map_ranges, blocks_in, map_device, map_checked, map_lines,
}

-- How many blocks the ranges have.
unfoldable pub span : List ℕ → ℕ
span [] = 0
span (start ∷ []) = 0
span (start ∷ end ∷ ranges) = (end - start) + span ranges

-- The ranges one behind the other in memory, from a place on.
unfoldable pub pieces : ℕ → ℕ → List ℕ → List MappedRange
pieces blksize place [] = []
pieces blksize place (start ∷ []) = []
pieces blksize place (start ∷ end ∷ ranges) =
    record { addr = place; length = (end - start) * blksize; offset = start * blksize }
    ∷ pieces blksize (place + (end - start) * blksize) ranges

-- Each range is read as it is printed.
pub data Scanned (system : System) : List ℕ → Type 0 where
  no_line : Scanned system []
  line :
      {start end : ℕ} {ranges : List ℕ}
      → system.scan_two (two_numbers start end) ≡ some (start, end)
      → Scanned system ranges
      → Scanned system (start ∷ end ∷ ranges)

-- The system reads the map; its libraries split a text of lines that have no blanks but one between two
-- words, and read numbers as they are printed; the device's name has no blanks; and no call to map
-- memory fails.
pub record Reads (system : System) (filename text blk_dev : Text) (size blksize : ℕ)
    (ranges : List ℕ) : Type 0 where
  pub content : system.read_file filename ≡ some text
  pub splits : (ts : List Text) → Lines ts → system.lines (joined ts) ≡ ts
  pub device_name : Graphic blk_dev
  pub sizes : system.scan_two (two_numbers size blksize) ≡ some (size, blksize)
  pub count : system.scan_one (to_string (length ranges / 2)) ≡ some (length ranges / 2)
  pub scanned : Scanned system ranges
  pub reserved : (n : ℕ) → system.reserves n ≡ true
  pub opened : system.opens blk_dev ≡ true
  pub mapped : (offset n : ℕ) → system.maps offset n ≡ true

le→leb-false : (a b : ℕ) → b < a → leb a b ≡ false
le→leb-false a b h = ground arith

le→ltb-false : (a b : ℕ) → a ≤ b → ltb b a ≡ false
le→ltb-false a b h = ground arith

length-blocks_from : (start count : ℕ) → length (blocks_from start count) ≡ count
unfolding blocks_from
length-blocks_from start zero = refl
length-blocks_from start (suc count) = ap suc (length-blocks_from (start + 1) count)

pub length-listed : (ranges : List ℕ) → length (listed ranges) ≡ span ranges
unfolding listed span
length-listed [] = refl
length-listed (start ∷ []) = refl
length-listed (start ∷ end ∷ ranges) = omega (
  arith,
  length-append (blocks_from start (end - start)) (listed ranges),
  length-blocks_from start (end - start),
  length-listed ranges,
)

pub Blocks-length :
    {system : Uncrypt.System} {n : ℕ} {blocks : List ℕ} → Blocks system n blocks → length blocks ≡ n
Blocks-length empty = refl
Blocks-length (next {n} {b} {blocks} h e) =
    omega (arith, length-append blocks (b ∷ []), Blocks-length h)

length-range_texts :
    (ranges : List ℕ) → Paired ranges → length (range_texts ranges) ≡ length ranges / 2
unfolding range_texts
length-range_texts _ no_range = refl
length-range_texts _ (range {start} {end} {ranges} h r) = omega (arith, length-range_texts ranges r)

module _ (system : System) (filename text blk_dev : Text) (size blksize : ℕ) (all : List ℕ)
    (reads : Reads system filename text blk_dev size blksize all) (positive : 0 < blksize) where
  expected :
      (start end remaining : ℕ)
      → start < end
      → (end - start) * blksize ≤ remaining
      → remaining < 2 ^ 64
      → (leb end start
          || ltb (size_max / blksize) (end - start)
          || ltb remaining ((end - start) * blksize))
        ≡ false
  expected start end remaining h k l = rw (le→leb-false end start h) (
      rw (le→ltb-false (end - start) (size_max / blksize) few)
        (le→ltb-false ((end - start) * blksize) remaining k))
    where
      few : end - start ≤ size_max / blksize
      few =
          (le-div_iff_mul-le {k = blksize} {x = end - start} {y = size_max} positive).1
            (omega arith)

  fit : (n : ℕ) → n < 2 ^ 64 → n % 2 ^ 64 ≡ n
  fit n h = omega arith

  map_ranges-pieces :
      (ranges : List ℕ) (place : ℕ)
      → Paired ranges
      → Scanned system ranges
      → span ranges * blksize < 2 ^ 64
      → map_ranges system blksize (range_texts ranges) place (span ranges * blksize)
        ≡ some (pieces blksize place ranges)
  unfolding map_ranges range_texts span pieces with_some
  map_ranges-pieces _ place no_range s l =
      rw (let e : (0 * blksize == 0) ≡ true = ground arith in e) refl
  map_ranges-pieces _ place (range {start} {end} {ranges} h r) (line c s) l = rw c (
      rw (fit ((end - start) * blksize) (omega arith)) (
        rw (expected start end ((end - start + span ranges) * blksize) h (omega arith) l) (
          rw (reads.mapped (start * blksize) ((end - start) * blksize)) (
            rw
              (let e : (end - start + span ranges) * blksize - (end - start) * blksize
                    ≡ span ranges * blksize =
                  omega arith in
                e)
              (rw (map_ranges-pieces ranges (place + (end - start) * blksize) r s (omega arith))
                refl)))))

  filled : (ranges : List ℕ) (k : ℕ) → Paired ranges → span ranges ≡ suc k → 0 < length ranges / 2
  unfolding span
  filled _ k no_range e = absurd (omega (arith, e))
  filled _ k (range {start} {end} {ranges} h r) e = omega arith

  module _ (k : ℕ) (below : k * blksize < size) (above : size ≤ suc k * blksize)
      (counted : size + blksize ≤ 2 ^ 64) where
    count_of_blocks : blocks_in size blksize ≡ suc k
    count_of_blocks =
        let e : (size - 1) / blksize ≡ k =
          div-eq_of_lt-le {k = k} blksize {m = size - 1} (omega arith) (omega arith) in
        omega (arith, e)

    total : suc k * blksize < 2 ^ 64
    total = omega arith

    few_blocks : suc k ≤ size_max / blksize
    few_blocks =
        (le-div_iff_mul-le {k = blksize} {x = suc k} {y = size_max} positive).1
          (omega (arith, total))

    device_mapped :
        (ranges : List ℕ)
        → Paired ranges
        → Scanned system ranges
        → span ranges ≡ suc k
        → map_device system blk_dev size blksize (range_texts ranges)
          ≡ some (record { source = blk_dev; length = size; ranges = pieces blksize 0 ranges })
    unfolding map_device with_some
    device_mapped ranges p s e = rw (reads.reserved (blocks_in size blksize * blksize)) (
        rw reads.opened (
          rw (ap (λ (n : ℕ). n * blksize) (count_of_blocks ∙ sym e))
            (rw (map_ranges-pieces ranges 0 p s (rw e total)) refl)))

    unequal_numbers : (a b : ℕ) → a ≢ b → (a == b) ≡ false
    unequal_numbers a b h = ground arith

    equal_numbers : (a b : ℕ) → a ≡ b → not (a == b) ≡ false
    equal_numbers a b h = ground arith

    sound :
        (ranges : List ℕ)
        → Paired ranges
        → span ranges ≡ suc k
        → (size == 0
            || blksize == 0
            || ltb (size_max / blksize) (blocks_in size blksize)
            || length ranges / 2 == 0
            || not (length (range_texts ranges) == length ranges / 2))
          ≡ false
    sound ranges p e = rw (unequal_numbers size 0 (λ z. absurd (omega (arith, z)))) (
        rw (unequal_numbers blksize 0 (λ z. absurd (omega (arith, z)))) (
          rw (ap (ltb (size_max / blksize)) count_of_blocks) (
            rw (le→ltb-false (suc k) (size_max / blksize) few_blocks) (
              rw
                (unequal_numbers (length ranges / 2) 0
                  (λ z. absurd (omega (arith, z, filled ranges k p e))))
                (equal_numbers _ _ (length-range_texts ranges p))))))

    checked :
        (ranges : List ℕ)
        → Paired ranges
        → Scanned system ranges
        → span ranges ≡ suc k
        → map_checked system blk_dev size blksize (length ranges / 2) (range_texts ranges)
          ≡ some (record { source = blk_dev; length = size; ranges = pieces blksize 0 ranges })
    unfolding map_checked
    checked ranges p s e = rw (sound ranges p e) (device_mapped ranges p s e)

    pub lines_mapped :
        (ranges : List ℕ)
        → Paired ranges
        → Scanned system ranges
        → span ranges ≡ suc k
        → system.scan_one (to_string (length ranges / 2)) ≡ some (length ranges / 2)
        → map_lines system (map_texts blk_dev size blksize ranges)
          ≡ some (record { source = blk_dev; length = size; ranges = pieces blksize 0 ranges })
    unfolding map_lines with_some range_texts
    lines_mapped _ no_range s e c = absurd (omega (arith, filled [] k no_range e))
    lines_mapped _ (range {start} {end} {ranges} h r) s e c =
        rw reads.sizes (rw c (checked (start ∷ end ∷ ranges) (range h r) s e))
