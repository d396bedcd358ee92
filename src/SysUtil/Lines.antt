-- ===== src/SysUtil/Lines.antt =====
-- otautil/SysUtil.cpp and uncrypt/uncrypt.cpp: the text of a block map as lines.
use recovery.Base.{
  ℕ, suc, zero, ◌+◌, ◌/◌, ◌%◌, ◌<◌, ◌≡◌, refl, ap, ◌∙◌, ltb, Bool, true, false, ◌++◌, List, [], ◌∷◌,
  length, Text, codes, if◌then◌else◌, arith, append_assoc,
}
use recovery.RotateLogs.Defs.{digits, to_string}
use recovery.Uncrypt.Defs.{map_header}
use recovery.Uncrypt.Listed.{Paired, no_range, range}
use recovery.Uncrypt.Mapped.{range_lines, map_text}

-- Codes that are printed, behind the space; at least one.
pub data Graphic : Text → Type 0 where
  last_code : {c : ℕ} → 32 < c → Graphic (c ∷ [])
  code : {c : ℕ} {t : Text} → 32 < c → Graphic t → Graphic (c ∷ t)

-- One word, or two with a space between them.
pub data Line : Text → Type 0 where
  word : {t : Text} → Graphic t → Line t
  two_words : {s t : Text} → Graphic s → Graphic t → Line (s ++ (codes " " ++ t))

pub data Lines : List Text → Type 0 where
  last_line : {t : Text} → Line t → Lines (t ∷ [])
  more_lines : {t : Text} {ts : List Text} → Line t → Lines ts → Lines (t ∷ ts)

-- Each line with its end.
unfoldable pub joined : List Text → Text
joined [] = []
joined (t ∷ ts) = t ++ (codes "\n" ++ joined ts)

abbrev pub two_numbers : ℕ → ℕ → Text
two_numbers a b = to_string a ++ (codes " " ++ to_string b)

unfoldable pub range_texts : List ℕ → List Text
range_texts [] = []
range_texts (start ∷ []) = []
range_texts (start ∷ end ∷ ranges) = two_numbers start end ∷ range_texts ranges

-- The lines of a map.
abbrev pub map_texts : Text → ℕ → ℕ → List ℕ → List Text
map_texts blk_dev size blksize ranges =
    blk_dev ∷ two_numbers size blksize ∷ to_string (length ranges / 2) ∷ range_texts ranges

Graphic-append : (t : Text) (c : ℕ) → Graphic t → 32 < c → Graphic (t ++ c ∷ [])
Graphic-append _ c (last_code h) k = code h (last_code k)
Graphic-append _ c (code h g) k = code h (Graphic-append _ c g k)

if-Graphic : (b : Bool) (s t : Text) → Graphic s → Graphic t → Graphic (if b then s else t)
if-Graphic true s t g h = g
if-Graphic false s t g h = h

digits-Graphic : (fuel n : ℕ) → Graphic (digits fuel n)
unfolding digits
digits-Graphic zero n = last_code (omega arith)
digits-Graphic (suc fuel) n = if-Graphic (ltb n 10) _ _ (last_code (omega arith)) (
    Graphic-append (digits fuel (n / 10)) (48 + n % 10) (digits-Graphic fuel (n / 10))
      (omega arith))

to_string-Graphic : (n : ℕ) → Graphic (to_string n)
unfolding to_string
to_string-Graphic n = digits-Graphic n n

two_numbers-Line : (a b : ℕ) → Line (two_numbers a b)
two_numbers-Line a b = two_words (to_string-Graphic a) (to_string-Graphic b)

-- A line, and the lines of the ranges.
before_ranges :
    (t : Text) (ranges : List ℕ) → Line t → Paired ranges → Lines (t ∷ range_texts ranges)
unfolding range_texts
before_ranges t _ h no_range = last_line h
before_ranges t _ h (range {start} {end} {ranges} l r) =
    more_lines h (before_ranges (two_numbers start end) ranges (two_numbers-Line start end) r)

pub map_texts-Lines :
    (blk_dev : Text) (size blksize : ℕ) (ranges : List ℕ)
    → Graphic blk_dev
    → Paired ranges
    → Lines (map_texts blk_dev size blksize ranges)
map_texts-Lines blk_dev size blksize ranges g p = more_lines (word g) (
    more_lines (two_numbers-Line size blksize) (
      before_ranges (to_string (length ranges / 2)) ranges
        (word (to_string-Graphic (length ranges / 2))) p))

range_lines-eq : (ranges : List ℕ) → range_lines ranges ≡ joined (range_texts ranges)
unfolding range_lines joined range_texts
range_lines-eq [] = refl
range_lines-eq (start ∷ []) = refl
range_lines-eq (start ∷ end ∷ ranges) =
    ap (λ (t : Text). (to_string start ++ (codes " " ++ (to_string end ++ codes "\n"))) ++ t)
      (range_lines-eq ranges)
    ∙ simp append_assoc

-- The text of a map is its lines.
pub map_text-eq :
    (blk_dev : Text) (size blksize : ℕ) (ranges : List ℕ)
    → map_text blk_dev size blksize ranges ≡ joined (map_texts blk_dev size blksize ranges)
unfolding map_text map_header joined
map_text-eq blk_dev size blksize ranges = rw (range_lines-eq ranges) (simp append_assoc)
