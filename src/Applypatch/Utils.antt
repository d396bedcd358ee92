-- ===== src/Applypatch/Utils.antt =====
-- applypatch/utils.cpp: little-endian numbers. A signed value stands as its bit pattern, a number below
-- 2 ^ 32 or 2 ^ 64, and a shift and a mask are a quotient and a remainder.
use recovery.Base.{ℕ, ◌+◌, ◌*◌, ◌/◌, ◌%◌, ◌^◌, ◌<◌, ◌≡◌, List, [], ◌∷◌, get_or, arith, ◌++◌}

unfoldable pub write4 : ℕ → List ℕ
write4 value =
    value % 2 ^ 8 ∷ value / 2 ^ 8 % 2 ^ 8 ∷ value / 2 ^ 16 % 2 ^ 8 ∷ value / 2 ^ 24 % 2 ^ 8 ∷ []

unfoldable pub write8 : ℕ → List ℕ
write8 value =
    value % 2 ^ 8
    ∷ value / 2 ^ 8 % 2 ^ 8
    ∷ value / 2 ^ 16 % 2 ^ 8
    ∷ value / 2 ^ 24 % 2 ^ 8
    ∷ value / 2 ^ 32 % 2 ^ 8
    ∷ value / 2 ^ 40 % 2 ^ 8
    ∷ value / 2 ^ 48 % 2 ^ 8
    ∷ value / 2 ^ 56 % 2 ^ 8
    ∷ []

abbrev pub byte : List ℕ → ℕ → ℕ
byte p i = get_or p i 0

-- The operands of `|` have no bit in common when the bytes are below 256, so it is a sum.
unfoldable pub read2 : List ℕ → ℕ
read2 p = byte p 1 * 2 ^ 8 + byte p 0

unfoldable pub read4 : List ℕ → ℕ
read4 p = byte p 3 * 2 ^ 24 + byte p 2 * 2 ^ 16 + byte p 1 * 2 ^ 8 + byte p 0

unfoldable pub read8 : List ℕ → ℕ
read8 p =
    byte p 7 * 2 ^ 56
    + byte p 6 * 2 ^ 48
    + byte p 5 * 2 ^ 40
    + byte p 4 * 2 ^ 32
    + byte p 3 * 2 ^ 24
    + byte p 2 * 2 ^ 16
    + byte p 1 * 2 ^ 8
    + byte p 0

-- Reading what `Write4` and `Write8` wrote, whatever stands behind it, gives the value back.
pub read-write :
    (value4 value8 : ℕ) (rest : List ℕ)
    → value4 < 2 ^ 32
    → value8 < 2 ^ 64
    → (read4 (write4 value4 ++ rest) ≡ value4) × (read8 (write8 value8 ++ rest) ≡ value8)
unfolding read4 write4 read8 write8
read-write a b rest h k = (omega arith, omega arith)
