-- ===== src/Uncrypt/Ranges.antt =====
-- uncrypt/uncrypt.cpp: `add_block_to_ranges`, on a vector of starts and ends in turn.
use recovery.Base.{ℕ, ◌+◌, ◌==◌, List, [], ◌∷◌, if◌then◌else◌}

unfoldable pub add_block_to_ranges : List ℕ → ℕ → List ℕ
add_block_to_ranges [] new_block = new_block ∷ (new_block + 1) ∷ []
add_block_to_ranges (back ∷ []) new_block =
    if new_block == back then (back + 1) ∷ [] else back ∷ new_block ∷ (new_block + 1) ∷ []
add_block_to_ranges (n ∷ m ∷ ranges) new_block = n ∷ add_block_to_ranges (m ∷ ranges) new_block
