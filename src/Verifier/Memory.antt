-- ===== src/Verifier/Memory.antt =====
-- verifier.cpp: reads of the mapped package by `verify_file`, of which those outside of it are told apart.
use recovery.Base.{
  ℕ, suc, zero, ◌-◌, ◌==◌, ltb, Bool, true, false, List, length, drop, get_elem?, Option, none,
  some, if◌then◌else◌,
}

-- The package from `n` bytes in front of its end on; none is in front of the package.
unfoldable pub at_back : List ℕ → ℕ → Option (List ℕ)
at_back addr n = if ltb (length addr) n then none else some (drop (length addr - n) addr)

abbrev pub with_memory : {A : Type 0} → (List ℕ → Option A) → Option (List ℕ) → Option A
with_memory f none = none
with_memory f (some memory) = f memory

-- A byte that is read, and what follows.
abbrev pub with_byte : {A : Type 0} → Option ℕ → (ℕ → Option A) → Option A
with_byte none f = none
with_byte (some b) f = f b

-- `memory[i] != value` fails, or what follows.
abbrev pub byte_is : List ℕ → ℕ → ℕ → Option Bool → Option Bool
byte_is memory i value rest =
    with_byte (get_elem? memory i) (λ b. if b == value then rest else some false)

-- The end-of-central-directory magic at the front of the memory.
unfoldable pub marker_in : List ℕ → Option Bool
marker_in memory =
    byte_is memory 0 0x50
      (byte_is memory 1 0x4b (byte_is memory 2 0x05 (byte_is memory 3 0x06 (some true))))

abbrev pub or_else : Option Bool → Option Bool → Option Bool
or_else none rest = none
or_else (some true) rest = some true
or_else (some false) rest = rest

-- The scan for another magic, over `rounds` places.
unfoldable pub marker_among : ℕ → List ℕ → Option Bool
marker_among zero memory = some false
marker_among (suc rounds) memory = or_else (marker_in memory) (marker_among rounds (drop 1 memory))
