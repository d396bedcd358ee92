-- ===== src/Blockimg/Move.antt =====
-- updater/blockimg.cpp: `MoveRange`, over buffers as lists of bytes.
use recovery.Base.{
  ℕ, suc, zero, ◌+◌, ◌-◌, ◌*◌, ◌≤◌, ◌<◌, ◌≡◌, ap, ◌∙◌, ◌++◌, List, length, take, drop, get_or,
  arith, length-append, length-take, length-drop, get_or-append_left, get_or-append_right,
  get_or-take, get_or-drop, Bool-cases, ltb, inl, inr, ltb→lt, ltb-false,
}
use recovery.Blockimg.Ranges.{RangeSet, start_of, end_of, block_size}

module _ {A : Type 0} where
  -- `memmove(to + place, from + start, blocks)`, for any sizes.
  unfoldable pub memmove : List A → ℕ → List A → ℕ → ℕ → List A
  memmove to place from start blocks =
      take place to ++ (take blocks (drop start from) ++ drop (place + blocks) to)

  -- The loop with i from `left - 1` down, where source and dest are one buffer.
  unfoldable pub move_loop : ℕ → RangeSet → ℕ → List A → List A
  move_loop zero locs start buffer = buffer
  move_loop (suc i) locs start buffer =
      let blocks = end_of locs i - start_of locs i in
      move_loop i locs (start - blocks) (
        memmove buffer (start_of locs i * block_size) buffer ((start - blocks) * block_size)
          (blocks * block_size))

  -- `MoveRange(buffer, locs, buffer)`.
  unfoldable pub move_range : List A → RangeSet → List A
  move_range buffer locs = move_loop locs.count locs locs.size buffer

  -- The same with a source of its own, as for a stash.
  unfoldable pub move_from_loop : ℕ → RangeSet → ℕ → List A → List A → List A
  move_from_loop zero locs start source dest = dest
  move_from_loop (suc i) locs start source dest =
      let blocks = end_of locs i - start_of locs i in
      move_from_loop i locs (start - blocks) source (
        memmove dest (start_of locs i * block_size) source ((start - blocks) * block_size)
          (blocks * block_size))

  -- `MoveRange(dest, locs, source)`.
  unfoldable pub move_range_from : List A → RangeSet → List A → List A
  move_range_from dest locs source = move_from_loop locs.count locs locs.size source dest

-- How many blocks the ranges before the one with index i have.
unfoldable pub blocks_before : RangeSet → ℕ → ℕ
blocks_before locs zero = 0
blocks_before locs (suc i) = blocks_before locs i + (end_of locs i - start_of locs i)

-- The ranges stand in ascending order, their blocks are as many as the size says, and they end inside of
-- a buffer of `room` blocks.
pub record Ascending (locs : RangeSet) (room : ℕ) : Type 0 where
  pub ordered : (i : ℕ) → start_of locs i ≤ end_of locs i
  pub apart : (i : ℕ) → suc i < locs.count → end_of locs i ≤ start_of locs (suc i)
  pub inside : (i : ℕ) → i < locs.count → end_of locs i ≤ room
  pub counted : locs.size ≡ blocks_before locs locs.count

-- The first place behind the ranges with a smaller index.
abbrev pub edge : RangeSet → ℕ → ℕ
edge locs zero = 0
edge locs (suc i) = end_of locs i

module _ (locs : RangeSet) (room : ℕ) (asc : Ascending locs room) where
  pub edge_le : (i : ℕ) → i < locs.count → edge locs i ≤ start_of locs i
  edge_le zero h = omega arith
  edge_le (suc i) h = asc.apart i h

  pub before_le : (i : ℕ) → i ≤ locs.count → blocks_before locs i ≤ edge locs i
  unfolding blocks_before
  before_le zero h = omega arith
  before_le (suc i) h =
      omega (arith, before_le i (omega arith), edge_le i (omega arith), asc.ordered i)

  pub before_mono :
      (i j : ℕ)
      → j < i
      → blocks_before locs j + (end_of locs j - start_of locs j) ≤ blocks_before locs i
  unfolding blocks_before
  before_mono zero j h = absurd (omega arith)
  before_mono (suc i) j h = elim (Bool-cases (ltb j i)) [
    | inl earlier ↦ omega (arith, before_mono i j (ltb→lt j i earlier))
    | inr last ↦ let e : j ≡ i = omega (arith, ltb-false j i last) in rw e (omega arith)
  ]

module _ {A : Type 0} (x : A) where
  pub memmove_below :
      (buffer : List A) (place start blocks k : ℕ)
      → place ≤ length buffer
      → k < place
      → get_or (memmove buffer place buffer start blocks) k x ≡ get_or buffer k x
  unfolding memmove
  memmove_below buffer place start blocks k h l =
      get_or-append_left (take place buffer) _ k x (omega (arith, length-take place buffer))
      ∙ get_or-take place buffer k x l

  pub memmove_within :
      (buffer : List A) (place start blocks k : ℕ)
      → place ≤ length buffer
      → start + blocks ≤ length buffer
      → k < blocks
      → get_or (memmove buffer place buffer start blocks) (place + k) x
        ≡ get_or buffer (start + k) x
  unfolding memmove
  memmove_within buffer place start blocks k h s l =
      let front = length-take place buffer in
      let e : place + k ≡ length (take place buffer) + k = omega (arith, front) in
      let middle : k < length (take blocks (drop start buffer)) =
        omega (arith, length-take blocks (drop start buffer), length-drop start buffer) in
      ap (λ (n : ℕ). get_or (memmove buffer place buffer start blocks) n x) e
      ∙ get_or-append_right (take place buffer) _ k x
      ∙ get_or-append_left (take blocks (drop start buffer)) _ k x middle
      ∙ get_or-take blocks (drop start buffer) k x l
      ∙ get_or-drop start buffer k x

  pub memmove_above :
      (buffer : List A) (place start blocks k : ℕ)
      → place + blocks ≤ length buffer
      → start + blocks ≤ length buffer
      → place + blocks ≤ k
      → get_or (memmove buffer place buffer start blocks) k x ≡ get_or buffer k x
  unfolding memmove
  memmove_above buffer place start blocks k h s l =
      let front = length-take place buffer in
      let middle = length-take blocks (drop start buffer) in
      let behind = length-drop start buffer in
      let n = k - (place + blocks) in
      let e : k ≡ length (take place buffer) + (length (take blocks (drop start buffer)) + n) =
        omega (arith, front, middle, behind) in
      let back : place + blocks + n ≡ k = omega arith in
      ap (λ (m : ℕ). get_or (memmove buffer place buffer start blocks) m x) e
      ∙ get_or-append_right (take place buffer) _ (length (take blocks (drop start buffer)) + n) x
      ∙ get_or-append_right (take blocks (drop start buffer)) _ n x
      ∙ get_or-drop (place + blocks) buffer n x
      ∙ ap (λ (m : ℕ). get_or buffer m x) back

  pub length-memmove :
      (buffer : List A) (place start blocks : ℕ)
      → place + blocks ≤ length buffer
      → start + blocks ≤ length buffer
      → length (memmove buffer place buffer start blocks) ≡ length buffer
  unfolding memmove
  length-memmove buffer place start blocks h s = omega (
    arith,
    length-append (take place buffer)
        (take blocks (drop start buffer) ++ drop (place + blocks) buffer),
    length-append (take blocks (drop start buffer)) (drop (place + blocks) buffer),
    length-take place buffer,
    length-take blocks (drop start buffer),
    length-drop start buffer,
    length-drop (place + blocks) buffer,
  )
