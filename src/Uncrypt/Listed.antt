-- ===== src/Uncrypt/Listed.antt =====
-- uncrypt/uncrypt.cpp: which blocks a vector of ranges names, and in which order.
use recovery.Base.{
  ℕ, suc, zero, ◌+◌, ◌-◌, ◌<◌, ◌==◌, ◌≡◌, refl, sym, ap, ◌∙◌, Bool, true, false, ◌++◌, List, [],
  ◌∷◌, if◌then◌else◌, arith, append-nil, append_assoc,
}
use recovery.Uncrypt.Ranges.{add_block_to_ranges}

-- `count` blocks from `start` on.
unfoldable pub blocks_from : ℕ → ℕ → List ℕ
blocks_from start zero = []
blocks_from start (suc count) = start ∷ blocks_from (start + 1) count

-- The blocks of all ranges, in their order.
unfoldable pub listed : List ℕ → List ℕ
listed [] = []
listed (start ∷ []) = []
listed (start ∷ end ∷ ranges) = blocks_from start (end - start) ++ listed ranges

-- Pairs of a start and an end behind it.
pub data Paired : List ℕ → Type 0 where
  no_range : Paired []
  range :
      {start end : ℕ} {ranges : List ℕ}
      → start < end
      → Paired ranges
      → Paired (start ∷ end ∷ ranges)

blocks_from-last :
    (start count : ℕ)
    → blocks_from start (suc count) ≡ blocks_from start count ++ (start + count) ∷ []
unfolding blocks_from
blocks_from-last start zero = ap (λ (n : ℕ). n ∷ []) (let e : start ≡ start + 0 = omega arith in e)
blocks_from-last start (suc count) =
    ap (λ (t : List ℕ). start ∷ t)
      (blocks_from-last (start + 1) count
        ∙ ap (λ (n : ℕ). blocks_from (start + 1) count ++ n ∷ [])
            (let e : start + 1 + count ≡ start + suc count = omega arith in e))

one_block : (b : ℕ) → blocks_from b (b + 1 - b) ≡ b ∷ []
unfolding blocks_from
one_block b = ap (blocks_from b) (let e : b + 1 - b ≡ suc zero = omega arith in e)

-- A range that is made longer by its next block.
extended :
    (start end : ℕ)
    → start < end
    → blocks_from start (end + 1 - start) ≡ blocks_from start (end - start) ++ end ∷ []
extended start end h =
    ap (blocks_from start) (let e : end + 1 - start ≡ suc (end - start) = omega arith in e)
    ∙ blocks_from-last start (end - start)
    ∙ ap (λ (n : ℕ). blocks_from start (end - start) ++ n ∷ [])
        (let e : start + (end - start) ≡ end = omega arith in e)

-- One block more, at the end.
abbrev pub Longer : List ℕ → ℕ → List ℕ → Type 0
Longer ranges b after = Paired after × (listed after ≡ listed ranges ++ b ∷ [])

last_range :
    (start end b : ℕ) (same : Bool)
    → start < end
    → (same ≡ true → b ≡ end)
    → Longer
        (start ∷ end ∷ [])
        b
        (start ∷ (if same then (end + 1) ∷ [] else end ∷ b ∷ (b + 1) ∷ []))
unfolding listed
last_range start end b true h k = (
  range (omega arith) no_range,
  append-nil (blocks_from start (end + 1 - start))
      ∙ extended start end h
      ∙ ap (λ (n : ℕ). blocks_from start (end - start) ++ n ∷ []) (sym (k refl))
      ∙ ap (λ (t : List ℕ). t ++ b ∷ []) (sym (append-nil (blocks_from start (end - start)))),
)
last_range start end b false h k = (
  range h (range (omega arith) no_range),
  ap (λ (t : List ℕ). blocks_from start (end - start) ++ t)
        (append-nil (blocks_from b (b + 1 - b)) ∙ one_block b)
      ∙ ap (λ (t : List ℕ). t ++ b ∷ []) (sym (append-nil (blocks_from start (end - start)))),
)

pub add_block_to_ranges-Longer :
    (ranges : List ℕ) (b : ℕ) → Paired ranges → Longer ranges b (add_block_to_ranges ranges b)
unfolding add_block_to_ranges listed
add_block_to_ranges-Longer _ b no_range =
    (range (omega arith) no_range, append-nil (blocks_from b (b + 1 - b)) ∙ one_block b)
add_block_to_ranges-Longer _ b (range {start} {end} h no_range) =
    last_range start end b (b == end) h (λ e. ground arith)
add_block_to_ranges-Longer _ b (range {start} {end} h (range {start = s} {end = e} {ranges} k r)) =
    let next = add_block_to_ranges-Longer (s ∷ e ∷ ranges) b (range k r) in
    (
      range h next.0,
      ap (λ (t : List ℕ). blocks_from start (end - start) ++ t) next.1
          ∙ sym (append_assoc (blocks_from start (end - start)) (listed (s ∷ e ∷ ranges)) (b ∷ [])),
    )
