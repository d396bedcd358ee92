-- ===== src/Blockimg/Targets.antt =====
-- updater/blockimg.cpp: what a successful `WriteBlocks` leaves on the device, over all ranges of the target.
use recovery.Base.{
  ℕ, suc, zero, ◌+◌, ◌*◌, ◌≤◌, ◌<◌, ◌≡◌, ◌≢◌, refl, sym, ap, ◌∙◌, ◌++◌, length, take, drop, Text,
  arith, take-add, drop-drop,
}
use recovery.Blockimg.Ranges.{RangeSet, start_of, block_size}
use recovery.Blockimg.Machine.{Env, Machine, ok}
use recovery.Blockimg.Transfer.{range_size, write_ranges, write_blocks}
use recovery.Blockimg.Apart.{Separate}
use recovery.Blockimg.Written.{WroteRange, write_range-Wrote}
use recovery.Blockimg.Triple.{
  Triple, then-Triple, exact-Triple, weaken-Triple, done-Triple, run-Triple,
}
use recovery.Blockimg.Reads.{segment, segments, Holding}
use recovery.Blockimg.Reads.Blocks.{total_size}

-- No two ranges have a block in common.
pub record Disjoint (rs : RangeSet) : Type 0 where
  pub separate :
      (i j : ℕ)
      → i < rs.count
      → j < rs.count
      → i ≢ j
      → Separate
          (start_of rs i * block_size)
          (range_size rs i)
          (start_of rs j * block_size)
          (range_size rs j)

-- These bytes are in none of the ranges from the one with index i on.
abbrev Outside : RangeSet → ℕ → ℕ → ℕ → Type 0
Outside rs i a n =
    (j : ℕ) → i ≤ j → j < rs.count → Separate a n (start_of rs j * block_size) (range_size rs j)

-- The ranges from the one with index i on hold what the buffer has from p on; all else is as before.
pub record WroteRanges (tgt : RangeSet) (i left p : ℕ) (bytes buffer after : Text) : Type 0 where
  pub fits : p + total_size tgt i left ≤ length buffer
  pub same_length : length after ≡ length bytes
  pub contents : segments after tgt i left ≡ take (total_size tgt i left) (drop p buffer)
  pub elsewhere : (a n : ℕ) → Outside tgt i a n → take n (drop a after) ≡ take n (drop a bytes)

module _ (env : Env) (tgt : RangeSet) (disjoint : Disjoint tgt) where
  abbrev Wrote : ℕ → ℕ → ℕ → Text → Text → Machine → Type 0
  Wrote i left p bytes buffer m =
      WroteRanges tgt i left p bytes buffer m.device × (m.buffer ≡ buffer)

  one_more :
      (i left p : ℕ) (bytes buffer : Text) (s t : Machine)
      → i + suc left ≡ tgt.count
      → WroteRange env tgt i p bytes buffer s
      → Wrote (i + 1) left (p + range_size tgt i) s.device buffer t
      → Wrote i (suc left) p bytes buffer t
  unfolding total_size segments segment
  one_more i left p bytes buffer s t c w x = (
    record {
      fits = omega (arith, x.0.fits);
      same_length = x.0.same_length ∙ w.0.0.same_length;
      contents =
          ap (λ (u : Text). u ++ segments t.device tgt (i + 1) left) (kept ∙ w.1)
          ∙ ap (λ (u : Text). take (range_size tgt i) (drop p buffer) ++ u)
              (x.0.contents
                ∙ ap (λ (u : Text). take (total_size tgt (i + 1) left) u)
                    (sym (drop-drop p (range_size tgt i) buffer)))
          ∙ sym (take-add (range_size tgt i) (total_size tgt (i + 1) left) (drop p buffer));
      elsewhere = λ a n o.
          x.0.elsewhere a n (λ j l h. o j (omega arith) h)
          ∙ w.0.0.apart a n (o i (omega arith) (omega arith));
    },
    x.1,
  )
    where
      kept : segment t.device tgt i ≡ segment s.device tgt i
      kept =
          x.0.elsewhere (start_of tgt i * block_size) (range_size tgt i)
            (λ j l h. disjoint.separate i j (omega arith) h (λ e. absurd (omega (arith, e))))

  write_ranges-Wrote :
      (i left p : ℕ) (bytes buffer : Text)
      → i + left ≡ tgt.count
      → p ≤ length buffer
      → Triple
          (Holding bytes buffer)
          (write_ranges env tgt i left p)
          (λ _. Wrote i left p bytes buffer)
  unfolding write_ranges total_size segments
  write_ranges-Wrote i zero p bytes buffer c l = done-Triple (λ m h. (
    record {
      fits = omega arith;
      same_length = ap length h.0;
      contents = refl;
      elsewhere = λ a n o. ap (λ (t : Text). take n (drop a t)) h.0;
    },
    h.1,
  ))
  write_ranges-Wrote i (suc left) p bytes buffer c l =
      then-Triple (WroteRange env tgt i p bytes buffer) (write_range-Wrote env tgt i p bytes buffer)
        (exact-Triple (λ s w.
          weaken-Triple (Holding s.device buffer)
            (λ _. Wrote (i + 1) left (p + range_size tgt i) s.device buffer)
            (λ t e. (ap (λ (u : Machine). u.device) e, ap (λ (u : Machine). u.buffer) e ∙ w.0.1))
            (λ u t x. one_more i left p bytes buffer s t c w x)
            (write_ranges-Wrote (i + 1) left (p + range_size tgt i) s.device buffer (omega arith)
              w.2)))

  pub write_blocks-Wrote :
      (bytes buffer : Text)
      → Triple (Holding bytes buffer) (write_blocks env tgt) (λ _. Wrote 0 tgt.count 0 bytes buffer)
  unfolding write_blocks
  write_blocks-Wrote bytes buffer =
      write_ranges-Wrote 0 tgt.count 0 bytes buffer (omega arith) (omega arith)

  -- A write of blocks that succeeds, however the writes of the system are cut and whether or not
  -- the blocks are discarded first: the buffer was long enough, the ranges of the target, which have
  -- no block in common, hold the front of the buffer in their order, all else on the device is as
  -- before, and its length too.
  pub write_blocks-WroteRanges :
      (m m' : Machine)
      → write_blocks env tgt m ≡ (ok tt, m')
      → WroteRanges tgt 0 tgt.count 0 m.device m.buffer m'.device
  write_blocks-WroteRanges m m' e =
      (run-Triple (write_blocks env tgt) (λ _. Wrote 0 tgt.count 0 m.device m.buffer) m m' tt
        (write_blocks-Wrote m.device m.buffer) (refl, refl) e).0
