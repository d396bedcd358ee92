-- ===== src/Blockimg/Reads/Blocks.antt =====
-- updater/blockimg.cpp: what `ReadBlocks` puts into the buffer, and what the digest of it says.
use recovery.Base.{
  ℕ, suc, zero, ◌+◌, ◌-◌, ◌*◌, ◌≤◌, ◌≡◌, refl, sym, ap, ◌∙◌, true, ◌++◌, [], length, take,
  replicate, Text, arith, length-append, length-replicate, eq_of_text_eq, take-append_of_eq,
}
use recovery.PrintSha1.{print_sha1}
use recovery.Blockimg.Ranges.{RangeSet, block_size}
use recovery.Blockimg.Machine.{
  Env, Machine, Outcome, ok, failed, exited, fault, hung, M, with_own, with_buffer,
}
use recovery.Blockimg.Transfer.{
  splice, allocate, size_of, range_size, read_ranges, read_blocks, verify_blocks,
}
use recovery.Blockimg.Splice.{length-splice, splice-nil, splice-splice}
use recovery.Blockimg.Load.{verify_target}
use recovery.Blockimg.Triple.{
  Post, Triple, bind-Triple, then-Triple, get-Triple, pure-Triple, fault-Triple, if-Triple,
  given-Triple, weaken-Triple, modify-Triple, done-Triple,
}
use recovery.Blockimg.Reads.{segment, segments, blocks_of, Holding, AfterRange, read_range-After}

-- How many bytes `left` ranges have.
unfoldable pub total_size : RangeSet → ℕ → ℕ → ℕ
total_size rs i zero = 0
total_size rs i (suc left) = range_size rs i + total_size rs (i + 1) left

module _ (env : Env) (device : Text) where
  abbrev pub AfterRanges : RangeSet → ℕ → ℕ → ℕ → Text → Machine → Type 0
  AfterRanges src i left p buffer m =
      Holding device (splice buffer p (segments device src i left)) m
      × (length (segments device src i left) ≡ total_size src i left)
      × (p + total_size src i left ≤ length buffer)

  read_ranges-After :
      (src : RangeSet) (i left p : ℕ) (buffer : Text)
      → p ≤ length buffer
      → Triple
          (Holding device buffer)
          (read_ranges env src i left p)
          (λ _. AfterRanges src i left p buffer)
  unfolding read_ranges segments total_size
  read_ranges-After src i zero p buffer h =
      done-Triple (λ m x. ((x.0, x.1 ∙ sym (splice-nil buffer p)), refl, omega arith))
  read_ranges-After src i (suc left) p buffer h =
      then-Triple (AfterRange env device src i p buffer)
        (read_range-After env device src i p buffer)
        (given-Triple (λ m a.
          weaken-Triple (Holding device (splice buffer p seg)) _ (λ t x. x.0)
            (λ u t x. joined t a.1 a.2 x)
            (read_ranges-After src (i + 1) left (p + range_size src i) (splice buffer p seg)
              (omega (arith, length-splice buffer p seg, a.1, a.2)))))
    where
      seg : Text
      seg = segment device src i

      joined :
          (t : Machine)
          → length seg ≡ range_size src i
          → p + range_size src i ≤ length buffer
          → AfterRanges src (i + 1) left (p + range_size src i) (splice buffer p seg) t
          → Holding device (splice buffer p (seg ++ segments device src (i + 1) left)) t
            × (length (seg ++ segments device src (i + 1) left)
                ≡ range_size src i + total_size src (i + 1) left)
            × (p + (range_size src i + total_size src (i + 1) left) ≤ length buffer)
      joined t l f x = (
        (
          x.0.0,
          x.0.1
              ∙ ap
                  (λ (n : ℕ).
                    splice (splice buffer p seg) (p + n) (segments device src (i + 1) left))
                  (sym l)
              ∙ splice-splice buffer p seg (segments device src (i + 1) left) (omega (arith, l, f)),
        ),
        omega (arith, length-append seg (segments device src (i + 1) left), l, x.1),
        omega (arith, x.2, length-splice buffer p seg, l, f),
      )

  -- `ReadBlocks`: the front of the buffer is what the set names on the device.
  pub read_blocks-After :
      (src : RangeSet) (buffer : Text)
      → Triple
          (Holding device buffer)
          (read_blocks env src)
          (λ _. AfterRanges src 0 src.count 0 buffer)
  unfolding read_blocks
  read_blocks-After src buffer = read_ranges-After src 0 src.count 0 buffer (omega arith)

-- The set's size is the number of its blocks.
abbrev pub Counted : RangeSet → Type 0
Counted rs = total_size rs 0 rs.count ≡ rs.size * block_size

-- The digest of these bytes, as it is printed.
unfoldable pub hex_digest : Env → Text → Text
hex_digest env content = print_sha1 (env.sha1 content)

module _ (env : Env) (device : Text) where
  -- A digest that is found right is that of the front of the buffer.
  pub verify_blocks-Digest :
      (expected : Text) (blocks : ℕ) (buffer : Text)
      → Triple (Holding device buffer) (verify_blocks env expected blocks) (λ right m.
        Holding device buffer m
        × (right ≡ true → hex_digest env (take (size_of blocks) buffer) ≡ expected))
  unfolding verify_blocks hex_digest
  verify_blocks-Digest expected blocks buffer = get-Triple (λ m h.
      if-Triple _ (λ e. fault-Triple)
        (λ e. pure-Triple _ (λ s x. (
          (ap (λ (t : Machine). t.device) x ∙ h.0, ap (λ (t : Machine). t.buffer) x ∙ h.1),
          λ right.
              ap (λ (b : Text). print_sha1 (env.sha1 (take (size_of blocks) b))) (sym h.1)
              ∙ eq_of_text_eq _ _ right,
        ))))

-- The set fills a new buffer of its size.
whole :
    (tgt : RangeSet) (content : Text)
    → Counted tgt
    → length content ≡ total_size tgt 0 tgt.count
    → total_size tgt 0 tgt.count ≤ length (replicate {A = ℕ} (size_of tgt.size) 0)
    → take (size_of tgt.size) (splice (replicate (size_of tgt.size) 0) 0 content) ≡ content
unfolding splice
whole tgt content c l h =
    take-append_of_eq (size_of tgt.size) content _
      (omega (arith, c, l, h, length-replicate {A = ℕ} (size_of tgt.size) 0))

-- A call over a buffer of its own gives the old one back.
with_own-post :
    {A : Type 0} (Q : A → Type 0) (device buffer own : Text) (r : Outcome A × Machine)
    → own ≡ buffer
    → Post (λ a m. (m.device ≡ device) × Q a) r
    → Post (λ s m. Holding device buffer m × Q s.0) (with_own own r)
with_own-post Q device buffer own (ok a, m) e h = ((h.0, e), h.1)
with_own-post Q device buffer own (failed, m) e h = tt
with_own-post Q device buffer own (exited, m) e h = tt
with_own-post Q device buffer own (fault, m) e h = tt
with_own-post Q device buffer own (hung, m) e h = tt

pub with_buffer-Triple :
    {A : Type 0} (Q : A → Type 0) (device buffer other : Text) {f : M A}
    → Triple (Holding device other) f (λ a m. (m.device ≡ device) × Q a)
    → Triple (Holding device buffer) (with_buffer other f) (λ s m. Holding device buffer m × Q s.0)
unfolding with_buffer
with_buffer-Triple Q device buffer other h = record {
  holds = λ m i. with_own-post Q device buffer m.buffer _ i.1 (h.holds _ (i.0, refl));
}

module _ (env : Env) (device : Text) where
  allocate-Holding :
      (size : ℕ)
      → Triple (Holding device []) (allocate size) (λ _. Holding device (replicate size 0))
  unfolding allocate
  allocate-Holding size = modify-Triple _ (λ m i. (
    i.0,
    ap (λ (b : Text). b ++ replicate (size - length b) 0) i.1
        ∙ ap (λ (n : ℕ). replicate n 0) (let e : size - 0 ≡ size = omega arith in e),
  ))

  -- The target has the digest, if it is found right.
  pub verify_target-Digest :
      (tgthash buffer : Text) (tgt : RangeSet)
      → Counted tgt
      → Triple (Holding device buffer) (verify_target env tgthash tgt) (λ written m.
        Holding device buffer m
        × (written ≡ true → hex_digest env (blocks_of device tgt) ≡ tgthash))
  unfolding verify_target blocks_of
  verify_target-Digest tgthash buffer tgt c =
      bind-Triple
        (λ r m.
          Holding device buffer m × (r.0 ≡ true → hex_digest env (blocks_of device tgt) ≡ tgthash))
        (with_buffer-Triple
          (λ right. right ≡ true → hex_digest env (blocks_of device tgt) ≡ tgthash) device buffer []
          (then-Triple (AfterRanges env device tgt 0 tgt.count 0 fresh)
            (then-Triple (Holding device fresh) (allocate-Holding (size_of tgt.size))
              (read_blocks-After env device tgt fresh))
            (given-Triple (λ m a.
              weaken-Triple (Holding device (splice fresh 0 (blocks_of device tgt))) _ (λ t x. x.0)
                (λ right t x. (x.0.0, λ e. digest a.1 a.2 (x.1 e)))
                (verify_blocks-Digest env device tgthash tgt.size
                  (splice fresh 0 (blocks_of device tgt)))))))
        (λ r. pure-Triple _ (λ m x. x))
    where
      fresh : Text
      fresh = replicate (size_of tgt.size) 0

      digest :
          length (blocks_of device tgt) ≡ total_size tgt 0 tgt.count
          → 0 + total_size tgt 0 tgt.count ≤ length fresh
          → hex_digest env (take (size_of tgt.size) (splice fresh 0 (blocks_of device tgt)))
            ≡ tgthash
          → hex_digest env (blocks_of device tgt) ≡ tgthash
      digest l f e =
          ap (hex_digest env) (sym (whole tgt (blocks_of device tgt) c l (omega arith))) ∙ e
