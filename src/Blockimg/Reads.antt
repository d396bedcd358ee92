-- ===== src/Blockimg/Reads.antt =====
-- updater/blockimg.cpp: what a successful read puts into the buffer.
pub mod Blocks
use recovery.Base.{
  ℕ, suc, zero, ◌+◌, ◌-◌, ◌*◌, ◌%◌, ◌^◌, ◌≤◌, ◌<◌, ◌==◌, ◌≡◌, refl, sym, ap, ◌∙◌, ltb, leb, Bool,
  true, false, ◌++◌, List, [], ◌∷◌, length, take, drop, Text, Option, none, some, if◌then◌else◌,
  arith, length-append, length-take, length-drop, take-add, ltb-false, append_assoc,
}
use recovery.ErrorCode.{CauseCode}
use recovery.Blockimg.Ranges.{RangeSet, start_of, end_of, block_size}
use recovery.Blockimg.Machine.{
  Env, Machine, Outcome, ok, failed, fault, M, ◌>>=◌, ◌>>◌, pure, done, get, stop, modify, fail_as,
  system_call, or_fail, require,
}
use recovery.Blockimg.Transfer.{
  at_most, smaller, splice, received, read_call, read_loop, read_all, check_lseek, allocate,
  size_of, range_size, read_range, read_ranges, read_blocks, verify_blocks,
}
use recovery.Blockimg.Keeps.{require-Keeps}
use recovery.Blockimg.Quiet.{Quiet, fail_as-Quiet, system_call-Quiet}
use recovery.Blockimg.Triple.{
  Post, Triple, bind-Triple, then-Triple, get-Triple, pure-Triple, failed-Triple, fault-Triple,
  if-Triple, given-Triple, weaken-Triple, modify-Triple, done-Triple, keeps-Triple,
}

module _ {I : Machine → Type 0} (q : Quiet I) (env : Env) where
  -- A read tells how many bytes it got: one at least.
  abbrev Got : ℕ → ℕ → ℕ → Machine → Type 0
  Got left size n m = I m × (0 < n) × (n ≤ size) × (n ≤ left)

  got :
      (left size n : ℕ)
      → 0 < size
      → (smaller left (at_most size n) == 0) ≡ false
      → (0 < smaller left (at_most size n))
        × (smaller left (at_most size n) ≤ size)
        × (smaller left (at_most size n) ≤ left)
  got left size n h e = ground arith

  received-Got :
      (left size : ℕ) (answer : Option ℕ)
      → 0 < size
      → Triple I (received left size answer) (Got left size)
  unfolding fail_as
  received-Got left size none h = record { holds = λ m i. tt }
  received-Got left size (some n) h =
      if-Triple _ (λ e. record { holds = λ m i. tt })
        (λ e. let g = got left size n h e in pure-Triple _ (λ m i. (i, g.0, g.1, g.2)))

  read_call-Got : (left size : ℕ) → 0 < size → Triple I (read_call env left size) (Got left size)
  unfolding read_call
  read_call-Got left size h = record {
    holds = λ m i. (received-Got left size (env.read_result m.tick size) h).holds _ (q.ticks m _ i);
  }

  -- All bytes that were asked for.
  abbrev pub Read : Text → ℕ → Text → Machine → Type 0
  Read content size r m = I m × (r ≡ take size content) × (size ≤ length content)

  read_loop-Read :
      (fuel : ℕ) (content : Text) (size : ℕ)
      → size ≤ fuel
      → Triple I (read_loop env fuel content size) (Read content size)
  unfolding read_loop
  read_loop-Read zero content zero h = pure-Triple _ (λ m i. (i, refl, omega arith))
  read_loop-Read zero content (suc size) h = absurd (omega arith)
  read_loop-Read (suc fuel) content zero h = pure-Triple _ (λ m i. (i, refl, omega arith))
  read_loop-Read (suc fuel) content (suc size) h =
      bind-Triple (Got (length content) (suc size))
        (read_call-Got (length content) (suc size) (omega arith))
        (λ n. given-Triple (λ m g.
          bind-Triple (Read (drop n content) (suc size - n))
            (weaken-Triple I (Read (drop n content) (suc size - n)) (λ s i. i.0) (λ r s e. e)
              (read_loop-Read fuel (drop n content) (suc size - n) (omega arith)))
            (λ rest. pure-Triple _ (λ s r.
              (r.0, joined n rest g.2 r.1, omega (arith, length-drop n content, r.2, g.3))))))
    where
      joined :
          (n : ℕ) (rest : Text)
          → n ≤ suc size
          → rest ≡ take (suc size - n) (drop n content)
          → take n content ++ rest ≡ take (suc size) content
      joined n rest l e =
          ap (λ (t : Text). take n content ++ t) e
          ∙ sym (take-add n (suc size - n) content)
          ∙ ap (λ (k : ℕ). take k content)
              (let s : n + (suc size - n) ≡ suc size = omega arith in s)

  pub read_all-Read :
      (content : Text) (size : ℕ) → Triple I (read_all env content size) (Read content size)
  unfolding read_all
  read_all-Read content size = read_loop-Read size content size (omega arith)

-- The bytes of one range of a device, and of `left` ranges from the one with index i on.
unfoldable pub segment : Text → RangeSet → ℕ → Text
segment device rs i = take (range_size rs i) (drop (start_of rs i * block_size) device)

unfoldable pub segments : Text → RangeSet → ℕ → ℕ → Text
segments device rs i zero = []
segments device rs i (suc left) = segment device rs i ++ segments device rs (i + 1) left

-- What a range set names on a device.
unfoldable pub blocks_of : Text → RangeSet → Text
blocks_of device rs = segments device rs 0 rs.count

-- The device and the buffer hold these bytes.
abbrev pub Holding : Text → Text → Machine → Type 0
Holding device buffer m = (m.device ≡ device) × (m.buffer ≡ buffer)

pub Holding-Quiet : (device buffer : Text) → Quiet (Holding device buffer)
Holding-Quiet device buffer = record {
  ticks = λ m n i. i;
  causes = λ m c i. i;
  offsets = λ m n i. i;
  states = λ m s i. i;
  files = λ m f i. i;
  dirs = λ m d i. i;
}

module _ (env : Env) (device : Text) where
  -- After one range: the segment stands at the place p, and the buffer had room for it.
  abbrev pub AfterRange : RangeSet → ℕ → ℕ → Text → Machine → Type 0
  AfterRange src i p buffer m =
      Holding device (splice buffer p (segment device src i)) m
      × (length (segment device src i) ≡ range_size src i)
      × (p + range_size src i ≤ length buffer)

  pub read_range-After :
      (src : RangeSet) (i p : ℕ) (buffer : Text)
      → Triple (Holding device buffer) (read_range env src i p) (λ _. AfterRange src i p buffer)
  unfolding read_range check_lseek segment
  read_range-After src i p buffer =
      then-Triple (λ m. Holding device buffer m × (m.offset ≡ start_of src i * block_size))
        (then-Triple (Holding device buffer)
          (keeps-Triple (
            require-Keeps (system_call-Quiet (Holding-Quiet device buffer) env)
              (fail_as-Quiet (Holding-Quiet device buffer) env _)))
          (modify-Triple _ (λ m h. (h, refl))))
        (get-Triple (λ m h.
          then-Triple (λ s. Holding device buffer s × (p + range_size src i ≤ length buffer))
            (if-Triple _ (λ e. fault-Triple)
              (λ e. done-Triple (λ s x. (
                (
                  ap (λ (t : Machine). t.device) x ∙ h.0.0,
                  ap (λ (t : Machine). t.buffer) x ∙ h.0.1,
                ),
                fits m h.0.1 e,
              ))))
            (given-Triple (λ s f.
              bind-Triple
                (Read (Holding-Quiet device buffer) env (drop m.offset m.device) (range_size src i))
                (weaken-Triple (Holding device buffer) _ (λ t x. x.0) (λ r t x. x)
                  (read_all-Read (Holding-Quiet device buffer) env (drop m.offset m.device)
                    (range_size src i)))
                (λ r. modify-Triple _ (λ t x. after m t r h x f.1))))))
    where
      fits :
          (m : Machine)
          → m.buffer ≡ buffer
          → ltb (length m.buffer) (p + range_size src i) ≡ false
          → p + range_size src i ≤ length buffer
      fits m e l = omega (arith, ap length e, ltb-false _ _ l)

      after :
          (m t : Machine) (r : Text)
          → Holding device buffer m × (m.offset ≡ start_of src i * block_size)
          → Read (Holding-Quiet device buffer) env (drop m.offset m.device) (range_size src i) r t
          → p + range_size src i ≤ length buffer
          → AfterRange src i p buffer
              (record t { buffer = splice t.buffer p r; offset = t.offset + range_size src i })
      after m t r h x f =
          let same : drop m.offset m.device ≡ drop (start_of src i * block_size) device =
            ap (λ (k : ℕ). drop k m.device) h.1
            ∙ ap (λ (d : Text). drop (start_of src i * block_size) d) h.0.0 in
          let e : r ≡ segment device src i =
            x.1 ∙ ap (λ (d : Text). take (range_size src i) d) same in
          (
            (x.0.0, ap (λ (b : Text). splice b p r) x.0.1 ∙ ap (λ (b : Text). splice buffer p b) e),
            omega (
              arith,
              length-take (range_size src i) (drop (start_of src i * block_size) device),
              ap length same,
              x.2,
            ),
            f,
          )
