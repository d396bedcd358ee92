-- ===== src/Blockimg/Written.antt =====
-- updater/blockimg.cpp: what a successful `WriteBlocks` leaves on the device, whether or not the blocks
-- are discarded first.
use recovery.Base.{
  ℕ, suc, zero, ◌+◌, ◌-◌, ◌*◌, ◌≤◌, ◌≡◌, refl, sym, ap, ◌∙◌, ◌⊎◌, inl, inr, [], ◌∷◌, length, take,
  drop, Text, arith, ltb-false, length-take, length-drop,
}
use recovery.Blockimg.Ranges.{RangeSet, start_of, block_size}
use recovery.Blockimg.Machine.{Env, Machine, failed}
use recovery.Blockimg.Transfer.{
  splice, discarded_bytes, discard, discard_blocks, check_lseek, range_size, write_range,
}
use recovery.Blockimg.Splice.{length-splice, splice-nil, take-drop-splice}
use recovery.Blockimg.Apart.{Separate, splice-Separate}
use recovery.Blockimg.Writes.{Placed, Put, write_all-Put}
use recovery.Blockimg.Keeps.{require-Keeps, stop-Keeps}
use recovery.Blockimg.Quiet.{fail_as-Quiet, system_call-Quiet}
use recovery.Blockimg.Triple.{
  Triple, then-Triple, get-Triple, fault-Triple, if-Triple, given-Triple, exact-Triple,
  weaken-Triple, modify-Triple, done-Triple, keeps-Triple,
}
use recovery.Blockimg.Reads.{segment, Holding, Holding-Quiet}

-- Nothing has changed but what stands in one place.
pub record Beside (bytes : Text) (place size : ℕ) (after : Text) : Type 0 where
  pub same_length : length after ≡ length bytes
  pub apart : (a n : ℕ) → Separate a n place size → take n (drop a after) ≡ take n (drop a bytes)

Beside-splice :
    (bytes : Text) (place size : ℕ) (part : Text)
    → length part ≤ size
    → (length part ≡ 0) ⊎ (place + length part ≤ length bytes)
    → Beside bytes place size (splice bytes place part)
Beside-splice bytes place size [] l r = record {
  same_length = ap length (splice-nil bytes place);
  apart = λ a n s. ap (λ (t : Text). take n (drop a t)) (splice-nil bytes place);
}
Beside-splice bytes place size (b ∷ part) l (inl e) = absurd (omega (arith, e))
Beside-splice bytes place size (b ∷ part) l (inr h) = record {
  same_length = length-splice bytes place (b ∷ part) h;
  apart = λ a n s. splice-Separate bytes place (b ∷ part) a n size h l s;
}

Beside-trans :
    (bytes middle after : Text) (place size : ℕ)
    → Beside bytes place size middle
    → Beside middle place size after
    → Beside bytes place size after
Beside-trans bytes middle after place size h k = record {
  same_length = k.same_length ∙ h.same_length;
  apart = λ a n s. k.apart a n s ∙ h.apart a n s;
}

length-discarded_bytes :
    (byte : ℕ → ℕ) (place : ℕ) (bytes : Text)
    → length (discarded_bytes byte place bytes) ≡ length bytes
unfolding discarded_bytes
length-discarded_bytes byte place [] = refl
length-discarded_bytes byte place (b ∷ bytes) =
    ap suc (length-discarded_bytes byte (place + 1) bytes)

-- The device may have changed in the place; the buffer has not.
abbrev pub Changed : Text → ℕ → ℕ → Text → Machine → Type 0
Changed bytes place size buffer m = Beside bytes place size m.device × (m.buffer ≡ buffer)

module _ (env : Env) where
  discarded-Beside :
      (place size : ℕ) (m : Machine)
      → Beside m.device place size (
          splice m.device place
            (discarded_bytes (env.discarded m.tick) place (take size (drop place m.device))))
  discarded-Beside place size m =
      Beside-splice m.device place size _ (omega (arith, l, length-take size (drop place m.device)))
        (room_of
          (length (discarded_bytes (env.discarded m.tick) place (take size (drop place m.device))))
          (omega (arith, l, length-take size (drop place m.device), length-drop place m.device)))
    where
      l :
          length (discarded_bytes (env.discarded m.tick) place (take size (drop place m.device)))
          ≡ length (take size (drop place m.device))
      l = length-discarded_bytes _ _ _

      room_of : (k : ℕ) → k ≤ length m.device - place → (k ≡ 0) ⊎ (place + k ≤ length m.device)
      room_of zero h = inl refl
      room_of (suc k) h = inr (omega arith)

  discard_blocks-Changed :
      (bytes : Text) (place size : ℕ) (buffer : Text)
      → Triple
          (Holding bytes buffer)
          (discard_blocks env place size)
          (λ _. Changed bytes place size buffer)
  unfolding discard_blocks discard
  discard_blocks-Changed bytes place size buffer = get-Triple (λ m h.
      weaken-Triple (Holding bytes buffer) (λ _. Changed bytes place size buffer)
        (λ s e. (ap (λ (t : Machine). t.device) e ∙ h.0, ap (λ (t : Machine). t.buffer) e ∙ h.1))
        (λ u s x. x)
        (if-Triple m.is_retry
          (λ e.
            then-Triple (Holding bytes buffer)
              (keeps-Triple (
                require-Keeps (system_call-Quiet (Holding-Quiet bytes buffer) env)
                  (stop-Keeps failed)))
              (modify-Triple _ (λ s i. (
                (let b = discarded-Beside place size s in
                    record {
                      same_length = b.same_length ∙ ap length i.0;
                      apart = λ a n k. b.apart a n k ∙ ap (λ (t : Text). take n (drop a t)) i.0;
                    }),
                i.1,
              ))))
          (λ e. done-Triple (λ s i. (
            record {
              same_length = ap length i.0;
              apart = λ a n k. ap (λ (t : Text). take n (drop a t)) i.0;
            },
            i.1,
          )))))

  -- One range is written from the place p of the buffer.
  abbrev pub WroteRange : RangeSet → ℕ → ℕ → Text → Text → Machine → Type 0
  WroteRange tgt i p bytes buffer m =
      Changed bytes (start_of tgt i * block_size) (range_size tgt i) buffer m
      × (segment m.device tgt i ≡ take (range_size tgt i) (drop p buffer))
      × (p + range_size tgt i ≤ length buffer)

  read_back :
      (bytes : Text) (place size : ℕ) (part : Text)
      → length part ≡ size
      → (length part ≡ 0) ⊎ (place + length part ≤ length bytes)
      → take size (drop place (splice bytes place part)) ≡ part
  read_back bytes place size [] l r =
      ap (λ (n : ℕ). take n (drop place (splice bytes place []))) (sym l)
  read_back bytes place size (b ∷ part) l (inl e) = absurd (omega (arith, e))
  read_back bytes place size (b ∷ part) l (inr h) =
      ap (λ (n : ℕ). take n (drop place (splice bytes place (b ∷ part)))) (sym l)
      ∙ take-drop-splice bytes place (b ∷ part) h

  pub write_range-Wrote :
      (tgt : RangeSet) (i p : ℕ) (bytes buffer : Text)
      → Triple
          (Holding bytes buffer)
          (write_range env tgt i p)
          (λ _. WroteRange tgt i p bytes buffer)
  unfolding write_range check_lseek segment
  write_range-Wrote tgt i p bytes buffer =
      then-Triple (Changed bytes place size buffer) (discard_blocks-Changed bytes place size buffer)
        (exact-Triple (λ s c.
          then-Triple (Placed s.device place buffer)
            (then-Triple (Holding s.device buffer)
              (weaken-Triple (Holding s.device buffer) (λ _. Holding s.device buffer)
                (λ t e. (ap (λ (u : Machine). u.device) e, ap (λ (u : Machine). u.buffer) e ∙ c.1))
                (λ u t x. x)
                (keeps-Triple (
                  require-Keeps (system_call-Quiet (Holding-Quiet s.device buffer) env)
                    (fail_as-Quiet (Holding-Quiet s.device buffer) env _))))
              (modify-Triple _ (λ t x. (x.0, refl, x.1))))
            (get-Triple (λ m h.
              then-Triple (λ t. Placed s.device place buffer t × (p + size ≤ length buffer))
                (if-Triple _ (λ e. fault-Triple)
                  (λ e. done-Triple (λ t x. (
                    (
                      ap (λ (u : Machine). u.device) x ∙ h.0,
                      ap (λ (u : Machine). u.offset) x ∙ h.1,
                      ap (λ (u : Machine). u.buffer) x ∙ h.2,
                    ),
                    omega (arith, ap length h.2, ltb-false _ _ e),
                  ))))
                (given-Triple (λ t f.
                  weaken-Triple (Placed s.device place buffer) _ (λ v x. x.0)
                    (λ u v x. wrote s c m.buffer h.2 f.1 v x)
                    (write_all-Put env buffer s.device place (take size (drop p m.buffer)))))))))
    where
      place : ℕ
      place = start_of tgt i * block_size

      size : ℕ
      size = range_size tgt i

      wrote :
          (s : Machine)
          → Changed bytes place size buffer s
          → (held : Text) → held ≡ buffer
          → p + size ≤ length buffer
          → (v : Machine) → Put s.device place buffer (take size (drop p held)) v
          → WroteRange tgt i p bytes buffer v
      wrote s c held e f v x = (
        (
          Beside-trans bytes s.device v.device place size c.0 (
              rw x.0.0 (
                Beside-splice s.device place size (take size (drop p held)) (omega (arith, full))
                  x.1)),
          x.0.2,
        ),
        ap (λ (t : Text). take size (drop place t)) x.0.0
            ∙ read_back s.device place size (take size (drop p held)) full x.1
            ∙ ap (λ (t : Text). take size (drop p t)) e,
        f,
      )
        where
          full : length (take size (drop p held)) ≡ size
          full = omega (arith, length-take size (drop p held), length-drop p held, ap length e)
