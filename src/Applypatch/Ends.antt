-- ===== src/Applypatch/Ends.antt =====
-- applypatch/bspatch.cpp: the loop ends, and what it accepts has the size that the header gives.
use recovery.Base.{
  ℕ, suc, zero, ◌+◌, ◌-◌, ◌%◌, ◌^◌, ◌≤◌, ◌<◌, ◌≡◌, refl, ap, ltb, leb, Bool, true, false, not, ◌||◌,
  ◌++◌, List, [], ◌∷◌, length, take, drop, replicate, length-append, length-take, length-drop,
  length-replicate, if◌then◌else◌, arith, leb→le, ltb-false, text_eq, codes,
}
use recovery.Base.Int.{ℤ, pos, pos_part, ◌+ℤ◌}
use recovery.Applypatch.Bspatch.{
  Patched, patched, corrupt, faulty, hanging, Bzip2, Stalls, stalls_in, short, offtin, can_fill,
  filled, add_old, is_negative, limit, patch_loop, apply_bsdiff_patch_mem,
}

-- The application came to an end, with a new file of the size if it succeeded, or it hangs and a stream
-- stalls.
pub data Ends (size : ℕ) (stalls : Bool) : Patched → Type 0 where
  of_size : {new_data : List ℕ} → length new_data ≡ size → Ends size stalls (patched new_data)
  refused : Ends size stalls corrupt
  undefined : Ends size stalls faulty
  hung : stalls ≡ true → Ends size stalls hanging

abbrev pub any_stalls : Stalls → Bool
any_stalls stalls = stalls.control || stalls.diff || stalls.extra

branch :
    {size : ℕ} {stalls : Bool} {a b : Patched} (c : Bool)
    → (c ≡ true → Ends size stalls a)
    → (c ≡ false → Ends size stalls b)
    → Ends size stalls (if c then a else b)
branch true h k = h refl
branch false h k = k refl

short-Ends :
    {size : ℕ} {stalls : Bool} (b : Bool) → (b ≡ true → stalls ≡ true) → Ends size stalls (short b)
short-Ends true h = hung (h refl)
short-Ends false h = refused

-- One of the three stalls.
or_first : (a b c : Bool) → a ≡ true → a || b || c ≡ true
or_first true b c h = refl
or_first false b c h = cc

or_second : (a b c : Bool) → b ≡ true → a || b || c ≡ true
or_second true b c h = refl
or_second false true c h = refl
or_second false false c h = cc

or_third : (a b c : Bool) → c ≡ true → a || b || c ≡ true
or_third true b c h = refl
or_third false true c h = refl
or_third false false c h = h

length-add_old :
    (old_data : List ℕ) (oldpos : ℤ) (diff : List ℕ)
    → length (add_old old_data oldpos diff) ≡ length diff
unfolding add_old
length-add_old old_data oldpos [] = refl
length-add_old old_data oldpos (b ∷ diff) = ap suc (length-add_old old_data (oldpos +ℤ pos 1) diff)

length-filled :
    (size : ℕ) (stream : List ℕ) → can_fill size stream ≡ true → length (filled size stream) ≡ size
unfolding can_fill filled
length-filled size stream h =
    let some_left : size % 2 ^ 32 ≤ length stream = leb→le (size % 2 ^ 32) (length stream) h in
    omega (
      arith,
      some_left,
      length-append (take (size % 2 ^ 32) stream) (replicate (size - size % 2 ^ 32) 0),
      length-take (size % 2 ^ 32) stream,
      length-replicate {A = ℕ} (size - size % 2 ^ 32) 0,
    )

opposite : (b : Bool) → not b ≡ false → b ≡ true
opposite true h = refl
opposite false h = cc

-- Each round takes 24 bytes of the control stream.
patch_loop-Ends :
    (stalls : Stalls) (fuel new_size : ℕ) (old_data c d e : List ℕ) (oldpos : ℤ) (done : List ℕ)
    → length c < fuel
    → length done ≤ new_size
    → Ends new_size (any_stalls stalls) (patch_loop stalls fuel new_size old_data c d e oldpos done)
unfolding patch_loop
patch_loop-Ends stalls zero new_size old_data c d e oldpos done h k = absurd (omega arith)
patch_loop-Ends stalls (suc fuel) new_size old_data c d e oldpos done h k =
    let add = pos_part (offtin c) in
    let copy = pos_part (offtin (drop 8 c)) in
    branch (leb new_size (length done))
      (λ full. of_size (omega (arith, leb→le new_size (length done) full)))
      (λ _.
        branch (not (can_fill 24 c))
          (λ _. short-Ends stalls.control (or_first stalls.control stalls.diff stalls.extra))
          (λ control.
            branch (is_negative (offtin c) || is_negative (offtin (drop 8 c))) (λ _. refused)
              (λ _.
                branch (leb limit (length done + add)) (λ _. undefined)
                  (λ _.
                    branch (ltb new_size (length done + add)) (λ _. refused)
                      (λ _.
                        branch (not (can_fill add d))
                          (λ _.
                            short-Ends stalls.diff
                              (or_second stalls.control stalls.diff stalls.extra))
                          (λ diff.
                            branch (leb (2 ^ 31) add) (λ _. undefined)
                              (λ _.
                                branch (leb limit (length done + add + copy)) (λ _. undefined)
                                  (λ _.
                                    branch (ltb new_size (length done + add + copy)) (λ _. refused)
                                      (λ fits.
                                        branch (not (can_fill copy e))
                                          (λ _.
                                            short-Ends stalls.extra
                                              (or_third stalls.control stalls.diff stalls.extra))
                                          (λ extra.
                                            patch_loop-Ends stalls fuel new_size old_data
                                              (drop 24 c) (drop (add % 2 ^ 32) d)
                                              (drop (copy % 2 ^ 32) e) _ _ (shorter control)
                                              (longer add copy
                                                (ltb-false new_size (length done + add + copy) fits)
                                                (opposite (can_fill add d) diff)
                                                (opposite (can_fill copy e) extra))))))))))))
  where
    shorter : not (can_fill 24 c) ≡ false → length (drop 24 c) < fuel
    shorter control = omega (
      arith,
      length-drop 24 c,
      h,
      leb→le 24 (length c) (unfold can_fill in opposite (can_fill 24 c) control),
    )

    longer :
        (add copy : ℕ)
        → length done + add + copy ≤ new_size
        → can_fill add d ≡ true
        → can_fill copy e ≡ true
        → length (done ++ (add_old old_data oldpos (filled add d) ++ filled copy e)) ≤ new_size
    longer add copy fits diff extra = omega (
      arith,
      fits,
      length-append done (add_old old_data oldpos (filled add d) ++ filled copy e),
      length-append (add_old old_data oldpos (filled add d)) (filled copy e),
      length-add_old old_data oldpos (filled add d),
      length-filled add d diff,
      length-filled copy e extra,
    )

from_start :
    (stalls : Stalls) (new_size : ℕ) (old_data c d e : List ℕ)
    → Ends new_size
        (any_stalls stalls)
        (patch_loop stalls (suc (length c)) new_size old_data c d e (pos 0) [])
from_start stalls new_size old_data c d e =
    patch_loop-Ends stalls (suc (length c)) new_size old_data c d e (pos 0) [] (omega arith)
      (omega arith)

module _ (bzip2 : Bzip2) where
  -- Applying a patch, whatever its bytes are, ends: with a new file of exactly the size that the header
  -- gives, with an error or with undefined behaviour; or it hangs, and then one of the three packed
  -- streams of the patch stalls. The number of rounds allowed, one more than the unpacked control bytes,
  -- is enough.
  pub apply_bsdiff_patch_mem-Ends :
      (old_data data_read : List ℕ) (patch_offset : ℕ)
      → Ends
          (pos_part (offtin (drop 24 (drop patch_offset data_read))))
          (any_stalls (
            stalls_in bzip2
              (pos_part (offtin (drop 8 (drop patch_offset data_read))))
              (pos_part (offtin (drop 16 (drop patch_offset data_read))))
              (drop 32 (drop patch_offset data_read))))
          (apply_bsdiff_patch_mem bzip2 old_data data_read patch_offset)
  unfolding apply_bsdiff_patch_mem
  apply_bsdiff_patch_mem-Ends old_data data_read patch_offset =
      let header = drop patch_offset data_read in
      let ctrl_len = offtin (drop 8 header) in
      let data_len = offtin (drop 16 header) in
      branch (ltb (length header) 8) (λ _. undefined)
        (λ _.
          branch (not (text_eq (take 8 header) (codes "BSDIFF40"))) (λ _. refused)
            (λ _.
              branch (ltb (length header) 32) (λ _. undefined)
                (λ _.
                  branch
                    (is_negative ctrl_len
                      || is_negative data_len
                      || is_negative (offtin (drop 24 header)))
                    (λ _. refused)
                    (λ _.
                      branch (ltb (length (drop 32 header)) (pos_part ctrl_len + pos_part data_len))
                        (λ _. undefined) (λ _. from_start _ _ old_data _ _ _)))))
