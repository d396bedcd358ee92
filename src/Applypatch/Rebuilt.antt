-- ===== src/Applypatch/Rebuilt.antt =====
-- applypatch/bspatch.cpp: a patch that was made of two files gives the second from the first.
use recovery.Base.{
  ℕ, suc, zero, ◌+◌, ◌-◌, ◌%◌, ◌^◌, ◌<◌, ◌≡◌, refl, sym, ap, ◌∙◌, leb, true, ◌++◌, List, [], ◌∷◌,
  length, take, drop, length-append, arith, leb→le, Bool-cases, inl, inr, take-append_of_eq,
  drop-append_of_eq, append-nil, append_assoc,
}
use recovery.Base.Int.{ℤ, pos, ◌+ℤ◌}
use recovery.Applypatch.Bspatch.{patched, offtin, add_old, old_byte, Stalls, patch_loop}
use recovery.Applypatch.Control.{
  offtout, InLimit, offtin-offtout, round-eq, triple, drop_one, drop_two, drop_three, length-triple,
}

-- A piece of the new file: bytes that are stored by their difference to the old file's, bytes that are
-- stored as they are, and how far to move on in the old file.
pub record Section : Type 0 where
  pub part : List ℕ
  pub extra : List ℕ
  pub seek : ℤ

abbrev pub new_file : List Section → List ℕ
new_file [] = []
new_file (s ∷ sections) = s.part ++ (s.extra ++ new_file sections)

-- The three streams of the sections.
abbrev pub control_of : List Section → List ℕ
control_of [] = []
control_of (s ∷ sections) =
    offtout (pos (length s.part))
    ++ (offtout (pos (length s.extra)) ++ (offtout s.seek ++ control_of sections))

unfoldable pub subtract_old : List ℕ → ℤ → List ℕ → List ℕ
subtract_old old_data oldpos [] = []
subtract_old old_data oldpos (b ∷ part) =
    (b + 256 - old_byte old_data oldpos % 256) % 256 ∷ subtract_old old_data (oldpos +ℤ pos 1) part

abbrev pub diff_of : List ℕ → ℤ → List Section → List ℕ
diff_of old_data oldpos [] = []
diff_of old_data oldpos (s ∷ sections) =
    subtract_old old_data oldpos s.part
    ++ diff_of old_data ((oldpos +ℤ pos (length s.part)) +ℤ s.seek) sections

abbrev pub extra_of : List Section → List ℕ
extra_of [] = []
extra_of (s ∷ sections) = s.extra ++ extra_of sections

abbrev pub AreBytes : List ℕ → Type 0
AreBytes [] = Unit
AreBytes (b ∷ bytes) = (b < 256) × AreBytes bytes

abbrev pub Encodable : List Section → Type 0
Encodable [] = Unit
Encodable (s ∷ sections) = AreBytes s.part × InLimit s.seek × Encodable sections

length-subtract_old :
    (old_data : List ℕ) (oldpos : ℤ) (part : List ℕ)
    → length (subtract_old old_data oldpos part) ≡ length part
unfolding subtract_old
length-subtract_old old_data oldpos [] = refl
length-subtract_old old_data oldpos (b ∷ part) =
    ap suc (length-subtract_old old_data (oldpos +ℤ pos 1) part)

add_old-subtract_old :
    (old_data : List ℕ) (oldpos : ℤ) (part : List ℕ)
    → AreBytes part
    → add_old old_data oldpos (subtract_old old_data oldpos part) ≡ part
unfolding add_old subtract_old
add_old-subtract_old old_data oldpos [] h = refl
add_old-subtract_old old_data oldpos (b ∷ part) h =
    let back : ((b + 256 - old_byte old_data oldpos % 256) % 256 + old_byte old_data oldpos) % 256
        ≡ b =
      omega (arith, h.0) in
    rw (back, add_old-subtract_old old_data (oldpos +ℤ pos 1) part h.1) refl

nil_of_length : (xs : List ℕ) → length xs ≡ 0 → xs ≡ []
nil_of_length [] h = refl
nil_of_length (x ∷ xs) h = absurd (omega arith)

patch_loop_full :
    (stalls : Stalls) (fuel new_size : ℕ) (old_data c d e : List ℕ) (oldpos : ℤ) (done : List ℕ)
    → leb new_size (length done) ≡ true
    → patch_loop stalls (suc fuel) new_size old_data c d e oldpos done ≡ patched done
unfolding patch_loop
patch_loop_full stalls fuel new_size old_data c d e oldpos done full = rw full refl

-- Where nothing is left to write, the loop ends at once.
patch_loop-nothing_left :
    (stalls : Stalls) (fuel new_size : ℕ) (old_data c d e : List ℕ) (oldpos : ℤ)
    (done left : List ℕ)
    → leb new_size (length done) ≡ true
    → new_size ≡ length done + length left
    → patch_loop stalls (suc fuel) new_size old_data c d e oldpos done ≡ patched (done ++ left)
patch_loop-nothing_left stalls fuel new_size old_data c d e oldpos done left full sum =
    let none_left : left ≡ [] =
      nil_of_length left (omega (arith, leb→le new_size (length done) full)) in
    patch_loop_full stalls fuel new_size old_data c d e oldpos done full
    ∙ ap patched (sym (ap (λ (l : List ℕ). done ++ l) none_left ∙ append-nil done))

module _ (stalls : Stalls) (old_data : List ℕ) where
  abbrev behind : Section → ℤ → ℤ
  behind s oldpos = (oldpos +ℤ pos (length s.part)) +ℤ s.seek

  -- One section from the streams to the new file.
  section-round :
      (s : Section) (sections : List Section) (fuel new_size : ℕ) (oldpos : ℤ) (done : List ℕ)
      → AreBytes s.part
      → InLimit s.seek
      → new_size < 2 ^ 31
      → new_size ≡ length done + length (new_file (s ∷ sections))
      → length done < new_size
      → patch_loop stalls
          (suc fuel)
          new_size
          old_data
          (control_of (s ∷ sections))
          (diff_of old_data oldpos (s ∷ sections))
          (extra_of (s ∷ sections))
          oldpos
          done
        ≡ patch_loop stalls fuel new_size old_data
            (control_of sections)
            (diff_of old_data (behind s oldpos) sections)
            (extra_of sections)
            (behind s oldpos)
            (done ++ (s.part ++ s.extra))
  section-round s sections fuel new_size oldpos done h z small e more =
      let a = pos (length s.part) in
      let b = pos (length s.extra) in
      let k = control_of sections in
      let d = diff_of old_data (behind s oldpos) sections in
      let stored = subtract_old old_data oldpos s.part in
      let n = length-subtract_old old_data oldpos s.part in
      let total : new_size
          ≡ length done + (length s.part + (length s.extra + length (new_file sections))) =
        omega (
          arith,
          e,
          length-append s.part (s.extra ++ new_file sections),
          length-append s.extra (new_file sections),
        ) in
      let read_a : offtin (triple a b s.seek k) ≡ a = offtin-offtout a _ (omega arith) in
      let read_b : offtin (drop 8 (triple a b s.seek k)) ≡ b =
        ap offtin (drop_one a b s.seek k) ∙ offtin-offtout b _ (omega arith) in
      let read_z : offtin (drop 16 (triple a b s.seek k)) ≡ s.seek =
        ap offtin (drop_two a b s.seek k) ∙ offtin-offtout s.seek _ z in
      let taken : add_old old_data oldpos (take (length s.part) (stored ++ d)) ≡ s.part =
        ap (add_old old_data oldpos) (take-append_of_eq (length s.part) stored d n)
        ∙ add_old-subtract_old old_data oldpos s.part h in
      round-eq stalls fuel new_size old_data (triple a b s.seek k) (stored ++ d)
        (s.extra ++ extra_of sections) oldpos done (length s.part) (length s.extra) read_a read_b
        (length-triple a b s.seek k) more (omega arith) small
        (omega (arith, length-append stored d, n))
        (omega (arith, length-append s.extra (extra_of sections)))
      ∙ rw
          (
            drop_three a b s.seek k,
            read_z,
            drop-append_of_eq (length s.part) stored d n,
            drop-append_of_eq (length s.extra) s.extra (extra_of sections) refl,
            taken,
            take-append_of_eq (length s.extra) s.extra (extra_of sections) refl,
          )
          refl

  pub patch_loop-sections :
      (sections : List Section) (fuel new_size : ℕ) (oldpos : ℤ) (done : List ℕ)
      → Encodable sections
      → new_size < 2 ^ 31
      → new_size ≡ length done + length (new_file sections)
      → length sections < fuel
      → patch_loop stalls fuel new_size old_data
          (control_of sections)
          (diff_of old_data oldpos sections)
          (extra_of sections)
          oldpos
          done
        ≡ patched (done ++ new_file sections)
  patch_loop-sections sections zero new_size oldpos done h small e l = absurd (omega arith)
  patch_loop-sections [] (suc fuel) new_size oldpos done h small e l =
      patch_loop-nothing_left stalls fuel new_size old_data [] [] [] oldpos done [] (ground arith) e
  patch_loop-sections (s ∷ sections) (suc fuel) new_size oldpos done h small e l =
      elim (Bool-cases (leb new_size (length done))) [
        | inl full ↦
            patch_loop-nothing_left stalls fuel new_size old_data _ _ _ oldpos done
              (new_file (s ∷ sections)) full e
        | inr more ↦
            section-round s sections fuel new_size oldpos done h.0 h.1 small e (ground arith)
            ∙ patch_loop-sections sections fuel new_size (behind s oldpos)
                (done ++ (s.part ++ s.extra)) h.2 small sum (omega arith)
            ∙ ap patched (
                append_assoc done (s.part ++ s.extra) (new_file sections)
                ∙ ap (λ (t : List ℕ). done ++ t) (append_assoc s.part s.extra (new_file sections)))
      ]
    where
      sum : new_size ≡ length (done ++ (s.part ++ s.extra)) + length (new_file sections)
      sum = omega (
        arith,
        e,
        length-append s.part (s.extra ++ new_file sections),
        length-append s.extra (new_file sections),
        length-append done (s.part ++ s.extra),
        length-append s.part s.extra,
      )
