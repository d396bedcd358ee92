-- ===== src/Applypatch/Control.antt =====
-- applypatch/bspatch.cpp: the numbers of the control stream, and one round of the loop.
use recovery.Base.{
  ℕ, suc, ◌+◌, ◌-◌, ◌/◌, ◌%◌, ◌^◌, ◌≤◌, ◌<◌, ◌≡◌, refl, sym, ap, ◌∙◌, ◌==◌, ltb, leb, true, false,
  ◌++◌, List, length, take, drop, length-append, arith, drop-append_of_eq, append-nil, drop-drop,
}
use recovery.Base.Int.{ℤ, pos, negsuc, ◌+ℤ◌}
use recovery.Applypatch.Utils.{byte, write8}
use recovery.Applypatch.Bspatch.{
  offtin, magnitude, negate, can_fill, filled, add_old, limit, Stalls, patch_loop,
}

-- The sign and magnitude of the patch format, in eight bytes.
abbrev pub offtout : ℤ → List ℕ
offtout (pos n) = write8 n
offtout (negsuc n) = write8 (2 ^ 63 + suc n)

abbrev pub InLimit : ℤ → Type 0
InLimit (pos n) = n < limit
InLimit (negsuc n) = suc n < limit

magnitude-write8 : (n : ℕ) (rest : List ℕ) → n < 2 ^ 64 → magnitude (write8 n ++ rest) ≡ n % 2 ^ 63
unfolding magnitude write8
magnitude-write8 n rest h = omega arith

top-write8 : (n : ℕ) (rest : List ℕ) → byte (write8 n ++ rest) 7 ≡ n / 2 ^ 56 % 2 ^ 8
unfolding write8
top-write8 n rest = refl

pub offtin-offtout : (z : ℤ) (rest : List ℕ) → InLimit z → offtin (offtout z ++ rest) ≡ z
unfolding offtin
offtin-offtout (pos n) rest h =
    let plus : (n / 2 ^ 56 % 2 ^ 8 / 128 % 2 == 1) ≡ false = ground arith in
    let same : n % 2 ^ 63 ≡ n = omega arith in
    rw (top-write8 n rest) (rw plus (ap pos (magnitude-write8 n rest (omega arith) ∙ same)))
offtin-offtout (negsuc n) rest h =
    let minus : ((2 ^ 63 + suc n) / 2 ^ 56 % 2 ^ 8 / 128 % 2 == 1) ≡ true = ground arith in
    let same : (2 ^ 63 + suc n) % 2 ^ 63 ≡ suc n = omega arith in
    rw (top-write8 (2 ^ 63 + suc n) rest)
      (rw minus (ap negate (magnitude-write8 (2 ^ 63 + suc n) rest (omega arith) ∙ same)))

-- A round with what it reads.
pub round-eq :
    (stalls : Stalls) (fuel new_size : ℕ) (old_data c d e : List ℕ) (oldpos : ℤ) (done : List ℕ)
    (add copy : ℕ)
    → offtin c ≡ pos add
    → offtin (drop 8 c) ≡ pos copy
    → 24 ≤ length c
    → length done < new_size
    → length done + add + copy ≤ new_size
    → new_size < 2 ^ 31
    → add ≤ length d
    → copy ≤ length e
    → patch_loop stalls (suc fuel) new_size old_data c d e oldpos done
      ≡ patch_loop stalls fuel new_size old_data
          (drop 24 c)
          (drop add d)
          (drop copy e)
          ((oldpos +ℤ pos add) +ℤ offtin (drop 16 c))
          (done ++ (add_old old_data oldpos (take add d) ++ take copy e))
unfolding patch_loop can_fill filled
round-eq stalls fuel new_size old_data c d e oldpos done add copy e1 e2 l more fits small ld le =
    let g1 : leb new_size (length done) ≡ false = ground arith in
    let g2 : leb 24 (length c) ≡ true = ground arith in
    let g3 : leb limit (length done + add) ≡ false = ground arith in
    let g4 : ltb new_size (length done + add) ≡ false = ground arith in
    let m1 : add % 2 ^ 32 ≡ add = omega arith in
    let m2 : copy % 2 ^ 32 ≡ copy = omega arith in
    let g5 : leb add (length d) ≡ true = ground arith in
    let g6 : leb (2 ^ 31) add ≡ false = ground arith in
    let g7 : leb limit (length done + add + copy) ≡ false = ground arith in
    let g8 : ltb new_size (length done + add + copy) ≡ false = ground arith in
    let g9 : leb copy (length e) ≡ true = ground arith in
    let z1 : add - add ≡ 0 = omega arith in
    let z2 : copy - copy ≡ 0 = omega arith in
    rw (e1, e2, m1, m2, z1, z2, g1, g2, g3, g4, g5, g6, g7, g8, g9)
      (rw (append-nil (take add d), append-nil (take copy e)) refl)

length-write8 : (n : ℕ) → length (write8 n) ≡ 8
unfolding write8
length-write8 n = refl

pub length-offtout : (z : ℤ) → length (offtout z) ≡ 8
length-offtout (pos n) = length-write8 n
length-offtout (negsuc n) = length-write8 (2 ^ 63 + suc n)

-- Three numbers at the front of a control stream.
module _ (a b z : ℤ) (rest : List ℕ) where
  abbrev pub triple : List ℕ
  triple = offtout a ++ (offtout b ++ (offtout z ++ rest))

  pub drop_one : drop 8 triple ≡ offtout b ++ (offtout z ++ rest)
  drop_one = drop-append_of_eq 8 (offtout a) _ (length-offtout a)

  pub drop_two : drop 16 triple ≡ offtout z ++ rest
  drop_two =
      sym (drop-drop 8 8 triple)
      ∙ ap (drop 8) drop_one
      ∙ drop-append_of_eq 8 (offtout b) _ (length-offtout b)

  pub drop_three : drop 24 triple ≡ rest
  drop_three =
      sym (drop-drop 16 8 triple)
      ∙ ap (drop 8) drop_two
      ∙ drop-append_of_eq 8 (offtout z) _ (length-offtout z)

  pub length-triple : 24 ≤ length triple
  length-triple = omega (
    arith,
    length-append (offtout a) (offtout b ++ (offtout z ++ rest)),
    length-append (offtout b) (offtout z ++ rest),
    length-append (offtout z) rest,
    length-offtout a,
    length-offtout b,
    length-offtout z,
  )
