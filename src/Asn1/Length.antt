-- ===== src/Asn1/Length.antt =====
-- asn1_decoder.cpp: `decode_length` against the big-endian value of the length octets.
use recovery.Base.{
  ℕ, suc, zero, ◌+◌, ◌-◌, ◌*◌, ◌/◌, ◌%◌, ◌^◌, ◌≤◌, ◌<◌, ◌≡◌, ◌==◌, leb, true, false, List, [], ◌∷◌,
  ◌++◌, some, length, arith,
}
use native.Mathlib.Nat.{pow-suc}
use recovery.Asn1.Defs.{Context, get_byte, length_octets, decode_length, shift_in}

-- The number that octets stand for, behind a number that was read before.
abbrev pub be_value : ℕ → List ℕ → ℕ
be_value acc [] = acc
be_value acc (b ∷ bs) = be_value (acc * 256 + b) bs

abbrev pub AreBytes : List ℕ → Type 0
AreBytes [] = Unit
AreBytes (b ∷ bs) = (b < 256) × AreBytes bs

step_bound :
    (acc b p : ℕ) → b < 256 → (acc + 1) * (p * 256) ≤ 2 ^ 64 → (acc * 256 + b + 1) * p ≤ 2 ^ 64
step_bound acc b p h k = grind arith

below : (acc p : ℕ) → 0 < p → (acc + 1) * p ≤ 2 ^ 64 → acc < 2 ^ 64
below acc p h k = grind arith

pow_pos : (n : ℕ) → 0 < 256 ^ n
pow_pos zero = omega arith
pow_pos (suc n) = rw pow-suc (omega (arith, pow_pos n))

pow_mono : (m n : ℕ) → m ≤ n → 256 ^ m ≤ 256 ^ n
pow_mono zero n h = pow_pos n
pow_mono (suc m) zero h = absurd (omega arith)
pow_mono (suc m) (suc n) h = omega (arith, pow-suc 256 m, pow-suc 256 n, pow_mono m n (omega arith))

-- A context of `n` bytes at the front of `bytes`.
abbrev pub context_at : ℕ → List ℕ → ℕ → Context
context_at n bytes type = record { length = n; p = bytes; app_type = type }

get_byte-eq :
    (n b : ℕ) (rest : List ℕ) (type : ℕ)
    → 0 < n
    → get_byte (context_at n (b ∷ rest) type) ≡ some (some b, context_at (n - 1) rest type)
unfolding get_byte
get_byte-eq n b rest type h = ground arith

shift_in-eq : (acc b : ℕ) → acc * 256 + b < 2 ^ 64 → shift_in acc b ≡ acc * 256 + b
shift_in-eq acc b h = omega arith

length_octets-eq :
    (bs rest : List ℕ) (acc n type : ℕ)
    → AreBytes bs
    → length bs ≤ n
    → (acc + 1) * 256 ^ length bs ≤ 2 ^ 64
    → length_octets (length bs) acc (context_at n (bs ++ rest) type)
      ≡ some (some (be_value acc bs), context_at (n - length bs) rest type)
unfolding length_octets
length_octets-eq [] rest acc n type h l k = rw (let e : n - 0 ≡ n = omega arith in e)
length_octets-eq (b ∷ bs) rest acc n type h l k =
    let k' : (acc + 1) * (256 ^ length bs * 256) ≤ 2 ^ 64 = rw pow-suc at k in
    let k'' = step_bound acc b (256 ^ length bs) h.0 k' in
    let fits = below (acc * 256 + b) (256 ^ length bs) (pow_pos (length bs)) k'' in
    let left : n - suc (length bs) ≡ n - 1 - length bs = omega arith in
    rw (get_byte-eq n b (bs ++ rest) type (omega arith)) (
      rw (shift_in-eq acc b fits, left)
        (length_octets-eq bs rest (acc * 256 + b) (n - 1) type h.1 (omega arith) k''))

be_value_bound :
    (bs : List ℕ) (acc : ℕ) → AreBytes bs → be_value acc bs < (acc + 1) * 256 ^ length bs
be_value_bound [] acc h = omega arith
be_value_bound (b ∷ bs) acc h = rw pow-suc (grind (arith, be_value_bound bs (acc * 256 + b) h.1))

-- A length below 128 is its single octet.
pub decode_length-short :
    (n b : ℕ) (rest : List ℕ) (type : ℕ)
    → 0 < n
    → b < 128
    → decode_length (context_at n (b ∷ rest) type) ≡ some (some b, context_at (n - 1) rest type)
unfolding decode_length
decode_length-short n b rest type h l =
    rw (get_byte-eq n b rest type h, let e : (b / 128 % 2 == 0) ≡ true = ground arith in e)

-- In the long form the first octet counts the octets that follow, between one and seven in a buffer
-- that holds them all. The length read is their big-endian value, with no overflow of the 64-bit
-- accumulator, it is less than 2 ^ 56, and exactly these octets are taken.
pub decode_length-long :
    (bs rest : List ℕ) (n type : ℕ)
    → AreBytes bs
    → length bs < 8
    → length bs < n
    → (decode_length (context_at n ((128 + length bs) ∷ bs ++ rest) type)
        ≡ some (some (be_value 0 bs), context_at (n - 1 - length bs) rest type))
      × (be_value 0 bs < 2 ^ 56)
unfolding decode_length
decode_length-long bs rest n type h k l =
    let count : (128 + length bs) % 128 ≡ length bs = omega arith in
    let long : ((128 + length bs) / 128 % 2 == 0) ≡ false = ground arith in
    let few : leb 8 (length bs) ≡ false = ground arith in
    let small : 256 ^ length bs ≤ 256 ^ 7 = pow_mono (length bs) 7 (omega arith) in
    (
      rw (get_byte-eq n (128 + length bs) (bs ++ rest) type (omega arith)) (
          rw long (
            rw count
              (rw few (length_octets-eq bs rest 0 (n - 1) type h (omega arith) (omega arith))))),
      omega (arith, be_value_bound bs 0 h),
    )
