-- ===== src/RotateLogs/Names.antt =====
-- rotate_logs.cpp: the names of the kept logs differ.
use recovery.Base.{
  ℕ, suc, zero, ◌+◌, ◌-◌, ◌*◌, ◌/◌, ◌%◌, ◌≤◌, ◌≡◌, refl, sym, ap, ◌∙◌, ltb, ◌++◌, [], ◌∷◌, Text,
  codes, length, arith, Bool-cases, inl, inr, ltb-false, length-append, drop, drop-append,
}
use recovery.RotateLogs.Defs.{digits, to_string, old_name}

-- The number that digits stand for.
abbrev value : ℕ → Text → ℕ
value acc [] = acc
value acc (c ∷ t) = value (acc * 10 + (c - 48)) t

value-append : (acc : ℕ) (s t : Text) → value acc (s ++ t) ≡ value (value acc s) t
value-append acc [] t = refl
value-append acc (c ∷ s) t = value-append (acc * 10 + (c - 48)) s t

value-digits : (fuel n : ℕ) → n ≤ fuel → value 0 (digits fuel n) ≡ n
unfolding digits
value-digits zero n h = omega arith
value-digits (suc fuel) n h = elim (Bool-cases (ltb n 10)) [
  | inl small ↦ rw small (omega arith)
  | inr large ↦
      let long : 10 ≤ n = ltb-false n 10 large in
      rw large (
        value-append 0 (digits fuel (n / 10)) ((48 + n % 10) ∷ [])
        ∙ (let e = value-digits fuel (n / 10) (omega arith) in
            let r : value 0 (digits fuel (n / 10)) * 10 + (48 + n % 10 - 48) ≡ n =
              omega (arith, e) in
            r))
]

to_string-injective : (m n : ℕ) → to_string m ≡ to_string n → m ≡ n
unfolding to_string
to_string-injective m n e =
    sym (value-digits m m (omega arith)) ∙ ap (value 0) e ∙ value-digits n n (omega arith)

append_cancel : (s t u : Text) → s ++ t ≡ s ++ u → t ≡ u
append_cancel s t u e = sym (drop-append s t) ∙ ap (drop (length s)) e ∙ drop-append s u

-- Two kept logs of one name have the same age.
pub old_name-injective : (file : Text) (i j : ℕ) → old_name file i ≡ old_name file j → i ≡ j
unfolding old_name
old_name-injective file zero zero e = refl
old_name-injective file zero (suc j) e =
    let same : length file ≡ length (file ++ (codes "." ++ to_string (suc j))) = ap length e in
    absurd (omega (arith, same, length-append file (codes "." ++ to_string (suc j))))
old_name-injective file (suc i) zero e =
    let same : length (file ++ (codes "." ++ to_string (suc i))) ≡ length file = ap length e in
    absurd (omega (arith, same, length-append file (codes "." ++ to_string (suc i))))
old_name-injective file (suc i) (suc j) e =
    to_string-injective (suc i) (suc j) (ap (drop 1) (append_cancel file _ _ e))
