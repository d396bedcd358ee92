-- ===== src/Blockimg/Apart.antt =====
-- updater/blockimg.cpp: bytes that stand apart from what is written.
use recovery.Base.{
  ℕ, suc, zero, ◌+◌, ◌-◌, ◌≤◌, ◌≡◌, refl, sym, ap, ◌∙◌, ◌⊎◌, inl, inr, ◌++◌, [], ◌∷◌, length, take,
  drop, Text, arith, length-append, length-take, drop-append_of_eq, drop-drop, take-append-drop,
  append_assoc,
}
use recovery.Blockimg.Transfer.{splice}

take-drop-append :
    (n a : ℕ) (x y : Text) → a + n ≤ length x → take n (drop a (x ++ y)) ≡ take n (drop a x)
take-drop-append zero a x y h = refl
take-drop-append (suc n) a [] y h = absurd (omega arith)
take-drop-append (suc n) zero (b ∷ x) y h =
    ap (λ (t : Text). b ∷ t) (take-drop-append n zero x y (omega arith))
take-drop-append (suc n) (suc a) (b ∷ x) y h = take-drop-append (suc n) a x y (omega arith)

-- `n` bytes from `a` on, and `k` from `p` on, have none in common.
abbrev pub Separate : ℕ → ℕ → ℕ → ℕ → Type 0
Separate a n p k = (a + n ≤ p) ⊎ (p + k ≤ a)

-- What is written leaves what stands apart.
pub splice-Separate :
    (b : Text) (p : ℕ) (x : Text) (a n k : ℕ)
    → p + length x ≤ length b
    → length x ≤ k
    → Separate a n p k
    → take n (drop a (splice b p x)) ≡ take n (drop a b)
unfolding splice
splice-Separate b p x a n k h l (inl s) =
    take-drop-append n a (take p b) (x ++ drop (p + length x) b) (omega (arith, length-take p b))
    ∙ sym (take-drop-append n a (take p b) (drop p b) (omega (arith, length-take p b)))
    ∙ ap (λ (t : Text). take n (drop a t)) (take-append-drop p b)
splice-Separate b p x a n k h l (inr s) =
    ap (λ (m : ℕ). take n (drop m (splice b p x))) far
    ∙ ap (λ (t : Text). take n t)
        (sym (drop-drop (p + length x) (a - (p + length x)) (splice b p x))
          ∙ ap (λ (t : Text). drop (a - (p + length x)) t) behind
          ∙ drop-drop (p + length x) (a - (p + length x)) b)
    ∙ ap (λ (m : ℕ). take n (drop m b)) (sym far)
  where
    far : a ≡ p + length x + (a - (p + length x))
    far = omega arith

    behind : drop (p + length x) (splice b p x) ≡ drop (p + length x) b
    behind =
        ap (λ (t : Text). drop (p + length x) t)
          (sym (append_assoc (take p b) x (drop (p + length x) b)))
        ∙ drop-append_of_eq (p + length x) (take p b ++ x) (drop (p + length x) b)
            (omega (arith, length-append (take p b) x, length-take p b))
