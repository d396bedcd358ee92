-- ===== src/Blockimg/Splice.antt =====
-- updater/blockimg.cpp: bytes that are put in place of others.
use recovery.Base.{
  ℕ, ◌+◌, ◌≤◌, ◌≡◌, refl, sym, ap, ◌∙◌, ◌++◌, [], length, take, drop, Text, arith, length-append,
  length-take, length-drop, take-append_of_eq, drop-append_of_eq, drop-drop, take-append-drop,
  append_assoc,
}
use recovery.Blockimg.Transfer.{splice}

pub length-splice :
    (b : Text) (p : ℕ) (x : Text) → p + length x ≤ length b → length (splice b p x) ≡ length b
unfolding splice
length-splice b p x h = omega (
  arith,
  length-append (take p b) (x ++ drop (p + length x) b),
  length-append x (drop (p + length x) b),
  length-take p b,
  length-drop (p + length x) b,
)

pub splice-nil : (b : Text) (p : ℕ) → splice b p [] ≡ b
unfolding splice
splice-nil b p =
    ap (λ (n : ℕ). take p b ++ drop n b) (let e : p + 0 ≡ p = omega arith in e)
    ∙ take-append-drop p b

-- What stands at the place afterwards.
pub take-drop-splice :
    (b : Text) (p : ℕ) (x : Text)
    → p + length x ≤ length b
    → take (length x) (drop p (splice b p x)) ≡ x
unfolding splice
take-drop-splice b p x h =
    ap (λ (t : Text). take (length x) t)
      (drop-append_of_eq p (take p b) (x ++ drop (p + length x) b) (omega (arith, length-take p b)))
    ∙ take-append_of_eq (length x) x (drop (p + length x) b) refl

front : (b : Text) (p : ℕ) (x : Text) → splice b p x ≡ (take p b ++ x) ++ drop (p + length x) b
unfolding splice
front b p x = sym (append_assoc (take p b) x (drop (p + length x) b))

length-front :
    (b : Text) (p : ℕ) (x : Text) → p + length x ≤ length b → length (take p b ++ x) ≡ p + length x
length-front b p x h = omega (arith, length-append (take p b) x, length-take p b)

-- Two pieces side by side.
pub splice-splice :
    (b : Text) (p : ℕ) (x y : Text)
    → p + length x ≤ length b
    → splice (splice b p x) (p + length x) y ≡ splice b p (x ++ y)
splice-splice b p x y h =
    unfold splice in
    ap (λ (t : Text). take (p + length x) t ++ (y ++ drop (p + length x + length y) t))
      (front b p x)
    ∙ ap
        (λ (t : Text).
          t ++ (y ++ drop (p + length x + length y) ((take p b ++ x) ++ drop (p + length x) b)))
        (take-append_of_eq (p + length x) (take p b ++ x) (drop (p + length x) b)
          (length-front b p x h))
    ∙ ap (λ (t : Text). (take p b ++ x) ++ (y ++ t)) behind
    ∙ regroup
  where
    behind :
        drop (p + length x + length y) ((take p b ++ x) ++ drop (p + length x) b)
        ≡ drop (p + length (x ++ y)) b
    behind =
        sym (drop-drop (p + length x) (length y) ((take p b ++ x) ++ drop (p + length x) b))
        ∙ ap (λ (t : Text). drop (length y) t)
            (drop-append_of_eq (p + length x) (take p b ++ x) (drop (p + length x) b)
              (length-front b p x h))
        ∙ drop-drop (p + length x) (length y) b
        ∙ ap (λ (n : ℕ). drop n b)
            (let e : p + length x + length y ≡ p + length (x ++ y) =
                omega (arith, length-append x y) in
              e)

    regroup :
        (take p b ++ x) ++ (y ++ drop (p + length (x ++ y)) b)
        ≡ take p b ++ ((x ++ y) ++ drop (p + length (x ++ y)) b)
    regroup = simp append_assoc
