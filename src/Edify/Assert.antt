-- ===== src/Edify/Assert.antt =====
-- edify/expr.cpp: what `AssertFn` accepts, and what it reports otherwise.
use mathlib.Core.Path.{subst}
use recovery.Base.{
  ℕ, ◌≡◌, refl, ap, ◌≤◌, ◌-◌, ◌++◌, List, [], ◌∷◌, Text, codes, is_empty, length, take, drop, arith,
  if◌then◌else◌, ◌↔◌,
}
use recovery.Edify.Defs.{
  Value, State, Outcome, null, value, fault, and_then, Arg, string_value, evaluate,
}
use recovery.Edify.Builtins.{assert_fn, assert_failed}

-- `argv`, evaluated in order from `s`, gives nonempty strings and ends in `t`.
pub data Holds : List Arg → State → State → Type 0 where
  none_left : {s : State} → Holds [] s s
  holds :
      {a : Arg} {argv : List Arg} {s t u : State} (c : ℕ) (w : Text)
      → evaluate a s ≡ (value (c ∷ w), t)
      → Holds argv t u
      → Holds (a ∷ argv) s u

assert_fn_of_Holds :
    (name : Text) {argv : List Arg} {s t : State}
    → Holds argv s t
    → assert_fn name argv s ≡ (value (string_value []), t)
unfolding assert_fn
assert_fn_of_Holds name none_left = refl
assert_fn_of_Holds name (holds c w e h) = rw e (assert_fn_of_Holds name h)

Holds-of_assert_fn :
    (name : Text) (argv : List Arg) (s t : State) (v : Value)
    → assert_fn name argv s ≡ (value v, t)
    → Holds argv s t × (v ≡ string_value [])
unfolding assert_fn
Holds-of_assert_fn name [] s t v e = (subst (Holds [] s) (ap (λ r. r.1) e) none_left, ground arith)
Holds-of_assert_fn name (a ∷ argv) s t v e =
    go (evaluate a s) refl e (λ u. Holds-of_assert_fn name argv u t v)
  where
    go :
        (r : Outcome Text × State)
        → evaluate a s ≡ r
        → and_then (λ result. if is_empty result then assert_failed a else assert_fn name argv) r
          ≡ (value v, t)
        → ((u : State)
            → assert_fn name argv u ≡ (value v, t)
            → Holds argv u t × (v ≡ string_value []))
        → Holds (a ∷ argv) s t × (v ≡ string_value [])
    go (null, u) d e' ih = ground arith
    go (fault, u) d e' ih = ground arith
    go (value [], u) d e' ih = ground arith
    go (value (c ∷ w), u) d e' ih = (holds c w d (ih u e').0, (ih u e').1)

-- `AssertFn` returns a value exactly if every argument evaluates to a nonempty string; the value is
-- the empty string.
pub assert_fn_iff :
    (name : Text) (argv : List Arg) (s t : State) (v : Value)
    → (assert_fn name argv s ≡ (value v, t)) ↔ (Holds argv s t × (v ≡ string_value []))
assert_fn_iff name argv s t v =
    (Holds-of_assert_fn name argv s t v, λ h. rw h.1 (assert_fn_of_Holds name h.0))

-- An assertion fails at its first empty argument: the message quotes that argument's text in the
-- script, the arguments behind it are not evaluated, and no value is returned.
pub assert_fn-append :
    (name : Text) (argv rest : List Arg) (a : Arg) (s t u : State)
    → Holds argv s t
    → evaluate a t ≡ (value [], u)
    → a.start ≤ a.stop
    → a.stop ≤ length u.script
    → assert_fn name (argv ++ a ∷ rest) s ≡ (
      null,
      record u {
        errmsg = codes "assert failed: " ++ take (a.stop - a.start) (drop a.start u.script);
      },
    )
unfolding assert_fn
assert_fn-append name argv rest a s t u none_left e h k = rw e (ground arith)
assert_fn-append name (_ ∷ argv) rest a s t u (holds c w d hs) e h k =
    rw d (assert_fn-append name argv rest a _ t u hs e h k)
