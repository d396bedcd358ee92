-- ===== src/Edify/Args.antt =====
-- edify/expr.cpp: the functions that read their arguments as strings, against `ReadArgs`.
use recovery.Base.{
  ℕ, ◌≡◌, refl, sym, ◌∙◌, ◌==◌, false, ◌++◌, List, [], ◌∷◌, Text, length, arith, append-nil,
  append_assoc,
}
use recovery.Edify.Defs.{Value, State, Action, ◌>>=◌, pure, Arg, string_value, evaluate}
use recovery.Edify.Monad.{and_then-congr, and_then_assoc}
use recovery.Edify.Builtins.{
  concat_loop, concat_fn, read_args, logical_and_fn, logical_or_fn, logical_not_fn, arg_at,
}

abbrev pub join : List Text → Text
join [] = []
join (t ∷ ts) = t ++ join ts

abbrev concatenated : Text → List Text → Action Value
concatenated acc ts = pure (string_value (acc ++ join ts))

-- `ReadArgs` before a continuation, one argument at a time.
read_args-cons :
    {B : Type 0} (k : List Text → Action B) (a : Arg) (argv : List Arg) (s : State)
    → (read_args (a ∷ argv) >>= k) s ≡ (evaluate a >>= λ t. read_args argv >>= λ ts. k (t ∷ ts)) s
unfolding read_args
read_args-cons k a argv s =
    and_then_assoc (λ t. read_args argv >>= λ ts. pure (t ∷ ts)) k (evaluate a s)
    ∙ and_then-congr _ _ (λ t s'. and_then_assoc (λ ts. pure (t ∷ ts)) k (read_args argv s'))
        (evaluate a s)

concat_loop-eq-read_args :
    (acc : Text) (argv : List Arg) (s : State)
    → concat_loop acc argv s ≡ (read_args argv >>= concatenated acc) s
unfolding concat_loop read_args
concat_loop-eq-read_args acc [] s = rw append-nil
concat_loop-eq-read_args acc (a ∷ argv) s =
    and_then-congr _ _
      (λ t s'.
        concat_loop-eq-read_args (acc ++ t) argv s'
        ∙ and_then-congr _ _ (λ ts s''. simp append_assoc) (read_args argv s'))
      (evaluate a s)
    ∙ sym (read_args-cons (concatenated acc) a argv s)

suc_ne_zero : (n : ℕ) → (ℕ.suc n == 0) ≡ false
suc_ne_zero n = ground arith

-- `ConcatFn` evaluates its arguments as `ReadArgs` does, in order and up to the first failure, and
-- then yields their concatenation; so it does with no argument.
pub concat_fn-eq-read_args :
    (name : Text) (argv : List Arg) (s : State)
    → concat_fn name argv s ≡ (read_args argv >>= λ ts. pure (string_value (join ts))) s
unfolding concat_fn
concat_fn-eq-read_args name [] s = unfold read_args in refl
concat_fn-eq-read_args name (a ∷ argv) s =
    rw (suc_ne_zero (length argv)) (concat_loop-eq-read_args [] (a ∷ argv) s)

-- `!(a && b)` and `!a || !b` are one computation: the same value, state and failures, with `b`
-- evaluated in the same cases.
pub logical_not-logical_and :
    (a b : Arg) (m n k : Text) (i j : ℕ) (s : State)
    → logical_not_fn n (record { run = logical_and_fn m (a ∷ b ∷ []); start = i; stop = j } ∷ []) s
      ≡ logical_or_fn k
          (record { run = logical_not_fn n (a ∷ []); start = i; stop = j }
            ∷ record { run = logical_not_fn n (b ∷ []); start = i; stop = j }
            ∷ [])
          s
unfolding logical_not_fn logical_and_fn logical_or_fn evaluate arg_at string_value
logical_not-logical_and a b m n k i j s = ground arith
